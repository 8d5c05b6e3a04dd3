-- ===== src/Raft/Completeness/Telling.antt =====
-- The messages of a leader: what they carry of its log, and what its commit index stands for.
use mathlib.Core.Path.{subst}
use gammaflow.Base.{
  ℕ, suc, ◌≤◌, ◌<◌, ◌≡◌, ◌⊎◌, inl, inr, ap, ◌∙◌, some, List, In, arith, tests, ltb, Bool-cases,
  bind-eq-some, length, drop, drop_all, int_max, sub64, u64_mod,
}
use gammaflow.Raft.Types.{NodeId, Term, LogIndex, LogEntry, leader, AppendEntriesArgs}
use gammaflow.Raft.Log.{RaftLog, entries_from, term_at}
use gammaflow.Raft.Log.View.{IsLog, entries_from-eq}
use gammaflow.Raft.Node.{Node, is_leader_state}
use gammaflow.Raft.Append.Match.{Built}
use gammaflow.Raft.Replication.{Round, heartbeat_args, heartbeat_round, replicate_tick, send}
use gammaflow.Raft.Replication.Built.{entries_from-past}
use gammaflow.Raft.Cluster.{Append, Cluster}
use gammaflow.Raft.Cluster.Reigns.{Reign, Rightful, IsPast}
use gammaflow.Raft.Cluster.Crowns.{two_reigns}
use gammaflow.Raft.Completeness.Logs.{Has, Prefix-refl}
use gammaflow.Raft.Completeness.{
  World, Alive, Pledged, IsRound, IsMessage, InReign, IsLate, Complete,
}
use gammaflow.Raft.Completeness.Quorums.{Committed-Alive}

-- All that follows the previous entry, though there may be nothing.
rest_exact :
    (l : RaftLog) (next : LogIndex) {es : List LogEntry}
    → IsLog l
    → next < u64_mod
    → sub64 next 1 < int_max
    → entries_from l next ≡ some es
    → es ≡ drop (suc (sub64 next 1)) l.entries
rest_exact l next w fits small got =
    let place : suc (sub64 next 1) ≡ next = omega (arith, small) in
    rw place (elim (Bool-cases (ltb next (length l.entries))) [
      | inl inside ↦ ground (arith, got, entries_from-eq l next w (omega (tests, w.fits)))
      | inr past ↦ ground (
        arith,
        got,
        entries_from-past l next w (omega tests),
        drop_all next l.entries (omega tests),
      )
    ])

-- What a message is made of.
abbrev IsMade : AppendEntriesArgs → NodeId → Node → LogIndex → Type 0
IsMade args p n commit =
    (args.prev_log_index ≡ sub64 (n.next_index p) 1)
    × (entries_from n.log (n.next_index p) ≡ some args.entries)
    × (args.leader_commit ≡ commit)

pub heartbeat_args-IsMade :
    (r : Round) (p : NodeId) (n : Node) {args : AppendEntriesArgs}
    → heartbeat_args r p n ≡ some args
    → IsMade args p n r.commit_index
unfolding heartbeat_args
heartbeat_args-IsMade r p n h =
    let next = n.next_index p in
    let (t, _, h') = bind-eq-some (term_at n.log (sub64 next 1)) _ h in
    let (es, got, h'') = bind-eq-some (entries_from n.log next) _ h' in ground (arith, h'', got)

pub replicate_tick-IsMade :
    (p : NodeId) (n : Node) {args : AppendEntriesArgs}
    → replicate_tick p n ≡ some (send args)
    → IsMade args p n n.commit_index
unfolding replicate_tick
replicate_tick-IsMade p n h = elim (Bool-cases (is_leader_state n.state)) [
  | inr other ↦ absurd (ground (arith, h, other))
  | inl leads ↦
      let next = n.next_index p in
      let (t, _, h') = bind-eq-some (term_at n.log (sub64 next 1)) _ (rw leads at h) in
      let (es, got, h'') = bind-eq-some (entries_from n.log next) _ h' in ground (arith, h'', got)
]

heartbeat_round-commit :
    (n : Node) {r : Round} → heartbeat_round n ≡ some r → r.commit_index ≡ n.commit_index
unfolding heartbeat_round
heartbeat_round-commit n h = ground (arith, h)

module _ {members : List NodeId} {s : Cluster} {w : World} (inv : Rightful members s w.reigns)
    (c : Complete members s w) (i : NodeId) where
  abbrev n : Node
  n = s.nodes i

  -- A leader has what it committed, in its reign.
  pub own_pledge :
      n.state ≡ leader
      → (n.commit_index ≡ 0) ⊎ Pledged members w n.log.entries n.current_term n.commit_index
  own_pledge leads = elim (c.nodes i).commit [
    | inl start ↦ inl start
    | inr h ↦
        let mine = inv.leads i leads in
        inr (record {
          term = h.term;
          place = h.place;
          not_newer = h.not_newer;
          covers = h.covers;
          committed = h.committed;
          has = elim (Bool-cases (ltb h.term n.current_term)) [
            | inl older ↦
                (c.reigns n.current_term _ mine).has h.term h.place (omega tests)
                  (Committed-Alive inv c h.term h.place h.committed)
            | inr same ↦
                let one : h.term ≡ n.current_term = omega (tests, h.not_newer) in
                subst (λ r. Has r.log h.term h.place)
                  (two_reigns h.of_term (ap w.reigns one ∙ mine)) h.has
          ];
        })
  ]

  pub beat-IsRound :
      {r : Round}
      → heartbeat_round n ≡ some r
      → n.state ≡ leader
      → r.term ≡ n.current_term
      → IsRound members w r
  beat-IsRound {r} h leads term =
      let commit = heartbeat_round-commit n h in
      record {
        reign = record { leader = i; log = n.log.entries };
        of_term = ap w.reigns term ∙ inv.leads i leads;
        commit = rw (commit, term) (own_pledge leads);
      }

  module _ (p : NodeId) {args : AppendEntriesArgs} (built : Built args n.log) (r : Reign)
      (of_term : w.reigns args.term ≡ some r) (mine : r.leader ≡ i) (commit : LogIndex)
      (made : IsMade args p n commit)
      (pledge : (commit ≡ 0) ⊎ Pledged members w r.log args.term commit) where
    abbrev m : Append
    m = record { leader = i; follower = p; args = args; log = n.log }

    -- A leader keeps what it led with, as long as it may be committed.
    still_has :
        (t : Term) (k : ℕ) → t ≤ args.term → Alive w t k → Has r.log t k → Has n.log.entries t k
    still_has t k le alive has =
        (c.nodes i).led args.term t k
          (record { reign = r; of_term = of_term; leader = mine; has = has }) le alive

    message_source : InReign m r ⊎ IsLate w m n r
    message_source =
        elim (subst (λ j. IsPast (s.nodes j) args.term) mine (inv.past args.term r of_term)) [
          | inl over ↦ inr (record { over = over; has = still_has })
          | inr (now, leads) ↦
              let one : record { leader = i; log = n.log.entries } ≡ r =
                two_reigns (inv.leads i leads) (ap w.reigns now ∙ of_term) in
              inl (
                subst (InReign m) one
                  (record { part = Prefix-refl n.log.entries; whole = λ k room _. room }))
        ]

    pub told-IsMessage : IsMessage members w s.nodes m
    told-IsMessage =
        let (prev, got, told) = made in
        record {
          rest = rw prev (
              rest_exact n.log (n.next_index p) (inv.logs i).fits ((c.nodes i).next p)
                (omega (arith, prev, built.previous)) got);
          reign = r;
          of_term = of_term;
          leader = mine;
          source = message_source;
          commit = rw told (elim pledge [
            | inl start ↦ inl start
            | inr h ↦ inr (record {
              term = h.term;
              place = h.place;
              not_newer = h.not_newer;
              covers = h.covers;
              committed = h.committed;
              has =
                  still_has h.term h.place h.not_newer
                    (Committed-Alive inv c h.term h.place h.committed) h.has;
            })
          ]);
        }

-- Where only messages are sent.
pub Complete-told :
    {members : List NodeId} {s : Cluster} {w : World} (rounds : List (NodeId × Round))
    (appends : List Append)
    → Complete members s w
    → ((a : Append) → In a s.appends → In a appends)
    → ((i : NodeId) (r : Round) → In (i, r) rounds → IsRound members w r)
    → ((a : Append) → In a appends → IsMessage members w s.nodes a)
    → Complete members (record s { rounds = rounds; appends = appends }) w
Complete-told rounds appends c kept r m = record {
  acked = c.acked;
  reigns = c.reigns;
  nodes = c.nodes;
  messages = m;
  rounds = r;
  campaigns = c.campaigns;
  asks = c.asks;
  votes = c.votes;
  acks = λ a h. let k = c.acks a h in record { sent = kept a.request k.sent; hint = k.hint };
}
