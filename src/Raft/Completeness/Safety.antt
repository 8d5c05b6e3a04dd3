-- ===== src/Raft/Completeness/Safety.antt =====
-- What a cluster without crashes commits.
use mathlib.Core.Path.{subst}
use gammaflow.Base.{
  suc, ◌≤◌, ◌<◌, ◌≡◌, inl, inr, sym, ap, ◌∙◌, false, none, some, List, [], arith, tests, ltb,
  Bool-cases, length, take, u64_mod,
}
use gammaflow.Raft.Types.{NodeId, Term, LogIndex, LogEntry, leader}
use gammaflow.Raft.Append.Match.{as_log}
use gammaflow.Raft.Log.View.{IsLog}
use gammaflow.Raft.Cluster.{Cluster, Reach, here, next}
use gammaflow.Raft.Cluster.Leaders.{Starts}
use gammaflow.Raft.Cluster.Reigns.{Reign, Rightful}
use gammaflow.Raft.Cluster.LogMatching.{Empty, Starts-Rightful}
use gammaflow.Raft.Cluster.Crowns.{two_reigns}
use gammaflow.Raft.Completeness.Logs.{take-shorter, Genuine-Has}
use gammaflow.Raft.Completeness.{World, Settled, Complete, world}
use gammaflow.Raft.Completeness.Quorums.{Committed-Alive, Settled-inside}
use gammaflow.Raft.Completeness.Onto.{Onto}
use gammaflow.Raft.Completeness.Steps.{Step-Onto}

-- No node has committed anything or been answered, and the next indices are indices.
pub record Fresh (s : Cluster) : Type 0 where
  pub acks : s.acks ≡ []
  pub commit : (i : NodeId) → (s.nodes i).commit_index ≡ 0
  pub next : (i p : NodeId) → (s.nodes i).next_index p < u64_mod

abbrev first_world : World
first_world = world (λ _. none) (λ _ _. false) []

Starts-Complete :
    {members : List NodeId} {s : Cluster}
    → Starts false members s
    → Empty s
    → Fresh s
    → Complete members s first_world
Starts-Complete starts empty fresh = record {
  acked = sym fresh.acks;
  reigns = λ u r h. absurd (ground (arith, h));
  nodes = λ i. record {
    accepted = λ t k a. absurd a.given;
    led = λ u t k l. absurd (ground (arith, l.of_term));
    commit = inl (fresh.commit i);
    matches = λ l. absurd (ground (arith, l, starts.follows i));
    next = fresh.next i;
  };
  messages = λ m h. absurd (rw empty.appends at h);
  rounds = λ i r h. absurd (rw empty.rounds at h);
  campaigns = λ i l. absurd (ground (arith, l, starts.follows i));
  asks = λ a h. absurd (rw starts.asks at h);
  votes = λ v h. absurd (rw starts.votes at h);
  acks = λ a h. absurd (rw fresh.acks at h);
}

Reach-Onto :
    {members : List NodeId} {s t : Cluster} {w : World}
    → Reach false members s t
    → Rightful members s w.reigns
    → Complete members s w
    → Onto members s w t
Reach-Onto {w = w} here inv c = record {
  later = w;
  rightful = inv;
  complete = c;
  carried = λ es now x h. h;
  commits = λ i. omega arith;
}
Reach-Onto (next run h) inv c =
    let o = Reach-Onto run inv c in
    let o' = Step-Onto o.rightful o.complete h in
    record {
      later = o'.later;
      rightful = o'.rightful;
      complete = o'.complete;
      carried = λ es now x q. o'.carried es now x (o.carried es now x q);
      commits = λ i. omega (arith, o.commits i, o'.commits i);
    }

module _ {members : List NodeId} {s : Cluster} {w : World} (inv : Rightful members s w.reigns)
    (c : Complete members s w) where
  -- A reign of a term that is not older begins with what was settled.
  in_later_reign :
      (es : List LogEntry) (now : Term) (x k : LogIndex) (h : Settled members w es now x) (u : Term)
      (r : Reign)
      → w.reigns u ≡ some r
      → h.term ≤ u
      → k ≤ x
      → take (suc k) es ≡ take (suc k) r.log
  in_later_reign es now x k h u r of_term le within =
      let own = take-shorter (suc k) (suc x) es h.reign.log (omega (arith, within)) h.same in
      elim (Bool-cases (ltb h.term u)) [
        | inr same ↦
            let one : h.term ≡ u = omega (tests, le) in
            own ∙ ap (λ q. take (suc k) q.log) (two_reigns h.of_term (ap w.reigns one ∙ of_term))
        | inl older ↦
            let g = c.reigns u r of_term in
            let has =
              g.has h.term h.place (omega tests)
                (Committed-Alive inv c h.term h.place h.committed) in
            let o = Genuine-Has (as_log r.log) h.term h.place g.genuine has in
            own
            ∙ ap (λ q. take (suc k) q.log) (two_reigns h.of_term o.of_term)
            ∙ sym (
                take-shorter (suc k) (suc h.place) r.log o.reign.log
                  (omega (arith, within, h.covers)) o.same)
      ]

  both-Settled :
      (es fs : List LogEntry) (now now' : Term) (x y k : LogIndex)
      → Settled members w es now x
      → Settled members w fs now' y
      → k ≤ x
      → k ≤ y
      → take (suc k) es ≡ take (suc k) fs
  both-Settled es fs now now' x y k h g in_x in_y =
      let mine = take-shorter (suc k) (suc x) es h.reign.log (omega (arith, in_x)) h.same in
      let theirs = take-shorter (suc k) (suc y) fs g.reign.log (omega (arith, in_y)) g.same in
      elim (Bool-cases (ltb h.term g.term)) [
        | inl older ↦
            in_later_reign es now x k h g.term g.reign g.of_term (omega tests) in_x ∙ sym theirs
        | inr newer ↦
            mine ∙ sym (in_later_reign fs now' y k g h.term h.reign h.of_term (omega tests) in_y)
      ]

module _ (members : List NodeId) {s t u : Cluster} (starts : Starts false members s)
    (empty : Empty s) (fresh : Fresh s) (run : Reach false members s t)
    (more : Reach false members t u) where
  before : Onto members s first_world t
  before = Reach-Onto run (Starts-Rightful starts empty) (Starts-Complete starts empty fresh)

  after : Onto members t before.later u
  after = Reach-Onto more before.rightful before.complete

  -- All logs start with the sentinel.
  same_start :
      (i j : NodeId) (k : LogIndex)
      → k ≡ 0
      → take (suc k) (t.nodes i).log.entries ≡ take (suc k) (u.nodes j).log.entries
  same_start i j k zeroth =
      subst (λ x. take (suc x) (t.nodes i).log.entries ≡ take (suc x) (u.nodes j).log.entries)
        (sym zeroth) ((before.rightful.logs i).first ∙ sym (after.rightful.logs j).first)

  -- What a node has committed, in terms of the end.
  Settled-then :
      (i : NodeId) (k : LogIndex)
      → 0 < k
      → k ≤ (t.nodes i).commit_index
      → Settled members after.later
          (t.nodes i).log.entries
          (t.nodes i).current_term
          (t.nodes i).commit_index
  Settled-then i k later within = elim (before.complete.nodes i).commit [
    | inl start ↦ absurd (omega (arith, start, later, within))
    | inr h ↦
        after.carried (t.nodes i).log.entries (t.nodes i).current_term (t.nodes i).commit_index h
  ]

  -- State machine safety: a node now and a node later, the same or another, have the same entries
  -- up to every index that both have committed by then. (The members know each other and have
  -- names; the cluster started with empty logs, with nothing sent or committed and next indices of
  -- 64 bits; no node crashed, nor stood for election when its term counter would wrap.)
  pub state_machine_safety :
      (i j : NodeId) (k : LogIndex)
      → k ≤ (t.nodes i).commit_index
      → k ≤ (u.nodes j).commit_index
      → take (suc k) (t.nodes i).log.entries ≡ take (suc k) (u.nodes j).log.entries
  state_machine_safety i j k mine theirs = elim (Bool-cases (ltb 0 k)) [
    | inr start ↦ same_start i j k (omega tests)
    | inl later ↦ elim (after.complete.nodes j).commit [
      | inl start ↦ absurd (omega (tests, start, theirs))
      | inr g ↦
          both-Settled after.rightful after.complete (t.nodes i).log.entries (u.nodes j).log.entries
            (t.nodes i).current_term (u.nodes j).current_term (t.nodes i).commit_index
            (u.nodes j).commit_index k (Settled-then i k (omega tests) mine) g mine theirs
    ]
  ]

  -- Leader completeness: what a node has committed is, from then on, in the log of every leader
  -- whose term is at least the node's when it had committed it. (The members know each other and
  -- have names; the cluster started with empty logs, with nothing sent or committed and next
  -- indices of 64 bits; no node crashed, nor stood for election when its term counter would wrap.)
  pub leader_completeness :
      (i j : NodeId) (k : LogIndex)
      → k ≤ (t.nodes i).commit_index
      → (u.nodes j).state ≡ leader
      → (t.nodes i).current_term ≤ (u.nodes j).current_term
      → take (suc k) (t.nodes i).log.entries ≡ take (suc k) (u.nodes j).log.entries
  leader_completeness i j k mine leads newer = elim (Bool-cases (ltb 0 k)) [
    | inr start ↦ same_start i j k (omega tests)
    | inl later ↦
        let h = Settled-then i k (omega tests) mine in
        in_later_reign after.rightful after.complete (t.nodes i).log.entries
          (t.nodes i).current_term (t.nodes i).commit_index k h (u.nodes j).current_term _
          (after.rightful.leads j leads) (omega (arith, h.not_newer, newer)) mine
  ]

  -- What is committed stays: the commit index of a node does not fall, and up to it no entry of
  -- its log ever changes. (The members know each other and have names; the cluster started with
  -- empty logs, with nothing sent or committed and next indices of 64 bits; no node crashed, nor
  -- stood for election when its term counter would wrap.)
  pub committed_stays :
      (i : NodeId)
      → ((t.nodes i).commit_index ≤ (u.nodes i).commit_index)
        × (take (suc (t.nodes i).commit_index) (u.nodes i).log.entries
            ≡ take (suc (t.nodes i).commit_index) (t.nodes i).log.entries)
  committed_stays i =
      let up = after.commits i in
      (
        up,
        sym (state_machine_safety i i (t.nodes i).commit_index (omega arith) (omega (arith, up))),
      )

  pub log_fits : (i : NodeId) → IsLog (t.nodes i).log
  log_fits i = (before.rightful.logs i).fits

  pub committed_inside : (i : NodeId) → (t.nodes i).commit_index < length (t.nodes i).log.entries
  committed_inside i = elim (before.complete.nodes i).commit [
    | inl start ↦ omega (arith, start, (log_fits i).has_sentinel)
    | inr h ↦
        Settled-inside (t.nodes i).log.entries (t.nodes i).current_term (t.nodes i).commit_index h
  ]
