-- ===== src/Raft/Completeness/Moved.antt =====
-- A step of one node: what it leaves of the invariant.
use mathlib.Core.Path.{subst}
use gammaflow.Base.{
  ◌≤◌, ◌<◌, ◌≡◌, ◌⊎◌, inl, inr, sym, ap, ◌∙◌, none, some, List, In, arith, length, Option-cases,
  update, ◌++◌, ◌-◌, In-right, In-append,
}
use gammaflow.Raft.Types.{NodeId, Term, candidate}
use gammaflow.Raft.Log.View.{term_of}
use gammaflow.Raft.Node.{Node}
use gammaflow.Raft.Log.{RaftLog}
use gammaflow.Raft.Append.Match.{as_log}
use gammaflow.Raft.Cluster.{Ask, Ack, Ballot, Vote, Cluster, set}
use gammaflow.Raft.Cluster.Votes.{update-cases, update-split, vote_for}
use gammaflow.Raft.Cluster.Reigns.{Reign, Rightful, Genuine, Genuine-Extends, Extends}
use gammaflow.Raft.Completeness.Logs.{Genuine-Has}
use gammaflow.Raft.Completeness.{World, IsReign, IsNode, IsAsk, Backs, IsVote, IsAck, Complete}
use gammaflow.Raft.Completeness.Moves.{Move, Acked-voter, Alive-old}
use gammaflow.Raft.Completeness.Kept.{IsNode-on, IsRound-on, IsMessage-on}

module _ {members : List NodeId} {s : Cluster} {w w' : World} {i : NodeId} {n : Node}
    (inv : Rightful members s w.reigns) (c : Complete members s w)
    (mv : Move w i (s.nodes i) n w') where
  -- A candidate that campaigns on is as it was.
  pub campaigning :
      (j : NodeId) (t : Term) (P : Node → Type 0)
      → t ≤ (s.nodes j).current_term
      → ((s.nodes j).state ≡ candidate → (s.nodes j).current_term ≡ t → P (s.nodes j))
      → (j ≡ i → (s.nodes j).log ≡ n.log → P (s.nodes j) → P n)
      → (update s.nodes i n j).state ≡ candidate
      → (update s.nodes i n j).current_term ≡ t
      → P (update s.nodes i n j)
  campaigning j t P le old same =
      update-cases (λ m. m.state ≡ candidate → m.current_term ≡ t → P m) s.nodes i j n old
        (λ e stands now.
          let at = ap (λ k. (s.nodes k).current_term) e in
          elim (mv.stood stands) [
            | inl later ↦ absurd (omega (arith, later, now, le, at))
            | inr (stood, term, log) ↦
                same e (ap (λ k. (s.nodes k).log) e ∙ sym log)
                  (old (ap (λ k. (s.nodes k).state) e ∙ stood) (at ∙ sym term ∙ now))
          ])

  IsAsk-on : (a : Ask) → IsAsk s.nodes a → IsAsk (update s.nodes i n) a
  IsAsk-on a h = record {
    behind =
        update-cases (λ k. a.args.term ≤ k.current_term) s.nodes i a.candidate n h.behind
          (λ e.
            let at = ap (λ j. (s.nodes j).current_term) e in omega (arith, h.behind, at, mv.grows));
    last =
        campaigning a.candidate a.args.term
          (λ k.
            (a.args.last_log_index ≡ length k.log.entries - 1)
            × (a.args.last_log_term ≡ term_of k.log.entries (length k.log.entries - 1)))
          h.behind h.last
          (λ _ log p.
            subst
              (λ l.
                (a.args.last_log_index ≡ length l.entries - 1)
                × (a.args.last_log_term ≡ term_of l.entries (length l.entries - 1)))
              log p);
  }

  no_reign_before : (u : Term) → w'.reigns u ≡ none → w.reigns u ≡ none
  no_reign_before u free = elim (Option-cases (w.reigns u)) [
    | inl before ↦ before
    | inr (r, taken) ↦ absurd (ground (arith, free, (mv.swells u r taken).of_term))
  ]

  Backs-on :
      (v : Vote) (l : RaftLog)
      → In v s.votes
      → Genuine w.reigns l
      → Backs w v l.entries
      → Backs w' v l.entries
  Backs-on v l cast g b = record {
    has = λ t k older acked alive.
        b.has t k older (Acked-voter inv c mv v t k cast older acked)
          (Alive-old inv c mv t k alive);
    below = λ u r k pos of_term voted at.
        let o = Genuine-Has l u k g (pos, at) in
        b.below u o.reign k pos o.of_term
          (ap (λ m. m v.voter) (sym (mv.masks u o.reign o.of_term)) ∙ voted) at;
  }

  IsVote-on : (v : Vote) → In v s.votes → IsVote w' (update s.nodes i n) v
  IsVote-on v cast =
      let h = c.votes v cast in
      record {
        behind =
            update-cases (λ k. v.term ≤ k.current_term) s.nodes i v.candidate n h.behind
              (λ e.
                let at = ap (λ j. (s.nodes j).current_term) e in
                omega (arith, h.behind, at, mv.grows));
        backs = λ stands now free.
            campaigning v.candidate v.term (λ k. Backs w' v k.log.entries) h.behind
              (λ stood was.
                Backs-on v (s.nodes v.candidate).log cast (inv.logs v.candidate)
                  (h.backs stood was (no_reign_before v.term free)))
              (λ _ log. subst (λ l. Backs w' v l.entries) log) stands now;
      }

  extends : Extends w.reigns w'.reigns
  extends u r h =
      let x = mv.swells u r h in
      record { reign = x.reign; of_term = x.of_term; leader = x.leader; grown = x.grown }

  pub IsReign-on :
      (news : List Vote) (u : Term) (r : Reign)
      → w.reigns u ≡ some r
      → w'.reigns u ≡ some r
      → IsReign members w' (news ++ s.votes) u r
  IsReign-on news u r before now =
      let h = c.reigns u r before in
      let same = mv.masks u r before in
      record {
        positive = h.positive;
        sorted = h.sorted;
        up_to = h.up_to;
        numbered = h.numbered;
        masked = λ q voted.
            In-right (vote_for q r.leader u) news s.votes
              (h.masked q (ap (λ m. m q) (sym same) ∙ voted));
        most = rw same h.most;
        has = λ t k older alive. h.has t k older (Alive-old inv c mv t k alive);
        genuine = Genuine-Extends extends (as_log r.log) h.genuine;
      }

  -- The invariant after the step, where it is known of the node and of what the step adds.
  pub Complete-move :
      (asks : List Ask) (ballots : List Ballot) (acks : List Ack) (news : List Vote)
      → w'.acks ≡ acks
      → IsNode members w' i n
      → ((u : Term) (r : Reign)
          → w'.reigns u ≡ some r
          → r.leader ≡ i
          → n.current_term ≡ u
          → r.log ≡ n.log.entries
          → IsReign members w' (news ++ s.votes) u r)
      → ((a : Ask) → In a asks → In a s.asks ⊎ IsAsk (update s.nodes i n) a)
      → ((v : Vote) → In v news → IsVote w' (update s.nodes i n) v)
      → ((a : Ack) → In a acks → IsAck s a)
      → Complete members
          (record (set i n s) {
            asks = asks;
            ballots = ballots;
            acks = acks;
            votes = news ++ s.votes;
          })
          w'
  Complete-move asks ballots acks news same node reign ask vote ack = record {
    acked = same;
    reigns = λ u r h. elim (mv.crowned u r h) [
      | inl old ↦ IsReign-on news u r old h
      | inr (self, now, log) ↦ reign u r h self now log
    ];
    nodes = λ j.
        update-split (IsNode members w' j) s.nodes i j n (IsNode-on inv c mv j) (λ e. rw e node);
    messages = λ m h. IsMessage-on inv c mv m (c.messages m h);
    rounds = λ j r h. IsRound-on inv c mv r (c.rounds j r h);
    campaigns = λ j.
        update-cases (λ m. m.state ≡ candidate → 0 < m.current_term) s.nodes i j n (c.campaigns j)
          (λ _ stands. elim (mv.stood stands) [
            | inl later ↦ omega (arith, later)
            | inr (stood, term, _) ↦ omega (arith, term, c.campaigns i stood)
          ]);
    asks = λ a h. elim (ask a h) [ inl old ↦ IsAsk-on a (c.asks a old) | inr new ↦ new ];
    votes = λ v h. elim (In-append v news s.votes h) [
      | inl new ↦ vote v new
      | inr old ↦ IsVote-on v old
    ];
    acks = λ a h. let k = ack a h in record { sent = k.sent; hint = k.hint };
  }
