-- ===== src/Raft/Completeness/Answered.antt =====
-- The steps that answer a node or time it out.
use mathlib.Core.Path.{subst}
use gammaflow.Base.{
  ◌+◌, ◌<◌, ◌≡◌, inl, inr, sym, ap, ◌∙◌, false, some, List, [], ◌∷◌, ◌++◌, In, In-append, arith,
  ◌≤◌, u64_mod,
}
use gammaflow.Raft.Types.{NodeId, leader, RequestVoteArgs}
use gammaflow.Raft.Node.{Node, save_term, save_vote, reset_election_timer}
use gammaflow.Raft.Node.Frame.{Quiet, become_follower-SameData, state-become_follower}
use gammaflow.Raft.Election.{start_election, stand, handle_vote_response}
use gammaflow.Raft.Run.{Event, step, StepFits}
use gammaflow.Raft.Run.Ballot.{step-VoteKept}
use gammaflow.Raft.Run.Quiet.{IsQuiet, step-Quiet}
use gammaflow.Raft.Run.Reign
use gammaflow.Raft.Run.Reign.{
  step-Holds, start_election-turn, handle_vote_response-turn, submit-turn,
}
use gammaflow.Raft.Cluster.{Cluster, Ack, Ballot, set, stands, asks_of}
use gammaflow.Raft.Cluster.Votes.{Votes, vote_for}
use gammaflow.Raft.Cluster.Reigns.{Rightful}
use gammaflow.Raft.Cluster.Onward.{Onward, Onward-same}
use gammaflow.Raft.Cluster.Matching.{Genuine-kept, Onward-stands}
use gammaflow.Raft.Cluster.Sending.{Onward-event}
use gammaflow.Raft.Completeness.{World, IsNode, Complete}
use gammaflow.Raft.Completeness.Calm.{IsCalm, Quiet-IsCalm, calm_same}
use gammaflow.Raft.Completeness.Voted.{stands-IsCalm, stands-IsAsk, stands-IsVote}
use gammaflow.Raft.Completeness.Winning.{handle_vote_response-Answers}
use gammaflow.Raft.Completeness.Counting.{settle-Books, IsAnswered}
use gammaflow.Raft.Completeness.Counted.{counted-IsNode}
use gammaflow.Raft.Completeness.Telling.{}
use gammaflow.Raft.Completeness.Onto.{Onto, calm-Onto, still-Onto, won-Onto}

-- A node that leads after a quiet event led before it.
led_before :
    {old n : Node}
    → Quiet old n
    → n.state ≡ leader
    → (old.state ≡ leader) × (n.current_term ≡ old.current_term)
led_before quiet leads = elim quiet.ballot [
  | inl follows ↦ absurd (ground (arith, follows, leads))
  | inr same ↦ (sym same.state ∙ leads, same.current_term)
]

-- A timeout leaves the bookkeeping.
start_election-book :
    (n : Node) {n' : Node} {args : RequestVoteArgs}
    → start_election n ≡ some (n', args)
    → (n'.commit_index ≡ n.commit_index)
      × (n'.match_index ≡ n.match_index)
      × (n'.next_index ≡ n.next_index)
      × (n'.peers ≡ n.peers)
unfolding start_election stand save_term save_vote reset_election_timer
start_election-book n h = ground (arith, h)

module _ {members : List NodeId} {s : Cluster} {w : World} (inv : Rightful members s w.reigns)
    (c : Complete members s w) where
  module _ (i : NodeId) (e : Event) {n : Node} (quiet : IsQuiet e) (calm : Reign.IsCalm e)
      (fits : StepFits e (s.nodes i)) (h : step e (s.nodes i) ≡ some n) where
    pub event-IsCalm : IsCalm (s.nodes i) n
    event-IsCalm =
        Quiet-IsCalm (step-VoteKept e (s.nodes i) fits h) (step-Quiet e (s.nodes i) quiet h)
          (step-Holds e (s.nodes i) calm h)

    pub kept-IsNode :
        n.commit_index ≡ (s.nodes i).commit_index
        → n.match_index ≡ (s.nodes i).match_index
        → n.next_index ≡ (s.nodes i).next_index
        → IsNode members w i n
    kept-IsNode commit matches next =
        let q = step-Quiet e (s.nodes i) quiet h in
        calm_same inv c i event-IsCalm commit matches next q.peers (led_before q)

    pub event-Onto :
        (s.nodes i).commit_index ≤ n.commit_index
        → Votes false members (set i n s)
        → IsNode members w i n
        → Onto members s w (set i n s)
    event-Onto up votes node =
        still-Onto inv c i n event-IsCalm up (Onward-event inv i e quiet calm fits h) votes node

  -- The reply of a peer.
  pub answered-IsNode :
      (a : Ack) {n : Node}
      → In a s.acks
      → IsCalm (s.nodes a.request.leader) n
      → IsAnswered a.request.args.term a.request.follower a.request.args.entries a.reply
          (s.nodes a.request.leader)
          n
      → IsNode members w a.request.leader n
  answered-IsNode a sent calm (inl same) =
      subst (IsNode members w a.request.leader) (sym same) (c.nodes a.request.leader)
  answered-IsNode a {n} sent calm (inr (inl (_, follows))) =
      let i = a.request.leader in
      let d = become_follower-SameData a.reply.term (s.nodes i) in
      let state = state-become_follower a.reply.term (s.nodes i) in
      calm_same inv c i calm (ap (λ k. k.commit_index) follows ∙ d.commit_index)
        (ap (λ k. k.match_index) follows ∙ d.match_index)
        (ap (λ k. k.next_index) follows ∙ d.next_index) (ap (λ k. k.peers) follows ∙ d.peers)
        (λ l. absurd (ground (arith, l, ap (λ k. k.state) follows, state)))
  answered-IsNode a {n} sent calm (inr (inr (leads, now, settled))) =
      counted-IsNode inv c a sent n leads now settled

  pub answered_commit :
      (a : Ack) {n : Node}
      → In a s.acks
      → IsAnswered a.request.args.term a.request.follower a.request.args.entries a.reply
          (s.nodes a.request.leader)
          n
      → (s.nodes a.request.leader).commit_index ≤ n.commit_index
  answered_commit a sent (inl same) = omega (arith, ap (λ k. k.commit_index) same)
  answered_commit a sent (inr (inl (_, follows))) =
      let old = s.nodes a.request.leader in
      omega (
        arith,
        ap (λ k. k.commit_index) follows,
        (become_follower-SameData a.reply.term old).commit_index,
      )
  answered_commit a sent (inr (inr (_, _, settled))) =
      let old = s.nodes a.request.leader in
      elim (settle-Books a.request.follower a.request.args.entries a.reply old
        (c.nodes a.request.leader).next (c.acks a sent).hint settled).commit [
          | inl kept ↦ omega (arith, kept)
          | inr up ↦ omega (arith, up.above)
        ]

  pub timeout-Onto :
      (i : NodeId) {n : Node} {args : RequestVoteArgs}
      → In i members
      → (s.nodes i).current_term + 1 < u64_mod
      → start_election (s.nodes i) ≡ some (n, args)
      → Votes false members (stands i n s args)
      → Onto members s w (stands i n s args)
  timeout-Onto i {n} {args} member fits h votes =
      let calm = stands-IsCalm inv c i fits h in
      let (stood, _, _) = start_election-turn (s.nodes i) fits h in
      let (commit, matches, next, peers) = start_election-book (s.nodes i) h in
      calm-Onto inv c i n (asks_of i args n.peers ++ s.asks) s.ballots (vote_for i i args.term ∷ [])
        calm (omega (arith, commit)) (Onward-stands inv i member fits h) votes
        (calm_same inv c i calm commit matches next peers (λ l. absurd (ground (arith, l, stood))))
        (λ a new. elim (In-append a (asks_of i args n.peers) s.asks new) [
          | inl fresh ↦ inr (stands-IsAsk inv c i fits h a fresh)
          | inr old ↦ inl old
        ])
        (stands-IsVote inv c i fits h)

  -- A response that does not make a leader.
  vote_Onward :
      (b : Ballot)
      → let old = s.nodes b.candidate in
        let n = handle_vote_response b.term b.voter (some b.reply) old in
        IsCalm old n
        → (n.state ≡ leader → (old.state ≡ leader) × (n.current_term ≡ old.current_term))
        → Onward members s w.reigns b.candidate n w.reigns
  vote_Onward b calm leads =
      let i = b.candidate in
      let (_, how) = handle_vote_response-turn b.term b.voter b.reply (s.nodes i) in
      let genuine = Genuine-kept inv i calm.log in
      let n = handle_vote_response b.term b.voter (some b.reply) (s.nodes i) in
      let led : n.state ≡ leader
          → ((s.nodes i).state ≡ leader)
            × (n.current_term ≡ (s.nodes i).current_term)
            × (n.log ≡ (s.nodes i).log) =
        λ l. let (was, term) = leads l in (was, term, calm.log) in
      elim how [
        | inl (later, follows) ↦
            Onward-same i inv genuine calm.grows (λ rises. absurd (rises follows)) led
              (λ _. inl later)
        | inr (inl (term, state)) ↦
            Onward-same i inv genuine calm.grows (λ rises. inv.active i (λ f. rises (state ∙ f)))
              led (λ l. inr (term, state ∙ l))
        | inr (inr (_, stood, l)) ↦ absurd (ground (arith, stood, (leads l).0))
      ]

  pub counted-Onto :
      (b : Ballot)
      → let n = handle_vote_response b.term b.voter (some b.reply) (s.nodes b.candidate) in
        Votes false members (set b.candidate n s) → Onto members s w (set b.candidate n s)
  counted-Onto b votes =
      let i = b.candidate in
      let old = s.nodes i in
      let n = handle_vote_response b.term b.voter (some b.reply) old in
      let a = handle_vote_response-Answers b.term b.voter b.reply old in
      elim a.how [
        | inl (matches, next, calm, leads) ↦
            still-Onto inv c i n calm (omega (arith, a.commit)) (vote_Onward b calm leads) votes
              (calm_same inv c i calm a.commit matches next a.peers leads)
        | inr (matches, next, log, stood, leads, same) ↦
            won-Onto inv c i n votes log stood leads same a.commit a.peers matches next
      ]
