-- ===== src/Raft/Election.antt =====
-- internal/raft/node.go: `startElection` with the handling of its replies, and `becomeLeaderLocked`.
pub mod Campaign
pub mod Quorum
use gammaflow.Base.{
  ℕ, suc, ◌+◌, ◌/◌, Bool, true, false, Option, none, some, List, [], ◌∷◌, ◌++◌, map, ltb, leb, ◌==◌,
  if◌then◌else◌, add64, length, update, ◌>>=◌,
}
use gammaflow.Raft.Types.{
  NodeId, Term, LogIndex, candidate, leader, State, RequestVoteArgs, RequestVoteReply,
}
use gammaflow.Raft.Log.{last_index, last_term}
use gammaflow.Raft.Node.{
  Node, running, stop_timer, heartbeat_interval, reset_election_timer, save_term, save_vote,
  become_follower,
}

abbrev pub is_candidate_state : State → Bool
is_candidate_state candidate = true
is_candidate_state _ = false

-- The first part of `startElection`, up to the reset of the timer.
unfoldable pub stand : Node → Node
stand n =
    let term = add64 n.current_term 1 in
    let n₁ = record n {
      current_term = term;
      state = candidate;
      voted_for = n.id;
      leader_id = "";
      votes = 1;
      votes_received = update (λ _. false) n.id true;
    } in
    reset_election_timer (save_vote n.id term (save_term term n₁))

-- `startElection`: the candidate, and the message that goes to each of `peers`.
unfoldable pub start_election : Node → Option (Node × RequestVoteArgs)
start_election n = do
  let n₁ = stand n
  last_log_term ← last_term n₁.log
  some (
    n₁,
    record {
      term = n₁.current_term;
      candidate_id = n₁.id;
      last_log_index = last_index n₁.log;
      last_log_term = last_log_term;
    },
  )

-- The loop that gives every peer the leader's first guess.
unfoldable pub init_next : LogIndex → List NodeId → (NodeId → LogIndex) → NodeId → LogIndex
init_next last [] m = m
init_next last (p ∷ ps) m = init_next last ps (update m p last)

unfoldable pub init_match : List NodeId → (NodeId → LogIndex) → NodeId → LogIndex
init_match [] m = m
init_match (p ∷ ps) m = init_match ps (update m p 0)

-- `becomeLeaderLocked`
unfoldable pub become_leader : Node → Node
become_leader n = record n {
  state = leader;
  leader_id = n.id;
  leader_changes = add64 n.leader_changes 1;
  election_timer = stop_timer n.election_timer;
  next_index = init_next (add64 (last_index n.log) 1) n.peers n.next_index;
  match_index = init_match n.peers n.match_index;
  heartbeat_timer = running heartbeat_interval;
  contexts = suc n.contexts;
  replicate_cancel = some n.contexts;
  replicators = n.replicators ++ map (λ p. (n.contexts, p)) n.peers;
}

abbrev pub majority : List NodeId → ℕ
majority peers = (length peers + 1) / 2 + 1

-- A vote from `p`, counted once.
unfoldable pub count_vote : NodeId → Node → Node
count_vote p n =
    let n₁ = record n { votes_received = update n.votes_received p true; votes = n.votes + 1 } in
    if n.votes_received p
    then n
    else if leb (majority n.peers) n₁.votes
    then become_leader n₁
    else n₁

-- What the goroutine for peer `p` of the election in `term` does with the response, which is
-- `none` where the RPC failed.
unfoldable pub handle_vote_response : Term → NodeId → Option RequestVoteReply → Node → Node
handle_vote_response term p none n = n
handle_vote_response term p (some reply) n =
    if n.current_term == term
    then (if is_candidate_state n.state
        then (if ltb n.current_term reply.term
            then become_follower reply.term n
            else if reply.vote_granted
            then count_vote p n
            else n)
        else n)
    else n
