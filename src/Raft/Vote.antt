-- ===== src/Raft/Vote.antt =====
-- internal/raft/node.go: `HandleRequestVote` and `isLogUpToDate`.
pub mod Grant
use gammaflow.Base.{
  Bool, true, false, Option, some, ◌&&◌, ◌||◌, ltb, leb, ◌==◌, if◌then◌else◌, str_eq, ◌>>=◌,
}
use gammaflow.Raft.Types.{Term, LogIndex, RequestVoteArgs, RequestVoteReply}
use gammaflow.Raft.Log.{last_index, last_term}
use gammaflow.Raft.Node.{Node, catch_up, reset_election_timer, save_vote}

-- Higher last term wins; if equal, the longer log wins.
unfoldable pub is_log_up_to_date : Node → Term → LogIndex → Option Bool
is_log_up_to_date n last_term' last_index' = do
  our_last_term ← last_term n.log
  let our_last_index = last_index n.log
  some (
      if last_term' == our_last_term
      then leb our_last_index last_index'
      else ltb our_last_term last_term')

unfoldable pub handle_request_vote : RequestVoteArgs → Node → Option (Node × RequestVoteReply)
handle_request_vote args n =
    let n₁ = catch_up args.term n in
    let refusal : RequestVoteReply = record { term = n₁.current_term; vote_granted = false } in
    if ltb args.term n₁.current_term then some (n₁, refusal) else do
      let can_vote = str_eq n₁.voted_for "" || str_eq n₁.voted_for args.candidate_id
      log_ok ← is_log_up_to_date n₁ args.last_log_term args.last_log_index
      some (
          if can_vote && log_ok
          then (
            save_vote args.candidate_id n₁.current_term
                (reset_election_timer (record n₁ { voted_for = args.candidate_id })),
            record refusal { vote_granted = true },
          )
          else (n₁, refusal))
