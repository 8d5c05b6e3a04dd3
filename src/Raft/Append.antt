-- ===== src/Raft/Append.antt =====
-- internal/raft/node.go: `HandleAppendEntries`.
pub mod Merge
pub mod Outcome
pub mod Entries
pub mod Safety
pub mod Commit
pub mod Refusal
pub mod Description
pub mod Match
use gammaflow.Base.{
  ℕ, suc, true, false, Option, none, some, List, [], ◌∷◌, ltb, ◌==◌, if◌then◌else◌, add64, sub64,
  ◌>>=◌,
}
use gammaflow.Raft.Types.{Term, LogIndex, follower, LogEntry, AppendEntriesArgs, AppendEntriesReply}
use gammaflow.Raft.Log
use gammaflow.Raft.Log.{
  RaftLog, last_index, truncate_after, contains, term_at, find_first_index_of_term,
}
use gammaflow.Raft.Node.{
  Node, catch_up, reset_election_timer, stop_leading, save_entries, is_follower_state,
}

-- The end of an iteration that finds no agreement: the rest of the message is appended to `l`, and
-- then persisted.
unfoldable pub extend : RaftLog → List LogEntry → Node → Node
extend l es n = save_entries es (record n { log = Log.append l es })

-- The loop over `args.Entries`. The list is `args.Entries[i:]`.
unfoldable pub store_entries : LogIndex → ℕ → List LogEntry → Node → Option Node
store_entries prev i [] n = some n
store_entries prev i (e ∷ es) n =
    let next = store_entries prev (suc i) es n in
    let idx = add64 (add64 prev i) 1 in
    if contains n.log idx
    then (do
      term ← term_at n.log idx
      let replaced = truncate_after n.log (sub64 idx 1) >>= λ kept. some (extend kept (e ∷ es) n)
      if term == e.term then next else replaced)
    else some (extend n.log (e ∷ es) n)

-- The consistency check at `PrevLogIndex`: the conflict hint of the refusal, if it fails.
unfoldable pub check_consistency : AppendEntriesArgs → RaftLog → Option (Option (Term × LogIndex))
check_consistency args l =
    if ltb 0 args.prev_log_index
    then (if contains l args.prev_log_index
        then (do
          term ← term_at l args.prev_log_index
          some (
              if term == args.prev_log_term
              then none
              else some (term, find_first_index_of_term l term)))
        else some (some (0, add64 (last_index l) 1)))
    else some none

-- `n.commitIndex = min(args.LeaderCommit, n.log.LastIndex())`, if the leader is ahead.
unfoldable pub follow_commit : LogIndex → Node → Node
follow_commit leader_commit n =
    let last = last_index n.log in
    if ltb n.commit_index leader_commit
    then record n { commit_index = if ltb last leader_commit then last else leader_commit }
    else n

-- What precedes the check: the leader of the message's term is followed.
unfoldable pub follow_leader : AppendEntriesArgs → Node → Node
follow_leader args n =
    let n₁ = catch_up args.term n in
    let n₂ =
      if is_follower_state n₁.state then n₁ else stop_leading (record n₁ { state = follower }) in
    reset_election_timer (record n₂ { leader_id = args.leader_id })

-- What follows the check.
unfoldable pub finish_append :
    AppendEntriesArgs
    → Node
    → AppendEntriesReply
    → Option (Term × LogIndex)
    → Option (Node × AppendEntriesReply)
finish_append args n reply (some (term, index)) =
    some (n, record reply { conflict_term = term; conflict_index = index })
finish_append args n reply none = do
  n' ← store_entries args.prev_log_index 0 args.entries n
  some (follow_commit args.leader_commit n', record reply { success = true })

unfoldable pub handle_append_entries : AppendEntriesArgs → Node → Option (Node × AppendEntriesReply)
handle_append_entries args n =
    let refusal : AppendEntriesReply = record {
      term = n.current_term;
      success = false;
      conflict_term = 0;
      conflict_index = 0;
    } in
    if ltb args.term n.current_term then some (n, refusal) else do
      let n₁ = follow_leader args n
      conflict ← check_consistency args n₁.log
      finish_append args n₁ (record refusal { term = n₁.current_term }) conflict
