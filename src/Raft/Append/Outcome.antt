-- ===== src/Raft/Append/Outcome.antt =====
-- The branches of `HandleAppendEntries`: the node and the reply after each, with the loop replaced
-- by `merge`.
use gammaflow.Base.{
  suc, ◌+◌, ◌≤◌, ◌<◌, ◌≡◌, refl, Option, none, some, arith, ltb, ◌==◌, if◌then◌else◌, true, false,
  length, int_max, le→ltb, lt→ltb,
}
use native.Mathlib.Nat.{add-zero}
use gammaflow.Raft.Types.{Term, LogIndex, AppendEntriesArgs, AppendEntriesReply}
use gammaflow.Raft.Log.{RaftLog, find_first_index_of_term}
use gammaflow.Raft.Log.View.{IsLog, term_of, contains-eq, term_at-eq, last_index-eq}
use gammaflow.Raft.Node.{Node, stop_leading, reset_election_timer}
use gammaflow.Raft.Node.Frame.{SameData, catch_up-SameData, current_term-catch_up}
use gammaflow.Raft.Append.{
  check_consistency, follow_leader, follow_commit, finish_append, handle_append_entries,
}
use gammaflow.Raft.Append.Merge.{stored, store_entries-eq}

-- The message and the log fit an `int`.
pub record Fits (args : AppendEntriesArgs) (n : Node) : Type 0 where
  pub log : IsLog n.log
  pub message : suc args.prev_log_index + length args.entries < int_max

-- The hint for a message whose previous entry this log does not have; `none` where it has it.
abbrev pub conflict_of : AppendEntriesArgs → RaftLog → Option (Term × LogIndex)
conflict_of args l =
    let term = term_of l.entries args.prev_log_index in
    if args.prev_log_index == 0
    then none
    else if ltb args.prev_log_index (length l.entries)
    then (if term == args.prev_log_term then none else some (term, find_first_index_of_term l term))
    else some (0, length l.entries)

abbrev pub reply_of : Term → Option (Term × LogIndex) → AppendEntriesReply
reply_of t none = record { term = t; success = true; conflict_term = 0; conflict_index = 0 }
reply_of t (some (term, index)) = record {
  term = t;
  success = false;
  conflict_term = term;
  conflict_index = index;
}

abbrev pub outcome : AppendEntriesArgs → Node → Option (Term × LogIndex) → Node
outcome args n none =
    follow_commit args.leader_commit
      (stored (suc args.prev_log_index) args.entries (follow_leader args n))
outcome args n (some _) = follow_leader args n

module _ (args : AppendEntriesArgs) (n : Node) where
  pub follow_leader-SameData : SameData n (follow_leader args n)
  unfolding follow_leader stop_leading reset_election_timer
  follow_leader-SameData = ground (arith, catch_up-SameData args.term n)

  pub current_term-follow_leader :
      n.current_term ≤ args.term → (follow_leader args n).current_term ≡ args.term
  unfolding follow_leader stop_leading reset_election_timer
  current_term-follow_leader h = ground (arith, current_term-catch_up args.term n)

pub check_consistency-eq :
    (args : AppendEntriesArgs) (l : RaftLog)
    → IsLog l
    → args.prev_log_index < int_max
    → check_consistency args l ≡ some (conflict_of args l)
unfolding check_consistency
check_consistency-eq args l w h =
    ground
      (arith, contains-eq l args.prev_log_index, term_at-eq l args.prev_log_index, last_index-eq l)

-- With no conflict the previous entry is in the log.
in_log :
    (args : AppendEntriesArgs) (l : RaftLog)
    → IsLog l
    → conflict_of args l ≡ none
    → args.prev_log_index < length l.entries
in_log args l w h = ground arith

finish_append-eq :
    (args : AppendEntriesArgs) (n : Node) (reply : AppendEntriesReply)
    → IsLog n.log
    → args.prev_log_index < length n.log.entries
    → args.prev_log_index + length args.entries < int_max
    → finish_append args n reply none
      ≡ some (
        follow_commit args.leader_commit (stored (suc args.prev_log_index) args.entries n),
        record reply { success = true },
      )
unfolding finish_append
finish_append-eq args n reply w h fits = rw (
  store_entries-eq args.prev_log_index 0 args.entries n w (omega arith) (omega arith),
  add-zero args.prev_log_index,
)

finish_append-eq_outcome :
    (args : AppendEntriesArgs) (n : Node) (c : Option (Term × LogIndex)) (t : Term)
    → Fits args n
    → (c ≡ none → args.prev_log_index < length n.log.entries)
    → finish_append args
        (follow_leader args n)
        (record { term = t; success = false; conflict_term = 0; conflict_index = 0 })
        c
      ≡ some (outcome args n c, reply_of t c)
finish_append-eq_outcome args n none t f h =
    let same = (follow_leader-SameData args n).log in
    finish_append-eq args (follow_leader args n) _ (rw same f.log) (rw same (h refl))
      (omega (arith, f.message))
finish_append-eq_outcome args n (some (ct, ci)) t f h = unfold finish_append in refl

-- A message of a term that is not old: the handler returns, and does what `outcome` and `reply_of`
-- say. (The log and the message are within the range of an `int`.)
pub handle_append_entries-eq :
    (args : AppendEntriesArgs) (n : Node)
    → n.current_term ≤ args.term
    → Fits args n
    → handle_append_entries args n
      ≡ some (outcome args n (conflict_of args n.log), reply_of args.term (conflict_of args n.log))
unfolding handle_append_entries
handle_append_entries-eq args n h f =
    simp
      (
        le→ltb args.term n.current_term h,
        (follow_leader-SameData args n).log,
        check_consistency-eq args n.log f.log (omega (arith, f.message)),
        current_term-follow_leader args n h,
      )
      (finish_append-eq_outcome args n (conflict_of args n.log) args.term f
        (in_log args n.log f.log))

-- A message of an old term changes nothing, and is answered by the newer term.
pub handle_append_entries_stale :
    (args : AppendEntriesArgs) (n : Node)
    → args.term < n.current_term
    → handle_append_entries args n
      ≡ some (
        n,
        record { term = n.current_term; success = false; conflict_term = 0; conflict_index = 0 },
      )
unfolding handle_append_entries
handle_append_entries_stale args n h = rw (lt→ltb args.term n.current_term h)
