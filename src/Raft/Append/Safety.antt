-- ===== src/Raft/Append/Safety.antt =====
-- What AppendEntries does to the entries of the follower's log.
use gammaflow.Base.{
  ℕ, suc, ◌+◌, ◌≤◌, ◌<◌, ◌≡◌, ◌↔◌, ◌⊎◌, ap, ◌∙◌, none, some, arith, true, length, take,
}
use gammaflow.Raft.Types.{AppendEntriesArgs, AppendEntriesReply}
use gammaflow.Raft.Log.{RaftLog}
use gammaflow.Raft.Log.View.{IsLog, term_of}
use gammaflow.Raft.Node.{Node, save_entries}
use gammaflow.Raft.Append.{follow_commit, handle_append_entries}
use gammaflow.Raft.Append.Outcome.{
  Fits, conflict_of, outcome, follow_leader-SameData, handle_append_entries-eq,
  handle_append_entries_stale,
}
use gammaflow.Raft.Append.Entries.{merged, length-merged, term-merged, take-merged, term_of-drop}

-- The log has the entry that the message builds on.
abbrev pub HasPrevious : AppendEntriesArgs → RaftLog → Type 0
HasPrevious args l =
    (args.prev_log_index ≡ 0)
    ⊎ ((args.prev_log_index < length l.entries)
        × (term_of l.entries args.prev_log_index ≡ args.prev_log_term))

pub conflict-none :
    (args : AppendEntriesArgs) (l : RaftLog) → (conflict_of args l ≡ none) ↔ HasPrevious args l
conflict-none args l = ground arith

log-outcome :
    (args : AppendEntriesArgs) (n : Node)
    → (outcome args n none).log.entries
      ≡ merged (suc args.prev_log_index) args.entries n.log.entries
unfolding follow_commit save_entries
log-outcome args n = ground (arith, (follow_leader-SameData args n).log)

module _ (args : AppendEntriesArgs) (n : Node) {n' : Node} {r : AppendEntriesReply}
    (fits : Fits args n) (handled : handle_append_entries args n ≡ some (n', r)) where
  -- A message is accepted exactly if its term is not old and the log has its previous entry. (The
  -- log and the message are within the range of an `int`.)
  pub success_iff : (r.success ≡ true) ↔ ((n.current_term ≤ args.term) × HasPrevious args n.log)
  success_iff = ground (
    arith,
    handle_append_entries-eq args n,
    handle_append_entries_stale args n,
    conflict-none args n.log,
  )

  pub success-outcome : r.success ≡ true → (n' ≡ outcome args n none) × HasPrevious args n.log
  success-outcome s = ground (
    arith,
    handle_append_entries-eq args n,
    handle_append_entries_stale args n,
    conflict-none args n.log,
  )

  pub log-success :
      r.success ≡ true
      → n'.log.entries ≡ merged (suc args.prev_log_index) args.entries n.log.entries
  log-success s = ap (λ m. m.log.entries) (success-outcome s).0 ∙ log-outcome args n

  pub place_in_log : r.success ≡ true → suc args.prev_log_index ≤ length n.log.entries
  place_in_log s = ground (arith, success-outcome s, fits.log)

  -- An accepted message leaves the log as it was up to the previous entry, and behind it with the
  -- terms of the message's entries. (The log and the message are within the range of an `int`.)
  pub accepted_entries :
      r.success ≡ true
      → (take (suc args.prev_log_index) n'.log.entries
          ≡ take (suc args.prev_log_index) n.log.entries)
        × ((j : ℕ)
            → j < length args.entries
            → term_of n'.log.entries (suc args.prev_log_index + j) ≡ term_of args.entries j)
  accepted_entries s =
      let k = suc args.prev_log_index in
      let room = place_in_log s in
      rw (log-success s) (
        take-merged args.entries k k n.log.entries room room (λ j p q. absurd (omega arith)),
        λ j p.
            rw (← term_of-drop k j (merged k args.entries n.log.entries))
              (term-merged args.entries k n.log.entries j room p),
      )

  -- INVARIANT 3: an accepted message keeps the entries up to any index below which it does not
  -- disagree with the log, in particular up to the commit index, where the leader has the same
  -- entries. (The log and the message are within the range of an `int`.)
  pub agreed_entries_kept :
      (m : ℕ)
      → r.success ≡ true
      → m ≤ length n.log.entries
      → ((j : ℕ)
          → j < length args.entries
          → suc args.prev_log_index + j < m
          → term_of n.log.entries (suc args.prev_log_index + j) ≡ term_of args.entries j)
      → take m n'.log.entries ≡ take m n.log.entries
  agreed_entries_kept m s h same =
      let k = suc args.prev_log_index in
      rw (log-success s) (
        take-merged args.entries m k n.log.entries (place_in_log s) h
          (λ j p q. term_of-drop k j n.log.entries ∙ same j p q))

  pub accepted-IsLog : r.success ≡ true → IsLog n'.log
  accepted-IsLog s =
      let room = place_in_log s in
      let both = length-merged args.entries (suc args.prev_log_index) n.log.entries room in
      record {
        has_sentinel = rw (log-success s) (omega (arith, both));
        fits = rw (log-success s) (omega (arith, both, fits.message, fits.log));
      }
