-- ===== src/Raft/Append/Refusal.antt =====
-- The conflict hint of a refused message, and the redelivery of an accepted one.
use gammaflow.Base.{
  suc, ◌≤◌, ◌<◌, ◌≡◌, ◌⊎◌, refl, ap, ◌∙◌, sym, none, some, arith, true, false, inl, inr, length,
  tests, ltb, Option-cases, Bool-cases,
}
use gammaflow.Raft.Types.{Term, LogIndex, AppendEntriesArgs, AppendEntriesReply}
use gammaflow.Raft.Log.{RaftLog, find_first_index_of_term}
use gammaflow.Raft.Log.View.{IsLog, term_of, term_of-take}
use gammaflow.Raft.Log.Search.{IsFirstIndex, find_first_index_of_term-IsFirstIndex}
use gammaflow.Raft.Node.{Node, save_entries}
use gammaflow.Raft.Node.Frame.{SameData}
use gammaflow.Raft.Append.{follow_commit, handle_append_entries}
use gammaflow.Raft.Append.Outcome.{
  current_term-follow_leader, Fits, outcome, conflict_of, handle_append_entries-eq,
}
use gammaflow.Raft.Append.Commit.{refused-SameData, accepted_commit}
use gammaflow.Raft.Append.Entries.{length-merged, merged_twice}
use gammaflow.Raft.Append.Safety.{
  HasPrevious, success-outcome, accepted_entries, accepted-IsLog, success_iff, log-success,
  place_in_log,
}

current_term-outcome :
    (args : AppendEntriesArgs) (n : Node)
    → n.current_term ≤ args.term
    → (outcome args n none).current_term ≡ args.term
unfolding follow_commit save_entries
current_term-outcome args n h = ground (arith, current_term-follow_leader args n h)

-- The hint of a refusal: the log is too short and the next free place is named, or the previous
-- entry differs and its term is named with the first place of that term.
abbrev pub Hint : AppendEntriesArgs → RaftLog → Term → LogIndex → Type 0
Hint args l term index =
    ((length l.entries ≤ args.prev_log_index) × (term ≡ 0) × (index ≡ length l.entries))
    ⊎ ((term ≡ term_of l.entries args.prev_log_index) × IsFirstIndex term l.entries index)

conflict-Hint :
    (args : AppendEntriesArgs) (l : RaftLog) {t : Term} {i : LogIndex}
    → IsLog l
    → conflict_of args l ≡ some (t, i)
    → Hint args l t i × (0 < i) × (i ≤ args.prev_log_index)
conflict-Hint args l {t} {i} w e = elim (Bool-cases (ltb args.prev_log_index (length l.entries))) [
  | inl inside ↦
      let term = term_of l.entries args.prev_log_index in
      let before : 0 < args.prev_log_index = ground (arith, e) in
      let (f, le) =
        find_first_index_of_term-IsFirstIndex term l args.prev_log_index before (omega tests)
          refl in
      let same : (t ≡ term) × (i ≡ find_first_index_of_term l term) = ground (arith, e) in
      (inr (same.0, rw (same.0, same.1) f), rw same.1 f.after_sentinel, rw same.1 le)
  | inr past ↦
      let same : (t ≡ 0) × (i ≡ length l.entries) = ground (arith, e) in
      (inl (omega tests, same.0, same.1), omega (arith, w), omega tests)
]

module _ (args : AppendEntriesArgs) (n : Node) {n' : Node} {r : AppendEntriesReply}
    (fits : Fits args n) (handled : handle_append_entries args n ≡ some (n', r)) where
  -- A message of a current term that is refused leaves the log and the indices alone, and its hint
  -- names the end of a log that is too short, or the differing term and its first place; it is
  -- neither the sentinel's place nor behind the previous entry. (The log and the message are
  -- within the range of an `int`.)
  pub refused-Hint :
      n.current_term ≤ args.term
      → r.success ≡ false
      → SameData n n'
        × (Hint args n.log r.conflict_term r.conflict_index
            × (0 < r.conflict_index)
            × (r.conflict_index ≤ args.prev_log_index))
  refused-Hint h s =
      let returned = handle_append_entries-eq args n h fits in
      elim (Option-cases (conflict_of args n.log)) [
        | inl agree ↦ ground (arith, returned, agree)
        | inr ((t, i), conflict) ↦
            let same : (r.conflict_term ≡ t) × (r.conflict_index ≡ i) =
              ground (arith, returned, conflict) in
            (
              refused-SameData args n fits handled s,
              rw (same.0, same.1) (conflict-Hint args n.log fits.log conflict),
            )
      ]

  accepted-current : r.success ≡ true → n'.current_term ≡ args.term
  accepted-current s =
      let (same, _) = success-outcome args n fits handled s in
      ap (λ m. m.current_term) same
      ∙ current_term-outcome args n ((success_iff args n fits handled).0 s).0

  accepted-HasPrevious : r.success ≡ true → HasPrevious args n'.log
  accepted-HasPrevious s =
      let k = suc args.prev_log_index in
      let (_, has) = success-outcome args n fits handled s in
      let (kept, _) = accepted_entries args n fits handled s in
      let room = place_in_log args n fits handled s in
      let (long, _) = length-merged args.entries k n.log.entries room in
      let at_previous : term_of n'.log.entries args.prev_log_index
          ≡ term_of n.log.entries args.prev_log_index =
        sym (term_of-take k args.prev_log_index n'.log.entries (omega arith))
        ∙ ap (λ es. term_of es args.prev_log_index) kept
        ∙ term_of-take k args.prev_log_index n.log.entries (omega arith) in
      let inside : args.prev_log_index < length n'.log.entries =
        rw (log-success args n fits handled s) (omega (arith, long)) in
      ground (arith, has, at_previous, inside)

  -- Redelivery: the accepted message, delivered again at once, is accepted and leaves the log and
  -- the commit index as they are. (The log and the message are within the range of an `int`.)
  pub accepted_twice :
      {n'' : Node} {r' : AppendEntriesReply}
      → r.success ≡ true
      → handle_append_entries args n' ≡ some (n'', r')
      → (r'.success ≡ true)
        × (n''.log.entries ≡ n'.log.entries)
        × (n''.commit_index ≡ n'.commit_index)
  accepted_twice {n''} s again =
      let fits' : Fits args n' = record {
        log = accepted-IsLog args n fits handled s;
        message = fits.message;
      } in
      let s' =
        (success_iff args n' fits' again).1
          (omega (arith, accepted-current s), accepted-HasPrevious s) in
      let room = place_in_log args n fits handled s in
      let first = log-success args n fits handled s in
      let same : n''.log.entries ≡ n'.log.entries =
        log-success args n' fits' again s'
        ∙ rw first (merged_twice args.entries (suc args.prev_log_index) n.log.entries room) in
      (
        s',
        same,
        ground (
          arith,
          accepted_commit args n fits handled s,
          accepted_commit args n' fits' again s',
          ap length same,
        ),
      )
