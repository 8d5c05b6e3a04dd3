-- ===== src/Tests/Append.antt =====
-- AppendEntries: the theorems of Raft/Append at concrete inputs.
use gammaflow.Base.{ℕ, ◌+◌, ◌≤◌, ◌<◌, ◌≡◌, refl, ◌↔◌, some, none, true, [], ◌∷◌, arith, take}
use gammaflow.Raft.Types.{AppendEntriesReply}
use gammaflow.Raft.Log.View.{term_of}
use gammaflow.Raft.Node.{Node}
use gammaflow.Raft.Node.Frame.{SameData}
use gammaflow.Raft.Append.{handle_append_entries}
use gammaflow.Raft.Append.Outcome.{Fits, reply_of}
use gammaflow.Raft.Append.Safety.{HasPrevious, success_iff, accepted_entries}
use gammaflow.Raft.Append.Commit.{CommitSafe, handle_append_entries-CommitSafe}
use gammaflow.Raft.Append.Refusal.{Hint, refused-Hint, accepted_twice}
use gammaflow.Tests.Data.{follower_2, append_3, probe_3, entry_of, log_of, node_after, raft_calls}

abbrev appended : Node
appended = node_after (handle_append_entries append_3 follower_2)

abbrev probed : Node
probed = node_after (handle_append_entries probe_3 follower_2)

abbrev accepted : AppendEntriesReply
accepted = reply_of 3 none

abbrev refused : AppendEntriesReply
refused = reply_of 3 (some (2, 3))

-- The entry of term 2 is replaced, and the new entries are committed up to the leader's index.
append_replaces :
    (appended.log ≡ log_of (entry_of 1 1 ∷ entry_of 1 2 ∷ entry_of 3 3 ∷ entry_of 3 4 ∷ []))
    × (appended.commit_index ≡ 3)
unfolding raft_calls
append_replaces = (refl, refl)

Fits-append : Fits append_3 follower_2
unfolding raft_calls
Fits-append = omega arith

Fits-probe : Fits probe_3 follower_2
unfolding raft_calls
Fits-probe = omega arith

handle_append_entries-CommitSafe_example : CommitSafe follower_2 appended
unfolding raft_calls
handle_append_entries-CommitSafe_example =
    handle_append_entries-CommitSafe append_3 follower_2 {r = accepted} Fits-append refl
      (omega arith) (λ j p q. absurd (omega arith))

accepted_entries_example :
    (take 3 appended.log.entries ≡ take 3 follower_2.log.entries)
    × ((j : ℕ) → j < 2 → term_of appended.log.entries (3 + j) ≡ term_of append_3.entries j)
unfolding raft_calls
accepted_entries_example = accepted_entries append_3 follower_2 {r = accepted} Fits-append refl refl

success_iff_example :
    (refused.success ≡ true) ↔ ((follower_2.current_term ≤ 3) × HasPrevious probe_3 follower_2.log)
unfolding raft_calls
success_iff_example = success_iff probe_3 follower_2 {n' = probed} Fits-probe refl

refused-Hint_example :
    SameData follower_2 probed
    × (Hint probe_3 follower_2.log 2 3
        × (0 < refused.conflict_index)
        × (refused.conflict_index ≤ 3))
unfolding raft_calls
refused-Hint_example =
    refused-Hint probe_3 follower_2 {r = refused} Fits-probe refl (omega arith) refl

accepted_twice_example :
    let again = node_after (handle_append_entries append_3 appended) in
    (accepted.success ≡ true)
    × (again.log.entries ≡ appended.log.entries)
    × (again.commit_index ≡ appended.commit_index)
unfolding raft_calls
accepted_twice_example =
    accepted_twice append_3 follower_2 {r = accepted} Fits-append refl {r' = accepted} refl refl
