-- ===== src/Tests/Recovery.antt =====
-- Crashes and restarts: the theorems of Raft/Recovery at concrete inputs.
use mathlib.Core.Bool.{false≢true}
use gammaflow.Base.{
  ◌++◌, ◌≡◌, refl, ◌↔◌, some, true, false, [], ◌∷◌, arith, eq_iff, List, String, drop,
}
use gammaflow.Storage.Wal.{Wal}
use gammaflow.Storage.Record.{term_record, entry_record}
use gammaflow.Storage.Replay.{absorb}
use gammaflow.Raft.Log.{restore_entries}
use gammaflow.Raft.Types.{AppendEntriesReply}
use gammaflow.Raft.Node.{Node}
use gammaflow.Raft.Append.{handle_append_entries}
use gammaflow.Raft.Run.{heartbeats_sent}
use gammaflow.Raft.Recovery.{restore, replay, restart}
use gammaflow.Raft.Recovery.Crash.{crash, event, live_step, live, vote_once_across_crashes}
use gammaflow.Raft.Recovery.Durable.{IsDurable}
use gammaflow.Raft.Recovery.Entries.{RecoversLog, conflicts, recovers_iff}
use gammaflow.Tests.Data.{node_1, node_after, ask, follower_2, append_3, entry_of, raft_calls}

unfoldable crash_calls : List String
unfolding raft_calls absorb restore_entries restore replay restart live_step live
crash_calls = []

node_1-IsDurable : IsDurable node_1
unfolding crash_calls
node_1-IsDurable = (refl, refl, λ _. refl)

-- node-2 gets the vote, the node crashes and restarts, and node-2 asks again.
vote_once_across_crashes_example : (ask "node-2" 1).candidate_id ≡ (ask "node-2" 1).candidate_id
unfolding crash_calls
vote_once_across_crashes_example =
    vote_once_across_crashes (ask "node-2" 1) (ask "node-2" 1)
      (crash ∷ event heartbeats_sent ∷ crash ∷ []) node_1 node_1-IsDurable refl refl
      (λ e. false≢true ((eq_iff "node-2" "").1 e)) (tt, (tt, (tt, tt))) refl refl refl refl

-- The WAL of this follower has its term and its log.
abbrev written : Wal
written = record {
  records =
      term_record 2
      ∷ entry_record 1 1 (7 ∷ [])
      ∷ entry_record 2 1 (7 ∷ [])
      ∷ entry_record 3 2 (7 ∷ [])
      ∷ [];
  outcomes = [];
}

abbrev kept : Node
kept = record follower_2 { wal = some written }

abbrev replaced : Node
replaced = node_after (handle_append_entries append_3 kept)

abbrev accepted : AppendEntriesReply
accepted = record { term = 3; success = true; conflict_term = 0; conflict_index = 0 }

-- The message replaces the entry of term 2, so that a restart would not give this log.
recovers_iff_example :
    RecoversLog replaced ↔ (conflicts (drop 3 kept.log.entries) append_3.entries ≡ false)
unfolding crash_calls
recovers_iff_example =
    recovers_iff append_3 kept {r = accepted} (omega arith) refl (refl, refl, λ _. refl) refl refl

-- It gives the entry that was replaced, and the new ones behind it.
stale_log : (restart replaced).log.entries ≡ kept.log.entries ++ entry_of 3 3 ∷ entry_of 3 4 ∷ []
unfolding crash_calls
stale_log = refl
