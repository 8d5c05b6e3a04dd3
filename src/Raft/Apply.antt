-- ===== src/Raft/Apply.antt =====
-- internal/raft/replication.go: `applyLoop`, which hands the committed entries over.
use gammaflow.Base.{Option, none, some, List, leb, if◌then◌else◌, add64, ◌>>=◌}
use gammaflow.Raft.Types.{LogIndex, LogEntry}
use gammaflow.Raft.Log.{entries}
use gammaflow.Raft.Node.{Node}

-- What one turn hands over.
pub record Batch : Type 0 where
  pub entries : List LogEntry
  pub new_last_applied : LogIndex

-- The first hold of the mutex. The inner `none` is `continue`, with nothing to apply.
unfoldable pub collect : Node → Option (Option Batch)
collect n = if leb n.commit_index n.last_applied then some none else (do
  es ← entries n.log (add64 n.last_applied 1) n.commit_index
  some (some (record { entries = es; new_last_applied = n.commit_index })))

-- The second hold, after every entry was sent on `applyCh`.
unfoldable pub delivered : Batch → Node → Node
delivered b n = record n { last_applied = b.new_last_applied }
