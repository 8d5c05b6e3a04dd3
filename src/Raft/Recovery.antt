-- ===== src/Raft/Recovery.antt =====
-- internal/raft/node.go: `Replay`, and the restart of a crashed node as cmd/server/main.go makes it.
pub mod Durable
pub mod Handlers
pub mod Crash
pub mod Entries
use gammaflow.Base.{Option, none, some, List, map, ltb, if◌then◌else◌, length}
use gammaflow.Storage.Wal.{Wal}
use gammaflow.Storage.Replay.{Replayed, EntryRecord, nothing, absorb_all}
use gammaflow.Raft.Types.{LogEntry}
use gammaflow.Raft.Log.{restore_entries}
use gammaflow.Raft.Node.{Node, new_node}

abbrev pub to_log_entry : EntryRecord → LogEntry
to_log_entry e = record { term = e.term; index = e.index; command = e.command }

-- What `Replay` does with the results of `n.wal.Replay()`.
unfoldable pub restore : Replayed → Node → Node
restore s n = record n {
  current_term = s.term;
  voted_for = s.voted_for;
  log =
      if ltb 0 (length s.entries)
      then restore_entries n.log (map to_log_entry s.entries)
      else n.log;
}

-- `Replay`, of the records that stand in the WAL.
abbrev pub replay_from : Option Wal → Node → Node
replay_from none n = n
replay_from (some w) n = restore (absorb_all w.records nothing) n

unfoldable pub replay : Node → Node
replay n = replay_from n.wal n

-- A crash loses all but the WAL; the node is made and replayed anew.
unfoldable pub restart : Node → Node
restart n = replay (new_node n.id n.peers n.wal n.draws)
