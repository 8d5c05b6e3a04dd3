-- ===== src/Raft/Submit.antt =====
-- internal/raft/replication.go: `SubmitCommand`; node.go: `Status` and the getters.
use gammaflow.Base.{
  Bool, Option, none, some, String, List, [], ◌∷◌, leb, ◌==◌, if◌then◌else◌, add64,
}
use gammaflow.Storage.Wal.{Wal, persist_entry}
use gammaflow.Raft.Types.{
  Term, LogIndex, LogEntry, RaftError, not_leader, timeout, wal_failed, state_string, Bytes,
}
use gammaflow.Raft.Log
use gammaflow.Raft.Log.{last_index}
use gammaflow.Raft.Node.{Node, is_leader_state}

-- `SubmitCommand` up to its wait: the node, and the entry to wait for or the error.
pub data Accepted : Type 0 where
  waiting : LogIndex → Term → Accepted
  rejected : RaftError → Accepted

abbrev pub persisted : LogEntry → Node → Option Wal → Node × Accepted
persisted e n none = (n, waiting e.index e.term)
persisted e n (some w) =
    let (w', error) = persist_entry e.index e.term e.command w in
    let n' = record n { wal = some w' } in
    elim error [ none ↦ (n', waiting e.index e.term) | some m ↦ (n', rejected (wal_failed m)) ]

unfoldable pub submit : Bytes → Node → Node × Accepted
submit command n =
    let e : LogEntry = record {
      term = n.current_term;
      index = add64 (last_index n.log) 1;
      command = command;
    } in
    if is_leader_state n.state
    then persisted e (record n { log = Log.append n.log (e ∷ []) }) n.wal
    else (n, rejected not_leader)

-- One look of the waiting loop, before the deadline: `none` is to sleep and look again.
pub data Answer : Type 0 where
  applied : LogIndex → Term → Answer
  refused : RaftError → Answer

unfoldable pub poll : LogIndex → Term → Node → Option Answer
poll index term n =
    if is_leader_state n.state
    then (if n.current_term == term
        then (if leb index n.last_applied then some (applied index term) else none)
        else some (refused not_leader))
    else some (refused not_leader)

-- The waiting loop over the states that its looks find, the last before the deadline at the end.
unfoldable pub await : LogIndex → Term → List Node → Answer
unfolding poll
await index term [] = refused timeout
await index term (n ∷ later) =
    let rest = await index term later in elim (poll index term n) [ none ↦ rest | some a ↦ a ]

pub record NodeStatus : Type 0 where
  pub node_id : String
  pub state : String
  pub term : Term
  pub commit_index : LogIndex
  pub last_applied : LogIndex
  pub peers : List String
  pub leader_id : String

unfoldable pub status : Node → NodeStatus
unfolding state_string
status n = record {
  node_id = n.id;
  state = state_string n.state;
  term = n.current_term;
  commit_index = n.commit_index;
  last_applied = n.last_applied;
  peers = n.peers;
  leader_id = n.leader_id;
}

unfoldable pub is_leader : Node → Bool
is_leader n = is_leader_state n.state
