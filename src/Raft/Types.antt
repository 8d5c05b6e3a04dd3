-- ===== src/Raft/Types.antt =====
-- internal/raft/types.go and errors.go: identifiers, log entries, roles and RPC messages.
use gammaflow.Base.{ℕ, String, Bool, List}

abbrev pub NodeId : Type 0
NodeId = String

-- uint64
abbrev pub Term : Type 0
Term = ℕ

-- uint64
abbrev pub LogIndex : Type 0
LogIndex = ℕ

-- []byte
abbrev pub Bytes : Type 0
Bytes = List ℕ

pub data State : Type 0 where
  follower candidate leader : State

-- The string of `State.String`. The three constants are the only values that the program makes,
-- so its `default` case is not reached.
unfoldable pub state_string : State → String
state_string follower = "follower"
state_string candidate = "candidate"
state_string leader = "leader"

pub record LogEntry : Type 0 where
  pub term : Term
  pub index : LogIndex
  pub command : Bytes

pub record RequestVoteArgs : Type 0 where
  pub term : Term
  pub candidate_id : NodeId
  pub last_log_index : LogIndex
  pub last_log_term : Term

pub record RequestVoteReply : Type 0 where
  pub term : Term
  pub vote_granted : Bool

pub record AppendEntriesArgs : Type 0 where
  pub term : Term
  pub leader_id : NodeId
  pub prev_log_index : LogIndex
  pub prev_log_term : Term
  pub entries : List LogEntry
  pub leader_commit : LogIndex

pub record AppendEntriesReply : Type 0 where
  pub term : Term
  pub success : Bool
  pub conflict_term : Term
  pub conflict_index : LogIndex

-- The errors of `SubmitCommand`: the package's own, and that of a failed WAL write.
pub data RaftError : Type 0 where
  not_leader timeout stopped : RaftError
  wal_failed : String → RaftError
