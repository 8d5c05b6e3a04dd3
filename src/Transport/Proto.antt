-- ===== src/Transport/Proto.antt =====
-- The messages of pkg/proto/raft.pb.go without the bookkeeping of protobuf, and the conversions of
-- grpc.go and server.go.
use gammaflow.Base.{ℕ, String, Bool, List, map}
use gammaflow.Raft.Types.{
  Bytes, LogEntry, RequestVoteArgs, RequestVoteReply, AppendEntriesArgs, AppendEntriesReply,
}

pub record VoteRequest : Type 0 where
  pub term : ℕ
  pub candidate_id : String
  pub last_log_index : ℕ
  pub last_log_term : ℕ

pub record VoteResponse : Type 0 where
  pub term : ℕ
  pub vote_granted : Bool

pub record LogEntryProto : Type 0 where
  pub term : ℕ
  pub index : ℕ
  pub command : Bytes

pub record AppendRequest : Type 0 where
  pub term : ℕ
  pub leader_id : String
  pub prev_log_index : ℕ
  pub prev_log_term : ℕ
  pub entries : List LogEntryProto
  pub leader_commit : ℕ

pub record AppendResponse : Type 0 where
  pub term : ℕ
  pub success : Bool
  pub conflict_term : ℕ
  pub conflict_index : ℕ

-- What the sender makes of its arguments.
unfoldable pub vote_request : RequestVoteArgs → VoteRequest
vote_request args = record {
  term = args.term;
  candidate_id = args.candidate_id;
  last_log_index = args.last_log_index;
  last_log_term = args.last_log_term;
}

abbrev pub entry_proto : LogEntry → LogEntryProto
entry_proto e = record { term = e.term; index = e.index; command = e.command }

unfoldable pub append_request : AppendEntriesArgs → AppendRequest
append_request args = record {
  term = args.term;
  leader_id = args.leader_id;
  prev_log_index = args.prev_log_index;
  prev_log_term = args.prev_log_term;
  entries = map entry_proto args.entries;
  leader_commit = args.leader_commit;
}

-- What the receiver makes of the request, and of its reply.
unfoldable pub vote_args : VoteRequest → RequestVoteArgs
vote_args req = record {
  term = req.term;
  candidate_id = req.candidate_id;
  last_log_index = req.last_log_index;
  last_log_term = req.last_log_term;
}

abbrev pub entry_of : LogEntryProto → LogEntry
entry_of e = record { term = e.term; index = e.index; command = e.command }

unfoldable pub append_args : AppendRequest → AppendEntriesArgs
append_args req = record {
  term = req.term;
  leader_id = req.leader_id;
  prev_log_index = req.prev_log_index;
  prev_log_term = req.prev_log_term;
  entries = map entry_of req.entries;
  leader_commit = req.leader_commit;
}

unfoldable pub vote_response : RequestVoteReply → VoteResponse
vote_response reply = record { term = reply.term; vote_granted = reply.vote_granted }

unfoldable pub append_response : AppendEntriesReply → AppendResponse
append_response reply = record {
  term = reply.term;
  success = reply.success;
  conflict_term = reply.conflict_term;
  conflict_index = reply.conflict_index;
}

-- What the sender makes of the response.
unfoldable pub vote_reply : VoteResponse → RequestVoteReply
vote_reply resp = record { term = resp.term; vote_granted = resp.vote_granted }

unfoldable pub append_reply : AppendResponse → AppendEntriesReply
append_reply resp = record {
  term = resp.term;
  success = resp.success;
  conflict_term = resp.conflict_term;
  conflict_index = resp.conflict_index;
}
