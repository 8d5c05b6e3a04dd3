-- ===== src/Transport/Server.antt =====
-- internal/transport/server.go: the RPCs that a node serves. `Serve` and `Stop` are gRPC's.
use gammaflow.Base.{Option, some, ◌>>=◌}
use gammaflow.Raft.Node.{Node}
use gammaflow.Raft.Vote.{handle_request_vote}
use gammaflow.Raft.Append.{handle_append_entries}
use gammaflow.Transport.Proto.{
  VoteRequest, VoteResponse, AppendRequest, AppendResponse, vote_args, append_args, vote_response,
  append_response,
}

-- `none` is a panic of the node.
unfoldable pub request_vote : VoteRequest → Node → Option (Node × VoteResponse)
request_vote req n = do
  (n', reply) ← handle_request_vote (vote_args req) n
  some (n', vote_response reply)

unfoldable pub append_entries : AppendRequest → Node → Option (Node × AppendResponse)
append_entries req n = do
  (n', reply) ← handle_append_entries (append_args req) n
  some (n', append_response reply)
