-- ===== src/Tests/Transport.antt =====
-- Remote calls: the theorems of Transport at concrete inputs.
use gammaflow.Base.{◌≡◌, ◌≢◌, ◌⊎◌, refl, some, none, true, Option, String, List, [], ◌∷◌}
use gammaflow.Raft.Types.{NodeId, AppendEntriesReply}
use gammaflow.Raft.Node.{Node}
use gammaflow.Raft.Append.{handle_append_entries}
use gammaflow.Transport.Proto.{
  vote_request, append_request, vote_args, append_args, vote_response, append_response, vote_reply,
  append_reply,
}
use gammaflow.Transport.Client.{
  Result, ok, failed, Grpc, GrpcTransport, new_grpc_transport, find_conn, dial, connect, get_conn,
  call_request_vote, call_append_entries, send_request_vote, send_append_entries, close_all, close,
}
use gammaflow.Transport.Server.{request_vote, append_entries}
use gammaflow.Transport.Calls.{remote_append}
use gammaflow.Transport.Connections.{NoWay, get_conn-one, get_conn-fails}
use gammaflow.Tests.Data.{follower_2, append_3, node_after, raft_calls}

unfoldable transport_calls : List String
unfolding raft_calls vote_request append_request vote_args append_args vote_response append_response
    vote_reply append_reply new_grpc_transport find_conn dial connect get_conn call_request_vote
    call_append_entries send_request_vote send_append_entries close_all close request_vote
    append_entries
transport_calls = []

abbrev answered {ℓ} : {A : Type ℓ} → Option (Node × A) → Result A
answered none = failed "the peer is gone"
answered (some (n, a)) = ok a

-- A network that brings every call to one follower, and the address of the peer.
abbrev loopback : Grpc
loopback = record {
  Conn = String;
  new_client = λ attempt addr. ok addr;
  request_vote = λ conn req. answered (request_vote req follower_2);
  append_entries = λ conn req. answered (append_entries req follower_2);
  close = λ conn. none;
}

abbrev start : GrpcTransport loopback
start = new_grpc_transport loopback (λ id. some "10.0.0.1:9090")

abbrev connected : GrpcTransport loopback
connected = record start { conns = ("node-1", "10.0.0.1:9090") ∷ [] }

abbrev success : AppendEntriesReply
success = record { term = 3; success = true; conflict_term = 0; conflict_index = 0 }

remote_append_example :
    (reply : AppendEntriesReply) × (handle_append_entries append_3 follower_2
      ≡ some (node_after (handle_append_entries append_3 follower_2), reply))
    × (send_append_entries loopback "node-1" append_3 start start ≡ (connected, (reply, none)))
unfolding transport_calls
remote_append_example =
    remote_append loopback "node-1" start start refl append_3 follower_2
      {resp = append_response success} refl refl

-- The connection that was made first is the one that later calls find.
get_conn-one_example :
    (find_conn loopback "node-1" connected.conns ≡ some "10.0.0.1:9090")
    × ((j : NodeId)
        → j ≢ "node-1"
        → find_conn loopback j connected.conns ≡ find_conn loopback j start.conns)
    × ((seen' : GrpcTransport loopback)
        → (find_conn loopback "node-1" seen'.conns ≡ none)
          ⊎ (find_conn loopback "node-1" seen'.conns ≡ some "10.0.0.1:9090")
        → get_conn loopback "node-1" seen' connected ≡ (connected, ok "10.0.0.1:9090"))
unfolding transport_calls
get_conn-one_example = get_conn-one loopback "node-1" start start (λ c h. h) refl

-- A peer that refuses every attempt.
abbrev deaf : Grpc
deaf = record loopback { new_client = λ attempt addr. failed "refused" }

abbrev alone : GrpcTransport deaf
alone = new_grpc_transport deaf (λ id. some "10.0.0.1:9090")

get_conn-fails_example :
    (alone ≡ alone) × (find_conn deaf "node-1" alone.conns ≡ none) × NoWay deaf "node-1" alone
unfolding transport_calls
get_conn-fails_example = get_conn-fails deaf "node-1" alone alone refl
