-- ===== src/Transport/Client.antt =====
-- internal/transport/grpc.go: the connections of a node to its peers, and the RPCs over them.
use Prim.Native.String.{◌++◌ as ◌++ₜ◌}
use gammaflow.Base.{
  ℕ, zero, suc, String, false, Option, none, some, List, [], ◌∷◌, if◌then◌else◌, str_eq,
}
use gammaflow.Raft.Types.{
  NodeId, RequestVoteArgs, RequestVoteReply, AppendEntriesArgs, AppendEntriesReply,
}
use gammaflow.Transport.Proto.{
  VoteRequest, VoteResponse, AppendRequest, AppendResponse, vote_request, append_request,
  vote_reply, append_reply,
}

-- A result or the text of an error.
pub data Result {ℓ} (A : Type ℓ) : Type ℓ where
  ok : A → Result A
  failed : String → Result A

-- gRPC: what `grpc.NewClient` gives at each attempt, and what each call of a connection gives.
pub record Grpc : Type 1 where
  pub Conn : Type 0
  pub new_client : (attempt : ℕ) → String → Result Conn
  pub request_vote : Conn → VoteRequest → Result VoteResponse
  pub append_entries : Conn → AppendRequest → Result AppendResponse
  pub close : Conn → Option String

module _ (g : Grpc) where
  -- `map[raft.NodeID]*grpc.ClientConn`, in the order in which `Close` ranges over it.
  abbrev pub Conns : Type 0
  Conns = List (NodeId × g.Conn)

  pub record GrpcTransport : Type 0 where
    pub conns : Conns
    pub addrs : NodeId → Option String

  unfoldable pub new_grpc_transport : (NodeId → Option String) → GrpcTransport
  new_grpc_transport addrs = record { conns = []; addrs = addrs }

  -- conns[target], with whether it is there.
  unfoldable pub find_conn : NodeId → Conns → Option g.Conn
  find_conn target [] = none
  find_conn target ((id, conn) ∷ rest) =
      let later = find_conn target rest in if str_eq target id then some conn else later

  -- `for attempt := 0; attempt < 3; attempt++`, with the attempts that are left and the last error.
  unfoldable pub dial : ℕ → ℕ → Result g.Conn → String → Result g.Conn
  dial zero attempt last addr = last
  dial (suc left) attempt last addr = elim (g.new_client attempt addr) [
    | ok conn ↦ ok conn
    | failed e ↦ dial left (suc attempt) (failed e) addr
  ]

  -- The part of `getConn` under the write lock.
  unfoldable pub connect : NodeId → GrpcTransport → GrpcTransport × Result g.Conn
  connect target t = elim (find_conn target t.conns) [
    | some conn ↦ (t, ok conn)
    | none ↦ elim (t.addrs target) [
      | none ↦ (t, failed ("unknown peer: " ++ₜ target))
      | some addr ↦ elim (dial 3 0 (failed "") addr) [
        | failed e ↦ (t, failed ("connect to " ++ₜ target ++ₜ " (" ++ₜ addr ++ₜ "): " ++ₜ e))
        | ok conn ↦ (record t { conns = (target, conn) ∷ t.conns }, ok conn)
      ]
    ]
  ]

  abbrev pub or_connect : Option g.Conn → NodeId → GrpcTransport → GrpcTransport × Result g.Conn
  or_connect none target t = connect target t
  or_connect (some conn) target t = (t, ok conn)

  -- `getConn`: `seen` is the state under the read lock, `t` that under the write lock.
  unfoldable pub get_conn : NodeId → GrpcTransport → GrpcTransport → GrpcTransport × Result g.Conn
  get_conn target seen t = or_connect (find_conn target seen.conns) target t

  abbrev no_vote : RequestVoteReply
  no_vote = record { term = 0; vote_granted = false }

  abbrev no_reply : AppendEntriesReply
  no_reply = record { term = 0; success = false; conflict_term = 0; conflict_index = 0 }

  -- What `SendRequestVote` and `SendAppendEntries` return: the reply, and the error.
  abbrev pub vote_result : NodeId → Result VoteResponse → RequestVoteReply × Option String
  vote_result target (failed e) = (no_vote, some ("RequestVote to " ++ₜ target ++ₜ ": " ++ₜ e))
  vote_result target (ok resp) = (vote_reply resp, none)

  abbrev pub append_result : NodeId → Result AppendResponse → AppendEntriesReply × Option String
  append_result target (failed e) = (no_reply, some ("AppendEntries to " ++ₜ target ++ₜ ": " ++ₜ e))
  append_result target (ok resp) = (append_reply resp, none)

  -- What follows `getConn`.
  unfoldable pub call_request_vote :
      NodeId → RequestVoteArgs → Result g.Conn → RequestVoteReply × Option String
  call_request_vote target args (failed e) = (no_vote, some e)
  call_request_vote target args (ok conn) =
      vote_result target (g.request_vote conn (vote_request args))

  unfoldable pub call_append_entries :
      NodeId → AppendEntriesArgs → Result g.Conn → AppendEntriesReply × Option String
  call_append_entries target args (failed e) = (no_reply, some e)
  call_append_entries target args (ok conn) =
      append_result target (g.append_entries conn (append_request args))

  -- `SendRequestVote` and `SendAppendEntries`.
  unfoldable pub send_request_vote :
      NodeId
      → RequestVoteArgs
      → GrpcTransport
      → GrpcTransport
      → GrpcTransport × (RequestVoteReply × Option String)
  send_request_vote target args seen t =
      let (t', conn) = get_conn target seen t in (t', call_request_vote target args conn)

  unfoldable pub send_append_entries :
      NodeId
      → AppendEntriesArgs
      → GrpcTransport
      → GrpcTransport
      → GrpcTransport × (AppendEntriesReply × Option String)
  send_append_entries target args seen t =
      let (t', conn) = get_conn target seen t in (t', call_append_entries target args conn)

  -- The loop of `Close`: the first error is kept.
  unfoldable pub close_all : Conns → Option String → Option String
  close_all [] first = first
  close_all ((id, conn) ∷ rest) first =
      let now : Option String = elim (g.close conn) [
        | none ↦ first
        | some e ↦ elim first [
          | none ↦ some ("close conn to " ++ₜ id ++ₜ ": " ++ₜ e)
          | some f ↦ some f
        ]
      ] in
      close_all rest now

  -- `Close`
  unfoldable pub close : GrpcTransport → GrpcTransport × Option String
  close t = (record t { conns = [] }, close_all t.conns none)
