-- ===== src/Api.antt =====
-- internal/api/handler.go: the handlers, from a request to its response. The node is read
-- at several moments, since it runs on between the calls; each moment's node is an argument.
pub mod Writes
pub mod Readiness
use Prim.Native.String.{◌++◌ as ◌++ₜ◌, len, slice as slice_text}
use gammaflow.Base.{
  ℤ, pos, to_int, sub64, ltb_ℤ, ℕ, ◌*◌, String, Option, none, some, List, if◌then◌else◌, str_eq,
  take, Bool, true, false,
}
use gammaflow.Raft.Types.{
  NodeId, Term, LogIndex, Bytes, RaftError, not_leader, timeout, stopped, wal_failed,
}
use gammaflow.Raft.Node.{Node}
use gammaflow.Raft.Submit.{
  Accepted, waiting, rejected, Answer, applied, refused, submit, await, is_leader, NodeStatus,
  status,
}
use gammaflow.Kvstore.Codec.{CommandCodec}
use gammaflow.Kvstore.{KvStore, get, serialize_put, serialize_delete}

abbrev pub max_request_body : ℕ
max_request_body = 1024 * 1024

-- The JSON bodies of the responses.
pub data Body : Type 0 where
  error : String → Body
  value : (key value : String) → Body
  stored : (key value : String) (index : LogIndex) (term : Term) → Body
  deleted : (key : String) → Body
  report : NodeStatus → Body
  healthy ready : Body
  not_ready : (lag : ℤ) → Body

pub data Response : Type 0 where
  answer : (status : ℕ) → Body → Response
  redirect : (url : String) → Response

-- strings.TrimPrefix
abbrev pub trim_prefix : String → String → String
trim_prefix s prefix =
    if str_eq (slice_text s 0 (len prefix)) prefix then slice_text s (len prefix) (len s) else s

abbrev pub answer_of : List Node → Accepted → Answer
answer_of looks (waiting index term) = await index term looks
answer_of looks (rejected e) = refused e

-- `SubmitCommand`: the node after the entry was appended, and the result; `looks` are the states
-- that the waiting loop finds before its deadline.
unfoldable pub submit_command : Bytes → List Node → Node → Node × Answer
submit_command command looks n = let (n', a) = submit command n in (n', answer_of looks a)

-- `err.Error()`
abbrev pub error_text : RaftError → String
error_text not_leader = "not the leader"
error_text timeout = "request timed out"
error_text stopped = "node is stopped"
error_text (wal_failed m) = m

-- `redirectToLeader`, of the addresses and the path of the request.
unfoldable pub redirect_to_leader : (NodeId → Option String) → String → Node → Response
redirect_to_leader addrs path n =
    if str_eq n.leader_id ""
    then answer 503 (error "no leader elected — try again later")
    else elim (addrs n.leader_id) [
      | none ↦ answer 503 (error "leader address unknown")
      | some addr ↦ redirect ("http://" ++ₜ addr ++ₜ path)
    ]

module _ (addrs : NodeId → Option String) (path key : String) where
  -- `handleGet`
  unfoldable pub handle_get : KvStore → Node → Response
  handle_get s n =
      let (val, ok) = get key s in
      if is_leader n
      then (if ok then answer 200 (value key val) else answer 404 (error "key not found"))
      else redirect_to_leader addrs path n

  -- What `SubmitCommand` makes of the request; `last` is the node at the redirect.
  unfoldable pub respond : (LogIndex → Term → Body) → Node → Answer → Response
  respond done last (applied index term) = answer 200 (done index term)
  respond done last (refused not_leader) = redirect_to_leader addrs path last
  respond done last (refused e) = answer 500 (error (error_text e))

  module _ (c : CommandCodec) (n m : Node) (looks : List Node) (last : Node) where
    -- `handlePut`, for the node `n` at the leader check and `m` at the submission. `body` is `none`
    -- where it cannot be read, and `read_value` is json.Unmarshal into the request's struct.
    unfoldable pub handle_put : (List ℕ → Option String) → Option (List ℕ) → Node × Response
    handle_put read_value body =
        if is_leader n
        then elim body [
          | none ↦ (m, answer 400 (error "failed to read body"))
          | some bytes ↦ elim (read_value (take max_request_body bytes)) [
            | none ↦ (m, answer 400 (error "invalid JSON body"))
            | some v ↦
                let (m', a) = submit_command (serialize_put c key v) looks m in
                (m', respond (stored key v) last a)
          ]
        ]
        else (m, redirect_to_leader addrs path n)

    -- `handleDelete`
    unfoldable pub handle_delete : Node × Response
    handle_delete =
        let (m', a) = submit_command (serialize_delete c key) looks m in
        if is_leader n
        then (m', respond (λ index term. deleted key) last a)
        else (m, redirect_to_leader addrs path n)

-- `handleKV`
unfoldable pub handle_kv :
    (NodeId → Option String)
    → CommandCodec
    → (List ℕ → Option String)
    → (method path : String) → Option (List ℕ)
    → KvStore
    → (n m : Node) (looks : List Node) (last : Node) → Node × Response
handle_kv addrs c read_value method path body s n m looks last =
    let key = trim_prefix path "/kv/" in
    if str_eq key ""
    then (m, answer 400 (error "key is required"))
    else if str_eq method "GET"
    then (m, handle_get addrs path key s n)
    else if str_eq method "PUT"
    then handle_put addrs path key c n m looks last read_value body
    else if str_eq method "DELETE"
    then handle_delete addrs path key c n m looks last
    else (m, answer 405 (error "method not allowed"))

-- `handleStatus`
unfoldable pub handle_status : (method : String) → Node → Response
handle_status method n =
    if str_eq method "GET"
    then answer 200 (report (status n))
    else answer 405 (error "method not allowed")

-- `handleHealthz`
unfoldable pub handle_healthz : Response
handle_healthz = answer 200 healthy

-- `handleReadyz`. The difference of two int64 has the bits of the difference of the two uint64.
unfoldable pub handle_readyz : Node → Response
handle_readyz n =
    let s = status n in
    let lag = to_int (sub64 s.commit_index s.last_applied) in
    if ltb_ℤ (pos 10) lag then answer 503 (not_ready lag) else answer 200 ready
