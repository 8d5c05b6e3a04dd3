-- ===== src/Tests/Api.antt =====
-- The HTTP API: the theorem of Api at a concrete input, and two requests.
use gammaflow.Base.{◌↔◌, ◌≤◌, ◌+◌, arith, ℕ, ◌≡◌, refl, String, Option, some, none, List, [], ◌∷◌}
use gammaflow.Raft.Types.{NodeId}
use gammaflow.Raft.Node.{Node}
use gammaflow.Raft.Submit.{is_leader}
use gammaflow.Kvstore.{new_kv_store, get, serialize_put, serialize_delete}
use gammaflow.Api.Readiness.{handle_readyz_iff}
use gammaflow.Api.{
  ready, handle_readyz, Response, error, answer, redirect, redirect_to_leader, respond,
  submit_command, handle_get, handle_put, handle_delete, handle_kv,
}
use gammaflow.Tests.Data.{leader_2, follower_2, raft_calls}
use gammaflow.Tests.Text.{text_of, codes}
use gammaflow.Tests.Codecs.{command_codec}

unfoldable api_calls : List ℕ
unfolding raft_calls is_leader get serialize_put serialize_delete redirect_to_leader respond
    submit_command handle_get handle_put handle_delete handle_kv
api_calls = []

abbrev addresses : NodeId → Option String
addresses p = some "host:8080"

-- The leader when the fourth entry is applied.
abbrev later : Node
later = record leader_2 { last_applied = 4 }

abbrev put_result : Node × Response
put_result =
    handle_put addresses "/kv/x" "x" command_codec leader_2 leader_2 (leader_2 ∷ later ∷ []) later
      text_of (some (codes "1"))

-- A follower redirects, and a path without a key is refused.
redirected :
    (handle_kv addresses command_codec text_of "GET" "/kv/x" none new_kv_store
      (record follower_2 { leader_id = "node-2" })
      follower_2
      []
      follower_2).1
    ≡ redirect "http://host:8080/kv/x"
unfolding api_calls
redirected = refl

no_key :
    (handle_kv addresses command_codec text_of "GET" "/kv/" none new_kv_store leader_2 leader_2 []
      leader_2).1
    ≡ answer 400 (error "key is required")
unfolding api_calls
no_key = refl

handle_readyz_iff_example :
    (handle_readyz leader_2 ≡ answer 200 ready)
    ↔ (leader_2.commit_index ≤ leader_2.last_applied + 10)
unfolding api_calls
handle_readyz_iff_example = handle_readyz_iff leader_2 (omega arith) (omega arith)
