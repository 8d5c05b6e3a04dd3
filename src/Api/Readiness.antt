-- ===== src/Api/Readiness.antt =====
-- The readiness probe of internal/api/handler.go.
use gammaflow.Base.{◌+◌, ◌≤◌, ◌<◌, ◌≡◌, ◌↔◌, arith, int_max}
use gammaflow.Raft.Node.{Node}
use gammaflow.Raft.Submit.{status}
use gammaflow.Api.{answer, ready, handle_readyz}

-- The probe answers that the node is ready exactly if the apply loop is at most ten entries behind.
-- (The indices are within the range of an `int`, and no more was applied than committed.)
pub handle_readyz_iff :
    (n : Node)
    → n.commit_index < int_max
    → n.last_applied ≤ n.commit_index
    → (handle_readyz n ≡ answer 200 ready) ↔ (n.commit_index ≤ n.last_applied + 10)
unfolding handle_readyz status
handle_readyz_iff n fits applied = ground arith
