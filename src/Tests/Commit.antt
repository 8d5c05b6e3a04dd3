-- ===== src/Tests/Commit.antt =====
-- The leader's bookkeeping: the theorems of Raft/Commit and Raft/Replication at concrete inputs.
use gammaflow.Base.{◌≤◌, ◌<◌, ◌≡◌, refl, some, true, false, arith}
use gammaflow.Raft.Log.{contains, term_at}
use gammaflow.Raft.Node.{Node}
use gammaflow.Raft.Commit.{advance_commit_index}
use gammaflow.Raft.Commit.Advance.{
  IsMajority, replicas, IsLeaderLog, advance_commit_index_safe, advance_commit_index_complete,
}
use gammaflow.Raft.Types.{AppendEntriesReply}
use gammaflow.Raft.Replication.{handle_conflict}
use gammaflow.Raft.Replication.Conflict.{BacksUp, handle_conflict-BacksUp}
use gammaflow.Tests.Data.{leader_2, raft_calls}

abbrev advanced : Node
advanced = record leader_2 { commit_index = 3; committed_entries = 3 }

advance_commit_index_safe_example :
    (leader_2.commit_index ≤ advanced.commit_index)
    × (leader_2.commit_index < advanced.commit_index
        → (contains leader_2.log 3 ≡ true)
          × (term_at leader_2.log 3 ≡ some 2)
          × IsMajority (replicas 3 leader_2) leader_2)
unfolding raft_calls
advance_commit_index_safe_example = advance_commit_index_safe leader_2 refl

leader_2-IsLeaderLog : IsLeaderLog leader_2
unfolding raft_calls
leader_2-IsLeaderLog = omega arith

advance_commit_index_complete_example :
    (n' : Node) × (advance_commit_index leader_2 ≡ some n') × (3 ≤ n'.commit_index)
unfolding raft_calls
advance_commit_index_complete_example =
    advance_commit_index_complete leader_2 3 leader_2-IsLeaderLog (omega arith) (omega arith) refl
      (omega arith)

-- The peer refused the entries behind place 3: it has another entry of term 1 there.
abbrev behind : Node
behind = record leader_2 { next_index = λ p. 4 }

abbrev refusal : AppendEntriesReply
refusal = record { term = 2; success = false; conflict_term = 1; conflict_index = 1 }

handle_conflict-BacksUp_example :
    (n' : Node) × (handle_conflict "node-2" refusal behind ≡ some n') × BacksUp "node-2" behind n'
handle_conflict-BacksUp_example =
    handle_conflict-BacksUp "node-2" refusal behind (omega arith) (omega arith) (omega arith)
      (λ _ j h k. let last : j ≡ 3 = omega arith in rw last (omega arith))
