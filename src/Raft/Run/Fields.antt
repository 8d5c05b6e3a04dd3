-- ===== src/Raft/Run/Fields.antt =====
-- The fields that the leader's bookkeeping leaves alone.
use gammaflow.Base.{ℕ, suc, [], ◌∷◌, ◌≡◌, Option, none, some, List, arith}
use gammaflow.Raft.Append.{store_entries, extend}
use gammaflow.Raft.Submit.{submit}
use gammaflow.Raft.Types.{NodeId, LogIndex, LogEntry, AppendEntriesReply, Bytes}
use gammaflow.Raft.Node.{Node, save_entries}
use gammaflow.Raft.Node.Frame.{SameVote, SameDisk}
use gammaflow.Raft.Commit.{commit_to, advance_commit_index, commit_candidate, commit_if}
use gammaflow.Raft.Replication.{handle_conflict, record_match, settle}

commit_to-SameDisk : (i : LogIndex) (n : Node) {n' : Node} → commit_to i n ≡ some n' → SameDisk n n'
unfolding commit_to
commit_to-SameDisk i n h = ground arith

commit_if-SameDisk :
    (o : Option LogIndex) (n : Node) {n' : Node} → commit_if o n ≡ some n' → SameDisk n n'
commit_if-SameDisk none n h = ground arith
commit_if-SameDisk (some i) n h = commit_to-SameDisk i n h

pub advance_commit_index-SameDisk :
    (n : Node) {n' : Node} → advance_commit_index n ≡ some n' → SameDisk n n'
unfolding advance_commit_index
advance_commit_index-SameDisk n h = commit_if-SameDisk (commit_candidate n) n h

module _ (p : NodeId) (n : Node) {n' : Node} where
  pub handle_conflict-SameDisk :
      (r : AppendEntriesReply) → handle_conflict p r n ≡ some n' → SameDisk n n'
  unfolding handle_conflict
  handle_conflict-SameDisk r h = ground arith

  record_match-SameDisk : (es : List LogEntry) → record_match p es n ≡ some n' → SameDisk n n'
  unfolding record_match
  record_match-SameDisk es h = ground arith

pub settle-SameDisk :
    (p : NodeId) (es : List LogEntry) (r : AppendEntriesReply) (n : Node) {n' : Node}
    → settle p es r n ≡ some n'
    → SameDisk n n'
unfolding settle
settle-SameDisk p es r n h =
    grind (arith, handle_conflict-SameDisk, record_match-SameDisk, advance_commit_index-SameDisk)

pub store_entries-SameVote :
    (prev : LogIndex) (i : ℕ) (es : List LogEntry) (n : Node) {n' : Node}
    → store_entries prev i es n ≡ some n'
    → SameVote n n'
unfolding store_entries extend save_entries
store_entries-SameVote prev i [] n h = ground arith
store_entries-SameVote prev i (e ∷ es) n {n'} h =
    ground (arith, store_entries-SameVote prev (suc i) es n {n' = n'})

pub submit-SameVote : (command : Bytes) (n : Node) → SameVote n (submit command n).0
unfolding submit
submit-SameVote c n = ground arith
