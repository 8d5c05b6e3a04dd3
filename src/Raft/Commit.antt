-- ===== src/Raft/Commit.antt =====
-- internal/raft/replication.go: `advanceCommitIndexLocked`.
pub mod Majority
pub mod Advance
use gammaflow.Base.{
  ℕ, ◌+◌, ◌/◌, Option, none, some, List, [], ◌∷◌, ◌&&◌, map, ltb, leb, ◌==◌, if◌then◌else◌, length,
  get_elem?, ◌>>=◌,
}
use gammaflow.Raft.Types.{LogIndex}
use gammaflow.Raft.Log.{last_index, contains, term_at}
use gammaflow.Raft.Node.{Node}

-- `sort.Slice` with `matches[i] > matches[j]`: numbers in descending order.
unfoldable pub insert_desc : ℕ → List ℕ → List ℕ
insert_desc x [] = x ∷ []
insert_desc x (y ∷ ys) = let rest = insert_desc x ys in if ltb x y then y ∷ rest else x ∷ y ∷ ys

unfoldable pub sort_desc : List ℕ → List ℕ
unfolding insert_desc
sort_desc [] = []
sort_desc (x ∷ xs) = insert_desc x (sort_desc xs)

-- The match index of this node, and of every peer.
abbrev pub matches : Node → List LogIndex
matches n = last_index n.log ∷ map n.match_index n.peers

-- The highest index that a majority holds; `none` is the early return.
unfoldable pub commit_candidate : Node → Option LogIndex
commit_candidate n =
    let majority = (length n.peers + 1) / 2 in
    if leb (length (matches n)) majority then none else get_elem? (sort_desc (matches n)) majority

-- The assignment under the Figure 8 test.
unfoldable pub commit_to : LogIndex → Node → Option Node
commit_to index n =
    if ltb n.commit_index index && contains n.log index
    then (do
      term ← term_at n.log index
      some (
          if term == n.current_term
          then record n { commit_index = index; committed_entries = index }
          else n))
    else some n

abbrev pub commit_if : Option LogIndex → Node → Option Node
commit_if none n = some n
commit_if (some index) n = commit_to index n

unfoldable pub advance_commit_index : Node → Option Node
advance_commit_index n = commit_if (commit_candidate n) n
