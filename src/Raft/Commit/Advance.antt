-- ===== src/Raft/Commit/Advance.antt =====
-- What `advanceCommitIndexLocked` commits.
use gammaflow.Base.{
  ℕ, ◌+◌, ◌-◌, ◌*◌, ◌/◌, ◌≤◌, ◌<◌, ◌≡◌, refl, some, List, [], ◌∷◌, map, arith, true, length,
  get_elem?-some, lt→leb, lt→ltb, eq→==,
}
use gammaflow.Raft.Types.{LogIndex}
use gammaflow.Raft.Log.{contains, term_at}
use gammaflow.Raft.Log.View.{IsLog, term_of, contains-eq, term_at-eq, last_index-eq}
use gammaflow.Raft.Log.Order.{IsSorted, TermsUpTo, IsSorted-le, TermsUpTo-le}
use gammaflow.Raft.Node.{Node}
use gammaflow.Raft.Commit.{matches, commit_candidate, commit_to, sort_desc, advance_commit_index}
use gammaflow.Raft.Commit.Majority.{count_reaching, AllLe, length-sort, sorted_place}

-- The leader and its peers, as many as hold the entry at `i` for all the leader knows.
abbrev pub replicas : LogIndex → Node → ℕ
replicas i n = count_reaching i (matches n)

-- More than half of the cluster of this node and its peers.
abbrev pub IsMajority : ℕ → Node → Type 0
IsMajority k n = length n.peers + 1 < 2 * k

length-map {ℓ κ} :
    {A : Type ℓ} {B : Type κ} (f : A → B) (xs : List A) → length (map f xs) ≡ length xs
length-map f [] = refl
length-map f (x ∷ xs) = omega (arith, length-map f xs)

-- There is a candidate, it is held by a majority, and every index that a majority holds is at most
-- it.
pub commit_candidate-IsMajority :
    (n : Node)
    → (c : LogIndex) × (commit_candidate n ≡ some c)
      × IsMajority (replicas c n) n
      × ((i : LogIndex) → IsMajority (replicas i n) n → i ≤ c)
unfolding commit_candidate
commit_candidate-IsMajority n =
    let k = (length n.peers + 1) / 2 in
    let sorted = sort_desc (matches n) in
    let size = length-sort (matches n) in
    let peers = length-map n.match_index n.peers in
    let (c, at) = get_elem?-some sorted k (omega (arith, size, peers)) in
    let (held, greatest) = sorted_place (matches n) k at in
    (
      c,
      rw (lt→leb (length (matches n)) k (omega (arith, peers))) at,
      omega (arith, held),
      λ i h. greatest i (omega (arith, h)),
    )

-- INVARIANT 4: a call that does not panic never lowers the commit index, and where it raises it,
-- it is to an entry of the leader's own term that a majority of the cluster holds.
pub advance_commit_index_safe :
    (n : Node) {n' : Node}
    → advance_commit_index n ≡ some n'
    → (n.commit_index ≤ n'.commit_index)
      × (n.commit_index < n'.commit_index
          → (contains n.log n'.commit_index ≡ true)
            × (term_at n.log n'.commit_index ≡ some n.current_term)
            × IsMajority (replicas n'.commit_index n) n)
unfolding advance_commit_index commit_to
advance_commit_index_safe n h =
    let (c, candidate, held, _) = commit_candidate-IsMajority n in
    (ground (arith, candidate, h), λ rises. ground (arith, candidate, h, held))

-- What the leader knows of its own log and of the peers'.
pub record IsLeaderLog (n : Node) : Type 0 where
  pub log : IsLog n.log
  pub matched : AllLe (length n.log.entries - 1) (map n.match_index n.peers)
  pub sorted : IsSorted n.log.entries
  pub current : TermsUpTo n.current_term n.log.entries

reaching-le : (b c : ℕ) (xs : List ℕ) → AllLe b xs → 0 < count_reaching c xs → c ≤ b
reaching-le b c [] all h = absurd (omega arith)
reaching-le b c (x ∷ xs) all h = ground (arith, reaching-le b c xs)

commit_to-eq :
    (n : Node) (c : LogIndex)
    → n.commit_index < c
    → IsLog n.log
    → c < length n.log.entries
    → term_of n.log.entries c ≡ n.current_term
    → commit_to c n ≡ some (record n { commit_index = c; committed_entries = c })
unfolding commit_to
commit_to-eq n c above w inside own = rw (
  lt→ltb n.commit_index c above,
  contains-eq n.log c (omega (arith, w.fits)),
  lt→ltb c (length n.log.entries) inside,
  term_at-eq n.log c (omega (arith, w.fits)),
  eq→== (term_of n.log.entries c) n.current_term own,
)

-- And nothing is missed: an entry of the leader's term above the commit index that a majority
-- holds is committed, with all before it, and the call does not panic. (The log is within the
-- range of an `int`, its terms do not fall and are at most the current one, and no match index is
-- past its end.)
pub advance_commit_index_complete :
    (n : Node) (i : LogIndex)
    → IsLeaderLog n
    → n.commit_index < i
    → i < length n.log.entries
    → term_of n.log.entries i ≡ n.current_term
    → IsMajority (replicas i n) n
    → (n' : Node) × (advance_commit_index n ≡ some n') × (i ≤ n'.commit_index)
unfolding advance_commit_index
advance_commit_index_complete n i w above inside own held =
    let (c, candidate, heldc, greatest) = commit_candidate-IsMajority n in
    let ahead = greatest i held in
    let last = last_index-eq n.log w.log in
    let within : c ≤ length n.log.entries - 1 =
      reaching-le (length n.log.entries - 1) c (matches n) (omega (arith, last), w.matched)
        (omega (arith, heldc)) in
    let sorted =
      IsSorted-le n.log.entries i c w.sorted ahead (omega (arith, within, inside, w.log)) in
    let own_c : term_of n.log.entries c ≡ n.current_term =
      omega (arith, sorted, own, TermsUpTo-le n.current_term n.log.entries c w.current) in
    (
      record n { commit_index = c; committed_entries = c },
      rw candidate (
          commit_to-eq n c (omega (arith, above, ahead)) w.log
            (omega (arith, within, inside, w.log)) own_c),
      ahead,
    )
