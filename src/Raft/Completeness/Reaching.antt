-- ===== src/Raft/Completeness/Reaching.antt =====
-- The peers of a leader that reach an index.
use gammaflow.Base.{
  ℕ, zero, suc, ◌+◌, ◌≡◌, inl, inr, refl, ap, ◌∙◌, Bool, true, false, List, [], ◌∷◌, map, In, arith,
  leb, if◌then◌else◌, Bool-cases, str_eq, eq_iff, get_elem?, drop,
}
use gammaflow.Raft.Types.{NodeId, LogIndex, LogEntry}
use gammaflow.Raft.Commit.Majority.{count_reaching}
use gammaflow.Raft.Election.Campaign.{supporters}

pub get-drop : (k j : ℕ) (xs : List LogEntry) → get_elem? (drop k xs) j ≡ get_elem? xs (k + j)
get-drop zero j xs = ap (get_elem? xs) (omega arith)
get-drop (suc k) j [] = refl
get-drop (suc k) j (x ∷ xs) =
    let place : suc (k + j) ≡ suc k + j = omega arith in
    get-drop k j xs ∙ ap (get_elem? (x ∷ xs)) place

abbrev pub among : NodeId → List NodeId → Bool
among q [] = false
among q (p ∷ ps) = let rest = among q ps in if str_eq q p then true else rest

pub among_iff :
    (q : NodeId) (ps : List NodeId) → (In q ps → among q ps ≡ true) × (among q ps ≡ true → In q ps)
among_iff q [] = (λ h. absurd h, λ e. absurd (ground (arith, e)))
among_iff q (p ∷ ps) = elim (Bool-cases (str_eq q p)) [
  | inl same ↦ (λ _. rw same refl, λ _. inl ((eq_iff q p).0 same))
  | inr other ↦
      let (into, from) = among_iff q ps in
      (
        λ h. elim h [
          | inl e ↦ absurd (ground (arith, (eq_iff q p).1 e, other))
          | inr later ↦ rw other (into later)
        ],
        λ e. inr (from (rw other at e)),
      )
]

-- The members of a list whose number reaches `c`.
pub supporters-reaching :
    (h : NodeId → Bool) (f : NodeId → LogIndex) (c : LogIndex) (ps : List NodeId)
    → ((q : NodeId) → In q ps → h q ≡ leb c (f q))
    → supporters h ps ≡ count_reaching c (map f ps)
supporters-reaching h f c [] same = refl
supporters-reaching h f c (p ∷ ps) same =
    rw (same p (inl refl), supporters-reaching h f c ps (λ q later. same q (inr later))) refl
