-- ===== src/Raft/Append/Entries.antt =====
-- Where `merge` keeps, replaces and adds entries.
use gammaflow.Base.{
  ℕ, zero, suc, ◌+◌, ◌≤◌, ◌<◌, ◌≡◌, refl, ap, ◌⊎◌, List, [], ◌∷◌, ◌++◌, arith, inl, inr, length,
  take, drop,
}
use native.Mathlib.Nat.{suc-add}
use gammaflow.Raft.Types.{LogEntry}
use gammaflow.Raft.Log.View.{term_of}
use gammaflow.Raft.Append.Merge.{merge}

-- The whole log after a message whose entries go to the places from `k` on.
abbrev pub merged : ℕ → List LogEntry → List LogEntry → List LogEntry
merged k es log = take k log ++ merge (drop k log) es

length-merge :
    (old new : List LogEntry)
    → (length new ≤ length (merge old new))
      × ((length (merge old new) ≤ length old) ⊎ (length (merge old new) ≤ length new))
length-merge [] new = (omega arith, inr (omega arith))
length-merge (o ∷ old) [] = (omega arith, inl (omega arith))
length-merge (o ∷ old) (e ∷ new) = ground (arith, length-merge old new)

term-merge :
    (old new : List LogEntry) (j : ℕ) → j < length new → term_of (merge old new) j ≡ term_of new j
term-merge [] new j h = refl
term-merge (o ∷ old) [] j h = absurd (omega arith)
term-merge (o ∷ old) (e ∷ new) zero h = ground arith
term-merge (o ∷ old) (e ∷ new) (suc j) h = ground (arith, term-merge old new j)

take-merge :
    (m : ℕ) (old new : List LogEntry)
    → m ≤ length old
    → ((j : ℕ) → j < length new → j < m → term_of old j ≡ term_of new j)
    → take m (merge old new) ≡ take m old
take-merge zero old new h same = refl
take-merge (suc m) [] new h same = absurd (omega arith)
take-merge (suc m) (o ∷ old) [] h same = refl
take-merge (suc m) (o ∷ old) (e ∷ new) h same = ground (
  arith,
  same 0,
  take-merge m old new (omega arith) (λ j p q. same (suc j) (omega arith) (omega arith)),
)

-- A message of which nothing is news changes nothing.
merge_known :
    (old new : List LogEntry)
    → length new ≤ length old
    → ((j : ℕ) → j < length new → term_of old j ≡ term_of new j)
    → merge old new ≡ old
merge_known [] [] h same = refl
merge_known [] (e ∷ new) h same = absurd (omega arith)
merge_known (o ∷ old) [] h same = refl
merge_known (o ∷ old) (e ∷ new) h same =
    ground (arith, same 0, merge_known old new (omega arith) (λ j p. same (suc j) (omega arith)))

module _ (es : List LogEntry) where
  pub length-merged :
      (k : ℕ) (log : List LogEntry)
      → k ≤ length log
      → (k + length es ≤ length (merged k es log))
        × ((length (merged k es log) ≤ length log) ⊎ (length (merged k es log) ≤ k + length es))
  length-merged zero log h = ground (arith, length-merge log es)
  length-merged (suc k) [] h = absurd (omega arith)
  length-merged (suc k) (x ∷ log) h = ground (arith, length-merged k log)

  pub term-merged :
      (k : ℕ) (log : List LogEntry) (j : ℕ)
      → k ≤ length log
      → j < length es
      → term_of (drop k (merged k es log)) j ≡ term_of es j
  term-merged zero log j h p = term-merge log es j p
  term-merged (suc k) [] j h p = absurd (omega arith)
  term-merged (suc k) (x ∷ log) j h p = term-merged k log j (omega arith) p

  pub take-merged :
      (m k : ℕ) (log : List LogEntry)
      → k ≤ length log
      → m ≤ length log
      → ((j : ℕ) → j < length es → k + j < m → term_of (drop k log) j ≡ term_of es j)
      → take m (merged k es log) ≡ take m log
  take-merged m zero log h p same = take-merge m log es p (λ j a b. same j a (omega arith))
  take-merged m (suc k) [] h p same = absurd (omega arith)
  take-merged zero (suc k) (x ∷ log) h p same = refl
  take-merged (suc m) (suc k) (x ∷ log) h p same =
      ap (λ l. x ∷ l)
        (take-merged m k log (omega arith) (omega arith) (λ j a b. same j a (omega arith)))

  pub merged_known :
      (k : ℕ) (log : List LogEntry)
      → k + length es ≤ length log
      → ((j : ℕ) → j < length es → term_of (drop k log) j ≡ term_of es j)
      → merged k es log ≡ log
  merged_known zero log h same = merge_known log es (omega arith) same
  merged_known (suc k) [] h same = absurd (omega arith)
  merged_known (suc k) (x ∷ log) h same = ap (λ l. x ∷ l) (merged_known k log (omega arith) same)

  -- Redelivery: the message is known once it was merged.
  pub merged_twice :
      (k : ℕ) (log : List LogEntry)
      → k ≤ length log
      → merged k es (merged k es log) ≡ merged k es log
  merged_twice k log h =
      merged_known k (merged k es log) (length-merged k log h).0 (λ j p. term-merged k log j h p)

pub term_of-drop : (k j : ℕ) (log : List LogEntry) → term_of (drop k log) j ≡ term_of log (k + j)
term_of-drop zero j log = ap (term_of log) (omega arith)
term_of-drop (suc k) j [] = refl
term_of-drop (suc k) j (x ∷ log) = rw suc-add (term_of-drop k j log)
