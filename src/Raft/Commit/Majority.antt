-- ===== src/Raft/Commit/Majority.antt =====
-- Places in a sorted list, and how many elements reach a number.
use gammaflow.Base.{
  ℕ, zero, suc, ◌≤◌, ◌<◌, ◌≡◌, refl, some, List, [], ◌∷◌, arith, leb, if◌then◌else◌, length,
  get_elem?,
}
use gammaflow.Raft.Commit.{insert_desc, sort_desc}

-- How many elements reach `d`.
abbrev pub count_reaching : ℕ → List ℕ → ℕ
count_reaching d [] = 0
count_reaching d (x ∷ xs) = let rest = count_reaching d xs in if leb d x then suc rest else rest

abbrev pub AllLe : ℕ → List ℕ → Type 0
AllLe b [] = Unit
AllLe b (x ∷ xs) = (x ≤ b) × AllLe b xs

abbrev IsDesc : List ℕ → Type 0
IsDesc [] = Unit
IsDesc (x ∷ xs) = AllLe x xs × IsDesc xs

AllLe-trans : (a b : ℕ) (xs : List ℕ) → a ≤ b → AllLe a xs → AllLe b xs
AllLe-trans a b [] h all = tt
AllLe-trans a b (x ∷ xs) h all = (omega arith, AllLe-trans a b xs h all.1)

AllLe-insert : (b x : ℕ) (xs : List ℕ) → x ≤ b → AllLe b xs → AllLe b (insert_desc x xs)
unfolding insert_desc
AllLe-insert b x [] h all = (h, tt)
AllLe-insert b x (y ∷ ys) h all = ground (arith, AllLe-insert b x ys)

insert-IsDesc : (x : ℕ) (xs : List ℕ) → IsDesc xs → IsDesc (insert_desc x xs)
unfolding insert_desc
insert-IsDesc x [] s = (tt, tt)
insert-IsDesc x (y ∷ ys) s =
    ground (arith, insert-IsDesc x ys, AllLe-insert y x ys, AllLe-trans y x ys)

sort-IsDesc : (xs : List ℕ) → IsDesc (sort_desc xs)
unfolding sort_desc
sort-IsDesc [] = tt
sort-IsDesc (x ∷ xs) = insert-IsDesc x (sort_desc xs) (sort-IsDesc xs)

count-insert :
    (d x : ℕ) (xs : List ℕ) → count_reaching d (insert_desc x xs) ≡ count_reaching d (x ∷ xs)
unfolding insert_desc
count-insert d x [] = refl
count-insert d x (y ∷ ys) = ground (arith, count-insert d x ys)

count-sort : (d : ℕ) (xs : List ℕ) → count_reaching d (sort_desc xs) ≡ count_reaching d xs
unfolding sort_desc
count-sort d [] = refl
count-sort d (x ∷ xs) = ground (arith, count-insert d x (sort_desc xs), count-sort d xs)

length-insert : (x : ℕ) (xs : List ℕ) → length (insert_desc x xs) ≡ suc (length xs)
unfolding insert_desc
length-insert x [] = refl
length-insert x (y ∷ ys) = ground (arith, length-insert x ys)

pub length-sort : (xs : List ℕ) → length (sort_desc xs) ≡ length xs
unfolding sort_desc
length-sort [] = refl
length-sort (x ∷ xs) = ground (arith, length-insert x (sort_desc xs), length-sort xs)

count-above : (d b : ℕ) (xs : List ℕ) → AllLe b xs → b < d → count_reaching d xs ≡ 0
count-above d b [] all h = refl
count-above d b (x ∷ xs) all h = ground (arith, count-above d b xs)

AllLe-get : (b : ℕ) (xs : List ℕ) (k : ℕ) {c : ℕ} → AllLe b xs → get_elem? xs k ≡ some c → c ≤ b
AllLe-get b [] k all e = ground arith
AllLe-get b (x ∷ xs) zero all e = ground arith
AllLe-get b (x ∷ xs) (suc k) all e = AllLe-get b xs k all.1 e

at_place :
    (xs : List ℕ) (k : ℕ) {c : ℕ}
    → IsDesc xs
    → get_elem? xs k ≡ some c
    → (k < count_reaching c xs) × ((d : ℕ) → c < d → count_reaching d xs ≤ k)
at_place [] k s e = ground arith
at_place (x ∷ xs) zero {c} s e = (ground arith, λ d h. ground (arith, count-above d x xs))
at_place (x ∷ xs) (suc k) {c} s e =
    let (reach, above) = at_place xs k s.1 e in
    let le = AllLe-get x xs k s.0 e in (ground (arith, reach, le), λ d h. ground (arith, above d h))

-- More than `k` elements reach the one at place `k`, and no more than `k` reach a greater number.
pub sorted_place :
    (xs : List ℕ) (k : ℕ) {c : ℕ}
    → get_elem? (sort_desc xs) k ≡ some c
    → (k < count_reaching c xs) × ((d : ℕ) → k < count_reaching d xs → d ≤ c)
sorted_place xs k {c} e =
    let (reach, above) = at_place (sort_desc xs) k (sort-IsDesc xs) e in
    (omega (arith, reach, count-sort c xs), λ d h. ground (arith, above d, count-sort d xs))
