-- ===== src/Tests/Text.antt =====
-- Texts as lists of character numbers, for the codecs of the tests.
use Prim.Native.Nat.{Ordering, compare as compare_ℕ}
use Prim.Native.Char.{Char, char, code, IsLt}
use Prim.Native.String.{String, [] as empty, ◌∷◌ as ◌∷ₜ◌}
use gammaflow.Base.{ℕ, ◌≡◌, refl, ap, ◌∙◌, Option, some, none, List, [], ◌∷◌, ◌>>=◌}

-- The clauses of `IsScalar`, for the three comparisons that it makes.
abbrev BothLt : Ordering → Ordering → Type 0
BothLt Ordering.lt o = IsLt o
BothLt Ordering.eq _ = ⊥
BothLt Ordering.gt _ = ⊥

abbrev Scalar : Ordering → Ordering → Ordering → Type 0
Scalar Ordering.lt _ _ = Unit
Scalar Ordering.eq o p = BothLt o p
Scalar Ordering.gt o p = BothLt o p

abbrev find_lt : (o : Ordering) → Option (IsLt o)
find_lt Ordering.lt = some tt
find_lt Ordering.eq = none
find_lt Ordering.gt = none

abbrev find_both : (o p : Ordering) → Option (BothLt o p)
find_both Ordering.lt p = find_lt p
find_both Ordering.eq p = none
find_both Ordering.gt p = none

abbrev find_scalar : (a o p : Ordering) → Option (Scalar a o p)
find_scalar Ordering.lt o p = some tt
find_scalar Ordering.eq o p = find_both o p
find_scalar Ordering.gt o p = find_both o p

found_lt : (o : Ordering) (h : IsLt o) → find_lt o ≡ some h
found_lt Ordering.lt h = refl
found_lt Ordering.eq h = absurd h
found_lt Ordering.gt h = absurd h

found_both : (o p : Ordering) (h : BothLt o p) → find_both o p ≡ some h
found_both Ordering.lt p h = found_lt p h
found_both Ordering.eq p h = absurd h
found_both Ordering.gt p h = absurd h

found_scalar : (a o p : Ordering) (h : Scalar a o p) → find_scalar a o p ≡ some h
found_scalar Ordering.lt o p h = refl
found_scalar Ordering.eq o p h = found_both o p h
found_scalar Ordering.gt o p h = found_both o p h

abbrev char_of : ℕ → Option Char
char_of n = find_scalar (compare_ℕ n 55296) (compare_ℕ 57343 n) (compare_ℕ n 1114112) >>= λ h.
    some (char n h)

char_of-code : (c : Char) → char_of (code c) ≡ some c
char_of-code (char n h) =
    ap (λ o. o >>= λ p. some (char n p))
      (found_scalar (compare_ℕ n 55296) (compare_ℕ 57343 n) (compare_ℕ n 1114112) h)

-- The numbers of a text, and after them a list.
abbrev pub codes : String → List ℕ
codes empty = []
codes (c ∷ₜ s) = code c ∷ codes s

abbrev pub text_of : List ℕ → Option String
text_of [] = some empty
text_of (n ∷ ns) = char_of n >>= λ c. text_of ns >>= λ s. some (c ∷ₜ s)

pub text_of-codes : (s : String) → text_of (codes s) ≡ some s
text_of-codes empty = refl
text_of-codes (c ∷ₜ s) =
    ap (λ o. o >>= λ d. text_of (codes s) >>= λ t. some (d ∷ₜ t)) (char_of-code c)
    ∙ ap (λ o. o >>= λ t. some (c ∷ₜ t)) (text_of-codes s)
