-- ===== src/Raft/Log/Search.antt =====
-- `FindFirstIndexOfTerm` against the first index of a term.
use gammaflow.Base.{
  ℕ, zero, suc, ◌+◌, ◌-◌, ◌≤◌, ◌<◌, ◌≡◌, ◌≢◌, List, [], ◌∷◌, arith, ◌==◌, length, drop, eq→==,
  ==→eq, Bool-cases, inl, inr,
}
use native.Mathlib.Nat.{sub_self}
use gammaflow.Raft.Types.{Term, LogIndex, LogEntry}
use gammaflow.Raft.Log.{RaftLog, find_term, find_first_index_of_term}
use gammaflow.Raft.Log.View.{term_of}

-- `r` is the first place of the term, for a list whose first place is `i`.
pub record IsFirst (t : Term) (i : ℕ) (es : List LogEntry) (r : LogIndex) : Type 0 where
  pub from : i ≤ r
  pub inside : r < i + length es
  pub has_term : term_of es (r - i) ≡ t
  pub first : (m : ℕ) → i + m < r → term_of es m ≢ t

module _ {t : Term} {i : ℕ} {x : LogEntry} {es : List LogEntry} where
  IsFirst-here : x.term ≡ t → IsFirst t i (x ∷ es) i
  IsFirst-here e = record {
    from = omega arith;
    inside = omega arith;
    has_term = rw sub_self e;
    first = λ m h. absurd (omega arith);
  }

  IsFirst-next : {r : LogIndex} → x.term ≢ t → IsFirst t (suc i) es r → IsFirst t i (x ∷ es) r
  IsFirst-next {r} ne f =
      let later : r - i ≡ suc (r - suc i) = omega (arith, f.from) in
      record {
        from = omega (arith, f.from);
        inside = omega (arith, f.inside);
        has_term = rw later f.has_term;
        first = λ m. elim m as (λ k. i + k < r → term_of (x ∷ es) k ≢ t) [
          | zero ↦ λ _. ne
          | suc k ↦ λ h. f.first k (omega arith)
        ];
      }

find_term-IsFirst :
    (t : Term) (i : ℕ) (es : List LogEntry) (j : ℕ)
    → j < length es
    → term_of es j ≡ t
    → IsFirst t i es (find_term t i es) × (find_term t i es ≤ i + j)
unfolding find_term
find_term-IsFirst t i [] j h e = absurd (omega arith)
find_term-IsFirst t i (x ∷ es) zero h e = rw (eq→== x.term t e) (IsFirst-here e, omega arith)
find_term-IsFirst t i (x ∷ es) (suc j) h e = elim (Bool-cases (x.term == t)) [
  | inl same ↦ rw same (IsFirst-here (==→eq x.term t same), omega arith)
  | inr other ↦
      let (f, le) = find_term-IsFirst t (suc i) es j (omega arith) e in
      rw other (IsFirst-next (λ same. cc (eq→== x.term t same)) f, omega arith)
]

-- The first place of a term in the log behind the sentinel.
pub record IsFirstIndex (t : Term) (es : List LogEntry) (r : LogIndex) : Type 0 where
  pub after_sentinel : 0 < r
  pub inside : r < length es
  pub has_term : term_of es r ≡ t
  pub first : (m : LogIndex) → 0 < m → m < r → term_of es m ≢ t

IsFirst-index :
    {t : Term} {x : LogEntry} {es : List LogEntry} {r : LogIndex}
    → IsFirst t 1 es r
    → IsFirstIndex t (x ∷ es) r
IsFirst-index {t} {x} {es} {r} f =
    let shift : r ≡ suc (r - 1) = omega (arith, f.from) in
    record {
      after_sentinel = omega (arith, f.from);
      inside = omega (arith, f.inside);
      has_term = rw shift f.has_term;
      first = λ m. elim m as (λ k. 0 < k → k < r → term_of (x ∷ es) k ≢ t) [
        | zero ↦ λ p _. absurd (omega arith)
        | suc k ↦ λ _ p. f.first k (omega arith)
      ];
    }

first_in :
    {t : Term} (es : List LogEntry) (i : LogIndex)
    → 0 < i
    → i < length es
    → term_of es i ≡ t
    → IsFirstIndex t es (find_term t 1 (drop 1 es)) × (find_term t 1 (drop 1 es) ≤ i)
first_in [] i p h e = absurd (omega arith)
first_in (x ∷ es) zero p h e = absurd (omega arith)
first_in {t} (x ∷ es) (suc i) p h e =
    let (f, le) = find_term-IsFirst t 1 es i (omega arith) e in (IsFirst-index f, omega arith)

-- If place `i` behind the sentinel has the term, then the result is the first such place, and at
-- most `i`.
pub find_first_index_of_term-IsFirstIndex :
    (t : Term) (l : RaftLog) (i : LogIndex)
    → 0 < i
    → i < length l.entries
    → term_of l.entries i ≡ t
    → IsFirstIndex t l.entries (find_first_index_of_term l t) × (find_first_index_of_term l t ≤ i)
unfolding find_first_index_of_term
find_first_index_of_term-IsFirstIndex t l i p h e = first_in l.entries i p h e
