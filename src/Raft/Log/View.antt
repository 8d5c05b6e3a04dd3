-- ===== src/Raft/Log/View.antt =====
-- The log as a plain list: what each method of log.go computes while indices and lengths fit an
-- `int`, so that the conversions are exact and no bound is out of range.
use gammaflow.Base.{
  ℕ, zero, suc, ◌+◌, ◌-◌, ◌≤◌, ◌<◌, ◌≡◌, refl, ap, ◌∙◌, none, some, List, [], ◌∷◌, arith, ltb,
  length, get_elem?, take, drop, slice-eq, take_none, int_max, ◌>>=◌, take_all, drop_all,
  length-drop, get_elem?-none,
}
use gammaflow.Raft.Types.{Term, LogIndex, LogEntry}
use gammaflow.Raft.Log.{
  RaftLog, last_index, last_term, truncate_after, entries, entries_from, contains, term_at,
}

-- A slice that a Go program can hold, with at least the sentinel.
pub record IsLog (l : RaftLog) : Type 0 where
  pub has_sentinel : 0 < length l.entries
  pub fits : length l.entries < int_max

-- The term at a place of a list of entries, 0 outside.
abbrev pub term_of : List LogEntry → ℕ → Term
term_of [] i = 0
term_of (e ∷ es) zero = e.term
term_of (e ∷ es) (suc i) = term_of es i

pub term_of-get :
    (es : List LogEntry) (i : ℕ) {e : LogEntry} → get_elem? es i ≡ some e → term_of es i ≡ e.term
term_of-get [] i h = ground arith
term_of-get (x ∷ es) zero h = ground arith
term_of-get (x ∷ es) (suc i) h = term_of-get es i h

pub get-term_of :
    (es : List LogEntry) (i : ℕ)
    → i < length es
    → (get_elem? es i >>= λ e. some e.term) ≡ some (term_of es i)
get-term_of [] i h = absurd (omega arith)
get-term_of (e ∷ es) zero h = refl
get-term_of (e ∷ es) (suc i) h = get-term_of es i (omega arith)

pub term_of-out : (es : List LogEntry) (i : ℕ) → length es ≤ i → term_of es i ≡ 0
term_of-out [] i h = refl
term_of-out (e ∷ es) zero h = absurd (omega arith)
term_of-out (e ∷ es) (suc i) h = term_of-out es i (omega arith)

module _ (l : RaftLog) where
  pub last_index-eq : IsLog l → last_index l ≡ length l.entries - 1
  unfolding last_index
  last_index-eq w = omega arith

  pub last_term-eq : IsLog l → last_term l ≡ some (term_of l.entries (length l.entries - 1))
  unfolding last_term
  last_term-eq w = get-term_of l.entries (length l.entries - 1) (omega arith)

  pub contains-eq : (i : LogIndex) → i < int_max → contains l i ≡ ltb i (length l.entries)
  unfolding contains
  contains-eq i h = ground arith

  pub term_at-eq : (i : LogIndex) → i < int_max → term_at l i ≡ some (term_of l.entries i)
  unfolding term_at
  term_at-eq i h = ground (arith, get-term_of l.entries i, term_of-out l.entries i)

  -- Past the largest `int` the conversion is negative, the test passes, and the index panics.
  pub term_at_panics : (i : LogIndex) → IsLog l → int_max ≤ i → term_at l i ≡ none
  unfolding term_at
  term_at_panics i w h = ground (arith, get_elem?-none l.entries i)

  pub truncate_after-eq :
      (i : LogIndex)
      → IsLog l
      → i < int_max
      → truncate_after l i ≡ some (record { entries = take (i + 1) l.entries })
  unfolding truncate_after
  truncate_after-eq i w h = ground (arith, slice-eq l.entries 0 (i + 1), take_all (i + 1) l.entries)

  pub entries-eq :
      (s e : LogIndex)
      → IsLog l
      → s < int_max
      → e < int_max
      → entries l s e ≡ some (take (e + 1 - s) (drop s l.entries))
  unfolding entries
  entries-eq s e w hs he = ground (
    arith,
    take_none (e + 1 - s) (drop s l.entries),
    drop_all s l.entries,
    slice-eq l.entries s (e + 1),
    slice-eq l.entries s (length l.entries),
    take_all (e + 1 - s) (drop s l.entries),
    take_all (length l.entries - s) (drop s l.entries),
    length-drop s l.entries,
  )

  pub entries_from-eq :
      (s : LogIndex) → IsLog l → s < int_max → entries_from l s ≡ some (drop s l.entries)
  unfolding entries_from
  entries_from-eq s w h = rw (last_index-eq w) (
      entries-eq s (length l.entries - 1) w h (omega arith)
      ∙ ap some (take_all _ _ (omega (arith, length-drop s l.entries))))

pub term_of-take : (m i : ℕ) (es : List LogEntry) → i < m → term_of (take m es) i ≡ term_of es i
term_of-take zero i es h = absurd (omega arith)
term_of-take (suc m) i [] h = refl
term_of-take (suc m) zero (e ∷ es) h = refl
term_of-take (suc m) (suc i) (e ∷ es) h = term_of-take m i es (omega arith)
