-- ===== src/Raft/Append/Merge.antt =====
-- The loop of `HandleAppendEntries` against `merge` and `fresh`, which describe its result.
use gammaflow.Base.{
  ℕ, suc, ◌+◌, ◌<◌, ◌≡◌, refl, sym, ap, ◌∙◌, some, List, [], ◌∷◌, ◌++◌, arith, tests, add64, sub64,
  ltb, ◌==◌, if◌then◌else◌, Bool-cases, inl, inr, true, false, length, get_elem?, take, drop,
  int_max, take-append-drop, take_all, drop_all, drop-get_elem?, take-suc, get_elem?-some,
}
use mathlib.Core.List.{append_assoc}
use native.Mathlib.Nat.{add-suc}
use native.Mathlib.Numerals.{add-one}
use gammaflow.Raft.Types.{LogIndex, LogEntry}
use gammaflow.Raft.Log
use gammaflow.Raft.Log.{RaftLog, contains, term_at, truncate_after}
use gammaflow.Raft.Log.View.{IsLog, term_of-get, contains-eq, term_at-eq, truncate_after-eq}
use gammaflow.Raft.Node.{Node, save_entries, save_wal_entries}
use gammaflow.Raft.Append.{extend, store_entries}

-- The log behind the previous entry, after a message with the entries `new`.
abbrev pub merge : List LogEntry → List LogEntry → List LogEntry
merge [] new = new
merge (o ∷ old) [] = o ∷ old
merge (o ∷ old) (e ∷ new) =
    let rest = merge old new in if o.term == e.term then o ∷ rest else e ∷ new

-- What of `new` is written: its rest from the first disagreement on.
abbrev pub fresh : List LogEntry → List LogEntry → List LogEntry
fresh [] new = new
fresh (o ∷ old) [] = []
fresh (o ∷ old) (e ∷ new) = let rest = fresh old new in if o.term == e.term then rest else e ∷ new

-- The node after a message whose entries go to the places from `k` on.
abbrev pub stored : ℕ → List LogEntry → Node → Node
stored k es n =
    let old = drop k n.log.entries in
    save_entries (fresh old es)
      (record n { log = record { entries = take k n.log.entries ++ merge old es } })

merge-nil : (old : List LogEntry) → merge old [] ≡ old
merge-nil [] = refl
merge-nil (o ∷ old) = refl

fresh-nil : (old : List LogEntry) → fresh old [] ≡ []
fresh-nil [] = refl
fresh-nil (o ∷ old) = refl

stored-nil : (k : ℕ) (n : Node) → stored k [] n ≡ n
unfolding save_entries save_wal_entries
stored-nil k n = rw (
  merge-nil (drop k n.log.entries),
  fresh-nil (drop k n.log.entries),
  take-append-drop k n.log.entries,
)

module _ (k : ℕ) (e : LogEntry) (es : List LogEntry) (n : Node) where
  -- Nothing stands at place `k`.
  stored_end : length n.log.entries ≡ k → stored k (e ∷ es) n ≡ extend n.log (e ∷ es) n
  unfolding extend Log.append
  stored_end h = rw (drop_all k n.log.entries (omega arith), take_all k n.log.entries (omega arith))

  module _ {o : LogEntry} (at : get_elem? n.log.entries k ≡ some o) where
    -- The entry at place `k` agrees, and stays.
    stored_agree : (o.term == e.term) ≡ true → stored k (e ∷ es) n ≡ stored (suc k) es n
    stored_agree h =
        rw (drop-get_elem? n.log.entries k at, h, take-suc n.log.entries k at, append_assoc)

    -- It differs, and is replaced with all that follows.
    stored_replace :
        (o.term == e.term) ≡ false
        → stored k (e ∷ es) n ≡ extend (record { entries = take k n.log.entries }) (e ∷ es) n
    unfolding extend Log.append
    stored_replace h = rw (drop-get_elem? n.log.entries k at, h)

next_place : (prev i : ℕ) → prev + i + 1 < int_max → add64 (add64 prev i) 1 ≡ suc (prev + i)
next_place prev i h = omega arith

place_before : (k : ℕ) → suc k < int_max → sub64 (suc k) 1 ≡ k
place_before k h = omega arith

-- The loop returns, and leaves the node that `merge` and `fresh` describe.
pub store_entries-eq :
    (prev : LogIndex) (i : ℕ) (es : List LogEntry) (n : Node)
    → IsLog n.log
    → prev + i < length n.log.entries
    → prev + i + length es < int_max
    → store_entries prev i es n ≡ some (stored (suc (prev + i)) es n)
unfolding store_entries
store_entries-eq prev i [] n w h fits = ap some (sym (stored-nil (suc (prev + i)) n))
store_entries-eq prev i (e ∷ es) n w h fits =
    let k = suc (prev + i) in
    rw (next_place prev i (omega arith), contains-eq n.log k (omega arith))
      (elim (Bool-cases (ltb k (length n.log.entries))) [
        | inl inside ↦
            let (o, at) = get_elem?-some n.log.entries k (omega tests) in
            rw
              (
                inside,
                term_at-eq n.log k (omega arith),
                term_of-get n.log.entries k at,
                place_before (prev + i) (omega arith),
                truncate_after-eq n.log (prev + i) w (omega arith),
                add-one,
              )
              (elim (Bool-cases (o.term == e.term)) [
                | inl agree ↦ rw agree (
                    store_entries-eq prev (suc i) es n w (omega tests) (omega arith)
                    ∙ ap some (rw add-suc (sym (stored_agree k e es n at agree))))
                | inr differ ↦ rw differ (ap some (sym (stored_replace k e es n at differ)))
              ])
        | inr past ↦ rw past (ap some (sym (stored_end k e es n (omega tests))))
      ])
