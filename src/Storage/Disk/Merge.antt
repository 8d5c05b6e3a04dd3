-- ===== src/Storage/Disk/Merge.antt =====
-- The results of several files against those of one file with all the records.
use mathlib.Core.List.{append_assoc, append-nil}
use gammaflow.Base.{ℕ, ◌≤◌, ◌<◌, ◌≡◌, ◌≢◌, refl, ap, ◌∙◌, List, [], ◌∷◌, ◌++◌, arith, eq_iff}
use gammaflow.Storage.Record.{Record, term_record, vote_record, entry_record}
use gammaflow.Storage.Replay.{Replayed, nothing, absorb, absorb_all, merge_file}

-- Terms do not fall and are not 0, and votes name a candidate; the first argument is the term so far.
abbrev pub InOrder : ℕ → List Record → Type 0
InOrder b [] = Unit
InOrder b (term_record t ∷ rs) = (0 < t) × ((b ≤ t) × InOrder t rs)
InOrder b (vote_record v t ∷ rs) = (v ≢ "") × ((0 < t) × ((b ≤ t) × InOrder t rs))
InOrder b (entry_record i t c ∷ rs) = InOrder b rs

merge-absorb :
    (r : Record) (rs : List Record) (s t : Replayed)
    → InOrder (merge_file s t).term (r ∷ rs)
    → (merge_file s (absorb r t) ≡ absorb r (merge_file s t))
      × InOrder (merge_file s (absorb r t)).term rs
unfolding absorb
merge-absorb (term_record u) rs s t o = ground (arith, o)
merge-absorb (vote_record v u) rs s t o = ground (arith, o, eq_iff v "")
merge-absorb (entry_record i u c) rs s t o =
    ground (
      arith,
      o,
      append_assoc s.entries t.entries (record { index = i; term = u; command = c } ∷ []),
    )

pub merge-absorb_all :
    (rs : List Record) (s t : Replayed)
    → InOrder (merge_file s t).term rs
    → merge_file s (absorb_all rs t) ≡ absorb_all rs (merge_file s t)
merge-absorb_all [] s t o = refl
merge-absorb_all (r ∷ rs) s t o =
    let (step, o') = merge-absorb r rs s t o in
    merge-absorb_all rs s (absorb r t) o' ∙ ap (absorb_all rs) step

pub merge-nothing : (s : Replayed) → merge_file s nothing ≡ s
merge-nothing s = ap (λ es. record s { entries = es }) (append-nil s.entries)

-- What a file adds.
pub merge-file :
    (rs : List Record) (s : Replayed)
    → InOrder s.term rs
    → merge_file s (absorb_all rs nothing) ≡ absorb_all rs s
merge-file rs s o = merge-absorb_all rs s nothing o ∙ ap (absorb_all rs) (merge-nothing s)

pub InOrder-append :
    (rs ss : List Record) (s : Replayed)
    → InOrder s.term (rs ++ ss)
    → InOrder s.term rs × InOrder (absorb_all rs s).term ss
unfolding absorb
InOrder-append [] ss s o = (tt, o)
InOrder-append (term_record u ∷ rs) ss s o =
    let (first, rest) = InOrder-append rs ss (absorb (term_record u) s) o.1.1 in
    ((o.0, (o.1.0, first)), rest)
InOrder-append (vote_record v u ∷ rs) ss s o =
    let same : (absorb (vote_record v u) s).term ≡ u = ground (arith, o) in
    let (first, rest) = InOrder-append rs ss (absorb (vote_record v u) s) (rw same o.1.1.1) in
    ((o.0, (o.1.0, (o.1.1.0, rw same at first))), rest)
InOrder-append (entry_record i u c ∷ rs) ss s o =
    InOrder-append rs ss (absorb (entry_record i u c) s) o
