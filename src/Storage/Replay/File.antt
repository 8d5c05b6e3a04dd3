-- ===== src/Storage/Replay/File.antt =====
-- `replayFile` on a file that `Append` wrote, whole or cut short by a crash.
use mathlib.Core.List.{append_assoc, append-nil}
use native.Mathlib.Nat.{zero-add, add-zero, suc-add}
use gammaflow.Base.{
  ℕ, suc, ◌+◌, ◌≤◌, ◌<◌, ◌≡◌, refl, sym, ap, ◌∙◌, some, none, List, [], ◌∷◌, ◌++◌, arith, tests,
  ltb, if◌then◌else◌, length, take, length-take, length-drop, length-append, take-take, lt→ltb,
  Bool-cases, ◌⊎◌, inl, inr,
}
use gammaflow.Storage.Record.{Record, term_record, vote_record, entry_record}
use gammaflow.Storage.Codec.{Codec, tag, payload}
use gammaflow.Storage.Frame.{u32_mod, header, frame}
use gammaflow.Storage.Replay.{
  Replayed, nothing, absorb, absorb_all, decode, Found, end, corrupt, panic, valid, read_record,
  Scanned, done, scan, replay_file,
}
use gammaflow.Storage.Replay.Fuel.{scan_fuel}
use gammaflow.Storage.Replay.Scan.{
  read_record_short, frame-header, header-fields, length-frame, read-frame,
}

-- The file that `Append` made of these records.
abbrev pub encode : Codec → List Record → List ℕ
encode c [] = []
encode c (r ∷ rs) = frame (tag r) (payload c r) ++ encode c rs

-- The sizes of the records fit a uint32.
abbrev pub SizesFit : Codec → List Record → Type 0
SizesFit c [] = Unit
SizesFit c (r ∷ rs) = (length (payload c r) + 12 < u32_mod) × SizesFit c rs

decode-payload : (c : Codec) (r : Record) → decode c (tag r) (payload c r) ≡ some r
unfolding decode
decode-payload c (term_record t) = rw (c.term_law t)
decode-payload c (vote_record v t) = rw (c.vote_law v t)
decode-payload c (entry_record i t b) = rw (c.entry_law i t b)

tag-lt : (r : Record) → tag r < u32_mod
tag-lt (term_record t) = omega arith
tag-lt (vote_record v t) = omega arith
tag-lt (entry_record i t b) = omega arith

scan-record :
    (c : Codec) (f : ℕ) (r : Record) (rest : List ℕ) (offset : ℕ) (s : Replayed)
    → length (payload c r) + 12 < u32_mod
    → scan c (suc f) (frame (tag r) (payload c r) ++ rest) offset s
      ≡ scan c f rest (offset + length (frame (tag r) (payload c r))) (absorb r s)
unfolding scan
scan-record c f r rest offset s fit =
    rw (read-frame (tag r) (payload c r) rest (tag-lt r) (omega arith), scan)
      (rw (decode-payload c r) (
        ap (λ o. scan c f rest o (absorb r s)) (omega (arith, length-frame (tag r) (payload c r)))))

-- Every record that was written whole is read, in order.
scan-encode :
    (c : Codec) (f : ℕ) (rs : List Record) (tail : List ℕ) (offset : ℕ) (s : Replayed)
    → SizesFit c rs
    → scan c (length rs + f) (encode c rs ++ tail) offset s
      ≡ scan c f tail (offset + length (encode c rs)) (absorb_all rs s)
scan-encode c f [] tail offset s fit =
    rw zero-add (ap (λ o. scan c f tail o s) (sym (add-zero offset)))
scan-encode c f (r ∷ rs) tail offset s fit =
    let bytes = frame (tag r) (payload c r) in
    rw (suc-add, append_assoc bytes (encode c rs) tail)
      (scan-record c (length rs + f) r (encode c rs ++ tail) offset s fit.0
        ∙ scan-encode c f rs tail (offset + length bytes) (absorb r s) fit.1
        ∙ ap (λ o. scan c f tail o (absorb_all rs (absorb r s)))
            (omega (arith, length-append bytes (encode c rs))))

length-encode : (c : Codec) (rs : List Record) → length rs ≤ length (encode c rs)
length-encode c [] = omega arith
length-encode c (r ∷ rs) = omega (
  arith,
  length-encode c rs,
  length-frame (tag r) (payload c r),
  length-append (frame (tag r) (payload c r)) (encode c rs),
)

-- What the loop makes of a tail that starts with no whole record.
abbrev pub at_end : Found → ℕ → Replayed → Scanned
at_end corrupt offset s = done s (some offset)
at_end _ offset s = done s none

scan-tail :
    (c : Codec) (f : ℕ) (tail : List ℕ) (offset : ℕ) (s : Replayed) (found : Found)
    → read_record tail ≡ found
    → (found ≡ end) ⊎ (found ≡ corrupt)
    → scan c (suc f) tail offset s ≡ at_end found offset s
unfolding scan
scan-tail c f tail offset s end e h = rw (e, scan)
scan-tail c f tail offset s corrupt e h = rw (e, scan)
scan-tail c f tail offset s panic e h = ground arith
scan-tail c f tail offset s (valid t p rest) e h = ground arith

replay-tail :
    (c : Codec) (rs : List Record) (tail : List ℕ) (found : Found)
    → SizesFit c rs
    → read_record tail ≡ found
    → (found ≡ end) ⊎ (found ≡ corrupt)
    → replay_file c (encode c rs ++ tail)
      ≡ at_end found (length (encode c rs)) (absorb_all rs nothing)
unfolding replay_file
replay-tail c rs tail found fit e h =
    let bytes = encode c rs ++ tail in
    let size = length-append (encode c rs) tail in
    let more = length-encode c rs in
    (scan_fuel c (suc (length bytes)) (length rs + suc (length bytes)) bytes 0 nothing (omega arith)
      (omega arith)).0
    ∙ scan-encode c (suc (length bytes)) rs tail 0 nothing fit
    ∙ rw zero-add
        (scan-tail c (length bytes) tail (length (encode c rs)) (absorb_all rs nothing) found e h)

-- A file of whole records.
pub replay-encode :
    (c : Codec) (rs : List Record)
    → SizesFit c rs
    → replay_file c (encode c rs) ≡ done (absorb_all rs nothing) none
replay-encode c rs fit =
    ap (replay_file c) (sym (append-nil (encode c rs)))
    ∙ replay-tail c rs [] end fit (unfold read_record in refl) (inl refl)

-- A record that was cut short is no record: without a full header the file ends there, and with
-- one the rest is found missing.
read-torn :
    (k : ℕ) (record_type : ℕ) (p : List ℕ)
    → record_type < u32_mod
    → length p + 4 < u32_mod
    → k < length p + 12
    → read_record (take k (frame record_type p)) ≡ (if ltb k 8 then end else corrupt)
unfolding read_record
read-torn k record_type p h fits short =
    let whole = frame record_type p in
    let torn = take k whole in
    let size = length-frame record_type p in
    let cut = length-take k whole in
    elim (Bool-cases (ltb k 8)) [
      | inl few ↦ rw few (rw (lt→ltb (length torn) 8 (omega (tests, size, cut))))
      | inr many ↦
          let head : take 8 torn ≡ header record_type p =
            take-take 8 k whole (omega tests)
            ∙ ap (take 8) (sym (append-nil whole))
            ∙ frame-header record_type p [] in
          rw many (
            read_record_short torn (header record_type p) (length p) head
              (header-fields record_type p h (omega arith)).1 (omega (tests, size, cut)) fits
              (omega (tests, size, cut, length-drop 8 torn)))
    ]

-- Recovery from a crash in the middle of a write: of a file of whole records and the first `k`
-- bytes of one more, all whole records are recovered, and no more; the file is truncated behind
-- them if the tail has a full header. (Sizes fit a uint32.)
pub replay_torn :
    (c : Codec) (rs : List Record) (r : Record) (k : ℕ)
    → SizesFit c (r ∷ rs)
    → k < length (frame (tag r) (payload c r))
    → replay_file c (encode c rs ++ take k (frame (tag r) (payload c r)))
      ≡ done (absorb_all rs nothing) (if ltb k 8 then none else some (length (encode c rs)))
replay_torn c rs r k fit short =
    let torn = take k (frame (tag r) (payload c r)) in
    let size = length-frame (tag r) (payload c r) in
    let found =
      read-torn k (tag r) (payload c r) (tag-lt r) (omega (arith, fit.0)) (omega (arith, size)) in
    elim (Bool-cases (ltb k 8)) [
      | inl few ↦ rw few (replay-tail c rs torn end fit.1 (found ∙ rw few) (inl refl))
      | inr many ↦ rw many (replay-tail c rs torn corrupt fit.1 (found ∙ rw many) (inr refl))
    ]
