-- ===== src/Storage/Replay/Truncated.antt =====
-- A file that `replayFile` truncated.
use gammaflow.Base.{
  ℕ, zero, suc, ◌+◌, ◌%◌, ◌<◌, ◌≤◌, ◌≡◌, refl, sym, ap, ◌∙◌, List, [], arith, length, take, drop,
  slice, length-drop, length-take, some, none, Bool-cases, inl, inr, ltb, tests, take-take,
  drop-take,
}
use gammaflow.Storage.Codec.{Codec}
use gammaflow.Storage.Frame.{u32_mod, get_u32}
use gammaflow.Storage.Replay.{
  Replayed, Found, end, corrupt, panic, valid, check_body, read_record, scan, done, nothing,
  replay_file,
}
use gammaflow.Storage.Replay.Fuel.{scan_fuel}
use gammaflow.Storage.Replay.Scan.{read_record-eq}

-- A body that passes the checks has a payload of the length that the header gives, and passes them
-- whatever follows it.
check_body-valid :
    (head body after after' : List ℕ) (k : ℕ) {t : ℕ} {p rest : List ℕ}
    → check_body head k body after ≡ valid t p rest
    → (rest ≡ after)
      × (length p ≡ k)
      × (k ≤ length body)
      × (check_body head k body after' ≡ valid t p after')
unfolding check_body slice
check_body-valid head body after after' k h = ground (arith, length-take k body)

read_record-valid :
    (bytes : List ℕ) {t : ℕ} {p rest : List ℕ}
    → read_record bytes ≡ valid t p rest
    → let head = take 8 bytes in
      let k = get_u32 (drop 4 head) in
      let after = drop 8 bytes in
      (8 ≤ length bytes)
      × (k + 4 < u32_mod)
      × (k + 4 ≤ length after)
      × (check_body head k (take (k + 4) after) (drop (k + 4) after) ≡ valid t p rest)
unfolding read_record
read_record-valid bytes {t} {p} {rest} h =
    let head = take 8 bytes in
    let k = get_u32 (drop 4 head) in
    let after = drop 8 bytes in
    let size = (k + 4) % u32_mod in
    elim (Bool-cases (ltb (length bytes) 8)) [
      | inl short ↦ absurd (cc (rw short at h))
      | inr long ↦ elim (Bool-cases (ltb (length after) size)) [
        | inl short ↦ absurd (cc (rw (long, short) at h))
        | inr whole ↦
            let checked : check_body head k (take size after) (drop size after) ≡ valid t p rest =
              rw (long, whole) at h in
            let inside =
              (check_body-valid head (take size after) (drop size after) [] k checked).2 in
            let small : size ≡ k + 4 = omega (arith, inside, length-take size after) in
            (omega tests, omega (arith, small), omega (tests, small), rw small at checked)
      ]
    ]

-- A valid record is read also where the file ends behind it or later.
read_record-take :
    (bytes : List ℕ) (n : ℕ) {t : ℕ} {p rest : List ℕ}
    → read_record bytes ≡ valid t p rest
    → (length p + 12 ≤ length bytes)
      × (length p + 12 < u32_mod + 8)
      × (length rest + (length p + 12) ≡ length bytes)
      × (read_record (take (length p + 12 + n) bytes) ≡ valid t p (take n rest))
read_record-take bytes n {t} {p} {rest} h =
    let head = take 8 bytes in
    let k = get_u32 (drop 4 head) in
    let after = drop 8 bytes in
    let (long, fits, whole, checked) = read_record-valid bytes h in
    let (e, len, _, any) =
      check_body-valid head (take (k + 4) after) (drop (k + 4) after) (take n (drop (k + 4) after))
        k checked in
    let cut = take (length p + 12 + n) bytes in
    let rest_of : drop 8 cut ≡ take (k + 4 + n) after =
      drop-take 8 (length p + 12 + n) bytes (omega arith)
      ∙ ap (λ m. take m after) (omega (arith, len)) in
    let taken : take (k + 4) (take (k + 4 + n) after) ≡ take (k + 4) after =
      take-take (k + 4) (k + 4 + n) after (omega arith) in
    let dropped : drop (k + 4) (take (k + 4 + n) after) ≡ take n (drop (k + 4) after) =
      drop-take (k + 4) (k + 4 + n) after (omega arith)
      ∙ ap (λ m. take m (drop (k + 4) after)) (omega arith) in
    (
      omega (arith, len, length-drop 8 bytes),
      omega (arith, len),
      omega (arith, len, ap length e, length-drop (k + 4) after, length-drop 8 bytes),
      read_record-eq cut head (take (k + 4 + n) after) k
            (take-take 8 (length p + 12 + n) bytes (omega arith)) rest_of refl
            (omega (arith, len, length-take (length p + 12 + n) bytes)) fits
            (omega (arith, length-take (k + 4 + n) after))
          ∙ rw (taken, dropped) (rw e any),
    )

-- The loop on a file that it truncates: the offset lies in the file, and the file that is left is
-- read the same way, to its end.
abbrev Cut : Codec → ℕ → List ℕ → ℕ → Replayed → Replayed → ℕ → Type 0
Cut c f bytes offset s t off =
    (n : ℕ) × (off ≡ offset + n)
    × (n ≤ length bytes)
    × (scan c f (take n bytes) offset s ≡ done t none)

scan-nil : (c : Codec) (f offset : ℕ) (s : Replayed) → scan c (suc f) [] offset s ≡ done s none
unfolding scan read_record
scan-nil c f offset s = refl

scan-Cut_step :
    (c : Codec) (f : ℕ) (bytes : List ℕ) (offset : ℕ) (s t : Replayed) (off : ℕ) (found : Found)
    → read_record bytes ≡ found
    → length bytes < u32_mod
    → ((rest : List ℕ) (offset' : ℕ) (s' : Replayed)
        → length rest < u32_mod
        → scan c f rest offset' s' ≡ done t (some off)
        → Cut c f rest offset' s' t off)
    → scan c (suc f) bytes offset s ≡ done t (some off)
    → Cut c (suc f) bytes offset s t off
unfolding scan
scan-Cut_step c f bytes offset s t off end e fits later h = absurd (cc (rw (e, scan) at h))
scan-Cut_step c f bytes offset s t off panic e fits later h = absurd (cc (rw (e, scan) at h))
scan-Cut_step c f bytes offset s t off corrupt e fits later h =
    let same : done s (some offset) ≡ done t (some off) = rw (e, scan) at h in
    let (at_off, at_t) : (offset ≡ off) × (s ≡ t) = (cc same, cc same) in
    (0, omega (arith, at_off), omega arith, scan-nil c f offset s ∙ ap (λ r. done r none) at_t)
scan-Cut_step c f bytes offset s t off (valid tag p rest) e fits later h =
    let (room, _, rest_length, _) = read_record-take bytes 0 e in
    let (n, to, inside, again) = later rest _ _ (omega (arith, rest_length)) (rw (e, scan) at h) in
    (
      length p + 12 + n,
      omega (arith, to, room, fits),
      omega (arith, inside, rest_length),
      rw ((read_record-take bytes n e).3, scan) again,
    )

scan-Cut :
    (c : Codec) (f : ℕ) (bytes : List ℕ) (offset : ℕ) (s t : Replayed) (off : ℕ)
    → length bytes < u32_mod
    → scan c f bytes offset s ≡ done t (some off)
    → Cut c f bytes offset s t off
unfolding scan
scan-Cut c zero bytes offset s t off fits h = absurd (cc h)
scan-Cut c (suc f) bytes offset s t off fits h =
    scan-Cut_step c f bytes offset s t off (read_record bytes) refl fits
      (λ rest offset' s' k. scan-Cut c f rest offset' s' t off k) h

-- A file that `replayFile` truncates is truncated inside, and what is left is read with the same
-- result and not truncated again. (The file is shorter than 2^32 bytes.)
pub replay-truncated :
    (c : Codec) (bytes : List ℕ) (t : Replayed) (off : ℕ)
    → length bytes < u32_mod
    → replay_file c bytes ≡ done t (some off)
    → (off ≤ length bytes) × (replay_file c (take off bytes) ≡ done t none)
unfolding replay_file
replay-truncated c bytes t off fits h =
    let (n, e, inside, again) = scan-Cut c (suc (length bytes)) bytes 0 nothing t off fits h in
    let same : off ≡ n = omega (arith, e) in
    let cut = take off bytes in
    (
      omega (arith, same, inside),
      (scan_fuel c (suc (length cut)) (suc (length bytes)) cut 0 nothing (omega arith)
            (omega (arith, length-take off bytes))).0
          ∙ rw (sym same) at again,
    )
