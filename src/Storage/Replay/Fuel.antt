-- ===== src/Storage/Replay/Fuel.antt =====
-- The loop of `replayFile` on fuel.
use gammaflow.Base.{
  ℕ, zero, suc, ◌+◌, ◌%◌, ◌<◌, ◌≡◌, ◌≢◌, refl, List, arith, length, take, drop, slice, length-drop,
}
use gammaflow.Storage.Codec.{Codec}
use gammaflow.Storage.Frame.{u32_mod, get_u32}
use gammaflow.Storage.Replay.{
  Replayed, Found, end, corrupt, panic, valid, check_body, read_record, out_of_fuel, scan,
}
use gammaflow.Storage.Replay.Scan.{}

-- A valid record takes bytes from the file.
check_body-shrinks :
    (head body after : List ℕ) (k t : ℕ) {p rest : List ℕ}
    → check_body head k body after ≡ valid t p rest
    → rest ≡ after
unfolding check_body slice
check_body-shrinks head body after k t h = ground arith

read_record-shrinks :
    (bytes : List ℕ) {t : ℕ} {p rest : List ℕ}
    → read_record bytes ≡ valid t p rest
    → length rest < length bytes
unfolding read_record
read_record-shrinks bytes {t} {p} {rest} h =
    let head = take 8 bytes in
    let len = get_u32 (drop 4 head) in
    let after = drop 8 bytes in
    let size = (len + 4) % u32_mod in
    ground (
      arith,
      h,
      check_body-shrinks head (take size after) (drop size after) len t {p = p} {rest = rest},
      length-drop 8 bytes,
      length-drop size after,
    )

scan_fuel_step :
    (c : Codec) (f g : ℕ) (bytes : List ℕ) (offset : ℕ) (s : Replayed) (found : Found)
    → read_record bytes ≡ found
    → ((t : ℕ) (p rest : List ℕ)
        → read_record bytes ≡ valid t p rest
        → (offset' : ℕ) (s' : Replayed)
        → (scan c f rest offset' s' ≡ scan c g rest offset' s')
          × (scan c f rest offset' s' ≢ out_of_fuel))
    → (scan c (suc f) bytes offset s ≡ scan c (suc g) bytes offset s)
      × (scan c (suc f) bytes offset s ≢ out_of_fuel)
unfolding scan
scan_fuel_step c f g bytes offset s end e later = rw (e, scan) (refl, λ q. cc q)
scan_fuel_step c f g bytes offset s corrupt e later = rw (e, scan) (refl, λ q. cc q)
scan_fuel_step c f g bytes offset s panic e later = rw (e, scan) (refl, λ q. cc q)
scan_fuel_step c f g bytes offset s (valid t p rest) e later = rw (e, scan) (later t p rest e _ _)

-- With more fuel than the file has bytes the loop ends by itself, and the same way for any such
-- fuel.
pub scan_fuel :
    (c : Codec) (f g : ℕ) (bytes : List ℕ) (offset : ℕ) (s : Replayed)
    → length bytes < f
    → length bytes < g
    → (scan c f bytes offset s ≡ scan c g bytes offset s) × (scan c f bytes offset s ≢ out_of_fuel)
unfolding scan
scan_fuel c zero g bytes offset s h k = absurd (omega arith)
scan_fuel c (suc f) zero bytes offset s h k = absurd (omega arith)
scan_fuel c (suc f) (suc g) bytes offset s h k =
    scan_fuel_step c f g bytes offset s (read_record bytes) refl (λ t p rest e offset' s'.
      let less = read_record-shrinks bytes e in
      scan_fuel c f g rest offset' s' (omega (arith, less)) (omega (arith, less)))
