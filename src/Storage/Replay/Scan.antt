-- ===== src/Storage/Replay/Scan.antt =====
-- What `replayFile` makes of what `Append` wrote.
use mathlib.Core.List.{append_assoc}
use native.Mathlib.Nat.{sub-zero}
use gammaflow.Base.{
  ℕ, ◌+◌, ◌%◌, ◌≤◌, ◌<◌, ◌≡◌, refl, ap, ◌∙◌, List, ◌++◌, arith, length, take, drop, slice-eq,
  take-append, drop-append, take-append_self, drop-append_self, length-append, eq→==, le→ltb,
  lt→ltb,
}
use gammaflow.Storage.Frame.{u32_mod, put_u32, get_u32, checksum, header, frame}
use gammaflow.Storage.Frame.Bytes.{get-put_checksum}
use gammaflow.Storage.Replay.{corrupt, valid, check_body, read_record}

pub length-put_u32 : (n : ℕ) → length (put_u32 n) ≡ 4
unfolding put_u32
length-put_u32 n = refl

take-put_u32 : (n : ℕ) (bs : List ℕ) → take 4 (put_u32 n ++ bs) ≡ put_u32 n
unfolding put_u32
take-put_u32 n bs = refl

drop-put_u32 : (n : ℕ) (bs : List ℕ) → drop 4 (put_u32 n ++ bs) ≡ bs
unfolding put_u32
drop-put_u32 n bs = refl

module _ (head p rest : List ℕ) where
  -- A body with the checksum of its payload is valid.
  check_body-eq :
      let sum = checksum (head ++ p) in
      check_body head (length p) (p ++ put_u32 sum) rest ≡ valid (get_u32 head) p rest
  unfolding check_body
  check_body-eq =
      let sum = put_u32 (checksum (head ++ p)) in
      rw
        (
          slice-eq (p ++ sum) 0 (length p) (omega arith) (omega (arith, length-append p sum)),
          check_body,
        )
        (rw (
          sub-zero,
          take-append_self p sum,
          drop-append_self p sum,
          get-put_checksum (head ++ p),
          eq→== (checksum (head ++ p)) (checksum (head ++ p)) refl,
        ))

-- A record whose length field is right reaches the checks on its body.
pub read_record-eq :
    (bytes head after : List ℕ) (payload_len : ℕ)
    → take 8 bytes ≡ head
    → drop 8 bytes ≡ after
    → get_u32 (drop 4 head) ≡ payload_len
    → 8 ≤ length bytes
    → payload_len + 4 < u32_mod
    → payload_len + 4 ≤ length after
    → read_record bytes
      ≡ check_body head payload_len (take (payload_len + 4) after) (drop (payload_len + 4) after)
unfolding read_record
read_record-eq bytes head after payload_len eh ea el long fits room =
    rw (eh, ea, el, le→ltb (length bytes) 8 long, small)
      (rw (le→ltb (length after) (payload_len + 4) room))
  where
    small : (payload_len + 4) % u32_mod ≡ payload_len + 4
    small = omega arith

pub read_record_short :
    (bytes head : List ℕ) (payload_len : ℕ)
    → take 8 bytes ≡ head
    → get_u32 (drop 4 head) ≡ payload_len
    → 8 ≤ length bytes
    → payload_len + 4 < u32_mod
    → length (drop 8 bytes) < payload_len + 4
    → read_record bytes ≡ corrupt
unfolding read_record
read_record_short bytes head payload_len eh el long fits short =
    rw (eh, el, le→ltb (length bytes) 8 long, small)
      (rw (lt→ltb (length (drop 8 bytes)) (payload_len + 4) short))
  where
    small : (payload_len + 4) % u32_mod ≡ payload_len + 4
    small = omega arith

pub frame-header :
    (record_type : ℕ) (p rest : List ℕ)
    → take 8 (frame record_type p ++ rest) ≡ header record_type p
unfolding frame header put_u32
frame-header record_type p rest = refl

pub frame-body :
    (record_type : ℕ) (p rest : List ℕ)
    → drop 8 (frame record_type p ++ rest)
      ≡ p ++ (put_u32 (checksum (header record_type p ++ p)) ++ rest)
unfolding frame header put_u32
frame-body record_type p rest = append_assoc p (put_u32 (checksum (header record_type p ++ p))) rest

pub header-fields :
    (record_type : ℕ) (p : List ℕ)
    → record_type < u32_mod
    → length p < u32_mod
    → (get_u32 (header record_type p) ≡ record_type)
      × (get_u32 (drop 4 (header record_type p)) ≡ length p)
unfolding header put_u32 get_u32
header-fields record_type p h k = (omega arith, omega arith)

pub length-frame : (record_type : ℕ) (p : List ℕ) → length (frame record_type p) ≡ length p + 12
unfolding frame header put_u32
length-frame record_type p =
    omega (arith, length-append p (put_u32 (checksum (header record_type p ++ p))))

-- A record that was written whole is read back, whatever follows it. (Its type and its size fit a
-- uint32.)
pub read-frame :
    (record_type : ℕ) (p rest : List ℕ)
    → record_type < u32_mod
    → length p + 4 < u32_mod
    → read_record (frame record_type p ++ rest) ≡ valid record_type p rest
read-frame record_type p rest h fits =
    let sum = put_u32 (checksum (header record_type p ++ p)) in
    let (tag, len) = header-fields record_type p h (omega arith) in
    read_record-eq (frame record_type p ++ rest) (header record_type p) (p ++ (sum ++ rest))
      (length p) (frame-header record_type p rest) (frame-body record_type p rest) len
      (omega (arith, length-append (frame record_type p) rest, length-frame record_type p)) fits
      (omega (
        arith,
        length-append p (sum ++ rest),
        length-append sum rest,
        length-put_u32 (checksum (header record_type p ++ p)),
      ))
    ∙ rw (take-append p (sum ++ rest) 4, drop-append p (sum ++ rest) 4)
        (rw
          (
            take-put_u32 (checksum (header record_type p ++ p)) rest,
            drop-put_u32 (checksum (header record_type p ++ p)) rest,
          )
          (check_body-eq (header record_type p) p rest ∙ ap (λ t. valid t p rest) tag))
