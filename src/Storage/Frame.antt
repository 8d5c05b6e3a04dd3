-- ===== src/Storage/Frame.antt =====
-- internal/storage/wal.go: the bytes of one record, [type:4][length:4][payload][crc32:4], and the
-- checksum over type, length and payload.
pub mod Bytes
use Prim.Native.Nat.{bit_xor}
use gammaflow.Base.{
  ℕ, zero, suc, ◌+◌, ◌*◌, ◌/◌, ◌%◌, ◌^◌, ◌≡◌, refl, List, [], ◌∷◌, ◌++◌, ◌==◌, if◌then◌else◌,
  length,
}

abbrev pub u32_mod : ℕ
u32_mod = 2 ^ 32

-- binary.LittleEndian.PutUint32
unfoldable pub put_u32 : ℕ → List ℕ
put_u32 n = n % 256 ∷ n / 256 % 256 ∷ n / 65536 % 256 ∷ n / 16777216 % 256 ∷ []

-- binary.LittleEndian.Uint32, of the first four bytes
unfoldable pub get_u32 : List ℕ → ℕ
get_u32 (a ∷ b ∷ c ∷ d ∷ _) = a + 256 * b + 65536 * c + 16777216 * d
get_u32 _ = 0

-- crc32.ChecksumIEEE: the reflected polynomial, bit by bit.
crc_bits : ℕ → ℕ → ℕ
crc_bits zero c = c
crc_bits (suc k) c = crc_bits k (if c % 2 == 1 then bit_xor (c / 2) 0xedb88320 else c / 2)

crc_bytes : ℕ → List ℕ → ℕ
crc_bytes c [] = c
crc_bytes c (b ∷ bs) = crc_bytes (crc_bits 8 (bit_xor c b)) bs

unfoldable pub checksum : List ℕ → ℕ
unfolding crc_bytes crc_bits
checksum bs = bit_xor (crc_bytes 0xffffffff bs) 0xffffffff % u32_mod

-- The header of a record: uint32(len(data)) wraps.
unfoldable pub header : ℕ → List ℕ → List ℕ
unfolding put_u32
header record_type data' = put_u32 record_type ++ put_u32 (length data')

-- The buffer that `Append` writes.
unfoldable pub frame : ℕ → List ℕ → List ℕ
unfolding header
frame record_type data' =
    let head = header record_type data' in head ++ data' ++ put_u32 (checksum (head ++ data'))

-- crc32.ChecksumIEEE of "123456789" is the published check value.
check_value :
    checksum (0x31 ∷ 0x32 ∷ 0x33 ∷ 0x34 ∷ 0x35 ∷ 0x36 ∷ 0x37 ∷ 0x38 ∷ 0x39 ∷ []) ≡ 0xcbf43926
unfolding checksum
check_value = refl
