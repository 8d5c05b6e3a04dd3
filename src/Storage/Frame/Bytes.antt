-- ===== src/Storage/Frame/Bytes.antt =====
-- Reading back what `frame` wrote.
use gammaflow.Base.{ℕ, ◌%◌, ◌<◌, ◌≡◌, List, ◌++◌, arith}
use gammaflow.Storage.Frame.{u32_mod, put_u32, get_u32, checksum}

pub get-put_u32 : (n : ℕ) (bs : List ℕ) → get_u32 (put_u32 n ++ bs) ≡ n % u32_mod
unfolding put_u32 get_u32
get-put_u32 n bs = omega arith

pub checksum-lt : (bs : List ℕ) → checksum bs < u32_mod
unfolding checksum
checksum-lt bs = omega arith

pub get-put_checksum : (bs : List ℕ) → get_u32 (put_u32 (checksum bs)) ≡ checksum bs
unfolding put_u32 get_u32
get-put_checksum bs = omega (arith, checksum-lt bs)
