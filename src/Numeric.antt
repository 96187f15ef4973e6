-- ===== src/Numeric.antt =====
-- crates/vm-core/src/numeric.rs: the little-endian bytes of a machine number.
-- A number of w bits is its bit pattern, a ℕ below 2 ^ w: two's complement for i8, i32 and i64, the
-- IEEE pattern for f64, so that one pair of functions serves every type of the trait `LeBytes`.
use rapira.Prelude.{
  ℕ, zero, suc, ◌+◌, ◌*◌, ◌/◌, ◌%◌, ◌^◌, ◌<◌, ◌≡◌, refl, List, [], ◌∷◌, length, ap, arith,
}
use native.Mathlib.Nat.{pow-suc}

-- `T::to_le_bytes` for a type of `n` bytes
unfoldable pub to_le_bytes : ℕ → ℕ → List ℕ
to_le_bytes zero v = []
to_le_bytes (suc n) v = (v % 256) ∷ to_le_bytes n (v / 256)

-- `T::from_le_bytes`
unfoldable pub from_le_bytes : List ℕ → ℕ
from_le_bytes [] = 0
from_le_bytes (b ∷ bs) = b + 256 * from_le_bytes bs

pub length-to_le_bytes : (n v : ℕ) → length (to_le_bytes n v) ≡ n
unfolding to_le_bytes
length-to_le_bytes zero v = refl
length-to_le_bytes (suc n) v = ap suc (length-to_le_bytes n (v / 256))

-- Every byte of an encoding is below 256.
abbrev pub AllBytes : List ℕ → Type 0
AllBytes [] = Unit
AllBytes (b ∷ bs) = (b < 256) × AllBytes bs

pub to_le_bytes-AllBytes : (n v : ℕ) → AllBytes (to_le_bytes n v)
unfolding to_le_bytes
to_le_bytes-AllBytes zero v = tt
to_le_bytes-AllBytes (suc n) v = (omega arith, to_le_bytes-AllBytes n (v / 256))

-- A number below 256 ^ n, written in n little-endian bytes, is read back.
pub from_le_bytes-to_le_bytes : (n v : ℕ) → v < 256 ^ n → from_le_bytes (to_le_bytes n v) ≡ v
unfolding to_le_bytes from_le_bytes
from_le_bytes-to_le_bytes zero v h = omega arith
from_le_bytes-to_le_bytes (suc n) v h =
    let below : v / 256 < 256 ^ n = omega (arith, pow-suc 256 n) in
    omega (arith, from_le_bytes-to_le_bytes n (v / 256) below)

-- Bytes read as a number and written again are the same bytes.
pub to_le_bytes-from_le_bytes :
    (bs : List ℕ) → AllBytes bs → to_le_bytes (length bs) (from_le_bytes bs) ≡ bs
unfolding to_le_bytes from_le_bytes
to_le_bytes-from_le_bytes [] h = refl
to_le_bytes-from_le_bytes (b ∷ bs) (h, hs) =
    let low : (b + 256 * from_le_bytes bs) % 256 ≡ b = omega arith in
    let high : (b + 256 * from_le_bytes bs) / 256 ≡ from_le_bytes bs = omega arith in
    rw (low, high, to_le_bytes-from_le_bytes bs hs)
