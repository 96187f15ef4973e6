-- ===== src/Object.antt =====
-- crates/vm-interp/src/object.rs and lib.rs: the tagged 64-bit values of the interpreter.
-- A value is its raw word, a ℕ below 2 ^ 64. Masks and shifts by constants are written by `%`, `/`
-- and `*`: the tag `raw & 3` is `raw % 4`, and `raw & !3` is `raw - raw % 4`.
pub mod Boxing
use rapira.Prelude.{
  ℕ, ◌+◌, ◌-◌, ◌*◌, ◌/◌, ◌%◌, ◌^◌, Bool, true, false, not, Option, none, some, ◌==◌, ltb,
  if◌then◌else◌,
}
use rapira.Prelude.Int.{ℤ, pos, negsuc}

-- An i64 as usize: its two's-complement pattern.
abbrev pub to_u64 : ℤ → ℕ
to_u64 (pos n) = n % 2 ^ 64
to_u64 (negsuc n) = 2 ^ 64 - 1 - n % 2 ^ 64

-- The number that a 32-bit pattern stands for.
abbrev pub signed32 : ℕ → ℤ
signed32 w = if ltb w (2 ^ 31) then pos w else negsuc (2 ^ 32 - 1 - w)

unfoldable pub new_empty : ℕ
new_empty = 0

-- `Object((value as usize) << 32)`
unfoldable pub new_boxed : ℤ → ℕ
new_boxed value = to_u64 value * 2 ^ 32 % 2 ^ 64

-- `(value as usize) << 2 | 0x1`
unfoldable pub new_bool : Bool → ℕ
new_bool true = 5
new_bool false = 1

-- `(self.0 as i64) >> 32`
unfoldable pub unbox : ℕ → ℤ
unbox raw = signed32 (raw / 2 ^ 32)

unfoldable pub is_smi : ℕ → Bool
is_smi data_ = data_ % 4 == 0x0

unfoldable pub is_bool : ℕ → Bool
is_bool data_ = data_ % 4 == 0x1

unfoldable pub is_ptr : ℕ → Bool
is_ptr data_ = data_ % 4 == 0x3

unfoldable pub get_bool : ℕ → Option Bool
unfolding is_bool
get_bool raw = if is_bool raw then some (not (raw / 4 % 2 == 0)) else none

-- `as_ptr_mut_unchecked`: the word with its tag stripped
unfoldable pub as_ptr_unchecked : ℕ → ℕ
as_ptr_unchecked raw = raw - raw % 4

-- `as_ptr` and `as_ptr_mut`
unfoldable pub as_ptr : ℕ → Option ℕ
unfolding is_ptr as_ptr_unchecked
as_ptr raw = if is_ptr raw then some (as_ptr_unchecked raw) else none
