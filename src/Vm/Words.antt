-- ===== src/Vm/Words.antt =====
-- crates/vm-interp/src/interpreter.rs: the readings of an i32 operand, which is its pattern.
use rapira.Prelude.{ℕ, ◌+◌, ◌-◌, ◌/◌, ◌^◌, Bool, leb, if◌then◌else◌}
use rapira.Object.{to_u64, signed32}

-- `i32 as usize`, and the pattern's sign
abbrev pub as_usize : ℕ → ℕ
as_usize word = to_u64 (signed32 word)

abbrev pub is_negative : ℕ → Bool
is_negative word = leb (2 ^ 31) word

-- `payload >> 16`, an i32, as usize
abbrev pub high_half : ℕ → ℕ
high_half word = if is_negative word then 2 ^ 64 - 2 ^ 16 + word / 2 ^ 16 else word / 2 ^ 16
