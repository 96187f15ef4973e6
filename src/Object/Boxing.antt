-- ===== src/Object/Boxing.antt =====
-- crates/vm-interp/src/object.rs: boxing and unboxing of small integers and booleans.
use rapira.Prelude.{
  ℕ, ◌-◌, ◌*◌, ◌/◌, ◌%◌, ◌^◌, ◌≤◌, ◌<◌, ◌≡◌, refl, Bool, true, false, none, some, arith, ltb-true,
  ltb-false,
}
use rapira.Prelude.Int.{ℤ, pos, negsuc, pos_part, neg_part}
use rapira.Object.{to_u64, new_boxed, unbox, is_smi, new_bool, get_bool, as_ptr}

-- The number is an i32.
abbrev pub IsI32 : ℤ → Type 0
IsI32 v = (pos_part v < 2 ^ 31) × (neg_part v ≤ 2 ^ 31)

-- A boxed i32 is unboxed to itself.
pub unbox-new_boxed : (v : ℤ) → IsI32 v → unbox (new_boxed v) ≡ v
unfolding unbox new_boxed
unbox-new_boxed (pos n) (h, _) =
    let word : n % 2 ^ 64 * 2 ^ 32 % 2 ^ 64 / 2 ^ 32 ≡ n = omega arith in
    rw (word, ltb-true n (2 ^ 31) h)
unbox-new_boxed (negsuc n) (_, h) =
    let word : (2 ^ 64 - 1 - n % 2 ^ 64) * 2 ^ 32 % 2 ^ 64 / 2 ^ 32 ≡ 2 ^ 32 - 1 - n =
      omega arith in
    let back : 2 ^ 32 - 1 - (2 ^ 32 - 1 - n) ≡ n = omega arith in
    rw (word, ltb-false (2 ^ 32 - 1 - n) (2 ^ 31) (omega arith), back)

-- Every word unboxes to an i32.
pub unbox-IsI32 : (raw : ℕ) → raw < 2 ^ 64 → IsI32 (unbox raw)
unfolding unbox
unbox-IsI32 raw h = ground arith

-- A boxed number, whatever its size, is a word with the tag of a small integer.
pub new_boxed_tag : (v : ℤ) → (new_boxed v < 2 ^ 64) × (is_smi (new_boxed v) ≡ true)
unfolding new_boxed is_smi
new_boxed_tag v =
    let tag : to_u64 v * 2 ^ 32 % 2 ^ 64 % 4 ≡ 0 = omega arith in (omega arith, rw tag)

boxed_tags :
    (v : ℤ)
    → (is_smi (new_boxed v) ≡ true)
      × (get_bool (new_boxed v) ≡ none)
      × (as_ptr (new_boxed v) ≡ none)
unfolding is_smi get_bool as_ptr
boxed_tags v = let tag = (new_boxed_tag v).1 in (tag, ground arith, ground arith)

pub bool_tags :
    (b : Bool)
    → (get_bool (new_bool b) ≡ some b)
      × (is_smi (new_bool b) ≡ false)
      × (as_ptr (new_bool b) ≡ none)
unfolding is_smi get_bool as_ptr new_bool
bool_tags true = (refl, refl, refl)
bool_tags false = (refl, refl, refl)

-- A boxed i32 is unboxed to itself, every word unboxes to an i32, a boolean is read back, and a boxed
-- integer and a boolean are told apart by their tags, which no test takes for a pointer.
pub boxing_lem :
    (v : ℤ) (raw : ℕ) (b : Bool)
    → IsI32 v
    → raw < 2 ^ 64
    → (unbox (new_boxed v) ≡ v)
      × IsI32 (unbox raw)
      × ((is_smi (new_boxed v) ≡ true)
          × (get_bool (new_boxed v) ≡ none)
          × (as_ptr (new_boxed v) ≡ none))
      × ((get_bool (new_bool b) ≡ some b)
          × (is_smi (new_bool b) ≡ false)
          × (as_ptr (new_bool b) ≡ none))
boxing_lem v raw b hv hr = (unbox-new_boxed v hv, unbox-IsI32 raw hr, boxed_tags v, bool_tags b)
