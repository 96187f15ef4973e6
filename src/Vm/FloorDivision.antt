-- ===== src/Vm/FloorDivision.antt =====
-- crates/vm-interp/src/interpreter.rs: floor division and modulo of small integers, from the
-- truncating division and remainder of the machine.
use native.Mathlib.Nat.{div-add-mod, mod-lt}
use rapira.Prelude.{
  ℕ, zero, suc, ◌+◌, ◌*◌, ◌/◌, ◌%◌, ◌<◌, ◌≡◌, ◌≢◌, refl, ap, ◌∙◌, inl, inr, Bool, not, ◌&&◌, arith,
  if◌then◌else◌, Bool-cases,
}
use rapira.Prelude.Int.{
  ℤ, pos, negsuc, pos_part, neg_part, neg_ℕ, ◌+ℤ◌, ◌-ℤ◌, ◌*ℤ◌, ltb_ℤ, eqb_ℤ, quot_ℤ, rem_ℤ,
  eq_of_parts, +ℤ_parts, -ℤ_parts,
}

-- `remainder != 0 && ((remainder < 0) != (right < 0))`
abbrev pub needs_floor : ℤ → ℤ → Bool
needs_floor remainder right =
    not (eqb_ℤ remainder (pos 0))
    && (if ltb_ℤ right (pos 0) then not (ltb_ℤ remainder (pos 0)) else ltb_ℤ remainder (pos 0))

-- `remainder += right`, and `quotient -= 1`, under the test
abbrev floored_remainder : ℤ → ℤ → ℤ
floored_remainder remainder right =
    if needs_floor remainder right then remainder +ℤ right else remainder

abbrev floored_quotient : ℤ → ℤ → ℤ → ℤ
floored_quotient quotient remainder right =
    if needs_floor remainder right then quotient -ℤ pos 1 else quotient

unfoldable pub smi_modulo : ℤ → ℤ → ℤ
smi_modulo left right = floored_remainder (rem_ℤ left right) right

unfoldable pub smi_floor_divide : ℤ → ℤ → ℤ
smi_floor_divide left right = floored_quotient (quot_ℤ left right) (rem_ℤ left right) right

*ℤ_parts :
    (a b : ℤ)
    → pos_part (a *ℤ b) + (pos_part a * neg_part b + neg_part a * pos_part b)
      ≡ neg_part (a *ℤ b) + (pos_part a * pos_part b + neg_part a * neg_part b)
unfolding ◌*ℤ◌
*ℤ_parts a b = ground arith

-- A step of the quotient is a divisor of the remainder.
step_eq : (q k r : ℤ) → r *ℤ q +ℤ k ≡ r *ℤ (q -ℤ pos 1) +ℤ (k +ℤ r)
step_eq q k r =
    let up = ap (λ x. pos_part r * x) (-ℤ_parts q (pos 1)) in
    let down = ap (λ x. neg_part r * x) (-ℤ_parts q (pos 1)) in
    eq_of_parts _ _ (
      omega (
        arith,
        up,
        down,
        *ℤ_parts r q,
        *ℤ_parts r (q -ℤ pos 1),
        +ℤ_parts k r,
        +ℤ_parts (r *ℤ q) k,
        +ℤ_parts (r *ℤ (q -ℤ pos 1)) (k +ℤ r),
      ))

floored_eq : (q k r : ℤ) → r *ℤ q +ℤ k ≡ r *ℤ floored_quotient q k r +ℤ floored_remainder k r
floored_eq q k r = elim (Bool-cases (needs_floor k r)) [
  | inr h ↦ rw h
  | inl h ↦ (step_eq q k r ∙ rw h)
]

-- An equation of the parts gives one of the numbers.
mul_add_eq :
    (l r q k : ℤ)
    → pos_part l + (pos_part r * neg_part q + neg_part r * pos_part q) + neg_part k
      ≡ neg_part l + (pos_part r * pos_part q + neg_part r * neg_part q) + pos_part k
    → l ≡ r *ℤ q +ℤ k
mul_add_eq l r q k h =
    eq_of_parts l (r *ℤ q +ℤ k) (omega (arith, h, *ℤ_parts r q, +ℤ_parts (r *ℤ q) k))

-- The parts of a number times the opposite of a natural number.
mul-neg_ℕ_parts :
    (c n : ℕ)
    → (c * pos_part (neg_ℕ n) ≡ 0)
      × (c * neg_part (neg_ℕ n) ≡ c * n)
      × (pos_part (neg_ℕ n) ≡ 0)
      × (neg_part (neg_ℕ n) ≡ n)
mul-neg_ℕ_parts c zero = ground arith
mul-neg_ℕ_parts c (suc n) = ground arith

truncated_eq : (l r : ℤ) → l ≡ r *ℤ quot_ℤ l r +ℤ rem_ℤ l r
unfolding quot_ℤ rem_ℤ
truncated_eq (pos a) (pos b) =
    mul_add_eq (pos a) (pos b) (pos (a / b)) (pos (a % b)) (omega (arith, div-add-mod a b))
truncated_eq (pos a) (negsuc b) =
    mul_add_eq (pos a) (negsuc b) (neg_ℕ (a / suc b)) (pos (a % suc b))
      (omega (arith, div-add-mod a (suc b), mul-neg_ℕ_parts (suc b) (a / suc b)))
truncated_eq (negsuc a) (pos b) =
    mul_add_eq (negsuc a) (pos b) (neg_ℕ (suc a / b)) (neg_ℕ (suc a % b)) (
      omega (
        arith,
        div-add-mod (suc a) b,
        mul-neg_ℕ_parts b (suc a / b),
        mul-neg_ℕ_parts 1 (suc a % b),
      ))
truncated_eq (negsuc a) (negsuc b) =
    mul_add_eq (negsuc a) (negsuc b) (pos (suc a / suc b)) (neg_ℕ (suc a % suc b))
      (omega (arith, div-add-mod (suc a) (suc b), mul-neg_ℕ_parts 1 (suc a % suc b)))

-- The remainder of a floor division lies between zero and the divisor, and is not the divisor.
abbrev pub IsFloorRemainder : ℤ → ℤ → Type 0
IsFloorRemainder (pos d) m = (neg_part m ≡ 0) × (pos_part m < d)
IsFloorRemainder (negsuc d) m = (pos_part m ≡ 0) × (neg_part m < suc d)

smi_modulo_bounds : (l r : ℤ) → r ≢ pos 0 → IsFloorRemainder r (smi_modulo l r)
unfolding smi_modulo rem_ℤ ◌+ℤ◌
smi_modulo_bounds (pos a) (pos zero) h = absurd (h refl)
smi_modulo_bounds (pos a) (pos (suc b)) h = ground (arith, mod-lt a {m = suc b} (omega arith))
smi_modulo_bounds (pos a) (negsuc b) h = ground (arith, mod-lt a {m = suc b} (omega arith))
smi_modulo_bounds (negsuc a) (pos zero) h = absurd (h refl)
smi_modulo_bounds (negsuc a) (pos (suc b)) h =
    ground (arith, mod-lt (suc a) {m = suc b} (omega arith))
smi_modulo_bounds (negsuc a) (negsuc b) h = ground (arith, mod-lt (suc a) {m = suc b} (omega arith))

-- For a divisor other than zero, the quotient and the remainder that the handlers compute satisfy
-- dividend = divisor * quotient + remainder, and the remainder lies between zero and the divisor and
-- is not the divisor: this is the floor division.
pub smi_floor_division_lem :
    (l r : ℤ)
    → r ≢ pos 0
    → (l ≡ r *ℤ smi_floor_divide l r +ℤ smi_modulo l r) × IsFloorRemainder r (smi_modulo l r)
unfolding smi_modulo smi_floor_divide
smi_floor_division_lem l r h =
    (truncated_eq l r ∙ floored_eq (quot_ℤ l r) (rem_ℤ l r) r, smi_modulo_bounds l r h)
