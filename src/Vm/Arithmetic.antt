-- ===== src/Vm/Arithmetic.antt =====
-- crates/vm-interp/src/interpreter.rs: the handlers of the binary operations.
-- Each pops the right operand, then the left one, and pushes the result. Small integers, and the
-- floats of three of them, have a fast path; the rest is the runtime's.
use rapira.Prelude.{ℕ, Bool, true, false, not, ◌&&◌, ◌||◌, Option, none, some, if◌then◌else◌}
use rapira.Prelude.Int.{pos, ◌+ℤ◌, ◌-ℤ◌, ◌*ℤ◌, ltb_ℤ, leb_ℤ, eqb_ℤ, quot_ℤ, rem_ℤ}
use rapira.Bytecode.{Op}
use rapira.Object.{new_boxed, new_bool, unbox, is_smi, get_bool, as_ptr, as_ptr_unchecked}
use rapira.Runtime.{Runtime}
use rapira.Vm.{
  division_by_zero, Flow, dispatch_next, Machine, Exec, ◌>>=◌, ◌>>◌, pure, gets, modify, fail_if,
  runtime, push, pop, dec_ref_if_ptr,
}
use rapira.Vm.FloorDivision.{smi_modulo, smi_floor_divide}

-- Both words are small integers.
abbrev pub both_smi : ℕ → ℕ → Bool
both_smi left right = is_smi left && is_smi right

-- `left == right` on booleans
abbrev eq_bool : Bool → Bool → Bool
eq_bool true b = b
eq_bool false b = not b

-- `isSMI(right.raw()) && right.unbox() == 0`
abbrev pub zero_divisor : ℕ → Bool
zero_divisor right = is_smi right && eqb_ℤ (unbox right) (pos 0)

module _ {R : Runtime} where
  -- `let right = self.pop()?; let left = self.pop()?; ...; self.push(result)?`
  abbrev pub binop : (ℕ → ℕ → Exec R ℕ) → Exec R Flow
  binop result_of = do
    right ← pop
    left ← pop
    result ← result_of left right
    push result
    pure dispatch_next

  unfoldable pub as_float : Machine R → ℕ → Option ℕ
  as_float m raw = elim (as_ptr raw) [
    | none ↦ none
    | some pointer ↦ if R.is_float pointer m.heap then some (R.float_val pointer m.heap) else none
  ]

  -- The result in the object of an operand that nothing else holds; the other operand is released.
  abbrev in_place : ℕ → ℕ → ℕ → ℕ → Exec R ℕ
  in_place pointer result kept other = do
    modify (λ m. record m { heap = R.set_float_val pointer result m.heap })
    dec_ref_if_ptr other
    pure kept

  unfoldable pub consume_float_binop : ℕ → ℕ → ℕ → Exec R ℕ
  consume_float_binop left right result = do
    heap ← gets (λ m. m.heap)
    let left_pointer = as_ptr_unchecked left
    let right_pointer = as_ptr_unchecked right
    if eqb_ℤ (R.refcount left_pointer heap) (pos 1)
        then in_place left_pointer result left right
        else if eqb_ℤ (R.refcount right_pointer heap) (pos 1)
        then in_place right_pointer result right left
        else (dec_ref_if_ptr right >> dec_ref_if_ptr left >> runtime (R.create_float result))

  unfoldable pub consume_runtime_binop : ℕ → ℕ → ℕ → Exec R ℕ
  consume_runtime_binop left right result = do
    dec_ref_if_ptr right
    dec_ref_if_ptr left
    pure result

  -- the fallback: the operation of the runtime, and its operands released
  abbrev pub by_runtime : Op → ℕ → ℕ → Exec R ℕ
  by_runtime op left right = do
    raw ← runtime (R.binary op left right)
    consume_runtime_binop left right raw

  abbrev float_pair : Op → (ℕ → ℕ → ℕ) → ℕ → ℕ → Option ℕ → Option ℕ → Exec R ℕ
  float_pair op f left right (some a) (some b) = consume_float_binop left right (f a b)
  float_pair op f left right (some a) none = by_runtime op left right
  float_pair op f left right none b = by_runtime op left right

  -- the float path, and the fallback
  abbrev pub by_float : Op → (ℕ → ℕ → ℕ) → ℕ → ℕ → Exec R ℕ
  by_float op f left right m = float_pair op f left right (as_float m left) (as_float m right) m

  abbrev bool_pair : Op → (Bool → Bool → Bool) → ℕ → ℕ → Option Bool → Option Bool → Exec R ℕ
  bool_pair op f left right (some a) (some b) = pure (new_bool (f a b))
  bool_pair op f left right (some a) none = by_runtime op left right
  bool_pair op f left right none b = by_runtime op left right

  -- the path of two booleans, and the fallback
  abbrev pub by_bool : Op → (Bool → Bool → Bool) → ℕ → ℕ → Exec R ℕ
  by_bool op f left right = bool_pair op f left right (get_bool left) (get_bool right)

  unfoldable pub eval_binop_add : Exec R Flow
  unfolding as_float consume_float_binop consume_runtime_binop
  eval_binop_add = binop λ left right.
      if both_smi left right
      then pure (new_boxed (unbox left +ℤ unbox right))
      else by_float Op.add R.float_add left right

  unfoldable pub eval_binop_subtract : Exec R Flow
  unfolding as_float consume_float_binop consume_runtime_binop
  eval_binop_subtract = binop λ left right.
      if both_smi left right
      then pure (new_boxed (unbox left -ℤ unbox right))
      else by_float Op.sub R.float_sub left right

  unfoldable pub eval_binop_multiply : Exec R Flow
  unfolding as_float consume_float_binop consume_runtime_binop
  eval_binop_multiply = binop λ left right.
      if both_smi left right
      then pure (new_boxed (unbox left *ℤ unbox right))
      else by_float Op.mul R.float_mul left right

  unfoldable pub eval_binop_divide : Exec R Flow
  unfolding consume_runtime_binop
  eval_binop_divide = binop λ left right. do
    fail_if (zero_divisor right) division_by_zero
    if both_smi left right && eqb_ℤ (rem_ℤ (unbox left) (unbox right)) (pos 0)
        then pure (new_boxed (quot_ℤ (unbox left) (unbox right)))
        else by_runtime Op.div left right

  unfoldable pub eval_binop_modulo : Exec R Flow
  unfolding consume_runtime_binop
  eval_binop_modulo = binop λ left right. do
    fail_if (zero_divisor right) division_by_zero
    if both_smi left right
        then pure (new_boxed (smi_modulo (unbox left) (unbox right)))
        else by_runtime Op.mod_ left right

  unfoldable pub eval_binop_floor_divide : Exec R Flow
  unfolding consume_runtime_binop
  eval_binop_floor_divide = binop λ left right. do
    fail_if (zero_divisor right) division_by_zero
    if both_smi left right
        then pure (new_boxed (smi_floor_divide (unbox left) (unbox right)))
        else by_runtime Op.idiv left right

  unfoldable pub eval_binop_less_than : Exec R Flow
  unfolding consume_runtime_binop
  eval_binop_less_than = binop λ left right.
      if both_smi left right
      then pure (new_bool (ltb_ℤ (unbox left) (unbox right)))
      else by_runtime Op.lt left right

  unfoldable pub eval_binop_less_or_equal : Exec R Flow
  unfolding consume_runtime_binop
  eval_binop_less_or_equal = binop λ left right.
      if both_smi left right
      then pure (new_bool (leb_ℤ (unbox left) (unbox right)))
      else by_runtime Op.leq left right

  unfoldable pub eval_binop_greater_than : Exec R Flow
  unfolding consume_runtime_binop
  eval_binop_greater_than = binop λ left right.
      if both_smi left right
      then pure (new_bool (ltb_ℤ (unbox right) (unbox left)))
      else by_runtime Op.gt left right

  unfoldable pub eval_binop_greater_or_equal : Exec R Flow
  unfolding consume_runtime_binop
  eval_binop_greater_or_equal = binop λ left right.
      if both_smi left right
      then pure (new_bool (leb_ℤ (unbox right) (unbox left)))
      else by_runtime Op.geq left right

  unfoldable pub eval_binop_equal : Exec R Flow
  unfolding consume_runtime_binop
  eval_binop_equal = binop λ left right.
      if both_smi left right
      then pure (new_bool (eqb_ℤ (unbox left) (unbox right)))
      else by_bool Op.eq eq_bool left right

  unfoldable pub eval_binop_not_equal : Exec R Flow
  unfolding consume_runtime_binop
  eval_binop_not_equal = binop λ left right.
      if both_smi left right
      then pure (new_bool (not (eqb_ℤ (unbox left) (unbox right))))
      else by_bool Op.neq (λ a b. not (eq_bool a b)) left right

  unfoldable pub eval_binop_and : Exec R Flow
  unfolding consume_runtime_binop
  eval_binop_and = binop λ left right. by_bool Op.and (λ a b. a && b) left right

  unfoldable pub eval_binop_or : Exec R Flow
  unfolding consume_runtime_binop
  eval_binop_or = binop λ left right. by_bool Op.or (λ a b. a || b) left right

  unfoldable pub eval_binop_power : Exec R Flow
  unfolding consume_runtime_binop
  eval_binop_power = binop λ left right. by_runtime Op.pow left right
