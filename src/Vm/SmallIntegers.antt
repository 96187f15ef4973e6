-- ===== src/Vm/SmallIntegers.antt =====
-- crates/vm-interp/src/interpreter.rs: the fast paths of the binary operations on boxed integers.
use rapira.Prelude.{
  ℕ, ◌≤◌, ◌<◌, ◌≡◌, ◌≢◌, refl, sym, ◌∙◌, false, List, [], ◌∷◌, ◌++◌, append_assoc, arith, length,
  length-append,
}
use rapira.Prelude.Int.{ℤ, pos, eqb_ℤ, eqb_ℤ-false, quot_ℤ, rem_ℤ}
use rapira.Outcome.{ok, err}
use rapira.Object.{new_boxed}
use rapira.Object.Boxing.{IsI32, unbox-new_boxed, new_boxed_tag}
use rapira.Runtime.{Runtime}
use rapira.Vm.{
  InterpreterError, Machine, max_operand_stack_size, Exec, dispatch_next, division_by_zero,
}
use rapira.Vm.Stack.{pop_lem, push_lem}
use rapira.Vm.Arithmetic.{binop, eval_binop_divide, eval_binop_modulo, eval_binop_floor_divide}

module _ {R : Runtime} where
  -- The machine with another operand stack.
  abbrev pub with_stack : Machine R → List ℕ → Machine R
  with_stack m xs = record m { operand_stack = xs }

  -- The two top values of the stack, above the globals.
  pub record Operands (m : Machine R) (xs : List ℕ) (left right : ℕ) : Type 0 where
    pub stack : m.operand_stack ≡ xs ++ left ∷ right ∷ []
    pub above : m.global_areas_size ≤ length xs
    pub room : length xs < max_operand_stack_size

  pub binop_lem :
      (f : ℕ → ℕ → Exec R ℕ) (m : Machine R) (xs : List ℕ) (left right result : ℕ)
      → Operands m xs left right
      → f left right (with_stack m xs) ≡ (ok result, with_stack m xs)
      → binop f m ≡ (ok dispatch_next, with_stack m (xs ++ result ∷ []))
  binop_lem f m xs left right result o e = rw (
    pop_lem (xs ++ left ∷ []) right m (o.stack ∙ sym (append_assoc xs (left ∷ []) (right ∷ [])))
        (omega (arith, length-append xs (left ∷ []), o.above)),
    pop_lem xs left (with_stack m (xs ++ left ∷ [])) refl o.above,
    e,
    push_lem result (with_stack m xs) o.room,
  )

  binop_err :
      (f : ℕ → ℕ → Exec R ℕ) (m : Machine R) (xs : List ℕ) (left right : ℕ) (e : InterpreterError)
      → Operands m xs left right
      → f left right (with_stack m xs) ≡ (err e, with_stack m xs)
      → binop f m ≡ (err e, with_stack m xs)
  binop_err f m xs left right e o h = rw (
    pop_lem (xs ++ left ∷ []) right m (o.stack ∙ sym (append_assoc xs (left ∷ []) (right ∷ [])))
        (omega (arith, length-append xs (left ∷ []), o.above)),
    pop_lem xs left (with_stack m (xs ++ left ∷ [])) refl o.above,
    h,
  )

  -- With the boxed zero as the divisor, whatever the dividend, the three divisions end in the error
  -- for a division by zero and leave the stack without their operands. With two boxed i32, the right
  -- one not zero, the division gives the boxed quotient where the remainder is zero.
  pub division_lem :
      (a b : ℤ) (left : ℕ) (m m' : Machine R) (xs : List ℕ)
      → IsI32 a
      → IsI32 b
      → b ≢ pos 0
      → rem_ℤ a b ≡ pos 0
      → Operands m xs left (new_boxed (pos 0))
      → Operands m' xs (new_boxed a) (new_boxed b)
      → (eval_binop_divide m ≡ (err division_by_zero, with_stack m xs))
        × (eval_binop_modulo m ≡ (err division_by_zero, with_stack m xs))
        × (eval_binop_floor_divide m ≡ (err division_by_zero, with_stack m xs))
        × (eval_binop_divide m'
            ≡ (ok dispatch_next, with_stack m' (xs ++ new_boxed (quot_ℤ a b) ∷ [])))
  unfolding eval_binop_divide eval_binop_modulo eval_binop_floor_divide
  division_lem a b left m m' xs ha hb nonzero exact o o' =
      let t0 = (new_boxed_tag (pos 0)).1 in
      let u0 = unbox-new_boxed (pos 0) (omega arith, omega arith) in
      let ta = (new_boxed_tag a).1 in
      let tb = (new_boxed_tag b).1 in
      let ua = unbox-new_boxed a ha in
      let ub = unbox-new_boxed b hb in
      let z : eqb_ℤ b (pos 0) ≡ false = eqb_ℤ-false b (pos 0) nonzero in
      (
        binop_err _ m xs _ _ _ o (rw (t0, u0)),
        binop_err _ m xs _ _ _ o (rw (t0, u0)),
        binop_err _ m xs _ _ _ o (rw (t0, u0)),
        binop_lem _ m' xs _ _ _ o' (rw (ta, tb, ua, ub, z, exact)),
      )
