-- ===== src/Vm/Integers.antt =====
-- crates/vm-interp/src/interpreter.rs: a binary operation on two boxed integers, from its opcode on.
use mathlib.Core.Path.{subst}
use mathlib.Core.Option.{some-injective}
use rapira.Prelude.{
  ℕ, ◌^◌, ◌<◌, ◌≢◌, arith, ◌≡◌, refl, Bool, true, false, Option, none, some, List, [], ◌∷◌, ◌++◌,
  not, if◌then◌else◌,
}
use rapira.Prelude.Int.{ℤ, pos, ◌+ℤ◌, ◌-ℤ◌, ◌*ℤ◌, ltb_ℤ, leb_ℤ, eqb_ℤ}
use rapira.Outcome.{Outcome, ok}
use rapira.Bytecode.{Op, add, sub, mul, mod_, lt, leq, gt, geq, eq, neq, idiv, binop}
use rapira.Decoder.Encode.{encode}
use rapira.Decoder.Reads.{Ahead, advance}
use rapira.Object.{new_boxed, new_bool, unbox, get_bool}
use rapira.Object.Boxing.{IsI32, unbox-IsI32, unbox-new_boxed, new_boxed_tag, bool_tags}
use rapira.Runtime.{Runtime}
use rapira.Vm.{Machine, InterpreterError, Flow, dispatch_next}
use rapira.Vm.Arithmetic.{
  eval_binop_add, eval_binop_subtract, eval_binop_multiply, eval_binop_modulo,
  eval_binop_floor_divide, eval_binop_less_than, eval_binop_less_or_equal, eval_binop_greater_than,
  eval_binop_greater_or_equal, eval_binop_equal, eval_binop_not_equal,
}
use rapira.Vm.Dispatched.{handler_for, dispatch-encode}
use rapira.Vm.FloorDivision.{smi_modulo, smi_floor_divide}
use rapira.Vm.Run.{perform, step}
use rapira.Vm.SmallIntegers.{Operands, with_stack, binop_lem}

-- What an operation gives on two integers
pub data SmiValue : Type 0 where
  int : ℤ → SmiValue
  truth : Bool → SmiValue

abbrev nonzero_only : ℤ → ℤ → Option SmiValue
nonzero_only b value = if eqb_ℤ b (pos 0) then none else some (int value)

-- The value of an operation. The exact division, the power and the operations on booleans have none
-- here, and a division by zero has none.
abbrev pub smi_value : Op → ℤ → ℤ → Option SmiValue
smi_value add a b = some (int (a +ℤ b))
smi_value sub a b = some (int (a -ℤ b))
smi_value mul a b = some (int (a *ℤ b))
smi_value mod_ a b = nonzero_only b (smi_modulo a b)
smi_value idiv a b = nonzero_only b (smi_floor_divide a b)
smi_value lt a b = some (truth (ltb_ℤ a b))
smi_value leq a b = some (truth (leb_ℤ a b))
smi_value gt a b = some (truth (ltb_ℤ b a))
smi_value geq a b = some (truth (leb_ℤ b a))
smi_value eq a b = some (truth (eqb_ℤ a b))
smi_value neq a b = some (truth (not (eqb_ℤ a b)))
smi_value _ a b = none

abbrev pub IsSmall : SmiValue → Type 0
IsSmall (int v) = IsI32 v
IsSmall (truth b) = Unit

abbrev word : SmiValue → ℕ
word (int v) = new_boxed v
word (truth b) = new_bool b

-- The value that the interpreter reads out of a word
abbrev pub IsRead : ℕ → SmiValue → Type 0
IsRead raw (int v) = unbox raw ≡ v
IsRead raw (truth b) = get_bool raw ≡ some b

word-IsRead : (v : SmiValue) → IsSmall v → IsRead (word v) v
word-IsRead (int v) h = unbox-new_boxed v h
word-IsRead (truth b) h = (bool_tags b).0

nonzero_lem :
    (b value : ℤ) (zero_divisor : Bool) (v : SmiValue)
    → (if zero_divisor then none else some (int value)) ≡ some v
    → (zero_divisor ≡ false) × (int value ≡ v)
nonzero_lem b value true v e = cc
nonzero_lem b value false v e = (refl, some-injective _ _ e)

new_boxed_bound : (v : ℤ) → new_boxed v < 2 ^ 64
unfolding new_boxed
new_boxed_bound v = omega arith

module _ {R : Runtime} where
  abbrev Pushes : Op → Machine R → List ℕ → SmiValue → Type 0
  Pushes op m xs v =
      perform (handler_for (binop op)) m ≡ (ok dispatch_next, with_stack m (xs ++ word v ∷ []))

  perform-binop :
      (op : Op) (a b : ℤ) (v : SmiValue) (m : Machine R) (xs : List ℕ)
      → IsI32 a
      → IsI32 b
      → smi_value op a b ≡ some v
      → Operands m xs (new_boxed a) (new_boxed b)
      → perform (handler_for (binop op)) m ≡ (ok dispatch_next, with_stack m (xs ++ word v ∷ []))
  unfolding perform eval_binop_add eval_binop_subtract eval_binop_multiply eval_binop_modulo
      eval_binop_floor_divide eval_binop_less_than eval_binop_less_or_equal eval_binop_greater_than
      eval_binop_greater_or_equal eval_binop_equal eval_binop_not_equal
  perform-binop add a b v m xs ha hb e o = subst (Pushes add m xs) (some-injective _ _ e) (
      binop_lem _ m xs _ _ _ o
        (rw ((new_boxed_tag a).1, (new_boxed_tag b).1, unbox-new_boxed a ha, unbox-new_boxed b hb)))
  perform-binop sub a b v m xs ha hb e o = subst (Pushes sub m xs) (some-injective _ _ e) (
      binop_lem _ m xs _ _ _ o
        (rw ((new_boxed_tag a).1, (new_boxed_tag b).1, unbox-new_boxed a ha, unbox-new_boxed b hb)))
  perform-binop mul a b v m xs ha hb e o = subst (Pushes mul m xs) (some-injective _ _ e) (
      binop_lem _ m xs _ _ _ o
        (rw ((new_boxed_tag a).1, (new_boxed_tag b).1, unbox-new_boxed a ha, unbox-new_boxed b hb)))
  perform-binop lt a b v m xs ha hb e o = subst (Pushes lt m xs) (some-injective _ _ e) (
      binop_lem _ m xs _ _ _ o
        (rw ((new_boxed_tag a).1, (new_boxed_tag b).1, unbox-new_boxed a ha, unbox-new_boxed b hb)))
  perform-binop leq a b v m xs ha hb e o = subst (Pushes leq m xs) (some-injective _ _ e) (
      binop_lem _ m xs _ _ _ o
        (rw ((new_boxed_tag a).1, (new_boxed_tag b).1, unbox-new_boxed a ha, unbox-new_boxed b hb)))
  perform-binop gt a b v m xs ha hb e o = subst (Pushes gt m xs) (some-injective _ _ e) (
      binop_lem _ m xs _ _ _ o
        (rw ((new_boxed_tag a).1, (new_boxed_tag b).1, unbox-new_boxed a ha, unbox-new_boxed b hb)))
  perform-binop geq a b v m xs ha hb e o = subst (Pushes geq m xs) (some-injective _ _ e) (
      binop_lem _ m xs _ _ _ o
        (rw ((new_boxed_tag a).1, (new_boxed_tag b).1, unbox-new_boxed a ha, unbox-new_boxed b hb)))
  perform-binop eq a b v m xs ha hb e o = subst (Pushes eq m xs) (some-injective _ _ e) (
      binop_lem _ m xs _ _ _ o
        (rw ((new_boxed_tag a).1, (new_boxed_tag b).1, unbox-new_boxed a ha, unbox-new_boxed b hb)))
  perform-binop neq a b v m xs ha hb e o = subst (Pushes neq m xs) (some-injective _ _ e) (
      binop_lem _ m xs _ _ _ o
        (rw ((new_boxed_tag a).1, (new_boxed_tag b).1, unbox-new_boxed a ha, unbox-new_boxed b hb)))
  perform-binop mod_ a b v m xs ha hb e o =
      let (z, e') = nonzero_lem b _ (eqb_ℤ b (pos 0)) v e in
      subst (Pushes mod_ m xs) e' (
        binop_lem _ m xs _ _ _ o (
          rw (
            (new_boxed_tag a).1,
            (new_boxed_tag b).1,
            unbox-new_boxed a ha,
            unbox-new_boxed b hb,
            z,
          )))
  perform-binop idiv a b v m xs ha hb e o =
      let (z, e') = nonzero_lem b _ (eqb_ℤ b (pos 0)) v e in
      subst (Pushes idiv m xs) e' (
        binop_lem _ m xs _ _ _ o (
          rw (
            (new_boxed_tag a).1,
            (new_boxed_tag b).1,
            unbox-new_boxed a ha,
            unbox-new_boxed b hb,
            z,
          )))
  perform-binop _ a b v m xs ha hb e o = cc

  -- The machine behind the opcode, with the word in the place of the operands
  abbrev pub pushed : Machine R → List ℕ → ℕ → ℕ → Outcome InterpreterError Flow × Machine R
  pushed m xs raw opcode = (
    ok dispatch_next,
    record m {
      operand_stack = xs ++ raw ∷ [];
      decoder = advance 1 m.decoder;
      current_opcode = opcode;
    },
  )

  step-word :
      (op : Op) (a b : ℤ) (v : SmiValue) (opcode : ℕ) (rest xs : List ℕ) (m : Machine R)
      → IsI32 a
      → IsI32 b
      → smi_value op a b ≡ some v
      → encode (binop op) ≡ ok (opcode ∷ [])
      → Ahead m.decoder (opcode ∷ rest)
      → Operands m xs (new_boxed a) (new_boxed b)
      → step m ≡ pushed m xs (word v) opcode
  step-word op a b v opcode rest xs m ha hb e code ahead o =
      let m' = record m { decoder = advance 1 m.decoder; current_opcode = opcode } in
      let operands : Operands m' xs (new_boxed a) (new_boxed b) = record {
        stack = o.stack;
        above = o.above;
        room = o.room;
      } in
      rw (dispatch-encode (binop op) opcode [] rest m code ahead)
        (perform-binop op a b v m' xs ha hb e operands)

  -- At the opcode of a binary operation, with two boxed i32 at the top of the stack, above the globals and
  -- below the stack's limit, the machine takes the opcode and both operands, pushes a word, dispatches
  -- on, and changes nothing else. The word is read as the operation's value on the integers: the sum,
  -- difference, product, modulo or floor quotient, where it is an i32 and no divisor is zero, or the
  -- boolean of the comparison.
  pub step-binop :
      (op : Op) (a b : ℤ) (v : SmiValue) (opcode : ℕ) (rest xs : List ℕ) (m : Machine R)
      → IsI32 a
      → IsI32 b
      → smi_value op a b ≡ some v
      → IsSmall v
      → encode (binop op) ≡ ok (opcode ∷ [])
      → Ahead m.decoder (opcode ∷ rest)
      → Operands m xs (new_boxed a) (new_boxed b)
      → (raw : ℕ) × IsRead raw v × (step m ≡ pushed m xs raw opcode)
  step-binop op a b v opcode rest xs m ha hb e small code ahead o =
      (word v, word-IsRead v small, step-word op a b v opcode rest xs m ha hb e code ahead o)

  -- Where the value is an integer but no i32, as at the sum of 2 ^ 31 - 1 and 1, the same opcode pushes
  -- a word all the same, from which another integer is read.
  pub binop_overflows :
      (op : Op) (a b v : ℤ) (opcode : ℕ) (rest xs : List ℕ) (m : Machine R)
      → IsI32 a
      → IsI32 b
      → smi_value op a b ≡ some (int v)
      → ¬ IsI32 v
      → encode (binop op) ≡ ok (opcode ∷ [])
      → Ahead m.decoder (opcode ∷ rest)
      → Operands m xs (new_boxed a) (new_boxed b)
      → (raw : ℕ) × (unbox raw ≢ v) × (step m ≡ pushed m xs raw opcode)
  binop_overflows op a b v opcode rest xs m ha hb e large code ahead o = (
    new_boxed v,
    λ same. large (subst IsI32 same (unbox-IsI32 (new_boxed v) (new_boxed_bound v))),
    step-word op a b (int v) opcode rest xs m ha hb e code ahead o,
  )
