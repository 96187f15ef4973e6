-- ===== src/Codegen/Shapes.antt =====
-- crates/compiler-core/src/codegen/bcgen.rs: the code that `emit_statement` puts around the parts of a
-- loop, a conditional or a selection, and the parts that hold no statement.
use rapira.Prelude.{
  ℕ, suc, ◌-◌, ◌+◌, String, Bool, true, false, Option, none, some, List, [], ◌∷◌, ◌++◌, ◌==◌,
  if◌then◌else◌, length, lookup, bit_and, bit_or, ◌^◌,
}
use rapira.Ast.{
  Spannable, LValue, SpannedExpr, at, MaybeExpr, absent, present, Exprs, nil, cons, name,
  function_call,
}
use rapira.Bytecode.{
  Op, Label, const, constf, binop, field, load, store, label, jmp, cjmp, is_variant, sta, sts,
  set_field, drop, slice, lwrite_newline_flag,
}
use rapira.Bytecode.CompareJumpKind.{is_zero}
use rapira.Codegen.{
  BcGen, VariantInfo, Slot, Emit, pure, panicked, ◌>>=◌, this, expect, find_variable, as_i32,
  allocate_variable,
}
use rapira.Codegen.Expressions.{Code, emit_expr, emit_bound, Callee, known_callee, computed}

-- `values.len() as i32 & !LWRITE_NEWLINE_FLAG`, and with `|` where the flag is set
abbrev pub flagged_count : Bool → ℕ → ℕ
flagged_count true count = bit_and (as_i32 count) (2 ^ 32 - 1 - lwrite_newline_flag)
flagged_count false count = bit_or (as_i32 count) lwrite_newline_flag

abbrev pub repeat_code : Slot → Code → Label → Label → Code → Code
repeat_code slot count loop end body =
    count
    ++ (store slot.1 slot.0
        ∷ label loop.name
        ∷ load slot.1 slot.0
        ∷ const 0
        ∷ binop Op.gt
        ∷ cjmp end is_zero
        ∷ [])
    ++ body
    ++ (load slot.1 slot.0
        ∷ const 1
        ∷ binop Op.sub
        ∷ store slot.1 slot.0
        ∷ jmp loop
        ∷ label end.name
        ∷ [])

-- `matches!(to.as_slice(), [LOAD { .. } | CONST { .. } | CONSTF { .. }])`
unfoldable pub is_simple : Code → Bool
is_simple (load rel index ∷ []) = true
is_simple (const value ∷ []) = true
is_simple (constf value ∷ []) = true
is_simple _ = false

abbrev pub simple_guard : Slot → Code → Code
simple_guard slot to = load slot.1 slot.0 ∷ to ++ binop Op.leq ∷ []

abbrev pub general_guard : Slot → Code → Code → Code
general_guard slot to step =
    step
    ++ const 0 ∷ binop Op.gt ∷ load slot.1 slot.0 ∷ to
    ++ binop Op.leq ∷ binop Op.and ∷ step
    ++ const 0 ∷ binop Op.leq ∷ load slot.1 slot.0 ∷ to
    ++ binop Op.geq ∷ binop Op.and ∷ binop Op.or ∷ []

-- The step, and whether it was left out
abbrev pub step_code : Option Code → Code
step_code none = const 1 ∷ []
step_code (some step) = step

-- The test of the upper bound, without a step and with it
abbrev pub plain_guard : Slot → Code → Label → Code
plain_guard slot to end =
    (if is_simple to then simple_guard slot to else general_guard slot to (const 1 ∷ []))
    ++ cjmp end is_zero ∷ []

abbrev pub stepped_guard : Slot → Code → Code → Label → Code
stepped_guard slot to step end = general_guard slot to step ++ cjmp end is_zero ∷ []

-- The test of the upper bound at the head of a `for` loop
abbrev pub for_guard : Slot → Option Code → Option Code → Label → Code
for_guard slot none step end = []
for_guard slot (some to) none end = plain_guard slot to end
for_guard slot (some to) (some step) end = stepped_guard slot to step end

abbrev pub from_code : Option Code → Code
from_code none = const 0 ∷ []
from_code (some from) = from

abbrev pub for_code : Slot → Option Code → Option Code → Option Code → Label → Label → Code → Code
for_code slot from to step loop end body =
    from_code from
    ++ (store slot.1 slot.0 ∷ label loop.name ∷ [])
    ++ for_guard slot to step end
    ++ body
    ++ (load slot.1 slot.0 ∷ [])
    ++ step_code step
    ++ (binop Op.add ∷ store slot.1 slot.0 ∷ jmp loop ∷ label end.name ∷ [])

abbrev pub while_code : Label → Code → Label → Code → Code
while_code loop condition end body =
    (label loop.name ∷ [])
    ++ condition
    ++ (cjmp end is_zero ∷ [])
    ++ body
    ++ (jmp loop ∷ label end.name ∷ [])

-- A conditional without an `иначе`, and one with it
abbrev pub if_code : Code → Label → Label → Code → Code
if_code condition begin end then_ =
    condition ++ (label begin.name ∷ cjmp end is_zero ∷ []) ++ then_ ++ (label end.name ∷ [])

abbrev pub if_else_code : Code → Label → Label → Label → Code → Code → Code
if_else_code condition begin end other then_ else_ =
    condition
    ++ (label begin.name ∷ cjmp other is_zero ∷ [])
    ++ then_
    ++ (jmp end ∷ label other.name ∷ [])
    ++ else_
    ++ (label end.name ∷ [])

-- `as_ref().map(|expr| self.emit_expr(expr))`
unfoldable pub emit_maybe : MaybeExpr → Emit (Option Code)
emit_maybe absent = pure none
emit_maybe (present e) = do code ← emit_expr e; pure (some code)

-- A name that is the target of an assignment
unfoldable pub target_name : LValue → Emit String
target_name (LValue.name n) = pure n
target_name _ = panicked

-- The slot of the variable that an index or a slice is assigned to
unfoldable pub target_slot : SpannedExpr → Emit Slot
target_slot (at (name n) start end) = do gen ← this; expect (find_variable n gen.env)
target_slot _ = panicked

-- What follows the code of the value in an assignment
unfoldable pub emit_assignment : LValue → Emit Code
unfolding target_slot
emit_assignment (LValue.name n) = do
  gen ← this
  slot ← expect (find_variable n gen.env)
  pure (store slot.1 slot.0 ∷ [])
emit_assignment (LValue.subscript collection index) = do
  slot ← target_slot collection
  code ← emit_expr index
  pure (code ++ load slot.1 slot.0 ∷ sta ∷ drop ∷ [])
emit_assignment (LValue.slice collection from to) = do
  slot ← target_slot collection
  lower ← emit_bound from 1
  upper ← emit_bound to 2
  pure ((load slot.1 slot.0 ∷ []) ++ lower.0 ++ upper.0 ++ slice (lower.1 + upper.1) ∷ sts ∷ [])
emit_assignment (LValue.field left field_name) = do
  gen ← this
  index ← expect (lookup field_name gen.field_indices)
  code ← emit_expr left
  pure (code ++ set_field index ∷ [])

-- A procedure is never taken for a constructor.
unfoldable pub procedure_of : SpannedExpr → BcGen → Callee
procedure_of (at (name n) start end) gen = known_callee n gen
procedure_of _ gen = computed

-- `find_variable(name).unwrap_or_else(|| self.env.allocate_variable(name))`
unfoldable pub slot_or_new : String → Option Slot → Emit Slot
slot_or_new n (some slot) = pure slot
slot_or_new n none = allocate_variable n

unfoldable pub emit_inputs : List (Spannable LValue) → Emit Code
unfolding target_name slot_or_new
emit_inputs [] = pure []
emit_inputs (variable ∷ variables) = do
  n ← target_name variable.node
  gen ← this
  slot ← slot_or_new n (find_variable n gen.env)
  code ← emit_inputs variables
  pure (store slot.1 slot.0 ∷ code)

unfoldable pub constructor_pattern :
    List (String × VariantInfo) → SpannedExpr → Option (VariantInfo × Exprs)
constructor_pattern constructors (at (name n) start end) = elim (lookup n constructors) [
  | some info ↦ if length info.fields == 0 then some (info, nil) else none
  | none ↦ none
]
constructor_pattern constructors (at (function_call (at (name n) s e) arguments) start end) =
    elim (lookup n constructors) [ some info ↦ some (info, arguments) | none ↦ none ]
constructor_pattern constructors _ = none

-- Loads the value that is matched: from its slot, or, where it is a variable, as an expression.
unfoldable pub emit_subject : Option Slot → SpannedExpr → Emit Code
emit_subject (some slot) expression = pure (load slot.1 slot.0 ∷ [])
emit_subject none expression = emit_expr expression

-- The fields of the matched value, from the one with this index on, go to new variables.
unfoldable pub emit_bindings : Emit Code → ℕ → Exprs → Emit Code
emit_bindings subject index nil = pure []
emit_bindings subject index (cons (at (name n) start end) bindings) = do
  code ← subject
  slot ← allocate_variable n
  rest ← emit_bindings subject (suc index) bindings
  pure (code ++ (field (as_i32 index) ∷ store slot.1 slot.0 ∷ []) ++ rest)
emit_bindings subject index (cons _ bindings) = panicked

-- The test of a case: of a constructor, whose fields are bound, or of a value
unfoldable pub emit_test :
    Emit Code → Label → SpannedExpr → Option (VariantInfo × Exprs) → Emit Code
unfolding emit_bindings
emit_test subject next pattern_ (some (info, bindings)) = do
  code ← subject
  bound ← emit_bindings subject 0 bindings
  pure (code ++ (is_variant info.schema ∷ cjmp next is_zero ∷ []) ++ bound)
emit_test subject next pattern_ none = do
  code ← subject
  value ← emit_expr pattern_
  pure (code ++ value ++ (binop Op.eq ∷ cjmp next is_zero ∷ []))

-- The test of a case, by its first pattern
unfoldable pub emit_pattern : Emit Code → Label → Exprs → Emit Code
unfolding constructor_pattern emit_test
emit_pattern subject next nil = panicked
emit_pattern subject next (cons pattern_ patterns) = do
  gen ← this
  emit_test subject next pattern_ (constructor_pattern gen.variant_constructors pattern_)
