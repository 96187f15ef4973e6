-- ===== src/Codegen/Expressions.antt =====
-- crates/compiler-core/src/codegen/bcgen.rs: `emit_expr`. The instructions come in the order in which
-- they are pushed.
use rapira.Prelude.{
  ℕ, ◌+◌, String, Option, none, some, List, [], ◌∷◌, ◌++◌, ◌==◌, if◌then◌else◌, length, lookup,
}
use rapira.Ast.{
  Literal, integer, boolean, real, text, Expr, SpannedExpr, at, MaybeExpr, absent, present, Exprs,
  nil, cons, count_exprs, BinaryOperator, power, multiply, divide, integer_divide, remainder,
  greater, less, greater_or_equal, less_or_equal, equal, not_equal, dot, subtract, UnaryOperator,
  plus, literal, name, subscript, tuple_construct, function_call, binary_op, unary_op,
}
use rapira.Ast.{add as plus_op, and as and_op, or as or_op}
use rapira.Bytecode.{
  Op, UnaryOp, Builtin, llength, Instruction, const, string, bool, constf, null, binop, unary,
  field, call_builtin, tuple, variant, call, callc, closure, load, elem, slice,
}
use rapira.Bytefile.{find_string_offset, add_string}
use rapira.Codegen.{
  BcGen, VariantInfo, Slot, Emit, pure, panicked, ◌>>=◌, this, expect, builtin_funcs, find_variable,
  as_i32,
}
use rapira.Codegen.Text.{as_bytes}

abbrev pub Code : Type 0
Code = List Instruction

unfoldable pub ast_binop_to_vm_op : BinaryOperator → Emit Op
ast_binop_to_vm_op power = pure Op.pow
ast_binop_to_vm_op multiply = pure Op.mul
ast_binop_to_vm_op divide = pure Op.div
ast_binop_to_vm_op integer_divide = pure Op.idiv
ast_binop_to_vm_op remainder = pure Op.mod_
ast_binop_to_vm_op plus_op = pure Op.add
ast_binop_to_vm_op subtract = pure Op.sub
ast_binop_to_vm_op greater = pure Op.gt
ast_binop_to_vm_op less = pure Op.lt
ast_binop_to_vm_op greater_or_equal = pure Op.geq
ast_binop_to_vm_op less_or_equal = pure Op.leq
ast_binop_to_vm_op equal = pure Op.eq
ast_binop_to_vm_op not_equal = pure Op.neq
ast_binop_to_vm_op and_op = pure Op.and
ast_binop_to_vm_op or_op = pure Op.or
ast_binop_to_vm_op dot = panicked

-- The offset that was found for a text, or that of the text added to the table
abbrev pub intern_at : String → Option ℕ → Emit ℕ
intern_at value (some index) gen = some (index, gen)
intern_at value none gen =
    let added = add_string (as_bytes value) gen.bytefile in
    some (added.0, record gen { bytefile = added.1 })

-- The offset of a text in the string table, where it is put at its first occurrence
unfoldable pub intern : String → Emit ℕ
intern value gen = intern_at value (find_string_offset (as_bytes value) gen.bytefile) gen

unfoldable pub emit_literal : Literal → Emit Code
unfolding intern
emit_literal (integer value) = pure (const (as_i32 value) ∷ [])
emit_literal (boolean value) = pure (bool value ∷ [])
emit_literal (real value) = pure (constf value ∷ [])
emit_literal (text value) = do index ← intern value; pure (string index ∷ [])
emit_literal Literal.null = pure (null ∷ [])

-- What the function of a call is taken for: the constructor of a variant, a builtin, a function of
-- this module or of an imported one, or a value
pub data Callee : Type 0 where
  constructor : VariantInfo → Callee
  builtin : Builtin → Callee
  target : String → Callee
  computed : Callee

abbrev pub known_from : Option Builtin → Option (String × ℕ) → Callee
known_from (some b) entry = builtin b
known_from none (some entry) = target entry.0
known_from none none = computed

-- A builtin, a known function (with its label, as `resolve_call_target` gives it), or else a value
unfoldable pub known_callee : String → BcGen → Callee
known_callee n gen = known_from (lookup n builtin_funcs) (lookup n gen.call_targets)

abbrev pub callee_from : Option VariantInfo → Callee → Callee
callee_from (some info) known = constructor info
callee_from none known = known

unfoldable pub callee_of : SpannedExpr → BcGen → Callee
unfolding known_callee
callee_of (at (name n) start end) gen =
    callee_from (lookup n gen.variant_constructors) (known_callee n gen)
callee_of _ gen = computed

-- From the constructor, the function and the variable of a name
unfoldable pub emit_found : Option VariantInfo → Option (String × ℕ) → Option Slot → Emit Code
emit_found (some info) entry slot =
    if length info.fields == 0 then pure (variant info.schema ∷ []) else panicked
emit_found none (some (function_label, arity)) slot =
    pure (closure (record { name = function_label; offset = none }) (as_i32 arity) ∷ [])
emit_found none none slot = do found ← expect slot; pure (load found.1 found.0 ∷ [])

-- A name as an expression: a constructor without fields, a function as a value, or a variable
unfoldable pub emit_name : String → Emit Code
unfolding emit_found
emit_name n = do
  gen ← this
  emit_found (lookup n gen.variant_constructors) (lookup n gen.call_targets)
      (find_variable n gen.env)

unfoldable pub unary_code : UnaryOperator → Code
unary_code UnaryOperator.negate = unary UnaryOp.negate ∷ []
unary_code plus = []
unary_code UnaryOperator.not_ = unary UnaryOp.not_ ∷ []
unary_code UnaryOperator.length = call_builtin llength 0 ∷ []

-- The field that stands to the right of a dot
unfoldable pub field_index : SpannedExpr → Emit ℕ
field_index (at (name field_name) start end) = do
  gen ← this
  expect (lookup field_name gen.field_indices)
field_index _ = panicked

-- A call, from the code of the function and of the arguments
unfoldable pub emit_call : Callee → ℕ → Emit Code → Emit Code → Emit Code
emit_call (constructor info) count function arguments =
    if count == length info.fields
    then (do code ← arguments; pure (code ++ variant info.schema ∷ []))
    else panicked
emit_call (builtin b) count function arguments = do
  code ← arguments
  pure (code ++ call_builtin b 0 ∷ [])
emit_call (target label) count function arguments = do
  code ← arguments
  pure (code ++ call (record { name = label; offset = none }) (as_i32 count) ∷ [])
emit_call computed count function arguments = do
  first ← function
  code ← arguments
  pure (first ++ code ++ callc (as_i32 count) ∷ [])

unfoldable mutual
  unfolding emit_literal emit_name unary_code field_index callee_of emit_call ast_binop_to_vm_op

  pub emit_expr : SpannedExpr → Emit Code
  emit_expr (at (literal lit) start end) = emit_literal lit
  emit_expr (at (binary_op dot left right) start end) = do
    index ← field_index right
    code ← emit_expr left
    pure (code ++ field index ∷ [])
  emit_expr (at (binary_op operator left right) start end) = do
    code ← emit_expr left
    code' ← emit_expr right
    op ← ast_binop_to_vm_op operator
    pure (code ++ code' ++ binop op ∷ [])
  emit_expr (at (unary_op operator operand) start end) = do
    code ← emit_expr operand
    pure (code ++ unary_code operator)
  emit_expr (at (tuple_construct elements) start end) = do
    code ← emit_exprs elements
    pure (code ++ tuple (as_i32 (count_exprs elements)) ∷ [])
  emit_expr (at (function_call function arguments) start end) = do
    gen ← this
    emit_call (callee_of function gen) (count_exprs arguments) (emit_expr function)
        (emit_exprs arguments)
  emit_expr (at (name n) start end) = emit_name n
  emit_expr (at (subscript collection index) start end) = do
    code ← emit_expr collection
    code' ← emit_expr index
    pure (code ++ code' ++ elem ∷ [])
  emit_expr (at (Expr.slice collection from to) start end) = do
    code ← emit_expr collection
    lower ← emit_bound from 1
    upper ← emit_bound to 2
    pure (code ++ lower.0 ++ upper.0 ++ slice (lower.1 + upper.1) ∷ [])

  pub emit_exprs : Exprs → Emit Code
  emit_exprs nil = pure []
  emit_exprs (cons e es) = do code ← emit_expr e; rest ← emit_exprs es; pure (code ++ rest)

  -- The code of a bound that may be left out, and its bit in the operand of SLICE
  pub emit_bound : MaybeExpr → ℕ → Emit (Code × ℕ)
  emit_bound absent bit = pure ([], 0)
  emit_bound (present e) bit = do code ← emit_expr e; pure (code, bit)
