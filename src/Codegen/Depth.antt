-- ===== src/Codegen/Depth.antt =====
-- What an instruction takes from the operand stack and puts on it, as the handlers of the interpreter
-- do, and the expressions and statements whose code keeps the stack in order.
mod Expressions
mod Shapes
mod Steps
mod Parts
pub mod Balanced
pub mod Execution
use Prim.Native.Char.{code as char_code}
use rapira.Prelude.{
  ℕ, suc, ◌+◌, ◌==◌, ◌&&◌, true, false, All, ◌-◌, ◌*◌, ◌/◌, ◌%◌, ◌^◌, ◌≡◌, ◌≤◌, ◌<◌, Bool, List, [],
  ◌∷◌, length, lookup, WhenSome, bit_and, Option, none, some, Values, String,
}
use rapira.Ast.{
  Expr, SpannedExpr, at, MaybeExpr, absent, present, Exprs, nil, cons, count_exprs, name, literal,
  subscript, tuple_construct, function_call, binary_op, unary_op, dot, LValue, LoopHeader, while,
  repeat, for, SpannedStatement, declaration, assignment, output, input, loop, return_from_function,
  conditional, selection, procedure_call, Statements, MaybeBody, Cases, no_cases, case,
}
use rapira.Bytecode.{
  Builtin, lread, lwrite, Label, Instruction, nop, end, binop, const, string, begin, cbegin,
  closure, store, load, call, call_builtin, callc, line, drop, dup, swap, jmp, cjmp, elem, sts, sta,
  array, bool, unary, constf, tuple, null, label, slice, variant, variant_tag, field, set_field,
  is_variant, lwrite_newline_mask,
}
use rapira.Codegen.{BcGen, VariantInfo, builtin_funcs}
use rapira.Codegen.Expressions.{Code}
use rapira.Codegen.Shapes.{flagged_count}

-- The values that READ pushes and WRITE pops, and what the other builtins do
abbrev pub builtin_effect : Builtin → ℕ → ℕ × ℕ
builtin_effect lread n = (0, bit_and n lwrite_newline_mask)
builtin_effect lwrite n = (bit_and n lwrite_newline_mask, 0)
builtin_effect _ n = (1, 1)

-- How many values an instruction pops, and how many it pushes; `fields` has the number of fields of
-- each schema.
abbrev pub effect : (ℕ → ℕ) → Instruction → ℕ × ℕ
effect fields end = (1, 0)
effect fields (binop op) = (2, 1)
effect fields (const value) = (0, 1)
effect fields (string index) = (0, 1)
effect fields (closure dest arity) = (0, 1)
effect fields (store rel index) = (1, 0)
effect fields (load rel index) = (0, 1)
effect fields (call dest n) = (n, 1)
effect fields (call_builtin b n) = builtin_effect b n
effect fields (callc arity) = (suc arity, 1)
effect fields drop = (1, 0)
effect fields dup = (1, 2)
effect fields swap = (2, 2)
effect fields (cjmp dest kind) = (1, 0)
effect fields elem = (2, 1)
effect fields sts = (2, 0)
effect fields sta = (3, 1)
effect fields (array n) = (1, 1)
effect fields (bool value) = (0, 1)
effect fields (unary op) = (1, 1)
effect fields (constf value) = (0, 1)
effect fields (tuple n) = (n, 1)
effect fields null = (0, 1)
effect fields (slice bounds) = (1 + bounds % 2 + bounds / 2 % 2, 1)
effect fields (variant schema) = (fields schema, 1)
effect fields variant_tag = (1, 1)
effect fields (field index) = (1, 1)
effect fields (set_field index) = (2, 0)
effect fields (is_variant schema) = (1, 1)
effect fields _ = (0, 0)

abbrev pub starts_with : String → String → Bool
starts_with String.[] s = true
starts_with (String.◌∷◌ c prefix) String.[] = false
starts_with (String.◌∷◌ c prefix) (String.◌∷◌ d s) =
    char_code c == char_code d && starts_with prefix s

-- A label that is jumped to: one that does not stand behind the condition of an `если`
abbrev pub IsEntry : String → Type 0
IsEntry l = starts_with "if_begin" l ≡ false

-- The stack has this depth where a jump goes to, and at each label that is jumped to.
abbrev pub JumpsAt : ℕ → Instruction → ℕ → Type 0
JumpsAt base (jmp dest) depth = IsEntry dest.name × (depth ≡ base)
JumpsAt base (cjmp dest kind) depth = IsEntry dest.name × (depth ≡ suc base)
JumpsAt base (label l) depth = IsEntry l → depth ≡ base
JumpsAt base _ depth = Unit

-- Read from its first instruction to its last, the code goes from one depth to the other, never pops a
-- value that is not there, and has the base as its depth at each jump, once the condition is taken, and
-- at each label that is jumped to.
abbrev pub Runs : (ℕ → ℕ) → ℕ → Code → ℕ → ℕ → Type 0
Runs fields base [] depth depth' = depth ≡ depth'
Runs fields base (i ∷ code) depth depth' =
    ((effect fields i).0 ≤ depth)
    × (JumpsAt base i depth
        × Runs fields base code (depth - (effect fields i).0 + (effect fields i).1) depth')

-- The code leaves as many values more, from any depth and with any base.
unfoldable pub Adds : (ℕ → ℕ) → ℕ → Code → Type 0
Adds fields n code =
    (base depth depth' : ℕ) → depth' ≡ depth + n → Runs fields base code depth depth'

-- The code leaves the stack as deep as it was, and jumps only at that depth.
unfoldable pub Keeps : (ℕ → ℕ) → Code → Type 0
Keeps fields code = (base : ℕ) → Runs fields base code base base

-- The generator's constructors have as many fields as their schemas.
abbrev pub HasFields : (ℕ → ℕ) → VariantInfo → Type 0
HasFields fields info = fields info.schema ≡ length info.fields

abbrev pub Agrees : (ℕ → ℕ) → BcGen → Type 0
Agrees fields gen = Values (HasFields fields) gen.variant_constructors

-- And the ends of its loops have a property.
abbrev pub AgreesWith : (Label → Type 0) → (ℕ → ℕ) → BcGen → Type 0
AgreesWith P fields gen = Agrees fields gen × All P gen.env.loop_end_labels

abbrev pub Enters : Label → Type 0
Enters l = IsEntry l.name

abbrev pub LoopsEnter : (ℕ → ℕ) → BcGen → Type 0
LoopsEnter = AgreesWith Enters

-- A builtin that is called by its name has one argument.
abbrev pub BuiltinArity : SpannedExpr → ℕ → Type 0
BuiltinArity (at (name v) start end_) count = WhenSome (λ _. count ≡ 1) (lookup v builtin_funcs)
BuiltinArity _ count = Unit

-- An expression whose calls of builtins have one argument, and whose calls and tuples have fewer than
-- 2 ^ 32 parts. The right side of a dot is no expression.
unfoldable mutual
  pub IsSound : SpannedExpr → Type 0
  IsSound (at (literal lit) start end_) = Unit
  IsSound (at (name v) start end_) = Unit
  IsSound (at (subscript collection index) start end_) = IsSound collection × IsSound index
  IsSound (at (Expr.slice collection from to) start end_) =
      IsSound collection × (IsSoundBound from × IsSoundBound to)
  IsSound (at (tuple_construct elements) start end_) =
      (count_exprs elements < 2 ^ 32) × AreSound elements
  IsSound (at (function_call function arguments) start end_) =
      ((count_exprs arguments < 2 ^ 32) × BuiltinArity function (count_exprs arguments))
      × (IsSound function × AreSound arguments)
  IsSound (at (binary_op dot left right) start end_) = IsSound left
  IsSound (at (binary_op operator left right) start end_) = IsSound left × IsSound right
  IsSound (at (unary_op operator operand) start end_) = IsSound operand

  pub AreSound : Exprs → Type 0
  AreSound nil = Unit
  AreSound (cons e es) = IsSound e × AreSound es

  pub IsSoundBound : MaybeExpr → Type 0
  IsSoundBound absent = Unit
  IsSoundBound (present e) = IsSound e

-- The target of an assignment whose expressions are sound; its collection is no expression.
abbrev pub IsSoundTarget : LValue → Type 0
IsSoundTarget (LValue.name v) = Unit
IsSoundTarget (LValue.subscript collection index) = IsSound index
IsSoundTarget (LValue.slice collection from to) = IsSoundBound from × IsSoundBound to
IsSoundTarget (LValue.field left f) = IsSound left

abbrev pub IsSoundHeader : LoopHeader → Type 0
IsSoundHeader (while e) = IsSound e
IsSoundHeader (repeat e) = IsSound e
IsSoundHeader (for v from to step) = IsSoundBound from × (IsSoundBound to × IsSoundBound step)

-- The count that READ and WRITE take out of the operand is the one that was packed with the flag.
abbrev pub IsPacked : Bool → ℕ → Type 0
IsPacked flag count = bit_and (flagged_count flag count) lwrite_newline_mask ≡ count

-- A statement whose expressions are sound
unfoldable mutual
  unfolding IsSound

  pub IsSoundStatement : SpannedStatement → Type 0
  IsSoundStatement (at (declaration target value) start end_) = IsSound value
  IsSoundStatement (at (assignment target value) start end_) =
      IsSound value × IsSoundTarget target.node
  IsSoundStatement (at (output no_newline values) start end_) =
      IsPacked no_newline (count_exprs values) × AreSound values
  IsSoundStatement (at (input text_mode variables) start end_) =
      IsPacked text_mode (length variables)
  IsSoundStatement (at (loop header body) start end_) = IsSoundHeader header × IsSoundBody body
  IsSoundStatement (at (return_from_function value) start end_) = IsSound value
  IsSoundStatement (at (conditional condition then_body else_body) start end_) =
      IsSound condition × (IsSoundBody then_body × IsSoundElse else_body)
  IsSoundStatement (at (selection expression cases else_body) start end_) =
      IsSound expression × (AreSoundCases cases × IsSoundElse else_body)
  IsSoundStatement (at (procedure_call procedure arguments) start end_) =
      ((count_exprs arguments < 2 ^ 32) × BuiltinArity procedure (count_exprs arguments))
      × (IsSound procedure × AreSound arguments)
  IsSoundStatement _ = Unit

  pub IsSoundBody : Statements → Type 0
  IsSoundBody nil = Unit
  IsSoundBody (cons s rest) = IsSoundStatement s × IsSoundBody rest

  pub IsSoundElse : MaybeBody → Type 0
  IsSoundElse absent = Unit
  IsSoundElse (present body) = IsSoundBody body

  pub AreSoundCases : Cases → Type 0
  AreSoundCases no_cases = Unit
  AreSoundCases (case values body rest) = AreSound values × (IsSoundBody body × AreSoundCases rest)
