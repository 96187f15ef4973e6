-- ===== src/Bytecode.antt =====
-- crates/vm-core/src/bytecode.rs: the instructions of the virtual machine.
-- An i32 field is its two's-complement pattern below 2 ^ 32, an f64 field its pattern below 2 ^ 64.
pub mod Codes
use rapira.Prelude.{ℕ, ◌^◌, ◌-◌, String, Bool, Option}

-- LWRITE_NEWLINE_FLAG and LWRITE_NEWLINE_MASK
abbrev pub lwrite_newline_flag : ℕ
lwrite_newline_flag = 2 ^ 30

abbrev pub lwrite_newline_mask : ℕ
lwrite_newline_mask = lwrite_newline_flag - 1

pub data Op : Type 0 where
  add sub mul div mod_ lt leq gt geq eq neq and or idiv pow : Op

pub data UnaryOp : Type 0 where
  negate not_ : UnaryOp

-- The scoping rule for a value
pub data ValueRel : Type 0 where
  global local arg capture : ValueRel

pub data CompareJumpKind : Type 0 where
  is_zero is_nonzero : CompareJumpKind

pub data Builtin : Type 0 where
  lread lwrite llength abs ttuple sqrt floor round tslice tint tfloat ttext tbool tnull : Builtin

pub record Label : Type 0 where
  pub name : String
  pub offset : Option ℕ

pub data Instruction : Type 0 where
  nop end : Instruction
  binop : Op → Instruction
  const string : ℕ → Instruction
  -- arguments, then locals
  begin cbegin : ℕ → ℕ → Instruction
  -- destination, then arity
  closure : Label → ℕ → Instruction
  store load : ValueRel → ℕ → Instruction
  call : Label → ℕ → Instruction
  call_builtin : Builtin → ℕ → Instruction
  callc line : ℕ → Instruction
  drop dup swap : Instruction
  jmp : Label → Instruction
  cjmp : Label → CompareJumpKind → Instruction
  elem sts sta : Instruction
  array : ℕ → Instruction
  bool : Bool → Instruction
  unary : UnaryOp → Instruction
  constf tuple : ℕ → Instruction
  null : Instruction
  label : String → Instruction
  slice variant : ℕ → Instruction
  variant_tag : Instruction
  field set_field is_variant : ℕ → Instruction
