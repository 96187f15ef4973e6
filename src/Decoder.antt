-- ===== src/Decoder.antt =====
-- crates/vm-core/src/decoder.rs: the decoder's state, and the reading of operands and instructions.
-- A method on `&mut self` is an action: it gives its result and the decoder that it leaves, on an
-- error too.
pub mod Encode
pub mod Reads
pub mod ReadAs
pub mod RoundTrip
pub mod Disassemble
pub mod Safety
pub mod Fuel
use rapira.Prelude.{
  ℕ, ◌+◌, ◌%◌, ◌^◌, bit_and, String, Bool, not, ◌||◌, ◌&&◌, Option, none, some, List, ◌==◌, ltb,
  leb, if◌then◌else◌, length, take, drop,
}
use rapira.Outcome.{Outcome, ok, err, panic}
use rapira.Numeric.{from_le_bytes}
use rapira.Bytefile.{Bytefile}
use rapira.Bytecode.{
  Op, is_zero, is_nonzero, lread, lwrite, Label, Instruction, nop, end, binop, const, string, begin,
  cbegin, closure, store, load, call, call_builtin, callc, line, dup, swap, jmp, cjmp, elem, sts,
  sta, array, bool, unary, constf, tuple, null, slice, variant, variant_tag, field, set_field,
  is_variant,
}
use rapira.Bytecode.Codes.{op_from_u8, unary_op_from_u8, value_rel_from_u8, builtin_from_u8}

pub data DecoderError : Type 0 where
  reading_more_then_code_section : DecoderError
  invalid_opcode : ℕ → DecoderError
  invalid_instruction : Instruction → DecoderError
  unknown_label : String → DecoderError

pub record Decoder : Type 0 where
  pub bf : Bytefile
  pub ip : ℕ
  pub code_section_len : ℕ

unfoldable pub new : Bytefile → Decoder
new bf = record { bf = bf; ip = bf.main_offset; code_section_len = length bf.code_section }

abbrev pub Read : Type 0 → Type 0
Read A = Decoder → Outcome DecoderError A × Decoder

abbrev pub and_then :
    {A B : Type 0}
    → (A → Read B)
    → Outcome DecoderError A × Decoder
    → Outcome DecoderError B × Decoder
and_then f (ok a, d) = f a d
and_then f (err e, d) = (err e, d)
and_then f (panic, d) = (panic, d)

infixl 5 ◌>>=◌
abbrev pub ◌>>=◌ : {A B : Type 0} → Read A → (A → Read B) → Read B
◌>>=◌ m f d = and_then f (m d)

abbrev pub pure : {A : Type 0} → A → Read A
pure a d = (ok a, d)

abbrev pub raise : {A : Type 0} → DecoderError → Read A
raise e d = (err e, d)

-- `next::<T>()` for a type of `size` bytes. The end is a usize, which wraps; the slice panics when it
-- runs backwards or past the code.
unfoldable pub next : ℕ → Read ℕ
next size d =
    let stop = (d.ip + size) % 2 ^ 64 in
    if ltb d.code_section_len stop
    then (err reading_more_then_code_section, d)
    else if ltb stop d.ip || ltb (length d.bf.code_section) stop
    then (panic, d)
    else (ok (from_le_bytes (take size (drop d.ip d.bf.code_section))), record d { ip = stop })

-- `X::try_from(subopcode).map_err(|_| DecoderError::from(byte))?`
abbrev pub or_invalid : {A : Type 0} → ℕ → Option A → Read A
or_invalid byte none = raise (invalid_opcode byte)
or_invalid byte (some a) = pure a

-- `Label { name: String::new(), offset: Some(offset) }`
abbrev pub resolved : ℕ → Label
resolved offset = record { name = ""; offset = some offset }

-- the arms of opcode 0x10
unfoldable pub decode_10 : ℕ → ℕ → Read Instruction
decode_10 byte sub =
    if sub == 0x0
    then (do value ← next 4; pure (const value))
    else if sub == 0x1
    then (do index ← next 4; pure (string index))
    else if sub == 0x2
    then (do n ← next 4; pure (tuple n))
    else if sub == 0x3
    then pure sts
    else if sub == 0x4
    then pure sta
    else if sub == 0x5
    then (do offset ← next 4; pure (jmp (resolved offset)))
    else if sub == 0x6
    then pure end
    else if sub == 0x7
    then (do bounds ← next 1; pure (slice bounds))
    else if sub == 0x8
    then pure Instruction.drop
    else if sub == 0x9
    then pure dup
    else if sub == 0xa
    then pure swap
    else if sub == 0xb
    then pure elem
    else if sub == 0xc
    then (do value ← next 8; pure (constf value))
    else raise (invalid_opcode byte)

-- the arms of opcode 0x50
unfoldable pub decode_50 : ℕ → ℕ → Read Instruction
decode_50 byte sub =
    if sub == 0x0
    then (do offset ← next 4; pure (cjmp (resolved offset) is_zero))
    else if sub == 0x1
    then (do offset ← next 4; pure (cjmp (resolved offset) is_nonzero))
    else if sub == 0x2
    then (do args ← next 4; locals ← next 4; pure (begin args locals))
    else if sub == 0x3
    then (do args ← next 4; locals ← next 4; pure (cbegin args locals))
    else if sub == 0x4
    then (do offset ← next 4; arity ← next 4; pure (closure (resolved offset) arity))
    else if sub == 0x5
    then (do arity ← next 4; pure (callc arity))
    else if sub == 0x6
    then (do offset ← next 4; n ← next 4; pure (call (resolved offset) n))
    else if sub == 0x8
    then (do n ← next 4; pure (array n))
    else if sub == 0x9
    then (do schema ← next 4; pure (variant schema))
    else if sub == 0xa
    then (do n ← next 4; pure (line n))
    else if sub == 0xb
    then pure variant_tag
    else if sub == 0xc
    then (do index ← next 4; pure (field index))
    else if sub == 0xd
    then (do index ← next 4; pure (set_field index))
    else if sub == 0xe
    then (do schema ← next 4; pure (is_variant schema))
    else raise (invalid_opcode byte)

-- the sub-opcodes of the builtins that take no operand
unfoldable pub is_plain_builtin : ℕ → Bool
is_plain_builtin sub = sub == 0x3 || sub == 0x4 || (leb 0x7 sub && leb sub 0xf)

-- the arms of opcode 0x70
unfoldable pub decode_70 : ℕ → ℕ → Read Instruction
unfolding is_plain_builtin builtin_from_u8
decode_70 byte sub =
    if sub == 0x0
    then (do n ← next 4; pure (call_builtin lread n))
    else if sub == 0x1
    then (do n ← next 4; pure (call_builtin lwrite n))
    else if is_plain_builtin sub
    then (do name ← or_invalid byte (builtin_from_u8 sub); pure (call_builtin name 0))
    else if sub == 0x5
    then (do value ← next 1; pure (bool (not (value == 0))))
    else if sub == 0x6
    then pure null
    else raise (invalid_opcode byte)

unfoldable pub decode : ℕ → Read Instruction
unfolding decode_10 decode_50 decode_70 op_from_u8 unary_op_from_u8 value_rel_from_u8
decode byte =
    let opcode = bit_and byte 0xF0 in
    let sub = bit_and byte 0x0F in
    if opcode == 0x00
    then if sub == 0x0
      then pure nop
      else (do op ← or_invalid byte (op_from_u8 sub); pure (binop op))
    else if opcode == 0x10
    then decode_10 byte sub
    else if opcode == 0x20 && leb sub 0x3
    then (do rel ← or_invalid byte (value_rel_from_u8 sub); index ← next 4; pure (load rel index))
    else if opcode == 0x30
    then (do op ← or_invalid byte (unary_op_from_u8 sub); pure (unary op))
    else if opcode == 0x40 && leb sub 0x3
    then (do rel ← or_invalid byte (value_rel_from_u8 sub); index ← next 4; pure (store rel index))
    else if opcode == 0x50
    then decode_50 byte sub
    else if opcode == 0x70
    then decode_70 byte sub
    else raise (invalid_opcode byte)

-- `let byte = decoder.next::<u8>()?; decoder.decode(byte)?`
unfoldable pub fetch : Read Instruction
unfolding decode
fetch = do byte ← next 1; decode byte
