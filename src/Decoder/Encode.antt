-- ===== src/Decoder/Encode.antt =====
-- crates/vm-core/src/decoder.rs: `Decoder::encode`.
use rapira.Prelude.{
  ℕ, ◌+◌, bit_or, Bool, true, false, none, some, List, [], ◌∷◌, ◌++◌, ◌==◌, if◌then◌else◌,
}
use rapira.Outcome.{Outcome, ok, err, ◌>>=◌}
use rapira.Numeric.{to_le_bytes}
use rapira.Bytecode.{
  is_zero, is_nonzero, Label, Instruction, nop, end, binop, const, string, begin, cbegin, closure,
  store, load, call, call_builtin, callc, line, drop, dup, swap, jmp, cjmp, elem, sts, sta, array,
  bool, unary, constf, tuple, null, label, slice, variant, variant_tag, field, set_field,
  is_variant,
}
use rapira.Bytecode.Codes.{op_to_i32, unary_op_to_i32, value_rel_to_i32, builtin_to_i32}
use rapira.Decoder.{DecoderError, unknown_label}

-- `let Some(offset) = offset else { return Err(DecoderError::UnknownLabel(name.clone())); };`
abbrev pub target : Label → Outcome DecoderError ℕ
target l = elim l.offset [ some offset ↦ ok offset | none ↦ err (unknown_label l.name) ]

-- `value as u8`
abbrev pub bool_to_u8 : Bool → ℕ
bool_to_u8 true = 1
bool_to_u8 false = 0

unfoldable pub encode : Instruction → Outcome DecoderError (List ℕ)
unfolding op_to_i32 unary_op_to_i32 value_rel_to_i32 builtin_to_i32
encode nop = ok (0x00 ∷ [])
encode (binop op) = ok (bit_or 0x00 (op_to_i32 op + 1) ∷ [])
encode (const value) = ok (0x10 ∷ to_le_bytes 4 value)
encode (string index) = ok (0x11 ∷ to_le_bytes 4 index)
encode (tuple n) = ok (0x12 ∷ to_le_bytes 4 n)
encode sts = ok (0x13 ∷ [])
encode sta = ok (0x14 ∷ [])
encode (jmp dest) = do offset ← target dest; ok (0x15 ∷ to_le_bytes 4 offset)
encode end = ok (0x16 ∷ [])
encode (slice bounds) = ok (0x17 ∷ to_le_bytes 1 bounds)
encode drop = ok (0x18 ∷ [])
encode dup = ok (0x19 ∷ [])
encode swap = ok (0x1a ∷ [])
encode elem = ok (0x1b ∷ [])
encode (constf value) = ok (0x1c ∷ to_le_bytes 8 value)
encode (load rel index) = ok (bit_or 0x20 (value_rel_to_i32 rel) ∷ to_le_bytes 4 index)
encode (unary op) = ok (bit_or 0x30 (unary_op_to_i32 op) ∷ [])
encode (store rel index) = ok (bit_or 0x40 (value_rel_to_i32 rel) ∷ to_le_bytes 4 index)
encode (cjmp dest is_zero) = do offset ← target dest; ok (0x50 ∷ to_le_bytes 4 offset)
encode (cjmp dest is_nonzero) = do offset ← target dest; ok (0x51 ∷ to_le_bytes 4 offset)
encode (begin args locals) = ok (0x52 ∷ (to_le_bytes 4 args ++ to_le_bytes 4 locals))
encode (cbegin args locals) = ok (0x53 ∷ (to_le_bytes 4 args ++ to_le_bytes 4 locals))
encode (closure dest arity) = do
  offset ← target dest
  ok (0x54 ∷ (to_le_bytes 4 offset ++ to_le_bytes 4 arity))
encode (callc arity) = ok (0x55 ∷ to_le_bytes 4 arity)
encode (call dest n) = do
  offset ← target dest
  ok (0x56 ∷ (to_le_bytes 4 offset ++ to_le_bytes 4 n))
encode (array n) = ok (0x58 ∷ to_le_bytes 4 n)
encode (variant schema) = ok (0x59 ∷ to_le_bytes 4 schema)
encode (line n) = ok (0x5a ∷ to_le_bytes 4 n)
encode variant_tag = ok (0x5b ∷ [])
encode (field index) = ok (0x5c ∷ to_le_bytes 4 index)
encode (set_field index) = ok (0x5d ∷ to_le_bytes 4 index)
encode (is_variant schema) = ok (0x5e ∷ to_le_bytes 4 schema)
encode (call_builtin name n) =
    ok (bit_or 0x70 (builtin_to_i32 name) ∷ (if n == 0 then [] else to_le_bytes 4 n))
encode (bool value) = ok (0x75 ∷ to_le_bytes 1 (bool_to_u8 value))
encode null = ok (0x76 ∷ [])
encode (label name) = ok []
