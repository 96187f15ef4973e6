-- ===== src/Decoder/RoundTrip.antt =====
-- crates/vm-core/src/decoder.rs: the decoder at the bytes that `encode` writes.
use rapira.Prelude.{
  ℕ, ◌≡◌, ◌≢◌, refl, sym, true, false, not, List, [], ◌∷◌, ◌++◌, arith, ◌==◌, ==-false, length,
  if◌then◌else◌,
}
use rapira.Outcome.{ok}
use rapira.Numeric.{to_le_bytes}
use rapira.Bytecode.{
  Op, add, negate, not_, ValueRel, capture, is_zero, is_nonzero, Builtin, lread, lwrite, llength,
  Instruction, nop, end, binop, const, string, begin, cbegin, closure, store, load, call,
  call_builtin, callc, line, drop, dup, swap, jmp, cjmp, elem, sts, sta, array, bool, unary, constf,
  tuple, null, label, slice, variant, variant_tag, field, set_field, is_variant,
}
use rapira.Decoder.{Decoder, next, decode, fetch, ◌>>=◌, pure}
use rapira.Decoder.Encode.{encode}
use mathlib.Core.Path.{subst}
use rapira.Decoder.Reads.{Ahead, advance}
use rapira.Decoder.ReadAs.{
  IsU32, IsCodable, forget_names, ReadAs, read_bare, read_one, read_two, from_ok, read_jump,
  read_call,
}

read_binop : (op : Op) (bs : List ℕ) → encode (binop op) ≡ ok bs → ReadAs (binop op) bs
unfolding encode decode
read_binop add bs e = from_ok (read_bare 0x01 (binop add) refl) e
read_binop op bs e = from_ok (read_bare _ (binop op) refl) e

read_load :
    (rel : ValueRel) (index : ℕ) (bs : List ℕ)
    → IsCodable (load rel index)
    → encode (load rel index) ≡ ok bs
    → ReadAs (load rel index) bs
unfolding encode decode
read_load capture index bs c e = absurd (c.0 refl)
read_load rel index bs c e = from_ok (read_one _ 4 index (load rel) c.1 refl) e

read_store :
    (rel : ValueRel) (index : ℕ) (bs : List ℕ)
    → IsCodable (store rel index)
    → encode (store rel index) ≡ ok bs
    → ReadAs (store rel index) bs
unfolding encode decode
read_store capture index bs c e = absurd (c.0 refl)
read_store rel index bs c e = from_ok (read_one _ 4 index (store rel) c.1 refl) e

-- `encode` writes the count of READ and WRITE when it is not zero.
counted :
    (byte n : ℕ) (f : ℕ → Instruction)
    → n ≢ 0
    → IsU32 n
    → decode byte ≡ (do x ← next 4; pure (f x))
    → ReadAs (f n) (byte ∷ (if n == 0 then [] else to_le_bytes 4 n))
counted byte n f positive small e =
    subst (λ b. ReadAs (f n) (byte ∷ (if b then [] else to_le_bytes 4 n)))
      (sym (==-false n 0 positive)) (read_one byte 4 n f small e)

plain :
    (byte n : ℕ) (name : Builtin)
    → n ≡ 0
    → decode byte ≡ pure (call_builtin name 0)
    → ReadAs (call_builtin name n) (byte ∷ (if n == 0 then [] else to_le_bytes 4 n))
plain byte n name z e =
    subst (λ k. ReadAs (call_builtin name k) (byte ∷ (if k == 0 then [] else to_le_bytes 4 k)))
      (sym z) (read_bare byte (call_builtin name 0) e)

read_builtin :
    (name : Builtin) (n : ℕ) (bs : List ℕ)
    → IsCodable (call_builtin name n)
    → encode (call_builtin name n) ≡ ok bs
    → ReadAs (call_builtin name n) bs
unfolding encode decode
read_builtin lread n bs c e = from_ok (counted 0x70 n (call_builtin lread) c.0 c.1 refl) e
read_builtin lwrite n bs c e = from_ok (counted 0x71 n (call_builtin lwrite) c.0 c.1 refl) e
read_builtin llength n bs c e = absurd c
read_builtin name n bs c e = from_ok (plain _ n name c refl) e

pub encode-ReadAs :
    (i : Instruction) (bs : List ℕ) → IsCodable i → encode i ≡ ok bs → ReadAs (forget_names i) bs
unfolding encode decode
encode-ReadAs nop bs c e = from_ok (read_bare 0x00 nop refl) e
encode-ReadAs end bs c e = from_ok (read_bare 0x16 end refl) e
encode-ReadAs (binop op) bs c e = read_binop op bs e
encode-ReadAs (const value) bs c e = from_ok (read_one 0x10 4 value const c refl) e
encode-ReadAs (string index) bs c e = from_ok (read_one 0x11 4 index string c refl) e
encode-ReadAs (begin v w) bs c e = from_ok (read_two 0x52 v w begin c.0 c.1 refl) e
encode-ReadAs (cbegin v w) bs c e = from_ok (read_two 0x53 v w cbegin c.0 c.1 refl) e
encode-ReadAs (closure l n) bs c e = read_call 0x54 l.name l.offset closure n bs c.0 c.1 refl e
encode-ReadAs (store rel index) bs c e = read_store rel index bs c e
encode-ReadAs (load rel index) bs c e = read_load rel index bs c e
encode-ReadAs (call l n) bs c e = read_call 0x56 l.name l.offset call n bs c.0 c.1 refl e
encode-ReadAs (call_builtin name n) bs c e = read_builtin name n bs c e
encode-ReadAs (callc arity) bs c e = from_ok (read_one 0x55 4 arity callc c refl) e
encode-ReadAs (line n) bs c e = from_ok (read_one 0x5a 4 n line c refl) e
encode-ReadAs drop bs c e = from_ok (read_bare 0x18 drop refl) e
encode-ReadAs dup bs c e = from_ok (read_bare 0x19 dup refl) e
encode-ReadAs swap bs c e = from_ok (read_bare 0x1a swap refl) e
encode-ReadAs (jmp l) bs c e = read_jump 0x15 l.name l.offset jmp bs c refl e
encode-ReadAs (cjmp l is_zero) bs c e =
    read_jump 0x50 l.name l.offset (λ t. cjmp t is_zero) bs c refl e
encode-ReadAs (cjmp l is_nonzero) bs c e =
    read_jump 0x51 l.name l.offset (λ t. cjmp t is_nonzero) bs c refl e
encode-ReadAs elem bs c e = from_ok (read_bare 0x1b elem refl) e
encode-ReadAs sts bs c e = from_ok (read_bare 0x13 sts refl) e
encode-ReadAs sta bs c e = from_ok (read_bare 0x14 sta refl) e
encode-ReadAs (array n) bs c e = from_ok (read_one 0x58 4 n array c refl) e
encode-ReadAs (bool false) bs c e =
    from_ok (read_one 0x75 1 0 (λ v. bool (not (v == 0))) (omega arith) refl) e
encode-ReadAs (bool true) bs c e =
    from_ok (read_one 0x75 1 1 (λ v. bool (not (v == 0))) (omega arith) refl) e
encode-ReadAs (unary negate) bs c e = from_ok (read_bare 0x30 (unary negate) refl) e
encode-ReadAs (unary not_) bs c e = from_ok (read_bare 0x31 (unary not_) refl) e
encode-ReadAs (constf value) bs c e = from_ok (read_one 0x1c 8 value constf c refl) e
encode-ReadAs (tuple n) bs c e = from_ok (read_one 0x12 4 n tuple c refl) e
encode-ReadAs null bs c e = from_ok (read_bare 0x76 null refl) e
encode-ReadAs (label name) bs c e = absurd c
encode-ReadAs (slice bounds) bs c e = from_ok (read_one 0x17 1 bounds slice c refl) e
encode-ReadAs (variant schema) bs c e = from_ok (read_one 0x59 4 schema variant c refl) e
encode-ReadAs variant_tag bs c e = from_ok (read_bare 0x5b variant_tag refl) e
encode-ReadAs (field index) bs c e = from_ok (read_one 0x5c 4 index field c refl) e
encode-ReadAs (set_field index) bs c e = from_ok (read_one 0x5d 4 index set_field c refl) e
encode-ReadAs (is_variant schema) bs c e = from_ok (read_one 0x5e 4 schema is_variant c refl) e

-- At the bytes that `encode` gives for an instruction with an encoding that can be read, whatever
-- follows them, the decoder reads the instruction, its label names forgotten, and then stands behind
-- those bytes.
pub fetch-encode :
    (i : Instruction) (bs rest : List ℕ) (d : Decoder)
    → IsCodable i
    → encode i ≡ ok bs
    → Ahead d (bs ++ rest)
    → fetch d ≡ (ok (forget_names i), advance (length bs) d)
fetch-encode i bs rest d c e h = encode-ReadAs i bs c e rest d h
