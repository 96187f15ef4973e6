-- ===== src/Decoder/ReadAs.antt =====
-- crates/vm-core/src/decoder.rs: the instructions whose bytes are read back, and the reading of an
-- opcode with its operands.
use rapira.Prelude.{
  ℕ, ◌^◌, ◌<◌, ◌≡◌, ◌≢◌, refl, ap, sym, ◌∙◌, String, Option, none, some, List, [], ◌∷◌, ◌++◌, arith,
  length, length-append, append_assoc,
}
use rapira.Outcome
use rapira.Outcome.{Outcome, ok, err, ok_injective}
use rapira.Numeric.{to_le_bytes, length-to_le_bytes}
use rapira.Bytecode.{
  capture, lread, lwrite, llength, Label, Instruction, const, string, begin, cbegin, closure, store,
  load, call, call_builtin, callc, line, jmp, cjmp, array, constf, tuple, label, slice, variant,
  field, set_field, is_variant,
}
use rapira.Decoder.{Decoder, DecoderError, next, decode, fetch, ◌>>=◌, pure, resolved}
use rapira.Decoder.Encode.{target}
use mathlib.Core.Path.{subst}
use rapira.Decoder.Reads.{
  bind_ok, Ahead, advance, advance-advance, Ahead-advance, next_lem, fetch_lem,
}

abbrev pub IsU32 : ℕ → Type 0
IsU32 n = n < 2 ^ 32

abbrev pub IsResolved : Label → Type 0
IsResolved l = elim l.offset [ some offset ↦ IsU32 offset | none ↦ ⊥ ]

-- The numbers of an instruction fit their types and its label is resolved. Left out are a symbolic
-- label, which has no code; a captured variable and LENGTH, which `decode` refuses; and a builtin
-- whose count `encode` writes though `decode` does not read it, or the other way round.
abbrev pub IsCodable : Instruction → Type 0
IsCodable (const value) = IsU32 value
IsCodable (string index) = IsU32 index
IsCodable (begin args locals) = IsU32 args × IsU32 locals
IsCodable (cbegin args locals) = IsU32 args × IsU32 locals
IsCodable (closure dest arity) = IsResolved dest × IsU32 arity
IsCodable (store rel index) = (rel ≢ capture) × IsU32 index
IsCodable (load rel index) = (rel ≢ capture) × IsU32 index
IsCodable (call dest n) = IsResolved dest × IsU32 n
IsCodable (call_builtin lread n) = (n ≢ 0) × IsU32 n
IsCodable (call_builtin lwrite n) = (n ≢ 0) × IsU32 n
IsCodable (call_builtin llength n) = ⊥
IsCodable (call_builtin name n) = n ≡ 0
IsCodable (callc arity) = IsU32 arity
IsCodable (line n) = IsU32 n
IsCodable (jmp dest) = IsResolved dest
IsCodable (cjmp dest kind) = IsResolved dest
IsCodable (array n) = IsU32 n
IsCodable (constf value) = value < 2 ^ 64
IsCodable (tuple n) = IsU32 n
IsCodable (label name) = ⊥
IsCodable (slice bounds) = bounds < 256
IsCodable (variant schema) = IsU32 schema
IsCodable (field index) = IsU32 index
IsCodable (set_field index) = IsU32 index
IsCodable (is_variant schema) = IsU32 schema
IsCodable _ = Unit

-- The instruction with the names of its labels forgotten, as the bytes do.
abbrev pub forget_name : Label → Label
forget_name l = record { name = ""; offset = l.offset }

abbrev pub forget_names : Instruction → Instruction
forget_names (closure dest arity) = closure (forget_name dest) arity
forget_names (call dest n) = call (forget_name dest) n
forget_names (jmp dest) = jmp (forget_name dest)
forget_names (cjmp dest kind) = cjmp (forget_name dest) kind
forget_names i = i

-- `bs` is read as the instruction `i`, whatever follows.
abbrev pub ReadAs : Instruction → List ℕ → Type 0
ReadAs i bs =
    (rest : List ℕ) (d : Decoder) → Ahead d (bs ++ rest) → fetch d ≡ (ok i, advance (length bs) d)

pub read_bare : (byte : ℕ) (i : Instruction) → decode byte ≡ pure i → ReadAs i (byte ∷ [])
read_bare byte i e rest d h = fetch_lem byte rest d h ∙ ap (λ f. f (advance 1 d)) e

pub read_one :
    (byte size v : ℕ) (f : ℕ → Instruction)
    → v < 256 ^ size
    → decode byte ≡ (do x ← next size; pure (f x))
    → ReadAs (f v) (byte ∷ to_le_bytes size v)
read_one byte size v f small e rest d h =
    let h' = Ahead-advance (byte ∷ []) (to_le_bytes size v ++ rest) 1 d refl h in
    fetch_lem byte (to_le_bytes size v ++ rest) d h
    ∙ ap (λ g. g (advance 1 d)) e
    ∙ bind_ok (next size) (λ x. pure (f x)) (advance 1 d) (advance size (advance 1 d)) v
        (next_lem size v rest (advance 1 d) small h')
    ∙ ap (λ d'. (ok (f v), d'))
        (advance-advance 1 size _ d (omega (arith, length-to_le_bytes size v)))

pub read_two :
    (byte v w : ℕ) (f : ℕ → ℕ → Instruction)
    → IsU32 v
    → IsU32 w
    → decode byte ≡ (do x ← next 4; y ← next 4; pure (f x y))
    → ReadAs (f v w) (byte ∷ (to_le_bytes 4 v ++ to_le_bytes 4 w))
read_two byte v w f hv hw e rest d h =
    let xs = to_le_bytes 4 v in
    let ys = to_le_bytes 4 w in
    let d₁ = advance 1 d in
    let d₂ = advance 4 d₁ in
    let split : (xs ++ ys) ++ rest ≡ xs ++ (ys ++ rest) = append_assoc xs ys rest in
    let h₁ : Ahead d₁ (xs ++ (ys ++ rest)) =
      subst (Ahead d₁) split (Ahead-advance (byte ∷ []) ((xs ++ ys) ++ rest) 1 d refl h) in
    let h₂ = Ahead-advance xs (ys ++ rest) 4 d₁ (sym (length-to_le_bytes 4 v)) h₁ in
    fetch_lem byte ((xs ++ ys) ++ rest) d h
    ∙ ap (λ g. g d₁) e
    ∙ bind_ok (next 4) (λ x. next 4 >>= λ y. pure (f x y)) d₁ d₂ v
        (next_lem 4 v (ys ++ rest) d₁ hv h₁)
    ∙ bind_ok (next 4) (λ y. pure (f v y)) d₂ (advance 4 d₂) w (next_lem 4 w rest d₂ hw h₂)
    ∙ ap (λ d'. (ok (f v w), d'))
        (advance-advance 4 4 8 d₁ refl
          ∙ advance-advance 1 8 _ d
              (omega (arith, length-append xs ys, length-to_le_bytes 4 v, length-to_le_bytes 4 w)))

pub from_ok :
    {i : Instruction} {xs bs : List ℕ}
    → ReadAs i xs
    → ◌≡◌ {A = Outcome DecoderError (List ℕ)} (ok xs) (ok bs)
    → ReadAs i bs
from_ok {i} r e = subst (ReadAs i) (ok_injective e) r

-- The instructions with a label: `f` of the label alone, or of the label and a number.
pub read_jump :
    (byte : ℕ) (name : String) (offset : Option ℕ) (f : Label → Instruction) (bs : List ℕ)
    → IsResolved (record { name = name; offset = offset })
    → decode byte ≡ (do x ← next 4; pure (f (resolved x)))
    → Outcome.◌>>=◌
        (target (record { name = name; offset = offset }))
        (λ x. ok (byte ∷ to_le_bytes 4 x))
      ≡ ok bs
    → ReadAs (f (record { name = ""; offset = offset })) bs
read_jump byte name none f bs c e h = absurd c
read_jump byte name (some x) f bs c e h = from_ok (read_one byte 4 x (λ y. f (resolved y)) c e) h

pub read_call :
    (byte : ℕ) (name : String) (offset : Option ℕ) (f : Label → ℕ → Instruction) (n : ℕ)
    (bs : List ℕ)
    → IsResolved (record { name = name; offset = offset })
    → IsU32 n
    → decode byte ≡ (do x ← next 4; y ← next 4; pure (f (resolved x) y))
    → Outcome.◌>>=◌
        (target (record { name = name; offset = offset }))
        (λ x. ok (byte ∷ (to_le_bytes 4 x ++ to_le_bytes 4 n)))
      ≡ ok bs
    → ReadAs (f (record { name = ""; offset = offset }) n) bs
read_call byte name none f n bs c hn e h = absurd c
read_call byte name (some x) f n bs c hn e h =
    from_ok (read_two byte x n (λ y. f (resolved y)) c hn e) h
