-- ===== src/Decoder/Disassemble.antt =====
-- crates/vm-core/src/bytefile.rs, `Display for Bytefile`: the loop that decodes the code section
-- from the entry point to its end, and the assembler's side, instruction after instruction.
use rapira.Prelude.{
  ℕ, zero, suc, ◌+◌, ◌^◌, ◌<◌, ◌≤◌, ◌≡◌, refl, ap, sym, ◌∙◌, true, List, [], ◌∷◌, ◌++◌, map, arith,
  ltb, ltb-true, ltb-false, length, length-append, drop, drop-append, if◌then◌else◌,
}
use mathlib.Core.Path.{subst}
use rapira.Outcome
use rapira.Outcome.{Outcome, ok, err, >>=-eq-ok, ok_injective}
use rapira.Numeric.{to_le_bytes}
use rapira.Bytefile.{Bytefile}
use rapira.Bytecode.{llength, nop, label, capture, Instruction, call_builtin, load, store}
use rapira.Decoder.{Decoder, DecoderError, Read, new, decode, fetch, pure, ◌>>=◌, invalid_opcode}
use rapira.Decoder.Encode.{encode}
use rapira.Decoder.Reads.{Ahead, advance, Ahead-advance, bind_ok}
use rapira.Decoder.ReadAs.{IsCodable, forget_names}
use rapira.Decoder.RoundTrip.{encode-ReadAs}

-- The `while` loop with fuel: every round reads a byte or fails, so the length of the code is enough.
-- `none` of the rounds left is a loop that was cut off.
unfoldable pub disassemble_from : ℕ → Read (List Instruction)
disassemble_from zero d = (ok [], d)
disassemble_from (suc fuel) d =
    let more = (do i ← fetch; rest ← disassemble_from fuel; pure (i ∷ rest)) d in
    if ltb d.ip (length d.bf.code_section) then more else (ok [], d)

unfoldable pub disassemble : Bytefile → Outcome DecoderError (List Instruction)
unfolding disassemble_from
disassemble bf = (disassemble_from (length bf.code_section) (new bf)).0

-- The bytes of a sequence of instructions, as `add_instruction` appends them.
unfoldable pub encode_all : List Instruction → Outcome DecoderError (List ℕ)
encode_all [] = ok []
encode_all (i ∷ is) = Outcome.◌>>=◌ (encode i) λ b. Outcome.◌>>=◌ (encode_all is) λ bs. ok (b ++ bs)

abbrev pub AllCodable : List Instruction → Type 0
AllCodable [] = Unit
AllCodable (i ∷ is) = IsCodable i × AllCodable is

-- An instruction that has bytes has one at least.
encode-pos : (i : Instruction) (bs : List ℕ) → IsCodable i → encode i ≡ ok bs → 0 < length bs
unfolding encode
encode-pos nop bs c e = ground arith
encode-pos (label name) bs c e = absurd c
encode-pos _ bs c e = ground arith

-- One round of the loop at an instruction that is there, and the loop at the end of the code.
loop_step :
    (fuel : ℕ) (i : Instruction) (is : List Instruction) (b rest : List ℕ) (d d' : Decoder)
    → IsCodable i
    → encode i ≡ ok b
    → Ahead d (b ++ rest)
    → disassemble_from fuel (advance (length b) d) ≡ (ok is, d')
    → disassemble_from (suc fuel) d ≡ (ok (forget_names i ∷ is), d')
unfolding disassemble_from
loop_step fuel i is b rest d d' c e h ih =
    let inside : ltb d.ip (length d.bf.code_section) ≡ true =
      ltb-true _ _ (omega (arith, h.within, h.fits, length-append b rest, encode-pos i b c e)) in
    rw inside (
      bind_ok fetch _ d (advance (length b) d) (forget_names i) (encode-ReadAs i b c e rest d h)
      ∙ bind_ok (disassemble_from fuel) (λ r. pure (forget_names i ∷ r)) _ d' is ih)

loop_end : (fuel : ℕ) (d : Decoder) → Ahead d [] → disassemble_from fuel d ≡ (ok [], d)
unfolding disassemble_from
loop_end zero d h = refl
loop_end (suc fuel) d h =
    rw (ltb-false d.ip (length d.bf.code_section) (omega (arith, h.within, h.fits)))

loop_lem :
    (fuel : ℕ) (is : List Instruction) (bs : List ℕ) (d : Decoder)
    → AllCodable is
    → encode_all is ≡ ok bs
    → Ahead d bs
    → length bs ≤ fuel
    → (d' : Decoder) × (disassemble_from fuel d ≡ (ok (map forget_names is), d'))
unfolding encode_all
loop_lem fuel [] bs d c e h f = (d, loop_end fuel d (subst (Ahead d) (sym (ok_injective e)) h))
loop_lem zero (i ∷ is) bs d c e h f =
    let (b, eb, e₁) = >>=-eq-ok (encode i) _ e in
    let (rest, er, e₂) = >>=-eq-ok (encode_all is) _ e₁ in
    let whole : length b + length rest ≡ length bs =
      sym (length-append b rest) ∙ ap length (ok_injective e₂) in
    absurd (omega (arith, encode-pos i b c.0 eb))
loop_lem (suc fuel) (i ∷ is) bs d c e h f =
    let (b, eb, e₁) = >>=-eq-ok (encode i) _ e in
    let (rest, er, e₂) = >>=-eq-ok (encode_all is) _ e₁ in
    let h' : Ahead d (b ++ rest) = subst (Ahead d) (sym (ok_injective e₂)) h in
    let whole : length b + length rest ≡ length bs =
      sym (length-append b rest) ∙ ap length (ok_injective e₂) in
    let (d', ih) =
      loop_lem fuel is rest (advance (length b) d) c.1 er
        (Ahead-advance b rest (length b) d refl h') (omega (arith, encode-pos i b c.0 eb)) in
    (d', loop_step fuel i (map forget_names is) b rest d d' c.0 eb h' ih)

-- A file whose code, from the entry point on, is the encoding of instructions that the decoder can read
-- back is disassembled to those instructions, their label names forgotten. That leaves out labels, LENGTH,
-- the accesses to captured variables, READ and WRITE of no value, the other builtins with an operand,
-- and operands past their width. The code before the entry point is arbitrary, and the whole is shorter
-- than 2 ^ 63 bytes.
pub disassemble-encode_all :
    (bf : Bytefile) (before bs : List ℕ) (is : List Instruction)
    → AllCodable is
    → encode_all is ≡ ok bs
    → bf.code_section ≡ before ++ bs
    → bf.main_offset ≡ length before
    → length bf.code_section < 2 ^ 63
    → disassemble bf ≡ ok (map forget_names is)
unfolding disassemble new
disassemble-encode_all bf before bs is c e code main small =
    let total : length bf.code_section ≡ length before + length bs =
      ap length code ∙ length-append before bs in
    let ahead : Ahead (new bf) bs = record {
      fits = refl;
      bounded = small;
      within = omega arith;
      rest = ap (drop bf.main_offset) code ∙ drop-append before bs bf.main_offset main;
    } in
    let (d', r) = loop_lem (length bf.code_section) is bs (new bf) c e ahead (omega arith) in
    ap (λ x. x.0) r

-- `encode` gives LENGTH, whatever its count, and a load or store of a captured variable, bytes that
-- start with an opcode which `decode` refuses as invalid.
pub encoded_opcode_refused :
    ((n : ℕ) (d : Decoder)
      → (bs : List ℕ) × (encode (call_builtin llength n) ≡ ok (0x72 ∷ bs))
        × (decode 0x72 d ≡ (err (invalid_opcode 0x72), d)))
    × ((index : ℕ) (d : Decoder)
        → (encode (load capture index) ≡ ok (0x24 ∷ to_le_bytes 4 index))
          × (decode 0x24 d ≡ (err (invalid_opcode 0x24), d)))
    × ((index : ℕ) (d : Decoder)
        → (encode (store capture index) ≡ ok (0x44 ∷ to_le_bytes 4 index))
          × (decode 0x44 d ≡ (err (invalid_opcode 0x44), d)))
unfolding encode decode
encoded_opcode_refused =
    (λ n d. (_, refl, refl), (λ index d. (refl, refl)), λ index d. (refl, refl))
