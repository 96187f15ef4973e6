-- ===== src/Vm/Accepted.antt =====
-- crates/vm-interp/src/interpreter.rs with crates/vm-core/src/decoder.rs: the opcodes that both know.
use mathlib.Core.Path.{subst}
use rapira.Prelude.{
  ℕ, zero, suc, ◌<◌, ◌≡◌, ◌≢◌, refl, sym, Bool, true, false, not, ◌&&◌, ◌||◌, ◌==◌, ==→eq, ==→ne,
  arith, Bool-cases, inl, inr,
}
use rapira.Outcome.{Outcome, ok, err, panic}
use rapira.Bytecode.{Instruction}
use rapira.Decoder.{Decoder, DecoderError, decode}
use rapira.Vm.Dispatch.{dispatch_indices, invalid_handler}

-- The outcome is no instruction.
abbrev failed : Outcome DecoderError Instruction × Decoder → Bool
failed (ok i, d) = false
failed (err e, d) = true
failed (panic, d) = true

abbrev agrees : Decoder → ℕ → Bool
agrees d byte = not (dispatch_indices byte == invalid_handler) || failed (decode byte d)

abbrev all_below : (ℕ → Bool) → ℕ → Bool
all_below f zero = true
all_below f (suc n) = f n && all_below f n

all_below_lem : (f : ℕ → Bool) (n i : ℕ) → all_below f n ≡ true → i < n → f i ≡ true
all_below_lem f zero i h l = absurd (omega arith)
all_below_lem f (suc n) i h l = elim (Bool-cases (f n)) [
  | inr off ↦ cc (rw off at h)
  | inl on ↦ elim (Bool-cases (i == n)) [
    | inl here ↦ subst (λ k. f k ≡ true) (sym (==→eq i n here)) on
    | inr other ↦
        let below : i < n = omega (arith, l, ==→ne i n other) in
        all_below_lem f n i (rw on at h) below
  ]
]

all_agree : (d : Decoder) → all_below (agrees d) 256 ≡ true
unfolding decode dispatch_indices
all_agree d = refl

-- The interpreter has a handler for every opcode from which the decoder reads an instruction.
pub decode-dispatch_indices :
    (byte : ℕ) (i : Instruction) (d d' : Decoder)
    → byte < 256
    → decode byte d ≡ (ok i, d')
    → dispatch_indices byte ≢ invalid_handler
decode-dispatch_indices byte i d d' small e invalid =
    let ruled = all_below_lem (agrees d) 256 byte (all_agree d) small in
    cc (rw (e, invalid) at ruled)
