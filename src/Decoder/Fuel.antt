-- ===== src/Decoder/Fuel.antt =====
-- crates/vm-core/src/bytefile.rs, `Display for Bytefile`: the fuel of the loop.
use rapira.Prelude.{
  ℕ, zero, suc, ◌+◌, ◌≤◌, ◌<◌, ◌≡◌, refl, ap, sym, ◌∷◌, inl, inr, arith, ltb, Bool-cases, ltb→lt,
  ltb-false, length,
}
use mathlib.Core.Path.{subst}
use rapira.Outcome.{Outcome, ok, err, panic}
use rapira.Bytecode.{Instruction}
use rapira.Decoder.{Decoder, DecoderError, next, decode, fetch, pure, ◌>>=◌, and_then}
use rapira.Decoder.Reads.{bind_ok}
use rapira.Decoder.Safety.{IsSound, Good, next_enough, decode-IsSafe, fetch-IsSafe}
use rapira.Decoder.Disassemble.{disassemble_from}

-- An instruction that is read inside the code takes a byte at least.
fetch_forward : (d : Decoder) → IsSound d → d.ip < length d.bf.code_section → d.ip < (fetch d).1.ip
unfolding fetch
fetch_forward d s h =
    let d₁ : Decoder = record d { ip = d.ip + 1 } in
    let inside : d.ip + 1 ≤ d.code_section_len = omega (arith, s.fits) in
    let s₁ : IsSound d₁ = record { fits = s.fits; bounded = s.bounded; within = inside } in
    let read = bind_ok (next 1) decode d d₁ _ (next_enough 1 d s inside) in
    subst (λ r. d.ip < r.1.ip) (sym read) (omega (arith, ((decode-IsSafe _).at d₁ s₁).forward))

-- The round that follows, at whatever the fetch has given.
more_fuel :
    (fuel : ℕ) (d : Decoder) (r : Outcome DecoderError Instruction × Decoder)
    → ((d' : Decoder)
        → IsSound d'
        → length d'.bf.code_section ≤ d'.ip + fuel
        → disassemble_from (suc fuel) d' ≡ disassemble_from fuel d')
    → Good d r
    → length d.bf.code_section ≤ d.ip + suc fuel
    → d.ip < r.1.ip
    → and_then (λ i. (do rest ← disassemble_from (suc fuel); pure (i ∷ rest))) r
      ≡ and_then (λ i. (do rest ← disassemble_from fuel; pure (i ∷ rest))) r
more_fuel fuel d (ok i, d') ih g h p =
    ap (and_then (λ rest. pure (i ∷ rest)))
      (ih d' g.sound (subst (λ f. length f.code_section ≤ d'.ip + fuel) (sym g.file) (omega arith)))
more_fuel fuel d (err e, d') ih g h p = refl
more_fuel fuel d (panic, d') ih g h p = refl

-- From a sound decoder, fuel for every byte that is left is enough: one round more, and so any
-- number of rounds more, changes neither the instructions, nor the error, nor the decoder left.
pub disassemble_fuel :
    (fuel : ℕ) (d : Decoder)
    → IsSound d
    → length d.bf.code_section ≤ d.ip + fuel
    → disassemble_from (suc fuel) d ≡ disassemble_from fuel d
unfolding disassemble_from
disassemble_fuel zero d s h = rw (ltb-false d.ip (length d.bf.code_section) (omega arith))
disassemble_fuel (suc fuel) d s h = elim (Bool-cases (ltb d.ip (length d.bf.code_section))) [
  | inl inside ↦ rw inside (
      more_fuel fuel d (fetch d) (disassemble_fuel fuel) (fetch-IsSafe.at d s) h
        (fetch_forward d s (ltb→lt _ _ inside)))
  | inr outside ↦ rw outside
]
