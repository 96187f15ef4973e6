-- ===== src/Decoder/Safety.antt =====
-- crates/vm-core/src/decoder.rs: where a read may leave the decoder.
use native.Mathlib.Nat.{le_trans}
use rapira.Prelude.{
  ℕ, ◌+◌, ◌%◌, ◌^◌, ◌≤◌, ◌<◌, ◌≡◌, ◌≢◌, refl, ◌∙◌, Bool, true, false, Option, none, some, arith,
  ltb, Bool-cases, length, take, drop, inl, inr, ltb-true, if◌then◌else◌, ltb→le, ltb→lt, ltb-false,
}
use rapira.Outcome.{Outcome, ok, err, panic}
use rapira.Numeric.{from_le_bytes}
use rapira.Decoder.{
  Decoder, DecoderError, Read, reading_more_then_code_section, next, decode_10, decode_50,
  decode_70, decode, fetch, ◌>>=◌, and_then, pure, raise, or_invalid,
}

-- The decoder stands inside its code, which is shorter than 2 ^ 63, as any allocation is.
pub record IsSound (d : Decoder) : Type 0 where
  pub fits : d.code_section_len ≡ length d.bf.code_section
  pub bounded : d.code_section_len < 2 ^ 63
  pub within : d.ip ≤ d.code_section_len

-- What an outcome of a read from `d` may be.
pub record Good {A : Type 0} (d : Decoder) (r : Outcome DecoderError A × Decoder) : Type 0 where
  pub sound : IsSound r.1
  pub file : r.1.bf ≡ d.bf
  pub size : r.1.code_section_len ≡ d.code_section_len
  pub forward : d.ip ≤ r.1.ip
  pub no_panic : r.0 ≢ panic

pub record IsSafe {A : Type 0} (m : Read A) : Type 0 where
  pub at : (d : Decoder) → IsSound d → Good d (m d)

pure-IsSafe : {A : Type 0} (a : A) → IsSafe (pure a)
pure-IsSafe a = record {
  at = λ d s. record {
    sound = s;
    file = refl;
    size = refl;
    forward = omega arith;
    no_panic = λ p. cc;
  };
}

raise-IsSafe : {A : Type 0} (e : DecoderError) → IsSafe (raise {A = A} e)
raise-IsSafe e = record {
  at = λ d s. record {
    sound = s;
    file = refl;
    size = refl;
    forward = omega arith;
    no_panic = λ p. cc;
  };
}

and_then-Good :
    {A B : Type 0} (f : A → Read B) (d : Decoder) (r : Outcome DecoderError A × Decoder)
    → Good d r
    → ((a : A) → IsSafe (f a))
    → Good d (and_then f r)
and_then-Good f d (ok a, d') g h =
    let g' = (h a).at d' g.sound in
    record {
      sound = g'.sound;
      file = g'.file ∙ g.file;
      size = g'.size ∙ g.size;
      forward = le_trans g.forward g'.forward;
      no_panic = g'.no_panic;
    }
and_then-Good f d (err e, d') g h = record {
  sound = g.sound;
  file = g.file;
  size = g.size;
  forward = g.forward;
  no_panic = λ p. cc;
}
and_then-Good f d (panic, d') g h = absurd (g.no_panic refl)

bind-IsSafe :
    {A B : Type 0} {m : Read A} {f : A → Read B}
    → IsSafe m
    → ((a : A) → IsSafe (f a))
    → IsSafe (m >>= f)
bind-IsSafe {m} {f} h k = record { at = λ d s. and_then-Good f d (m d) (h.at d s) k }

if-IsSafe :
    {A : Type 0} (b : Bool) {m n : Read A} → IsSafe m → IsSafe n → IsSafe (if b then m else n)
if-IsSafe true h k = h
if-IsSafe false h k = k

or_invalid-IsSafe : {A : Type 0} (byte : ℕ) (o : Option A) → IsSafe (or_invalid byte o)
or_invalid-IsSafe byte none = raise-IsSafe _
or_invalid-IsSafe byte (some a) = pure-IsSafe a

next_short :
    (size : ℕ) (d : Decoder)
    → IsSound d
    → size ≤ 8
    → d.code_section_len < d.ip + size
    → next size d ≡ (err reading_more_then_code_section, d)
unfolding next
next_short size d s small h =
    let whole : (d.ip + size) % 2 ^ 64 ≡ d.ip + size = omega (arith, s.bounded, s.within) in
    rw (whole, ltb-true _ _ h)

pub next_enough :
    (size : ℕ) (d : Decoder)
    → IsSound d
    → d.ip + size ≤ d.code_section_len
    → next size d ≡ (
      ok (from_le_bytes (take size (drop d.ip d.bf.code_section))),
      record d { ip = d.ip + size },
    )
unfolding next
next_enough size d s h =
    let whole : (d.ip + size) % 2 ^ 64 ≡ d.ip + size = omega (arith, s.bounded) in
    rw (
      whole,
      ltb-false d.code_section_len (d.ip + size) h,
      ltb-false (d.ip + size) d.ip (omega arith),
      ltb-false (length d.bf.code_section) (d.ip + size) (omega (arith, s.fits)),
    )

next_at : (size : ℕ) (d : Decoder) → size ≤ 8 → IsSound d → Good d (next size d)
next_at size d small s = elim (Bool-cases (ltb d.code_section_len (d.ip + size))) [
  | inl more ↦
      rw (next_short size d s small (ltb→lt _ _ more))
        ((raise-IsSafe reading_more_then_code_section).at d s)
  | inr enough ↦
      let inside = ltb→le _ _ enough in
      rw (next_enough size d s inside) (record {
        sound = record { fits = s.fits; bounded = s.bounded; within = inside };
        file = refl;
        size = refl;
        forward = omega arith;
        no_panic = λ p. cc;
      })
]

next-IsSafe : (size : ℕ) → size ≤ 8 → IsSafe (next size)
next-IsSafe size small = record { at = λ d s. next_at size d small s }

next_1 : IsSafe (next 1)
next_1 = next-IsSafe 1 (omega arith)

next_4 : IsSafe (next 4)
next_4 = next-IsSafe 4 (omega arith)

next_8 : IsSafe (next 8)
next_8 = next-IsSafe 8 (omega arith)

ruleset safe_rules =
    (pure-IsSafe, raise-IsSafe, bind-IsSafe, if-IsSafe, or_invalid-IsSafe, next_1, next_4, next_8)

decode_10-IsSafe : (byte sub : ℕ) → IsSafe (decode_10 byte sub)
unfolding decode_10
decode_10-IsSafe byte sub = search safe_rules depth 20

decode_50-IsSafe : (byte sub : ℕ) → IsSafe (decode_50 byte sub)
unfolding decode_50
decode_50-IsSafe byte sub = search safe_rules depth 20

decode_70-IsSafe : (byte sub : ℕ) → IsSafe (decode_70 byte sub)
unfolding decode_70
decode_70-IsSafe byte sub = search safe_rules depth 20

pub decode-IsSafe : (byte : ℕ) → IsSafe (decode byte)
unfolding decode
decode-IsSafe byte =
    search (safe_rules, decode_10-IsSafe, decode_50-IsSafe, decode_70-IsSafe) depth 20

pub fetch-IsSafe : IsSafe fetch
unfolding fetch
fetch-IsSafe = bind-IsSafe next_1 decode-IsSafe

-- Decoding any byte, at any position of a sound decoder, does not panic, leaves the file as it is,
-- moves forward only and stops inside the code, on an error too. So does reading the byte first.
pub decode_lem : (byte : ℕ) (d : Decoder) → IsSound d → Good d (decode byte d) × Good d (fetch d)
decode_lem byte d s = ((decode-IsSafe byte).at d s, fetch-IsSafe.at d s)
