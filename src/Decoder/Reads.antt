-- ===== src/Decoder/Reads.antt =====
-- crates/vm-core/src/decoder.rs: what `next` reads when the bytes ahead are known.
use rapira.Prelude.{
  ℕ, ◌+◌, ◌*◌, ◌%◌, ◌^◌, ◌<◌, ◌≤◌, ◌≡◌, refl, ap, sym, ◌∙◌, List, [], ◌∷◌, ◌++◌, arith, length,
  take, drop, ltb-false, take-append, drop-append, drop-drop, length-append,
}
use rapira.Outcome.{ok}
use rapira.Numeric.{to_le_bytes, from_le_bytes, length-to_le_bytes, from_le_bytes-to_le_bytes}
use rapira.Decoder.{Decoder, Read, next, decode, fetch, and_then, ◌>>=◌}

-- The decoder is sound and `bs` are the bytes from its position to the end of the code. The code is
-- shorter than 2 ^ 63, as any allocation is.
pub record Ahead (d : Decoder) (bs : List ℕ) : Type 0 where
  pub fits : d.code_section_len ≡ length d.bf.code_section
  pub bounded : d.code_section_len < 2 ^ 63
  pub within : d.ip + length bs ≡ d.code_section_len
  pub rest : drop d.ip d.bf.code_section ≡ bs

abbrev pub advance : ℕ → Decoder → Decoder
advance n d = record d { ip = d.ip + n }

pub advance-advance : (m n k : ℕ) (d : Decoder) → k ≡ m + n → advance n (advance m d) ≡ advance k d
advance-advance m n k d e =
    let e' : d.ip + m + n ≡ d.ip + k = omega arith in ap (λ (i : ℕ). record d { ip = i }) e'

pub Ahead-advance :
    (xs rest : List ℕ) (n : ℕ) (d : Decoder)
    → n ≡ length xs
    → Ahead d (xs ++ rest)
    → Ahead (advance n d) rest
Ahead-advance xs rest n d e h = record {
  fits = h.fits;
  bounded = h.bounded;
  within = omega (arith, h.within, length-append xs rest);
  rest =
      sym (drop-drop d.ip n (d.ip + n) d.bf.code_section refl)
      ∙ ap (drop n) h.rest
      ∙ drop-append xs rest n e;
}

pub next-Ahead :
    (xs rest : List ℕ) (n : ℕ) (d : Decoder)
    → n ≡ length xs
    → Ahead d (xs ++ rest)
    → next n d ≡ (ok (from_le_bytes xs), advance n d)
unfolding next
next-Ahead xs rest n d e h =
    let inside : d.ip + n ≤ d.code_section_len = omega (arith, h.within, length-append xs rest) in
    let whole : (d.ip + n) % 2 ^ 64 ≡ d.ip + n = omega (arith, h.bounded) in
    let bytes : take n (drop d.ip d.bf.code_section) ≡ xs =
      ap (take n) h.rest ∙ take-append xs rest n e in
    rw (
      whole,
      ltb-false d.code_section_len (d.ip + n) inside,
      ltb-false (d.ip + n) d.ip (omega arith),
      ltb-false (length d.bf.code_section) (d.ip + n) (omega (arith, h.fits)),
      bytes,
    )

-- A number that fits its bytes is read, and the position moves past it.
pub next_lem :
    (size v : ℕ) (rest : List ℕ) (d : Decoder)
    → v < 256 ^ size
    → Ahead d (to_le_bytes size v ++ rest)
    → next size d ≡ (ok v, advance size d)
next_lem size v rest d small h =
    next-Ahead (to_le_bytes size v) rest size d (sym (length-to_le_bytes size v)) h
    ∙ rw (from_le_bytes-to_le_bytes size v small)

-- A read that gives `a` is followed by the rest, at `a`.
pub bind_ok :
    {A B : Type 0} (m : Read A) (f : A → Read B) (d d' : Decoder) (a : A)
    → m d ≡ (ok a, d')
    → (m >>= f) d ≡ f a d'
bind_ok m f d d' a p = ap (and_then f) p

pub fetch_lem :
    (byte : ℕ) (bs : List ℕ) (d : Decoder)
    → Ahead d (byte ∷ bs)
    → fetch d ≡ decode byte (advance 1 d)
unfolding fetch from_le_bytes
fetch_lem byte bs d h =
    let one : byte + 256 * 0 ≡ byte = omega arith in
    bind_ok (next 1) decode d (advance 1 d) _ (next-Ahead (byte ∷ []) bs 1 d refl h)
    ∙ ap (λ b. decode b (advance 1 d)) one
