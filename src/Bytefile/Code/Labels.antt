-- ===== src/Bytefile/Code/Labels.antt =====
-- crates/vm-core/src/bytefile.rs, `add_instructions`: the labels that a pass has placed, and the sizes that it reckons.
use mathlib.Core.Path.{subst}
use text.Mathlib.Text.{◌==◌ as str_eq}
use text.Mathlib.TextEquality.{eq_iff}
use text.Mathlib.TextPositions.{eq_refl}
use rapira.Prelude.{
  ℕ, ◌+◌, ◌≡◌, ap, sym, ◌∙◌, String, none, some, List, [], ◌∷◌, ◌++◌, arith, Bool-cases,
  Option-cases, inl, inr, length, length-append,
}
use rapira.Outcome.{Outcome, ok, ◌>>=◌, >>=-eq-ok, ok_injective}
use rapira.Numeric.{to_le_bytes, length-to_le_bytes}
use rapira.Bytecode.{Label, Instruction, label, jmp, cjmp, is_zero, is_nonzero, call, closure}
use rapira.Decoder.{DecoderError}
use rapira.Decoder.Encode.{encode, target}
use rapira.Bytefile.{lookup_label}
use rapira.Bytefile.Code.{
  reckoned_size, insert_label, checked_offset, place_one, place_labels, resolve_label, resolve,
}

insert_inv :
    (name : String) (offset : ℕ) (L L' : List (String × ℕ))
    → insert_label name offset L ≡ ok L'
    → (lookup_label name L ≡ none) × ((name, offset) ∷ L ≡ L')
unfolding insert_label
insert_inv name offset L L' e = elim (Option-cases (lookup_label name L)) [
  | inl fresh ↦ (fresh, ok_injective (rw (fresh, insert_label) at e))
  | inr (old, there) ↦ cc (rw (there, insert_label) at e)
]

lookup_here :
    (name : String) (offset : ℕ) (L : List (String × ℕ))
    → lookup_label name ((name, offset) ∷ L) ≡ some offset
unfolding lookup_label
lookup_here name offset L = rw (eq_refl name)

lookup_later :
    (name n : String) (offset x : ℕ) (L : List (String × ℕ))
    → lookup_label name L ≡ none
    → lookup_label n L ≡ some x
    → lookup_label n ((name, offset) ∷ L) ≡ some x
unfolding lookup_label
lookup_later name n offset x L fresh there = elim (Bool-cases (str_eq name n)) [
  | inl same ↦ cc ((eq_iff name n).0 same)
  | inr other ↦ rw other there
]

checked_inv : (offset at : ℕ) → checked_offset offset ≡ ok at → offset ≡ at
unfolding checked_offset
checked_inv offset at e = ground arith

skip_inv :
    (offset : ℕ) (m : Outcome DecoderError ℕ) (L : List (String × ℕ)) (r : ℕ × List (String × ℕ))
    → (do size ← m; ok (offset + size, L)) ≡ ok r
    → (size : ℕ) × (m ≡ ok size) × (r ≡ (offset + size, L))
skip_inv offset m L r e = let (size, h, p) = >>=-eq-ok m _ e in (size, h, sym (ok_injective p))

-- A round keeps the labels that were placed.
pub one_keeps :
    (offset : ℕ) (i : Instruction) (L : List (String × ℕ)) (r : ℕ × List (String × ℕ)) (n : String)
    (x : ℕ)
    → place_one offset i L ≡ ok r
    → lookup_label n L ≡ some x
    → lookup_label n r.1 ≡ some x
unfolding place_one
one_keeps offset (label name) L r n x e there =
    let (at, _, e₁) = >>=-eq-ok (checked_offset offset) _ e in
    let (L', el, e₂) = >>=-eq-ok (insert_label name at L) _ e₁ in
    let (fresh, here) = insert_inv name at L L' el in
    let same : (name, at) ∷ L ≡ r.1 =
      here ∙ ap (λ (p : ℕ × List (String × ℕ)). p.1) (ok_injective e₂) in
    subst (λ M. lookup_label n M ≡ some x) same (lookup_later name n at x L fresh there)
one_keeps offset i L r n x e there =
    let (size, _, q) = skip_inv offset (reckoned_size i) L r e in
    subst (λ M. lookup_label n M ≡ some x) (sym (ap (λ (p : ℕ × List (String × ℕ)). p.1) q)) there

pub place_keeps :
    (is : List Instruction) (offset : ℕ) (L L' : List (String × ℕ)) (n : String) (x : ℕ)
    → place_labels offset is L ≡ ok L'
    → lookup_label n L ≡ some x
    → lookup_label n L' ≡ some x
unfolding place_labels
place_keeps [] offset L L' n x e there =
    subst (λ M. lookup_label n M ≡ some x) (ok_injective e) there
place_keeps (i ∷ is) offset L L' n x e there =
    let (r, er, e₁) = >>=-eq-ok (place_one offset i L) _ e in
    place_keeps is r.0 r.1 L' n x e₁ (one_keeps offset i L r n x er there)

-- The label itself, at the offset where it is met.
pub one_label :
    (offset : ℕ) (name : String) (L : List (String × ℕ)) (r : ℕ × List (String × ℕ))
    → place_one offset (label name) L ≡ ok r
    → lookup_label name r.1 ≡ some offset
unfolding place_one
one_label offset name L r e =
    let (at, ea, e₁) = >>=-eq-ok (checked_offset offset) _ e in
    let (L', el, e₂) = >>=-eq-ok (insert_label name at L) _ e₁ in
    let (fresh, here) = insert_inv name at L L' el in
    let same : (name, at) ∷ L ≡ r.1 =
      here ∙ ap (λ (p : ℕ × List (String × ℕ)). p.1) (ok_injective e₂) in
    subst (λ M. lookup_label name M ≡ some offset) same
      (rw (checked_inv offset at ea) (lookup_here name at L))

jump_size :
    (byte : ℕ) (l : Label) (b : List ℕ)
    → (target l >>= λ x. ok (byte ∷ to_le_bytes 4 x)) ≡ ok b
    → length b ≡ 5
jump_size byte l b e =
    let (x, _, p) = >>=-eq-ok (target l) _ e in
    omega (arith, sym (ap length (ok_injective p)), length-to_le_bytes 4 x)

call_size :
    (byte n : ℕ) (l : Label) (b : List ℕ)
    → (target l >>= λ x. ok (byte ∷ (to_le_bytes 4 x ++ to_le_bytes 4 n))) ≡ ok b
    → length b ≡ 9
call_size byte n l b e =
    let (x, _, p) = >>=-eq-ok (target l) _ e in
    omega (
      arith,
      sym (ap length (ok_injective p)),
      length-append (to_le_bytes 4 x) (to_le_bytes 4 n),
      length-to_le_bytes 4 x,
      length-to_le_bytes 4 n,
    )

-- The size that the first pass reckons is the size of the code that is written.
reckoned_lem :
    (i : Instruction) (M : List (String × ℕ)) (b : List ℕ) (size : ℕ)
    → encode (resolve M i) ≡ ok b
    → reckoned_size i ≡ ok size
    → size ≡ length b
unfolding reckoned_size encode resolve
reckoned_lem (jmp l) M b size e h =
    sym (ok_injective h) ∙ sym (jump_size 0x15 (resolve_label M l) b e)
reckoned_lem (cjmp l is_zero) M b size e h =
    sym (ok_injective h) ∙ sym (jump_size 0x50 (resolve_label M l) b e)
reckoned_lem (cjmp l is_nonzero) M b size e h =
    sym (ok_injective h) ∙ sym (jump_size 0x51 (resolve_label M l) b e)
reckoned_lem (call l n) M b size e h =
    sym (ok_injective h) ∙ sym (call_size 0x56 n (resolve_label M l) b e)
reckoned_lem (closure l n) M b size e h =
    sym (ok_injective h) ∙ sym (call_size 0x54 n (resolve_label M l) b e)
reckoned_lem i M b size e h =
    let (b', eb, p) = >>=-eq-ok (encode i) (λ x. ok (length x)) h in
    sym (ok_injective p) ∙ ap length (ok_injective (sym eb ∙ e))

label_size :
    (name : String) (M : List (String × ℕ)) (b : List ℕ)
    → encode (resolve M (label name)) ≡ ok b
    → 0 ≡ length b
unfolding encode resolve
label_size name M b e = ap length (ok_injective e)

pub one_size :
    (offset : ℕ) (i : Instruction) (L M : List (String × ℕ)) (r : ℕ × List (String × ℕ))
    (b : List ℕ)
    → place_one offset i L ≡ ok r
    → encode (resolve M i) ≡ ok b
    → r.0 ≡ offset + length b
unfolding place_one
one_size offset (label name) L M r b e eb =
    let (at, _, e₁) = >>=-eq-ok (checked_offset offset) _ e in
    let (L', _, e₂) = >>=-eq-ok (insert_label name at L) _ e₁ in
    let kept : offset ≡ r.0 = ap (λ (p : ℕ × List (String × ℕ)). p.0) (ok_injective e₂) in
    omega (arith, kept, label_size name M b eb)
one_size offset i L M r b e eb =
    let (size, h, q) = skip_inv offset (reckoned_size i) L r e in
    let moved : r.0 ≡ offset + size = ap (λ (p : ℕ × List (String × ℕ)). p.0) q in
    omega (arith, moved, reckoned_lem i M b size eb h)
