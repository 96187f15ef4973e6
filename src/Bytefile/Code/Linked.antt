-- ===== src/Bytefile/Code/Linked.antt =====
-- crates/vm-core/src/bytefile.rs, `add_instructions`: what the code has in the place of the labels.
use mathlib.Core.Path.{subst}
use rapira.Prelude.{
  ℕ, ◌%◌, ◌^◌, ◌≡◌, refl, sym, ap, String, Option, some, none, List, [], ◌∷◌, ◌++◌, map,
}
use rapira.Outcome.{ok, >>=-eq-ok, ok_injective}
use rapira.Bytecode.{Label, Instruction, jmp, cjmp, call, closure, is_zero, is_nonzero}
use rapira.Decoder.Encode.{encode, target}
use rapira.Decoder.Disassemble.{encode_all}
use rapira.Bytefile.{Bytefile, lookup_label}
use rapira.Bytefile.Code.{resolve, resolve_label, add_instructions}
use rapira.Bytefile.Code.Placed.{add_instructions-encode_all}

-- The label that an instruction goes to or calls, and the instruction with another one
abbrev pub label_of : Instruction → Option Label
label_of (jmp dest) = some dest
label_of (cjmp dest kind) = some dest
label_of (call dest n) = some dest
label_of (closure dest arity) = some dest
label_of i = none

abbrev pub with_label : Label → Instruction → Instruction
with_label l (jmp dest) = jmp l
with_label l (cjmp dest kind) = cjmp l kind
with_label l (call dest n) = call l n
with_label l (closure dest arity) = closure l arity
with_label l i = i

-- What is written for an instruction: itself where it names no label; with the offset of its label where
-- the table has one; and itself where the table has none and it came with an offset.
pub data Linked (labels : List (String × ℕ)) : Instruction → Instruction → Type 0 where
  unlabelled : {i : Instruction} → label_of i ≡ none → Linked labels i i
  placed :
      {i : Instruction} {dest : Label} {offset : ℕ}
      → label_of i ≡ some dest
      → lookup_label dest.name labels ≡ some offset
      → Linked labels i (with_label (record dest { offset = some (offset % 2 ^ 32) }) i)
  given :
      {i : Instruction} {dest : Label} {offset : ℕ}
      → label_of i ≡ some dest
      → lookup_label dest.name labels ≡ none
      → dest.offset ≡ some offset
      → Linked labels i i

abbrev pub AllLinked : List (String × ℕ) → List Instruction → List Instruction → Type 0
AllLinked labels [] [] = Unit
AllLinked labels (i ∷ is) (j ∷ js) = Linked labels i j × AllLinked labels is js
AllLinked labels _ _ = ⊥

given_offset :
    (name : String) (o : Option ℕ) (x : ℕ)
    → target (record { name = name; offset = o }) ≡ ok x
    → o ≡ some x
given_offset name (some offset) x e = ap some (ok_injective e)
given_offset name none x e = cc

module _ (labels : List (String × ℕ)) where
  resolved_some :
      (dest : Label) (offset : ℕ)
      → lookup_label dest.name labels ≡ some offset
      → resolve_label labels dest ≡ record dest { offset = some (offset % 2 ^ 32) }
  unfolding resolve_label
  resolved_some dest offset e = rw (e, resolve_label)

  resolved_none :
      (dest : Label) → lookup_label dest.name labels ≡ none → resolve_label labels dest ≡ dest
  unfolding resolve_label
  resolved_none dest e = rw (e, resolve_label)

  label-Linked :
      (i : Instruction) (dest : Label) (x : ℕ) (o : Option ℕ)
      → lookup_label dest.name labels ≡ o
      → label_of i ≡ some dest
      → with_label dest i ≡ i
      → target (resolve_label labels dest) ≡ ok x
      → Linked labels i (with_label (resolve_label labels dest) i)
  label-Linked i dest x (some offset) e h same t =
      subst (λ l. Linked labels i (with_label l i)) (sym (resolved_some dest offset e)) (placed h e)
  label-Linked i dest x none e h same t =
      let kept = resolved_none dest e in
      let own = subst (λ l. target l ≡ ok x) kept t in
      subst (λ l. Linked labels i (with_label l i)) (sym kept)
        (subst (Linked labels i) (sym same) (given h e (given_offset dest.name dest.offset x own)))

  resolve-Linked :
      (i : Instruction) (bs : List ℕ)
      → encode (resolve labels i) ≡ ok bs
      → Linked labels i (resolve labels i)
  unfolding resolve encode
  resolve-Linked (jmp dest) bs e =
      let (x, t, _) = >>=-eq-ok (target (resolve_label labels dest)) _ e in
      label-Linked (jmp dest) dest x _ refl refl refl t
  resolve-Linked (cjmp dest is_zero) bs e =
      let (x, t, _) = >>=-eq-ok (target (resolve_label labels dest)) _ e in
      label-Linked (cjmp dest is_zero) dest x _ refl refl refl t
  resolve-Linked (cjmp dest is_nonzero) bs e =
      let (x, t, _) = >>=-eq-ok (target (resolve_label labels dest)) _ e in
      label-Linked (cjmp dest is_nonzero) dest x _ refl refl refl t
  resolve-Linked (call dest n) bs e =
      let (x, t, _) = >>=-eq-ok (target (resolve_label labels dest)) _ e in
      label-Linked (call dest n) dest x _ refl refl refl t
  resolve-Linked (closure dest arity) bs e =
      let (x, t, _) = >>=-eq-ok (target (resolve_label labels dest)) _ e in
      label-Linked (closure dest arity) dest x _ refl refl refl t
  resolve-Linked i bs e = unlabelled refl

  resolve-AllLinked :
      (is : List Instruction) (bs : List ℕ)
      → encode_all (map (resolve labels) is) ≡ ok bs
      → AllLinked labels is (map (resolve labels) is)
  unfolding encode_all
  resolve-AllLinked [] bs e = tt
  resolve-AllLinked (i ∷ is) bs e =
      let (b, h, f) = >>=-eq-ok (encode (resolve labels i)) _ e in
      let (rest, h', _) = >>=-eq-ok (encode_all (map (resolve labels) is)) _ f in
      (resolve-Linked i b h, resolve-AllLinked is rest h')

-- Where `add_instructions` succeeds, it appends to the code the encoding of a sequence of as many
-- instructions, and changes nothing else but the table of labels. Each of them is the given one,
-- where that names no label; it has the offset that the resulting table has for the label of a jump,
-- a call or a closure; and where the table has none, the given instruction has an offset of its own.
pub add_instructions-AllLinked :
    (is : List Instruction) (bf bf' : Bytefile)
    → add_instructions is bf ≡ ok bf'
    → (js : List Instruction) × (bs : List ℕ) × AllLinked bf'.labels is js
      × (encode_all js ≡ ok bs)
      × (bf' ≡ record bf { code_section = bf.code_section ++ bs; labels = bf'.labels })
add_instructions-AllLinked is bf bf' e =
    let (bs, encoded, same) = add_instructions-encode_all is bf bf' e in
    (map (resolve bf'.labels) is, bs, resolve-AllLinked bf'.labels is bs encoded, encoded, same)
