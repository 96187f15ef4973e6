-- ===== src/Bytefile/Code/Placed.antt =====
-- crates/vm-core/src/bytefile.rs, `add_instructions`: where the labels are put, and the code.
use mathlib.Core.Path.{subst}
use rapira.Prelude.{
  ℕ, ◌+◌, ◌≡◌, refl, ap, sym, ◌∙◌, String, some, List, [], ◌∷◌, ◌++◌, map, arith, length,
  length-append, append_assoc, append-nil,
}
use rapira.Outcome.{ok, >>=-eq-ok, ok_injective}
use rapira.Bytecode.{Instruction, label}
use rapira.Decoder.Encode.{encode}
use rapira.Decoder.Disassemble.{encode_all}
use rapira.Bytefile.{Bytefile, lookup_label, label_offset}
use rapira.Bytefile.Code.{
  place_one, place_labels, resolve, add_instruction, add_each, add_instructions,
}
use rapira.Bytefile.Code.Labels.{place_keeps, one_label, one_size}

-- A label is placed at the offset of the code before it, in bytes as they are written.
place_lem :
    (before after : List Instruction) (name : String) (offset : ℕ) (L L' M : List (String × ℕ))
    (bs : List ℕ)
    → place_labels offset (before ++ label name ∷ after) L ≡ ok L'
    → encode_all (map (resolve M) before) ≡ ok bs
    → lookup_label name L' ≡ some (offset + length bs)
unfolding place_labels encode_all
place_lem [] after name offset L L' M bs e eb =
    let (r, er, e₁) = >>=-eq-ok (place_one offset (label name) L) _ e in
    let at : offset ≡ offset + length bs = omega (arith, ap length (ok_injective eb)) in
    subst (λ x. lookup_label name L' ≡ some x) at
      (place_keeps after r.0 r.1 L' name offset e₁ (one_label offset name L r er))
place_lem (i ∷ before) after name offset L L' M bs e eb =
    let (r, er, e₁) = >>=-eq-ok (place_one offset i L) _ e in
    let (b, h, f) = >>=-eq-ok (encode (resolve M i)) _ eb in
    let (rest, hr, f₁) = >>=-eq-ok (encode_all (map (resolve M) before)) _ f in
    let total : length (b ++ rest) ≡ length bs = ap length (ok_injective f₁) in
    let at : r.0 + length rest ≡ offset + length bs =
      omega (arith, total, length-append b rest, one_size offset i L M r b er h) in
    subst (λ x. lookup_label name L' ≡ some x) at
      (place_lem before after name r.0 r.1 L' M rest e₁ hr)

-- The third pass appends the encoding to the code, and changes nothing else.
add_each_lem :
    (is : List Instruction) (bf bf' : Bytefile)
    → add_each is bf ≡ ok bf'
    → (bs : List ℕ) × (encode_all is ≡ ok bs)
      × (bf' ≡ record bf { code_section = bf.code_section ++ bs })
unfolding add_each encode_all
add_each_lem [] bf bf' e = ([], refl, rw append-nil (sym (ok_injective e)))
add_each_lem (i ∷ is) bf bf' e =
    let (mid, em, e₁) = >>=-eq-ok (add_instruction i bf) _ e in
    let (b, eb, p) = >>=-eq-ok (encode i) _ (unfold add_instruction in em) in
    let (bs, ebs, q) = add_each_lem is mid bf' e₁ in
    let step : bf' ≡ record bf { code_section = (bf.code_section ++ b) ++ bs } =
      q
      ∙ ap (λ (x : Bytefile). record x { code_section = x.code_section ++ bs })
          (sym (ok_injective p)) in
    (
      b ++ bs,
      rw (eb, ebs),
      step ∙ ap (λ c. record bf { code_section = c }) (append_assoc bf.code_section b bs),
    )

-- Where `add_instructions` succeeds it appends to the code the encoding of the instructions, their
-- labels replaced by the offsets of the resulting file's table, and changes nothing else but that
-- table.
pub add_instructions-encode_all :
    (is : List Instruction) (bf bf' : Bytefile)
    → add_instructions is bf ≡ ok bf'
    → (bs : List ℕ) × (encode_all (map (resolve bf'.labels) is) ≡ ok bs)
      × (bf' ≡ record bf { code_section = bf.code_section ++ bs; labels = bf'.labels })
unfolding add_instructions
add_instructions-encode_all is bf bf' e =
    let (L, el, e₁) = >>=-eq-ok (place_labels (length bf.code_section) is bf.labels) _ e in
    let (bs, eb, p) = add_each_lem (map (resolve L) is) (record bf { labels = L }) bf' e₁ in
    let same : L ≡ bf'.labels = sym (ap (λ (x : Bytefile). x.labels) p) in
    (
      bs,
      subst (λ M. encode_all (map (resolve M) is) ≡ ok bs) same eb,
      p ∙ ap (λ M. record bf { code_section = bf.code_section ++ bs; labels = M }) same,
    )

-- Where `add_instructions` succeeds, each label of the sequence has the offset in the code section at
-- which the code behind it starts: the length of the old code and of the bytes that are written for
-- the instructions before the label.
pub label_offset-add_instructions :
    (before after : List Instruction) (name : String) (bytes : List ℕ) (bf bf' : Bytefile)
    → add_instructions (before ++ label name ∷ after) bf ≡ ok bf'
    → encode_all (map (resolve bf'.labels) before) ≡ ok bytes
    → label_offset name bf' ≡ some (length bf.code_section + length bytes)
unfolding add_instructions label_offset
label_offset-add_instructions before after name bytes bf bf' e eb =
    let is = before ++ label name ∷ after in
    let (L, el, e₁) = >>=-eq-ok (place_labels (length bf.code_section) is bf.labels) _ e in
    let (bs, _, p) = add_each_lem (map (resolve L) is) (record bf { labels = L }) bf' e₁ in
    let same : L ≡ bf'.labels = sym (ap (λ (x : Bytefile). x.labels) p) in
    subst (λ M. lookup_label name M ≡ some (length bf.code_section + length bytes)) same
      (place_lem before after name (length bf.code_section) bf.labels L bf'.labels bytes el eb)
