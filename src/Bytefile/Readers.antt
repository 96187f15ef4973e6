-- ===== src/Bytefile/Readers.antt =====
-- crates/vm-core/src/bytefile.rs: the readers of `parse` at what `encode` wrote.
use rapira.Prelude.{
  ℕ, ◌%◌, ◌^◌, ◌<◌, ◌≡◌, refl, ap, sym, ◌∙◌, false, none, List, [], ◌∷◌, ◌++◌, arith, leb-false,
  ltb-false, length, length-append, take-append, drop-append, append_assoc,
}
use rapira.Outcome
use rapira.Outcome.{Outcome, ok, err, panic}
use rapira.Numeric.{to_le_bytes, from_le_bytes, length-to_le_bytes, from_le_bytes-to_le_bytes}
use rapira.Bytefile.{VariantSchema, variant_schema_marker}
use rapira.Bytefile.Serial.{
  encode_symbols, encode_fields, encode_schemas, Reader, ◌>>=◌, pure, read_exact, read_number,
  read_symbols, read_fields, any_past, read_schema, read_schemas, read_extension,
}

-- A read that gives `a` is followed by the rest of the reader, at `a`.
pub bind_read :
    {A B : Type 0} (m : Reader A) (f : A → Reader B) (source left : List ℕ) (a : A)
    → m source ≡ ok (a, left)
    → (m >>= f) source ≡ f a left
bind_read m f source left a p = ap (λ r. Outcome.◌>>=◌ r (λ x. f x.0 x.1)) p

pub read_exact-append :
    (n : ℕ) (xs rest : List ℕ) → n ≡ length xs → read_exact n (xs ++ rest) ≡ ok (xs, rest)
unfolding read_exact
read_exact-append n xs rest e = rw (
  ltb-false (length (xs ++ rest)) n (omega (arith, length-append xs rest)),
  take-append xs rest n e,
  drop-append xs rest n e,
)

pub read_number-to_le_bytes :
    (n v : ℕ) (rest : List ℕ) → v < 256 ^ n → read_number n (to_le_bytes n v ++ rest) ≡ ok (v, rest)
unfolding read_number
read_number-to_le_bytes n v rest small =
    bind_read (read_exact n) (λ bytes. pure (from_le_bytes bytes)) _ rest (to_le_bytes n v)
      (read_exact-append n (to_le_bytes n v) rest (sym (length-to_le_bytes n v)))
    ∙ rw (from_le_bytes-to_le_bytes n v small)

-- A number is read, and the reader goes on.
pub then_number :
    {B : Type 0} (n v : ℕ) (f : ℕ → Reader B) (rest : List ℕ)
    → v < 256 ^ n
    → (read_number n >>= f) (to_le_bytes n v ++ rest) ≡ f v rest
then_number n v f rest small =
    bind_read (read_number n) f _ rest v (read_number-to_le_bytes n v rest small)

abbrev pub SymbolsFit : List (ℕ × ℕ) → Type 0
SymbolsFit [] = Unit
SymbolsFit ((s_index, offset) ∷ rest) = (s_index < 2 ^ 32) × (offset < 2 ^ 32) × SymbolsFit rest

abbrev pub FieldsFit : ℕ → List ℕ → Type 0
FieldsFit len [] = Unit
FieldsFit len (field ∷ rest) = (field < len) × FieldsFit len rest

abbrev pub SchemasFit : ℕ → List VariantSchema → Type 0
SchemasFit len [] = Unit
SchemasFit len (schema ∷ rest) =
    (schema.name_offset < len)
    × (schema.tag < 2 ^ 16)
    × (length schema.field_offsets < 2 ^ 16)
    × FieldsFit len schema.field_offsets
    × SchemasFit len rest

pub read_symbols-encode_symbols :
    (symbols : List (ℕ × ℕ)) (rest : List ℕ)
    → SymbolsFit symbols
    → read_symbols (length symbols) none (encode_symbols symbols ++ rest) ≡ ok (symbols, rest)
unfolding read_symbols encode_symbols
read_symbols-encode_symbols [] rest h = refl
read_symbols-encode_symbols ((s, o) ∷ symbols) rest (hs, ho, h) =
    let xs = to_le_bytes 4 s in
    let ys = to_le_bytes 4 o in
    let zs = encode_symbols symbols in
    let step : (xs ++ (ys ++ zs)) ++ rest ≡ xs ++ (ys ++ (zs ++ rest)) =
      append_assoc xs (ys ++ zs) rest ∙ ap (λ t. xs ++ t) (append_assoc ys zs rest) in
    rw step (
      then_number 4 s _ (ys ++ (zs ++ rest)) hs
      ∙ then_number 4 o _ (zs ++ rest) ho
      ∙ bind_read (read_symbols (length symbols) none) (λ r. pure ((s, o) ∷ r)) (zs ++ rest) rest
          symbols (read_symbols-encode_symbols symbols rest h))

pub read_fields-encode_fields :
    (len : ℕ) (fields rest : List ℕ)
    → len < 2 ^ 32
    → FieldsFit len fields
    → read_fields (length fields) (encode_fields fields ++ rest) ≡ ok (fields, rest)
unfolding read_fields encode_fields
read_fields-encode_fields len [] rest small h = refl
read_fields-encode_fields len (field ∷ fields) rest small (hf, h) =
    let xs = to_le_bytes 4 field in
    rw (append_assoc xs (encode_fields fields) rest) (
      then_number 4 field _ (encode_fields fields ++ rest) (omega arith)
      ∙ bind_read (read_fields (length fields)) (λ r. pure (field ∷ r)) _ rest fields
          (read_fields-encode_fields len fields rest small h))

any_past-FieldsFit :
    (len : ℕ) (fields : List ℕ) → FieldsFit len fields → any_past len fields ≡ false
unfolding any_past
any_past-FieldsFit len [] h = refl
any_past-FieldsFit len (field ∷ fields) (hf, h) =
    rw (leb-false len field hf, any_past-FieldsFit len fields h)

-- the bytes of one schema, before `zs`
abbrev schema_bytes : VariantSchema → List ℕ → List ℕ
schema_bytes schema zs =
    to_le_bytes 4 schema.name_offset
    ++ (to_le_bytes 2 schema.tag
        ++ (to_le_bytes 2 (length schema.field_offsets % 2 ^ 16)
            ++ (encode_fields schema.field_offsets ++ zs)))

schema_bytes-append :
    (schema : VariantSchema) (zs rest : List ℕ)
    → schema_bytes schema zs ++ rest ≡ schema_bytes schema (zs ++ rest)
schema_bytes-append schema zs rest =
    let ns = to_le_bytes 4 schema.name_offset in
    let ts = to_le_bytes 2 schema.tag in
    let cs = to_le_bytes 2 (length schema.field_offsets % 2 ^ 16) in
    append_assoc ns _ rest
    ∙ ap (λ t. ns ++ t) (append_assoc ts _ rest)
    ∙ ap (λ t. ns ++ (ts ++ t)) (append_assoc cs _ rest)
    ∙ ap (λ t. ns ++ (ts ++ (cs ++ t))) (append_assoc (encode_fields schema.field_offsets) zs rest)

read_schema_lem :
    (len : ℕ) (schema : VariantSchema) (zs : List ℕ)
    → len < 2 ^ 32
    → schema.name_offset < len
    → schema.tag < 2 ^ 16
    → length schema.field_offsets < 2 ^ 16
    → FieldsFit len schema.field_offsets
    → read_schema len (schema_bytes schema zs) ≡ ok (schema, zs)
unfolding read_schema
read_schema_lem len schema zs small hn ht hl hf =
    let whole : length schema.field_offsets % 2 ^ 16 ≡ length schema.field_offsets = omega arith in
    let fields : read_fields (length schema.field_offsets % 2 ^ 16)
          (encode_fields schema.field_offsets ++ zs)
        ≡ ok (schema.field_offsets, zs) =
      rw whole (read_fields-encode_fields len schema.field_offsets zs small hf) in
    then_number 4 schema.name_offset _ _ (omega arith)
    ∙ then_number 2 schema.tag _ _ ht
    ∙ then_number 2 (length schema.field_offsets % 2 ^ 16) _ _ (omega arith)
    ∙ bind_read (read_fields (length schema.field_offsets % 2 ^ 16)) _ _ zs schema.field_offsets
        fields
    ∙ rw (leb-false len schema.name_offset hn, any_past-FieldsFit len schema.field_offsets hf)

pub read_schemas-encode_schemas :
    (len : ℕ) (schemas : List VariantSchema) (rest : List ℕ)
    → len < 2 ^ 32
    → SchemasFit len schemas
    → read_schemas len (length schemas) (encode_schemas schemas ++ rest) ≡ ok (schemas, rest)
unfolding read_schemas encode_schemas
read_schemas-encode_schemas len [] rest small h = refl
read_schemas-encode_schemas len (schema ∷ schemas) rest small (hn, ht, hl, hf, h) =
    let zs = encode_schemas schemas in
    rw (schema_bytes-append schema zs rest) (
      bind_read (read_schema len) _ _ (zs ++ rest) schema
        (read_schema_lem len schema (zs ++ rest) small hn ht hl hf)
      ∙ bind_read (read_schemas len (length schemas)) (λ r. pure (schema ∷ r)) (zs ++ rest) rest
          schemas (read_schemas-encode_schemas len schemas rest small h))

pub read_extension-marker :
    (count : ℕ) (rest : List ℕ)
    → count < 2 ^ 32
    → read_extension (to_le_bytes 4 variant_schema_marker ++ (to_le_bytes 4 count ++ rest))
      ≡ ok ((count, none), rest)
unfolding read_extension
read_extension-marker count rest small =
    then_number 4 variant_schema_marker _ _ (omega arith) ∙ then_number 4 count _ rest small
