-- ===== src/Bytefile/Size.antt =====
-- crates/vm-core/src/bytefile.rs: the size of an encoded file.
use rapira.Prelude.{ℕ, ◌*◌, ◌%◌, ◌^◌, ◌≡◌, refl, List, [], ◌∷◌, ◌++◌, arith, length, length-append}
use rapira.Numeric.{to_le_bytes, length-to_le_bytes}
use rapira.Bytefile.{
  Bytefile, VariantSchema, variant_schema_marker, variant_schemas_size, get_current_global_offset,
}
use rapira.Bytefile.Serial.{encode_symbols, encode_fields, encode_schemas, encode}

length-encode_symbols :
    (symbols : List (ℕ × ℕ)) → length (encode_symbols symbols) ≡ length symbols * 8
unfolding encode_symbols
length-encode_symbols [] = refl
length-encode_symbols ((s, o) ∷ rest) = omega (
  arith,
  length-append (to_le_bytes 4 s) (to_le_bytes 4 o ++ encode_symbols rest),
  length-append (to_le_bytes 4 o) (encode_symbols rest),
  length-to_le_bytes 4 s,
  length-to_le_bytes 4 o,
  length-encode_symbols rest,
)

length-encode_fields : (fields : List ℕ) → length (encode_fields fields) ≡ length fields * 4
unfolding encode_fields
length-encode_fields [] = refl
length-encode_fields (f ∷ rest) = omega (
  arith,
  length-append (to_le_bytes 4 f) (encode_fields rest),
  length-to_le_bytes 4 f,
  length-encode_fields rest,
)

length-encode_schemas :
    (schemas : List VariantSchema) → length (encode_schemas schemas) ≡ variant_schemas_size schemas
unfolding encode_schemas variant_schemas_size
length-encode_schemas [] = refl
length-encode_schemas (s ∷ rest) =
    let cs = to_le_bytes 2 (length s.field_offsets % 2 ^ 16) in
    let fs = encode_fields s.field_offsets in
    let zs = encode_schemas rest in
    omega (
      arith,
      length-append (to_le_bytes 4 s.name_offset) (to_le_bytes 2 s.tag ++ (cs ++ (fs ++ zs))),
      length-append (to_le_bytes 2 s.tag) (cs ++ (fs ++ zs)),
      length-append cs (fs ++ zs),
      length-append fs zs,
      length-to_le_bytes 4 s.name_offset,
      length-to_le_bytes 2 s.tag,
      length-to_le_bytes 2 (length s.field_offsets % 2 ^ 16),
      length-encode_fields s.field_offsets,
      length-encode_schemas rest,
    )

-- The offset that `get_current_global_offset` computes from the sizes of the sections is the length
-- of the encoded file, for every file.
pub length-encode : (bf : Bytefile) → length (encode bf) ≡ get_current_global_offset bf
unfolding encode get_current_global_offset
length-encode bf =
    let n₅ = to_le_bytes 4 (length bf.variant_schemas % 2 ^ 32) in
    let ps = encode_symbols bf.public_symbols in
    let vs = encode_schemas bf.variant_schemas in
    let tail = bf.string_table ++ (vs ++ bf.code_section) in
    omega (
      arith,
      length-append (to_le_bytes 4 bf.stringtab_size) (
          to_le_bytes 4 bf.global_area_size
          ++ (to_le_bytes 4 bf.public_symbols_number
              ++ (to_le_bytes 4 variant_schema_marker ++ (n₅ ++ (ps ++ tail))))),
      length-append (to_le_bytes 4 bf.global_area_size) (
          to_le_bytes 4 bf.public_symbols_number
          ++ (to_le_bytes 4 variant_schema_marker ++ (n₅ ++ (ps ++ tail)))),
      length-append (to_le_bytes 4 bf.public_symbols_number)
          (to_le_bytes 4 variant_schema_marker ++ (n₅ ++ (ps ++ tail))),
      length-append (to_le_bytes 4 variant_schema_marker) (n₅ ++ (ps ++ tail)),
      length-append n₅ (ps ++ tail),
      length-append ps tail,
      length-append bf.string_table (vs ++ bf.code_section),
      length-append vs bf.code_section,
      length-to_le_bytes 4 bf.stringtab_size,
      length-to_le_bytes 4 bf.global_area_size,
      length-to_le_bytes 4 bf.public_symbols_number,
      length-to_le_bytes 4 variant_schema_marker,
      length-to_le_bytes 4 (length bf.variant_schemas % 2 ^ 32),
      length-encode_symbols bf.public_symbols,
      length-encode_schemas bf.variant_schemas,
    )
