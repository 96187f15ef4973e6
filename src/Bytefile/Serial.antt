-- ===== src/Bytefile/Serial.antt =====
-- crates/vm-core/src/bytefile.rs: `encode`, which writes a file's bytes, and `parse`, which reads them.
-- The reader over the source is the list of the bytes that are left.
use rapira.Prelude.{
  ℕ, zero, suc, ◌%◌, ◌^◌, Bool, false, ◌||◌, Option, none, some, List, [], ◌∷◌, ◌++◌, ◌==◌, ltb,
  leb, if◌then◌else◌, length, take, drop,
}
use rapira.Outcome
use rapira.Outcome.{Outcome, ok, err, panic, fail_if}
use rapira.Numeric.{to_le_bytes, from_le_bytes}
use rapira.Bytefile.{
  Bytefile, VariantSchema, BytefileError, variant_schema_marker, unexpected_eof,
  invalid_string_index_in_string_table, main_not_found, invalid_public_symbol_offset,
  position_of_null, bytes_eq,
}

-- P × (int32, int32)
unfoldable pub encode_symbols : List (ℕ × ℕ) → List ℕ
encode_symbols [] = []
encode_symbols ((offset, name_offset) ∷ rest) =
    to_le_bytes 4 offset ++ (to_le_bytes 4 name_offset ++ encode_symbols rest)

unfoldable pub encode_fields : List ℕ → List ℕ
encode_fields [] = []
encode_fields (field ∷ rest) = to_le_bytes 4 field ++ encode_fields rest

unfoldable pub encode_schemas : List VariantSchema → List ℕ
unfolding encode_fields
encode_schemas [] = []
encode_schemas (schema ∷ rest) =
    to_le_bytes 4 schema.name_offset
    ++ (to_le_bytes 2 schema.tag
        ++ (to_le_bytes 2 (length schema.field_offsets % 2 ^ 16)
            ++ (encode_fields schema.field_offsets ++ encode_schemas rest)))

unfoldable pub encode : Bytefile → List ℕ
unfolding encode_symbols encode_schemas
encode bf =
    to_le_bytes 4 bf.stringtab_size
    ++ (to_le_bytes 4 bf.global_area_size
        ++ (to_le_bytes 4 bf.public_symbols_number
            ++ (to_le_bytes 4 variant_schema_marker
                ++ (to_le_bytes 4 (length bf.variant_schemas % 2 ^ 32)
                    ++ (encode_symbols bf.public_symbols
                        ++ (bf.string_table
                            ++ (encode_schemas bf.variant_schemas ++ bf.code_section)))))))

-- What a read gives, and the bytes that are left.
abbrev pub Reader : Type 0 → Type 0
Reader A = List ℕ → Outcome BytefileError (A × List ℕ)

infixl 5 ◌>>=◌ ◌>>◌
abbrev pub ◌>>=◌ : {A B : Type 0} → Reader A → (A → Reader B) → Reader B
◌>>=◌ m f source = Outcome.◌>>=◌ (m source) (λ r. f r.0 r.1)

abbrev pub ◌>>◌ : {B : Type 0} → Reader (Unit {0}) → Reader B → Reader B
m >> k = m >>= λ _. k

abbrev pub pure : {A : Type 0} → A → Reader A
pure a source = ok (a, source)

abbrev pub lift : {A : Type 0} → Outcome BytefileError A → Reader A
lift r source = Outcome.◌>>=◌ r (λ a. ok (a, source))

-- `reader.read_exact(&mut buf).map_err(|_| BytefileError::UnexpectedEOF)?` for `n` bytes
unfoldable pub read_exact : ℕ → Reader (List ℕ)
read_exact n source =
    if ltb (length source) n then err unexpected_eof else ok (take n source, drop n source)

-- a little-endian number of `n` bytes
unfoldable pub read_number : ℕ → Reader ℕ
unfolding read_exact
read_number n = do bytes ← read_exact n; pure (from_le_bytes bytes)

-- The loop over the public symbols: a first word that was no marker is the first symbol's.
unfoldable pub read_symbols : ℕ → Option ℕ → Reader (List (ℕ × ℕ))
read_symbols zero first = pure []
read_symbols (suc n) (some symbol) = do
  name ← read_number 4
  rest ← read_symbols n none
  pure ((symbol, name) ∷ rest)
read_symbols (suc n) none = do
  symbol ← read_number 4
  name ← read_number 4
  rest ← read_symbols n none
  pure ((symbol, name) ∷ rest)

unfoldable pub read_fields : ℕ → Reader (List ℕ)
read_fields zero = pure []
read_fields (suc n) = do field ← read_number 4; rest ← read_fields n; pure (field ∷ rest)

-- `.iter().any(|offset| *offset as usize >= string_table.len())`
unfoldable pub any_past : ℕ → List ℕ → Bool
any_past len [] = false
any_past len (offset ∷ rest) = leb len offset || any_past len rest

-- One round of the loop over the variant schemas, whose strings must start inside the table of
-- `len` bytes.
unfoldable pub read_schema : ℕ → Reader VariantSchema
unfolding read_number read_fields any_past
read_schema len = do
  name_offset ← read_number 4
  tag ← read_number 2
  field_count ← read_number 2
  field_offsets ← read_fields field_count
  lift (
      fail_if (leb len name_offset || any_past len field_offsets)
        invalid_string_index_in_string_table)
  pure (record { name_offset = name_offset; tag = tag; field_offsets = field_offsets })

unfoldable pub read_schemas : ℕ → ℕ → Reader (List VariantSchema)
read_schemas len zero = pure []
read_schemas len (suc n) = do
  schema ← read_schema len
  rest ← read_schemas len n
  pure (schema ∷ rest)

-- `b"main\0"`
abbrev pub main_name : List ℕ
main_name = b'm' ∷ b'a' ∷ b'i' ∷ b'n' ∷ 0 ∷ []

-- The closure given to `find`: is the string at this index `main`? A slice past the table panics.
unfoldable pub is_main : List ℕ → ℕ → Outcome BytefileError Bool
unfolding position_of_null
is_main table s_index =
    if ltb (length table) s_index then panic else elim (position_of_null (drop s_index table)) [
      | some first_null ↦ ok (bytes_eq (take (suc first_null) (drop s_index table)) main_name)
      | none ↦ ok false
    ]

unfoldable pub find_main : List ℕ → List (ℕ × ℕ) → Outcome BytefileError ℕ
find_main table [] = err main_not_found
find_main table ((s_index, offset) ∷ rest) =
    Outcome.◌>>=◌ (is_main table s_index) λ found. if found then ok offset else find_main table rest

-- The check of the public symbols; both lengths are read as u32.
unfoldable pub check_symbols : ℕ → ℕ → List (ℕ × ℕ) → Outcome BytefileError (Unit {0})
check_symbols code_len table_len [] = ok tt
check_symbols code_len table_len ((s_index, offset) ∷ rest) =
    if leb (code_len % 2 ^ 32) offset
    then err (invalid_public_symbol_offset offset (code_len % 2 ^ 32))
    else if leb (table_len % 2 ^ 32) s_index
    then err invalid_string_index_in_string_table
    else check_symbols code_len table_len rest

-- The number of variant schemas, and the first symbol of a file that has no marker.
unfoldable pub read_extension : Reader (ℕ × Option ℕ)
read_extension = do
  extension_or_first_symbol ← read_number 4
  if extension_or_first_symbol == variant_schema_marker
      then (do count ← read_number 4; pure (count, none))
      else pure (0, some extension_or_first_symbol)

-- `parse` from the symbols' end on: the entry point and the code.
unfoldable pub finish :
    ℕ → ℕ → ℕ → List (ℕ × ℕ) → List VariantSchema → List ℕ → List ℕ → Outcome BytefileError Bytefile
unfolding find_main check_symbols
finish stringtab_size global_area_size public_symbols_number symbols schemas table code =
    Outcome.◌>>=◌ (find_main table symbols) λ main_offset.
      Outcome.◌>>=◌ (check_symbols (length code) (length table) symbols) λ _. ok (record {
        stringtab_size = stringtab_size;
        global_area_size = global_area_size;
        public_symbols_number = public_symbols_number;
        public_symbols = symbols;
        variant_schemas = schemas;
        string_table = table;
        code_section = code;
        main_offset = main_offset;
        labels = [];
      })

unfoldable pub parse_from : Reader Bytefile
unfolding read_number read_extension read_symbols read_schema read_schemas finish
parse_from = do
  stringtab_size ← read_number 4
  global_area_size ← read_number 4
  public_symbols_number ← read_number 4
  extension ← read_extension
  public_symbols ← read_symbols public_symbols_number extension.1
  string_table ← read_exact stringtab_size
  variant_schemas ← read_schemas (length string_table) extension.0
  λ code.
      Outcome.◌>>=◌
        (finish stringtab_size global_area_size public_symbols_number public_symbols variant_schemas
          string_table code)
        λ bf. ok (bf, [])

unfoldable pub parse : List ℕ → Outcome BytefileError Bytefile
unfolding parse_from
parse source = Outcome.◌>>=◌ (parse_from source) λ r. ok r.0
