-- ===== src/Bytefile.antt =====
-- crates/vm-core/src/bytefile.rs: the bytecode file, its tables and the methods that fill them.
-- The string table is a list of bytes, and so is each string that is written to it (its UTF-8
-- bytes). `labels`, a HashMap, is an association list: it is read by key only.

pub mod Serial
pub mod Readers
pub mod RoundTrip
pub mod Size
pub mod Parsed
pub mod Strings
pub mod Consistent
pub mod Code
use text.Mathlib.Text.{◌==◌ as str_eq}
use rapira.Prelude.{
  ℕ, zero, suc, ◌+◌, ◌-◌, ◌*◌, ◌%◌, ◌^◌, String, Bool, true, false, ◌&&◌, Option, none, some, List,
  [], ◌∷◌, ◌++◌, ◌==◌, ltb, if◌then◌else◌, length, take, drop, replicate,
}
use rapira.Outcome.{Outcome, ok, panic, ◌>>=◌, ok_or}

pub record VariantSchema : Type 0 where
  pub name_offset : ℕ
  pub tag : ℕ
  pub field_offsets : List ℕ

-- u32::MAX
abbrev pub variant_schema_marker : ℕ
variant_schema_marker = 2 ^ 32 - 1

pub record Bytefile : Type 0 where
  pub stringtab_size : ℕ
  pub global_area_size : ℕ
  pub public_symbols_number : ℕ
  pub public_symbols : List (ℕ × ℕ)
  pub variant_schemas : List VariantSchema
  pub string_table : List ℕ
  pub code_section : List ℕ
  pub main_offset : ℕ
  pub labels : List (String × ℕ)

pub data BytefileError : Type 0 where
  invalid_file_format file_read_failed memory_allocation_failed unexpected_eof : BytefileError
  no_code_section invalid_string_index_in_string_table main_not_found : BytefileError
  invalid_public_symbol_offset : ℕ → ℕ → BytefileError

unfoldable pub new : Bytefile
new = record {
  stringtab_size = 0;
  global_area_size = 0;
  public_symbols_number = 0;
  public_symbols = [];
  variant_schemas = [];
  string_table = [];
  code_section = [];
  main_offset = 0;
  labels = [];
}

-- The new file, and the offset of the string. The size is a u32, which wraps.
unfoldable pub add_string : List ℕ → Bytefile → ℕ × Bytefile
add_string string bf = (
  bf.stringtab_size,
  record bf {
    stringtab_size = (bf.stringtab_size + (length string + 1) % 2 ^ 32) % 2 ^ 32;
    string_table = bf.string_table ++ string ++ 0 ∷ [];
  },
)

-- The schema's id is the number of schemas before it, as a u32.
unfoldable pub add_variant_schema : VariantSchema → Bytefile → ℕ × Bytefile
add_variant_schema schema bf = (
  length bf.variant_schemas % 2 ^ 32,
  record bf { variant_schemas = bf.variant_schemas ++ schema ∷ [] },
)

unfoldable pub add_code : List ℕ → Bytefile → Bytefile
add_code code bf = record bf { code_section = bf.code_section ++ code }

-- `slice.iter().position(|&b| b == 0)`
unfoldable pub position_of_null : List ℕ → Option ℕ
position_of_null [] = none
position_of_null (b ∷ bs) =
    if b == 0 then some 0 else elim (position_of_null bs) [ none ↦ none | some i ↦ some (suc i) ]

unfoldable pub bytes_eq : List ℕ → List ℕ → Bool
bytes_eq [] [] = true
bytes_eq [] (y ∷ ys) = false
bytes_eq (x ∷ xs) [] = false
bytes_eq (x ∷ xs) (y ∷ ys) = x == y && bytes_eq xs ys

-- The `while` loop of `find_string_offset` at `offset`, with what is left of the table. Every round
-- passes a terminator, so that the length of the table bounds the rounds.
unfoldable pub find_string_from : ℕ → List ℕ → ℕ → List ℕ → Option ℕ
find_string_from zero string offset remaining = none
find_string_from (suc fuel) string offset [] = none
find_string_from (suc fuel) string offset (b ∷ bs) = elim (position_of_null (b ∷ bs)) [
  | none ↦ none
  | some terminator ↦
      if bytes_eq (take terminator (b ∷ bs)) string
      then some (offset % 2 ^ 32)
      else find_string_from fuel string (offset + (terminator + 1)) (drop (terminator + 1) (b ∷ bs))
]

unfoldable pub find_string_offset : List ℕ → Bytefile → Option ℕ
unfolding find_string_from
find_string_offset string bf = find_string_from (length bf.string_table) string 0 bf.string_table

unfoldable pub add_public_symbol : List ℕ → ℕ → Bytefile → Outcome BytefileError Bytefile
add_public_symbol name offset bf = do
  string_offset ← ok_or (find_string_offset name bf) invalid_string_index_in_string_table
  ok (record bf {
    public_symbols = bf.public_symbols ++ (string_offset, offset) ∷ [];
    public_symbols_number = (bf.public_symbols_number + 1) % 2 ^ 32;
  })

-- The bytes that the table of schemas takes.
unfoldable pub variant_schemas_size : List VariantSchema → ℕ
variant_schemas_size [] = 0
variant_schemas_size (schema ∷ rest) =
    8 + length schema.field_offsets * 4 + variant_schemas_size rest

unfoldable pub get_current_global_offset : Bytefile → ℕ
unfolding variant_schemas_size
get_current_global_offset bf =
    4
    + 4
    + 4
    + 2 * 4
    + length bf.public_symbols * 8
    + length bf.string_table
    + variant_schemas_size bf.variant_schemas
    + length bf.code_section

unfoldable pub get_current_offset : Bytefile → ℕ
get_current_offset bf = length bf.code_section

unfoldable pub lookup_label : String → List (String × ℕ) → Option ℕ
lookup_label name [] = none
lookup_label name ((k, offset) ∷ rest) =
    if str_eq k name then some offset else lookup_label name rest

unfoldable pub label_offset : String → Bytefile → Option ℕ
unfolding lookup_label
label_offset name bf = lookup_label name bf.labels

-- The bytes of the string at an offset, its terminator included. Without the feature
-- `runtime_checks`, an offset past the table is a slice out of range.
unfoldable pub get_string_at_offset : ℕ → Bytefile → Outcome BytefileError (List ℕ)
get_string_at_offset offset bf = if ltb (length bf.string_table) offset then panic else do
  let slice = drop offset bf.string_table
  first_null ← ok_or (position_of_null slice) invalid_string_index_in_string_table
  ok (take (suc first_null) slice)

unfoldable pub new_dummy : Bytefile
new_dummy = record {
  stringtab_size = 0;
  global_area_size = 0;
  public_symbols_number = 0;
  code_section = replicate 100 0;
  string_table = [];
  public_symbols = [];
  variant_schemas = [];
  main_offset = 0;
  labels = [];
}

-- A C string holds no zero byte before its terminator.
unfoldable pub put_string : List ℕ → Bytefile → Bytefile
put_string str bf = record bf {
  string_table = bf.string_table ++ str ++ 0 ∷ [];
  stringtab_size = (bf.stringtab_size + 1) % 2 ^ 32;
}
