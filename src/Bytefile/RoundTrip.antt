-- ===== src/Bytefile/RoundTrip.antt =====
-- crates/vm-core/src/bytefile.rs: what `parse` makes of the bytes that `encode` wrote.
use rapira.Prelude.{
  ℕ, ◌%◌, ◌^◌, ◌<◌, ◌≡◌, refl, ap, ◌∙◌, none, List, [], ◌∷◌, ◌++◌, arith, leb-false, ltb-true,
  length,
}
use rapira.Outcome
use rapira.Outcome.{Outcome, ok, err, panic}
use rapira.Numeric.{to_le_bytes}
use rapira.Bytefile.{Bytefile, BytefileError, variant_schema_marker}
use rapira.Bytefile.Serial.{
  encode_symbols, encode_schemas, encode, read_exact, read_symbols, read_schemas, read_extension,
  is_main, find_main, check_symbols, finish, parse,
}
use rapira.Bytefile.Readers.{
  bind_read, then_number, read_exact-append, SymbolsFit, SchemasFit, read_symbols-encode_symbols,
  read_schemas-encode_schemas, read_extension-marker,
}

-- The header agrees with the tables, the numbers fit their types, and the strings of the schemas
-- start inside the string table.
pub record IsWritable (bf : Bytefile) : Type 0 where
  pub strings : bf.stringtab_size ≡ length bf.string_table
  pub strings_fit : length bf.string_table < 2 ^ 32
  pub globals_fit : bf.global_area_size < 2 ^ 32
  pub symbols : bf.public_symbols_number ≡ length bf.public_symbols
  pub symbols_number_fits : length bf.public_symbols < 2 ^ 32
  pub symbols_fit : SymbolsFit bf.public_symbols
  pub schemas_number_fits : length bf.variant_schemas < 2 ^ 32
  pub schemas_fit : SchemasFit (length bf.string_table) bf.variant_schemas

drop_end :
    (r : Outcome BytefileError Bytefile)
    → Outcome.◌>>=◌ (Outcome.◌>>=◌ {B = Bytefile × List ℕ} r (λ bf. ok (bf, []))) (λ x. ok x.0) ≡ r
drop_end (ok bf) = refl
drop_end (err e) = refl
drop_end panic = refl

-- The bytes of a writable file are parsed up to its entry point: what is left is to find `main` among
-- its symbols and to check them against its own code.
pub parse-encode-finish :
    (bf : Bytefile)
    → IsWritable bf
    → parse (encode bf)
      ≡ finish bf.stringtab_size bf.global_area_size bf.public_symbols_number bf.public_symbols
          bf.variant_schemas bf.string_table bf.code_section
unfolding parse encode
parse-encode-finish bf w =
    let count = length bf.variant_schemas in
    let ps = encode_symbols bf.public_symbols in
    let vs = encode_schemas bf.variant_schemas in
    let code = bf.code_section in
    let whole : count % 2 ^ 32 ≡ count = omega (arith, w.schemas_number_fits) in
    let symbols : read_symbols bf.public_symbols_number none
          (ps ++ (bf.string_table ++ (vs ++ code)))
        ≡ ok (bf.public_symbols, bf.string_table ++ (vs ++ code)) =
      rw w.symbols (read_symbols-encode_symbols bf.public_symbols _ w.symbols_fit) in
    let extension : read_extension (
          to_le_bytes 4 variant_schema_marker
          ++ (to_le_bytes 4 (count % 2 ^ 32) ++ (ps ++ (bf.string_table ++ (vs ++ code)))))
        ≡ ok ((count, none), ps ++ (bf.string_table ++ (vs ++ code))) =
      rw whole (read_extension-marker count _ w.schemas_number_fits) in
    ap (λ r. Outcome.◌>>=◌ r (λ x. ok x.0))
      (then_number 4 bf.stringtab_size _ _ (omega (arith, w.strings, w.strings_fit))
        ∙ then_number 4 bf.global_area_size _ _ w.globals_fit
        ∙ then_number 4 bf.public_symbols_number _ _
            (omega (arith, w.symbols, w.symbols_number_fits))
        ∙ bind_read read_extension _ _ _ (count, none) extension
        ∙ bind_read (read_symbols bf.public_symbols_number none) _ _ _ bf.public_symbols symbols
        ∙ bind_read (read_exact bf.stringtab_size) _ _ _ bf.string_table
            (read_exact-append bf.stringtab_size bf.string_table (vs ++ code) w.strings)
        ∙ bind_read (read_schemas (length bf.string_table) count) _ _ code bf.variant_schemas (
            read_schemas-encode_schemas (length bf.string_table) bf.variant_schemas code
              w.strings_fit w.schemas_fit))
    ∙ drop_end (
        finish bf.stringtab_size bf.global_area_size bf.public_symbols_number bf.public_symbols
          bf.variant_schemas bf.string_table code)

-- Every public symbol names a string inside the table and a place inside the code.
abbrev pub SymbolsInside : ℕ → ℕ → List (ℕ × ℕ) → Type 0
SymbolsInside code_len table_len [] = Unit
SymbolsInside code_len table_len ((s_index, offset) ∷ rest) =
    (s_index < table_len) × (offset < code_len) × SymbolsInside code_len table_len rest

check_symbols-SymbolsInside :
    (code_len table_len : ℕ) (symbols : List (ℕ × ℕ))
    → code_len < 2 ^ 32
    → table_len < 2 ^ 32
    → SymbolsInside code_len table_len symbols
    → check_symbols code_len table_len symbols ≡ ok tt
unfolding check_symbols
check_symbols-SymbolsInside code_len table_len [] hc ht h = refl
check_symbols-SymbolsInside code_len table_len ((s, o) ∷ rest) hc ht (hs, ho, h) =
    let code : code_len % 2 ^ 32 ≡ code_len = omega arith in
    let table : table_len % 2 ^ 32 ≡ table_len = omega arith in
    rw (code, table, leb-false code_len o ho, leb-false table_len s hs)
      (check_symbols-SymbolsInside code_len table_len rest hc ht h)

-- A writable file with an entry point, whose symbols lie inside its table and its code of less than
-- 2 ^ 32 bytes, is parsed back from its bytes, with the entry point found and no label.
pub parse-encode :
    (bf : Bytefile) (main : ℕ)
    → IsWritable bf
    → find_main bf.string_table bf.public_symbols ≡ ok main
    → length bf.code_section < 2 ^ 32
    → SymbolsInside (length bf.code_section) (length bf.string_table) bf.public_symbols
    → parse (encode bf) ≡ ok (record bf { main_offset = main; labels = [] })
unfolding finish
parse-encode bf main w found small inside =
    parse-encode-finish bf w
    ∙ rw (
      found,
      check_symbols-SymbolsInside (length bf.code_section) (length bf.string_table)
          bf.public_symbols small w.strings_fit inside,
    )

-- A writable file whose first public symbol lies past the string table, which `parse` means to refuse
-- with an error, makes `parse` panic instead.
pub parse_panic :
    (bf : Bytefile) (s_index offset : ℕ) (rest : List (ℕ × ℕ))
    → IsWritable bf
    → bf.public_symbols ≡ (s_index, offset) ∷ rest
    → length bf.string_table < s_index
    → parse (encode bf) ≡ panic
unfolding finish is_main
parse_panic bf s_index offset rest w e past =
    parse-encode-finish bf w ∙ rw e (rw (ltb-true (length bf.string_table) s_index past))
