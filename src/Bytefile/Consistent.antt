-- ===== src/Bytefile/Consistent.antt =====
-- crates/vm-core/src/bytefile.rs: the size fields of a file that is being built.
use rapira.Prelude.{
  ℕ, ◌+◌, ◌^◌, ◌<◌, ◌≡◌, ◌≢◌, refl, List, [], ◌∷◌, ◌++◌, arith, length, length-append,
}
use rapira.Outcome.{ok, ok_or, >>=-eq-ok, ok_injective}
use rapira.Bytefile.{
  Bytefile, VariantSchema, new, add_string, add_variant_schema, add_code, find_string_offset,
  add_public_symbol, put_string,
}
use mathlib.Core.Path.{subst}

-- The size fields are the sizes of the tables.
pub record IsConsistent (bf : Bytefile) : Type 0 where
  pub strings : bf.stringtab_size ≡ length bf.string_table
  pub symbols : bf.public_symbols_number ≡ length bf.public_symbols

new-IsConsistent : IsConsistent new
unfolding new
new-IsConsistent = record { strings = refl; symbols = refl }

length_terminated : (t s : List ℕ) → length (t ++ s ++ 0 ∷ []) ≡ length t + length s + 1
length_terminated t s = omega (arith, length-append (t ++ s) (0 ∷ []), length-append t s)

add_string-IsConsistent :
    (s : List ℕ) (bf : Bytefile)
    → length bf.string_table + length s + 1 < 2 ^ 32
    → IsConsistent bf
    → IsConsistent (add_string s bf).1
unfolding add_string
add_string-IsConsistent s bf small c = record {
  strings = omega (arith, c.strings, length_terminated bf.string_table s);
  symbols = c.symbols;
}

add_public_symbol-IsConsistent :
    (name : List ℕ) (offset : ℕ) (bf bf' : Bytefile)
    → length bf.public_symbols + 1 < 2 ^ 32
    → IsConsistent bf
    → add_public_symbol name offset bf ≡ ok bf'
    → IsConsistent bf'
unfolding add_public_symbol
add_public_symbol-IsConsistent name offset bf bf' small c e =
    let (at, _, e₁) = >>=-eq-ok (ok_or (find_string_offset name bf) _) _ e in
    subst IsConsistent (ok_injective e₁) (record {
      strings = c.strings;
      symbols = omega (arith, c.symbols, length-append bf.public_symbols ((at, offset) ∷ []));
    })

add_schema-IsConsistent :
    (schema : VariantSchema) (bf : Bytefile)
    → IsConsistent bf
    → IsConsistent (add_variant_schema schema bf).1
unfolding add_variant_schema
add_schema-IsConsistent schema bf c = record { strings = c.strings; symbols = c.symbols }

add_code-IsConsistent :
    (code : List ℕ) (bf : Bytefile) → IsConsistent bf → IsConsistent (add_code code bf)
unfolding add_code
add_code-IsConsistent code bf c = record { strings = c.strings; symbols = c.symbols }

-- The files that are built of a file by adding strings, schemas, code and public symbols, in any order,
-- while the string table and the number of symbols stay below 2 ^ 32. A symbol is added where
-- add_public_symbol finds its name.
pub data Built (start : Bytefile) : Bytefile → Type 0 where
  started : Built start start
  with_string :
      {bf : Bytefile} (s : List ℕ)
      → Built start bf
      → length bf.string_table + length s + 1 < 2 ^ 32
      → Built start (add_string s bf).1
  with_schema :
      {bf : Bytefile} (schema : VariantSchema)
      → Built start bf
      → Built start (add_variant_schema schema bf).1
  with_code : {bf : Bytefile} (code : List ℕ) → Built start bf → Built start (add_code code bf)
  with_symbol :
      {bf bf' : Bytefile} (name : List ℕ) (offset : ℕ)
      → Built start bf
      → length bf.public_symbols + 1 < 2 ^ 32
      → add_public_symbol name offset bf ≡ ok bf'
      → Built start bf'

Built-IsConsistent : {start bf : Bytefile} → IsConsistent start → Built start bf → IsConsistent bf
Built-IsConsistent c started = c
Built-IsConsistent c (with_string s b small) =
    add_string-IsConsistent s _ small (Built-IsConsistent c b)
Built-IsConsistent c (with_schema schema b) =
    add_schema-IsConsistent schema _ (Built-IsConsistent c b)
Built-IsConsistent c (with_code code b) = add_code-IsConsistent code _ (Built-IsConsistent c b)
Built-IsConsistent c (with_symbol name offset b small e) =
    add_public_symbol-IsConsistent name offset _ _ small (Built-IsConsistent c b) e

-- A new file's size fields agree with its tables. In a file that is built of another by any sequence of
-- added strings, schemas, code and public symbols they agree if they did in that one, where the
-- string table and the number of symbols stay below 2 ^ 32.
pub IsConsistent-kept :
    (start bf : Bytefile) → IsConsistent start → Built start bf → IsConsistent new × IsConsistent bf
IsConsistent-kept start bf c b = (new-IsConsistent, Built-IsConsistent c b)

-- `put_string` of a string that is not empty breaks the agreement of every file that had it: it counts
-- one for the string and its terminator, whatever the string's length.
pub put_string_breaks :
    (s : List ℕ) (bf : Bytefile)
    → s ≢ []
    → length bf.string_table + length s + 1 < 2 ^ 32
    → IsConsistent bf
    → ¬ IsConsistent (put_string s bf)
unfolding put_string
put_string_breaks [] bf some_byte small c c' = some_byte refl
put_string_breaks (b ∷ bs) bf some_byte small c c' =
    absurd (omega (arith, c.strings, c'.strings, length_terminated bf.string_table (b ∷ bs)))
