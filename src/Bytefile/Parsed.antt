-- ===== src/Bytefile/Parsed.antt =====
-- crates/vm-core/src/bytefile.rs: what `parse` has checked of the file that it gives.
use mathlib.Core.Path.{subst}
use rapira.Prelude.{
  ℕ, zero, suc, ◌%◌, ◌^◌, ◌<◌, ◌≡◌, ap, sym, ◌∙◌, Option, none, some, List, [], ◌∷◌, arith, ltb,
  ltb→le, leb, leb→lt, Bool-cases, inl, inr, length, length-take,
}
use rapira.Outcome.{ok, >>=-eq-ok, ok_injective}
use rapira.Bytefile.{Bytefile, VariantSchema}
use rapira.Bytefile.Serial.{
  Reader, ◌>>=◌, read_exact, read_number, read_symbols, read_schemas, read_extension, is_main,
  find_main, check_symbols, finish, parse_from, parse,
}
use rapira.Bytefile.RoundTrip.{SymbolsInside}

-- What the interpreter relies on: the sizes agree with the tables, each public symbol lies inside its
-- table and the code, and the entry point inside the code.
pub record IsLinked (bf : Bytefile) : Type 0 where
  pub strings : bf.stringtab_size ≡ length bf.string_table
  pub symbols : bf.public_symbols_number ≡ length bf.public_symbols
  pub inside : SymbolsInside (length bf.code_section) (length bf.string_table) bf.public_symbols
  pub entry : bf.main_offset < length bf.code_section

bind_inv :
    {A B : Type 0} (m : Reader A) (f : A → Reader B) (source : List ℕ) {r : B × List ℕ}
    → (m >>= f) source ≡ ok r
    → (x : A × List ℕ) × (m source ≡ ok x) × (f x.0 x.1 ≡ ok r)
bind_inv m f source e = >>=-eq-ok (m source) (λ x. f x.0 x.1) e

read_exact_inv :
    (n : ℕ) (source : List ℕ) (x : List ℕ × List ℕ) → read_exact n source ≡ ok x → length x.0 ≡ n
unfolding read_exact
read_exact_inv n source x e = elim (Bool-cases (ltb (length source) n)) [
  | inl short ↦ cc (rw short at e)
  | inr enough ↦
      let taken = ok_injective (rw enough at e) in
      sym (ap (λ (y : List ℕ × List ℕ). length y.0) taken)
      ∙ length-take n source (ltb→le _ _ enough)
]

read_symbols_inv :
    (n : ℕ) (first : Option ℕ) (source : List ℕ) (x : List (ℕ × ℕ) × List ℕ)
    → read_symbols n first source ≡ ok x
    → length x.0 ≡ n
unfolding read_symbols
read_symbols_inv zero first source x e =
    sym (ap (λ (y : List (ℕ × ℕ) × List ℕ). length y.0) (ok_injective e))
read_symbols_inv (suc n) (some s) source x e =
    let (name, _, e₁) = bind_inv (read_number 4) _ source e in
    let (rest, er, e₂) = bind_inv (read_symbols n none) _ name.1 e₁ in
    sym (ap (λ (y : List (ℕ × ℕ) × List ℕ). length y.0) (ok_injective e₂))
    ∙ ap suc (read_symbols_inv n none name.1 rest er)
read_symbols_inv (suc n) none source x e =
    let (s, _, e₀) = bind_inv (read_number 4) _ source e in
    let (name, _, e₁) = bind_inv (read_number 4) _ s.1 e₀ in
    let (rest, er, e₂) = bind_inv (read_symbols n none) _ name.1 e₁ in
    sym (ap (λ (y : List (ℕ × ℕ) × List ℕ). length y.0) (ok_injective e₂))
    ∙ ap suc (read_symbols_inv n none name.1 rest er)

check_symbols_inv :
    (code_len table_len : ℕ) (symbols : List (ℕ × ℕ))
    → check_symbols code_len table_len symbols ≡ ok tt
    → SymbolsInside code_len table_len symbols
unfolding check_symbols
check_symbols_inv code_len table_len [] e = tt
check_symbols_inv code_len table_len ((s, o) ∷ rest) e =
    elim (Bool-cases (leb (code_len % 2 ^ 32) o)) [
      | inl bad ↦ cc (rw bad at e)
      | inr good ↦ elim (Bool-cases (leb (table_len % 2 ^ 32) s)) [
        | inl bad ↦ cc (rw (good, bad) at e)
        | inr fine ↦
            let o_lt = leb→lt _ _ good in
            let s_lt = leb→lt _ _ fine in
            (
              omega arith,
              omega arith,
              check_symbols_inv code_len table_len rest (rw (good, fine) at e),
            )
      ]
    ]

-- The entry point is the offset of one of the symbols.
find_main_inv :
    (table : List ℕ) (symbols : List (ℕ × ℕ)) (code_len table_len m : ℕ)
    → SymbolsInside code_len table_len symbols
    → find_main table symbols ≡ ok m
    → m < code_len
unfolding find_main
find_main_inv table [] code_len table_len m h e = cc
find_main_inv table ((s, o) ∷ rest) code_len table_len m (hs, ho, h) e =
    let (found, _, e₁) = >>=-eq-ok (is_main table s) _ e in
    elim (Bool-cases found) [
      | inl here ↦ let o_is_m : o ≡ m = ok_injective (rw here at e₁) in omega arith
      | inr later ↦ find_main_inv table rest code_len table_len m h (rw later at e₁)
    ]

finish_inv :
    (strings globals number : ℕ) (symbols : List (ℕ × ℕ)) (schemas : List VariantSchema)
    (table code : List ℕ) (bf : Bytefile)
    → strings ≡ length table
    → number ≡ length symbols
    → finish strings globals number symbols schemas table code ≡ ok bf
    → IsLinked bf
unfolding finish
finish_inv strings globals number symbols schemas table code bf hs hn e =
    let (m, em, e₁) = >>=-eq-ok (find_main table symbols) _ e in
    let (u, eu, e₂) = >>=-eq-ok (check_symbols (length code) (length table) symbols) _ e₁ in
    let inside = check_symbols_inv (length code) (length table) symbols eu in
    subst IsLinked (ok_injective e₂) (record {
      strings = hs;
      symbols = hn;
      inside = inside;
      entry = find_main_inv table symbols (length code) (length table) m inside em;
    })

-- Every file that `parse` gives, from whatever bytes, has sizes that agree with its tables, public
-- symbols inside its string table and its code, and its entry point inside its code.
pub parse-IsLinked : (source : List ℕ) (bf : Bytefile) → parse source ≡ ok bf → IsLinked bf
unfolding parse
parse-IsLinked source bf e =
    let (end, e₀, f) = >>=-eq-ok (parse_from source) _ e in
    let (strings, _, e₁) = bind_inv (read_number 4) _ source e₀ in
    let (globals, _, e₂) = bind_inv (read_number 4) _ strings.1 e₁ in
    let (number, _, e₃) = bind_inv (read_number 4) _ globals.1 e₂ in
    let (extension, _, e₄) = bind_inv read_extension _ number.1 e₃ in
    let (symbols, h₄, e₅) = bind_inv (read_symbols number.0 extension.0.1) _ extension.1 e₄ in
    let (table, h₅, e₆) = bind_inv (read_exact strings.0) _ symbols.1 e₅ in
    let (schemas, _, e₇) = bind_inv (read_schemas (length table.0) extension.0.0) _ table.1 e₆ in
    let (bf', h₇, e₈) =
      >>=-eq-ok (finish strings.0 globals.0 number.0 symbols.0 schemas.0 table.0 schemas.1) _ e₇ in
    let same : bf' ≡ bf = ap (λ (r : Bytefile × List ℕ). r.0) (ok_injective e₈) ∙ ok_injective f in
    subst IsLinked same (
      finish_inv strings.0 globals.0 number.0 symbols.0 schemas.0 table.0 schemas.1 bf'
        (sym (read_exact_inv strings.0 symbols.1 table h₅))
        (sym (read_symbols_inv number.0 extension.0.1 extension.1 symbols h₄)) h₇)
