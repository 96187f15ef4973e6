-- ===== src/Bytefile/Strings.antt =====
-- crates/vm-core/src/bytefile.rs: the string table, as the sequence of the strings written to it.
use rapira.Prelude.{
  ℕ, zero, suc, ◌+◌, ◌%◌, ◌^◌, ◌<◌, ◌≤◌, ◌≡◌, ◌≢◌, refl, ap, sym, ◌∙◌, true, false, Option, none,
  some, List, [], ◌∷◌, ◌++◌, arith, ◌==◌, ==-false, ==_refl, ==→eq, ltb-false, ltb, ltb→le,
  Bool-cases, Option-cases, inl, inr, length, take, drop, length-append, take-append, drop-append,
  append_assoc, if◌then◌else◌,
}
use rapira.Outcome.{◌>>=◌, ok_or, ok, ok_injective}
use rapira.Bytefile.{
  Bytefile, invalid_string_index_in_string_table, add_string, position_of_null, bytes_eq,
  find_string_from, find_string_offset, get_string_at_offset,
}

-- A string holds no zero byte.
abbrev pub NoNull : List ℕ → Type 0
NoNull [] = Unit
NoNull (b ∷ bs) = (b ≢ 0) × NoNull bs

abbrev pub AllNoNull : List (List ℕ) → Type 0
AllNoNull [] = Unit
AllNoNull (s ∷ ss) = NoNull s × AllNoNull ss

-- The table that holds these strings, each with its terminator.
abbrev pub table_of : List (List ℕ) → List ℕ
table_of [] = []
table_of (s ∷ ss) = s ++ 0 ∷ table_of ss

-- Where a string first stands in a sequence of strings that starts at `base`.
abbrev pub offset_of : List ℕ → List (List ℕ) → ℕ → Option ℕ
offset_of s [] base = none
offset_of s (t ∷ ts) base =
    if bytes_eq t s then some base else offset_of s ts (base + (length t + 1))

position_of_null-NoNull :
    (s rest : List ℕ) → NoNull s → position_of_null (s ++ 0 ∷ rest) ≡ some (length s)
unfolding position_of_null
position_of_null-NoNull [] rest h = refl
position_of_null-NoNull (b ∷ bs) rest (hb, h) =
    rw (==-false b 0 hb, position_of_null-NoNull bs rest h)

pub bytes_eq_refl : (s : List ℕ) → bytes_eq s s ≡ true
unfolding bytes_eq
bytes_eq_refl [] = refl
bytes_eq_refl (b ∷ bs) = rw (==_refl b) (bytes_eq_refl bs)

pub bytes_eq→eq : (s t : List ℕ) → bytes_eq s t ≡ true → s ≡ t
unfolding bytes_eq
bytes_eq→eq [] [] h = refl
bytes_eq→eq [] (y ∷ ys) h = cc
bytes_eq→eq (x ∷ xs) [] h = cc
bytes_eq→eq (x ∷ xs) (y ∷ ys) h = elim (Bool-cases (x == y)) [
  | inl same ↦ cc (==→eq x y same, bytes_eq→eq xs ys (rw same at h))
  | inr differs ↦ cc (rw differs at h)
]

-- One round of the search, at a string that is there.
search_round :
    (fuel : ℕ) (s t rest : List ℕ) (offset : ℕ)
    → NoNull t
    → find_string_from (suc fuel) s offset (t ++ 0 ∷ rest) ≡ (
        if bytes_eq t s
        then some (offset % 2 ^ 32)
        else find_string_from fuel s (offset + (length t + 1)) rest)
unfolding find_string_from
search_round fuel s [] rest offset h =
    let zero_found : position_of_null (0 ∷ rest) ≡ some 0 = position_of_null-NoNull [] rest tt in
    rw (zero_found, find_string_from)
search_round fuel s (b ∷ bs) rest offset h =
    let found : position_of_null (b ∷ (bs ++ 0 ∷ rest)) ≡ some (suc (length bs)) =
      position_of_null-NoNull (b ∷ bs) rest h in
    let taken : take (suc (length bs)) (b ∷ (bs ++ 0 ∷ rest)) ≡ b ∷ bs =
      take-append (b ∷ bs) (0 ∷ rest) (suc (length bs)) refl in
    let after : drop (suc (length bs) + 1) (b ∷ (bs ++ 0 ∷ rest)) ≡ rest =
      ap (drop (suc (length bs) + 1)) (sym (append_assoc (b ∷ bs) (0 ∷ []) rest))
      ∙ drop-append ((b ∷ bs) ++ 0 ∷ []) rest (suc (length bs) + 1)
          (omega (arith, length-append (b ∷ bs) (0 ∷ []))) in
    rw (found, find_string_from) (rw (taken, after))

search_lem :
    (fuel : ℕ) (s : List ℕ) (ts : List (List ℕ)) (offset : ℕ)
    → AllNoNull ts
    → length (table_of ts) ≤ fuel
    → offset + length (table_of ts) < 2 ^ 32
    → find_string_from fuel s offset (table_of ts) ≡ offset_of s ts offset
unfolding find_string_from
search_lem zero s [] offset h f small = refl
search_lem (suc fuel) s [] offset h f small = refl
search_lem zero s (t ∷ ts) offset h f small =
    absurd (omega (arith, length-append t (0 ∷ table_of ts)))
search_lem (suc fuel) s (t ∷ ts) offset (ht, h) f small =
    let len : length (t ++ 0 ∷ table_of ts) ≡ length t + suc (length (table_of ts)) =
      length-append t (0 ∷ table_of ts) in
    let whole : offset % 2 ^ 32 ≡ offset = omega arith in
    search_round fuel s t (table_of ts) offset ht
    ∙ rw (whole, search_lem fuel s ts (offset + (length t + 1)) h (omega arith) (omega arith))

-- In a table of terminated strings without a zero byte, of less than 2 ^ 32 bytes,
-- `find_string_offset` gives the place of the first string that is equal to the one sought, and
-- nothing if there is none.
pub find_string_offset-offset_of :
    (bf : Bytefile) (strings : List (List ℕ)) (s : List ℕ)
    → bf.string_table ≡ table_of strings
    → AllNoNull strings
    → length bf.string_table < 2 ^ 32
    → find_string_offset s bf ≡ offset_of s strings 0
unfolding find_string_offset
find_string_offset-offset_of bf strings s e h small =
    let len : length bf.string_table ≡ length (table_of strings) = ap length e in
    ap (find_string_from (length bf.string_table) s 0) e
    ∙ search_lem (length bf.string_table) s strings 0 h (omega arith) (omega arith)

table_of-append : (ss ts : List (List ℕ)) → table_of (ss ++ ts) ≡ table_of ss ++ table_of ts
table_of-append [] ts = refl
table_of-append (s ∷ ss) ts =
    ap (λ r. s ++ 0 ∷ r) (table_of-append ss ts)
    ∙ sym (append_assoc s (0 ∷ table_of ss) (table_of ts))

take_all : (s : List ℕ) → take (suc (length s)) (s ++ 0 ∷ []) ≡ s ++ 0 ∷ []
take_all [] = refl
take_all (b ∷ bs) = ap (λ r. b ∷ r) (take_all bs)

-- A string without a zero byte that was added is read back with its terminator at the offset that
-- `add_string` gave for it, in a file whose size field agrees with its table.
pub get_string_at_offset-add_string :
    (s : List ℕ) (bf : Bytefile)
    → NoNull s
    → bf.stringtab_size ≡ length bf.string_table
    → get_string_at_offset (add_string s bf).0 (add_string s bf).1 ≡ ok (s ++ 0 ∷ [])
unfolding get_string_at_offset add_string
get_string_at_offset-add_string s bf h e =
    let table : bf.string_table ++ s ++ 0 ∷ [] ≡ bf.string_table ++ (s ++ 0 ∷ []) =
      append_assoc bf.string_table s (0 ∷ []) in
    let inside : ltb (length (bf.string_table ++ (s ++ 0 ∷ []))) bf.stringtab_size ≡ false =
      ltb-false _ _ (omega (arith, length-append bf.string_table (s ++ 0 ∷ []))) in
    let slice : drop bf.stringtab_size (bf.string_table ++ (s ++ 0 ∷ [])) ≡ s ++ 0 ∷ [] =
      drop-append bf.string_table (s ++ 0 ∷ []) bf.stringtab_size e in
    let taken : take (suc (length s)) (s ++ 0 ∷ []) ≡ s ++ 0 ∷ [] = take_all s in
    rw table (rw (inside, slice, position_of_null-NoNull s [] h) (ap ok taken))

drop-append_le : (xs ys : List ℕ) (n : ℕ) → n ≤ length xs → drop n (xs ++ ys) ≡ drop n xs ++ ys
drop-append_le xs ys zero h = refl
drop-append_le [] ys (suc n) h = absurd (omega arith)
drop-append_le (x ∷ xs) ys (suc n) h = drop-append_le xs ys n (omega arith)

null_prefix :
    (xs ys : List ℕ) (i : ℕ)
    → position_of_null xs ≡ some i
    → (position_of_null (xs ++ ys) ≡ some i) × (take (suc i) (xs ++ ys) ≡ take (suc i) xs)
unfolding position_of_null
null_prefix [] ys i e = cc
null_prefix (x ∷ xs) ys i e = elim (Bool-cases (x == 0)) [
  | inl null ↦ let first : i ≡ 0 = ground arith in rw first (rw null, refl)
  | inr other ↦ elim (Option-cases (position_of_null xs)) [
    | inl missing ↦ cc (rw (other, missing) at e)
    | inr (j, found) ↦
        let next : i ≡ suc j = ground arith in
        let (still, taken) = null_prefix xs ys j found in
        rw next (rw (other, still), ap (λ r. x ∷ r) taken)
  ]
]

read_inv :
    (slice x : List ℕ)
    → (ok_or (position_of_null slice) invalid_string_index_in_string_table >>= λ i.
        ok (take (suc i) slice))
      ≡ ok x
    → (i : ℕ) × (position_of_null slice ≡ some i) × (take (suc i) slice ≡ x)
read_inv slice x e = elim (Option-cases (position_of_null slice)) [
  | inl none_there ↦ cc (rw none_there at e)
  | inr (i, found) ↦ (i, found, ok_injective (rw found at e))
]

-- A string that is read at an offset is still the same after another string was added.
pub get_string_at_offset-add_string_old :
    (s x : List ℕ) (offset : ℕ) (bf : Bytefile)
    → get_string_at_offset offset bf ≡ ok x
    → get_string_at_offset offset (add_string s bf).1 ≡ ok x
unfolding get_string_at_offset add_string
get_string_at_offset-add_string_old s x offset bf h =
    elim (Bool-cases (ltb (length bf.string_table) offset)) [
      | inl past ↦ cc (rw past at h)
      | inr inside ↦
          let here = rw inside at h in
          let (i, e, t) = read_inv (drop offset bf.string_table) x here in
          let table : bf.string_table ++ s ++ 0 ∷ [] ≡ bf.string_table ++ (s ++ 0 ∷ []) =
            append_assoc bf.string_table s (0 ∷ []) in
          let still : ltb (length (bf.string_table ++ (s ++ 0 ∷ []))) offset ≡ false =
            ltb-false _ _
              (omega (arith, length-append bf.string_table (s ++ 0 ∷ []), ltb→le _ _ inside)) in
          let slice = drop-append_le bf.string_table (s ++ 0 ∷ []) offset (ltb→le _ _ inside) in
          let (found, taken) = null_prefix (drop offset bf.string_table) (s ++ 0 ∷ []) i e in
          rw table (rw (still, slice, found, taken) (ap ok t))
    ]
