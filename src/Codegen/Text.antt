-- ===== src/Codegen/Text.antt =====
-- The texts that the generator makes: `format!` of numbers and names, and the bytes of a `String`.
use Prim.Native.Char.{code}
use Prim.Native.String.{◌++◌ as append}
use rapira.Prelude.{
  ℕ, zero, suc, ◌+◌, ◌/◌, ◌%◌, String, List, [], ◌∷◌, ◌++◌, ltb, if◌then◌else◌, get_elem?, some,
  none,
}

-- The decimal digit of a number below 10
abbrev digit : ℕ → String
digit n =
    elim (get_elem? {A = String} ("0" ∷ "1" ∷ "2" ∷ "3" ∷ "4" ∷ "5" ∷ "6" ∷ "7" ∷ "8" ∷ "9" ∷ [])
      n) [ some d ↦ d | none ↦ "" ]

-- On as many rounds as the number itself, which has no more digits than that and one.
unfoldable pub digits : ℕ → ℕ → String
digits zero n = digit (n % 10)
digits (suc fuel) n =
    let rest = digits fuel (n / 10) in if ltb n 10 then digit n else append rest (digit (n % 10))

unfoldable pub show : ℕ → String
unfolding digits
show n = digits n n

-- `{prefix}_{}`
unfoldable pub indexed : String → ℕ → String
unfolding show
indexed prefix n = append prefix (append "_" (show n))

-- `{prefix}_{}_{}`
unfoldable pub spanned_name : String → ℕ → ℕ → String
unfolding indexed
spanned_name prefix start end = indexed (indexed prefix start) end

unfoldable pub qualified_label : String → String → String
qualified_label module_ definition = append module_ (append "::" definition)

-- The UTF-8 bytes of a character
unfoldable pub char_bytes : ℕ → List ℕ
char_bytes c =
    if ltb c 128
    then c ∷ []
    else if ltb c 2048
    then (192 + c / 64) ∷ (128 + c % 64) ∷ []
    else if ltb c 65536
    then (224 + c / 4096) ∷ (128 + c / 64 % 64) ∷ (128 + c % 64) ∷ []
    else (240 + c / 262144) ∷ (128 + c / 4096 % 64) ∷ (128 + c / 64 % 64) ∷ (128 + c % 64) ∷ []

unfoldable pub as_bytes : String → List ℕ
unfolding char_bytes
as_bytes String.[] = []
as_bytes (String.◌∷◌ c s) = char_bytes (code c) ++ as_bytes s
