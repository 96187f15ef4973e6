-- ===== src/Prelude/Maps.antt =====
-- Maps from texts as association lists, where the first entry of a key counts, and predicates at the
-- elements of a list.
use Prim.Native.String.{String}
use text.Mathlib.Text.{◌==◌}
use mathlib.Core.Option.{Option, none, some}
use mathlib.Core.Bool.{Bool, true, false}
use mathlib.Core.List.{List, [], ◌∷◌, ◌++◌}
use rapira.Prelude.Tests.{if◌then◌else◌}

-- A predicate at each element
abbrev pub All {ℓ} : {A : Type ℓ} → (A → Type 0) → List A → Type 0
All P [] = Unit
All P (x ∷ xs) = P x × All P xs

module _ {ℓ} {A : Type ℓ} (P : A → Type 0) where
  pub append-All : (xs ys : List A) → All P xs → All P ys → All P (xs ++ ys)
  append-All [] ys ps qs = qs
  append-All (x ∷ xs) ys (p, ps) qs = (p, append-All xs ys ps qs)

  pub split-All : (xs ys : List A) → All P (xs ++ ys) → All P xs × All P ys
  split-All [] ys qs = (tt, qs)
  split-All (x ∷ xs) ys (p, ps) = let both = split-All xs ys ps in ((p, both.0), both.1)

pub map-All {ℓ} :
    {A : Type ℓ} (P Q : A → Type 0) (xs : List A) → ((x : A) → P x → Q x) → All P xs → All Q xs
map-All P Q [] f ps = tt
map-All P Q (x ∷ xs) f (p, ps) = (f x p, map-All P Q xs f ps)

module _ {ℓ} {V : Type ℓ} where
  abbrev pub lookup : String → List (String × V) → Option V
  lookup k [] = none
  lookup k ((j, v) ∷ m) = if j == k then some v else lookup k m

  abbrev pub insert : String → V → List (String × V) → List (String × V)
  insert k v m = (k, v) ∷ m

  abbrev pub remove : String → List (String × V) → List (String × V)
  remove k [] = []
  remove k ((j, v) ∷ m) = let rest = remove k m in if j == k then rest else (j, v) ∷ rest

-- A predicate at the value that a lookup gives
abbrev pub WhenSome {ℓ} : {A : Type ℓ} → (A → Type 0) → Option A → Type 0
WhenSome P none = Unit
WhenSome P (some a) = P a

-- A predicate at each value of a map
abbrev pub Values {ℓ} : {V : Type ℓ} → (V → Type 0) → List (String × V) → Type 0
Values P m = All (λ entry. P entry.1) m

module _ {ℓ} {V : Type ℓ} (P : V → Type 0) where
  if_some :
      (b : Bool) (v : V) (o : Option V) → P v → WhenSome P o → WhenSome P (if b then some v else o)
  if_some true v o p q = p
  if_some false v o p q = q

  if_kept :
      (b : Bool) (e : String × V) (m : List (String × V))
      → P e.1
      → Values P m
      → Values P (if b then m else e ∷ m)
  if_kept true e m p ps = ps
  if_kept false e m p ps = (p, ps)

  pub lookup-Values : (k : String) (m : List (String × V)) → Values P m → WhenSome P (lookup k m)
  lookup-Values k [] ps = tt
  lookup-Values k ((j, v) ∷ m) (p, ps) = if_some (j == k) v (lookup k m) p (lookup-Values k m ps)

  pub remove-Values : (k : String) (m : List (String × V)) → Values P m → Values P (remove k m)
  remove-Values k [] ps = tt
  remove-Values k ((j, v) ∷ m) (p, ps) =
      if_kept (j == k) (j, v) (remove k m) p (remove-Values k m ps)
