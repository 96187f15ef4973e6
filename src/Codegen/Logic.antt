-- ===== src/Codegen/Logic.antt =====
-- How the proofs on the generator go through its steps: from a predicate at the state before, a step
-- gives a value and a state with theirs, or it panics.
use rapira.Prelude.{Bool, true, false, if◌then◌else◌, Option, none, some, WhenSome}
use rapira.Codegen.{BcGen, Emit, pure, panicked, and_then, ◌>>=◌, this, expect}

abbrev pub Post : {A : Type 0} → (A → Type 0) → (BcGen → Type 0) → Option (A × BcGen) → Type 0
Post F S none = Unit
Post F S (some (a, gen)) = F a × S gen

pub record Gives {A : Type 0} (S : BcGen → Type 0) (m : Emit A) (F : A → Type 0)
    (S' : BcGen → Type 0) : Type 0 where
  pub from : (gen : BcGen) → S gen → Post F S' (m gen)

and_then-Post :
    {A B : Type 0} (F : A → Type 0) (G : B → Type 0) (S S' : BcGen → Type 0)
    (r : Option (A × BcGen)) (f : A → Emit B)
    → Post F S r
    → ((a : A) → F a → (gen : BcGen) → S gen → Post G S' (f a gen))
    → Post G S' (and_then r f)
and_then-Post F G S S' none f p h = tt
and_then-Post F G S S' (some (a, gen)) f (p, s) h = h a p gen s

pub bind-Gives :
    {A B : Type 0} {F : A → Type 0} {G : B → Type 0} {S S' S'' : BcGen → Type 0} {m : Emit A}
    {f : A → Emit B}
    → Gives S m F S'
    → ((a : A) → F a → Gives S' (f a) G S'')
    → Gives S (m >>= f) G S''
unfolding ◌>>=◌
bind-Gives {F = F} {G = G} {S' = S'} {S'' = S''} {m = m} {f = f} h k = record {
  from = λ gen s. and_then-Post F G S' S'' (m gen) f (h.from gen s) (λ a p. (k a p).from);
}

pub pure-Gives :
    {A : Type 0} {F : A → Type 0} {S : BcGen → Type 0} {a : A} → F a → Gives S (pure a) F S
pure-Gives p = record { from = λ gen s. (p, s) }

expect-Post :
    {A : Type 0} (F : A → Type 0) (S : BcGen → Type 0) (o : Option A) (gen : BcGen)
    → WhenSome F o
    → S gen
    → Post F S (expect o gen)
expect-Post F S none gen p s = tt
expect-Post F S (some a) gen p s = (p, s)

pub expect-Gives :
    {A : Type 0} {F : A → Type 0} {S : BcGen → Type 0} (o : Option A)
    → WhenSome F o
    → Gives S (expect o) F S
expect-Gives {F = F} {S = S} o p = record { from = λ gen s. expect-Post F S o gen p s }

pub panicked-Gives :
    {A : Type 0} {F : A → Type 0} {S S' : BcGen → Type 0} → Gives {A = A} S panicked F S'
panicked-Gives = record { from = λ gen s. tt }

pub this-Gives : {S : BcGen → Type 0} → Gives S this S S
this-Gives = record { from = λ gen s. (s, s) }

Post-map :
    {A : Type 0} (F G : A → Type 0) (S S' : BcGen → Type 0) (r : Option (A × BcGen))
    → ((a : A) → F a → G a)
    → ((gen : BcGen) → S gen → S' gen)
    → Post F S r
    → Post G S' r
Post-map F G S S' none f g p = tt
Post-map F G S S' (some (a, gen)) f g (p, s) = (f a p, g gen s)

pub map-Gives :
    {A : Type 0} {F G : A → Type 0} {S S' S'' : BcGen → Type 0} {m : Emit A}
    → ((a : A) → F a → G a)
    → ((gen : BcGen) → S' gen → S'' gen)
    → Gives S m F S'
    → Gives S m G S''
map-Gives {F = F} {G = G} {S' = S'} {S'' = S''} {m = m} f g h = record {
  from = λ gen s. Post-map F G S' S'' (m gen) f g (h.from gen s);
}

pub if-panicked-Gives :
    {A : Type 0} {F : A → Type 0} {S S' : BcGen → Type 0} (b : Bool) (m : Emit A)
    → Gives S m F S'
    → Gives S (if b then m else panicked) F S'
if-panicked-Gives true m h = h
if-panicked-Gives false m h = panicked-Gives
