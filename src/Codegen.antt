-- ===== src/Codegen.antt =====
-- crates/compiler-core/src/codegen/bcgen.rs: the state of the bytecode generator. A HashMap is an
-- association list, which is read by key only. Counters and slots are i32 in the source.
pub mod Text
pub mod Expressions
pub mod Shapes
pub mod Statements
pub mod Definitions
pub mod Logic
pub mod Slots
pub mod Depth
use rapira.Prelude.{
  ℕ, ◌+◌, ◌%◌, ◌^◌, String, Option, none, some, List, [], ◌∷◌, lookup, insert, remove,
}
use rapira.Bytecode.{
  ValueRel, Label, Builtin, abs, ttuple, tslice, sqrt, floor, round, tint, tnull, ttext, tbool,
  tfloat,
}
use rapira.Bytefile.{Bytefile}
use rapira.Codegen.Text.{indexed}

abbrev pub builtin_funcs : List (String × Builtin)
builtin_funcs =
    ("abs", abs)
    ∷ ("абс", abs)
    ∷ ("тип_корт", ttuple)
    ∷ ("тип_срез", tslice)
    ∷ ("корень", sqrt)
    ∷ ("sqrt", sqrt)
    ∷ ("целч", floor)
    ∷ ("окрч", round)
    ∷ ("тип_цел", tint)
    ∷ ("тип_пуст", tnull)
    ∷ ("тип_текст", ttext)
    ∷ ("тип_лог", tbool)
    ∷ ("тип_вещ", tfloat)
    ∷ []

pub data Context : Type 0 where
  global function : Context

pub record Env : Type 0 where
  pub local_counter : ℕ
  pub arg_counter : ℕ
  pub label_counter : ℕ
  pub global_counter : ℕ
  pub locals : List (String × ℕ)
  pub args : List (String × ℕ)
  pub globals : List (String × ℕ)
  -- The innermost label is the first.
  pub loop_end_labels : List Label
  pub context : Context

pub record VariantInfo : Type 0 where
  pub schema : ℕ
  pub fields : List String

pub record BcGen : Type 0 where
  pub bytefile : Bytefile
  pub env : Env
  pub current_module : String
  -- function name to label and arity
  pub call_targets : List (String × (String × ℕ))
  pub variant_constructors : List (String × VariantInfo)
  pub field_indices : List (String × ℕ)

-- What changes the generator and gives a value; `none` is a panic, which ends the compilation.
abbrev pub Emit : Type 0 → Type 0
Emit A = BcGen → Option (A × BcGen)

abbrev pub pure : {A : Type 0} → A → Emit A
pure a gen = some (a, gen)

abbrev pub panicked : {A : Type 0} → Emit A
panicked gen = none

abbrev pub and_then : {A B : Type 0} → Option (A × BcGen) → (A → Emit B) → Option (B × BcGen)
and_then none f = none
and_then (some (a, gen)) f = f a gen

infixl 5 ◌>>=◌ ◌>>◌
unfoldable pub ◌>>=◌ : {A B : Type 0} → Emit A → (A → Emit B) → Emit B
(m >>= f) gen = and_then (m gen) f

abbrev pub ◌>>◌ : {B : Type 0} → Emit (Unit {0}) → Emit B → Emit B
m >> k = m >>= λ _. k

-- The generator itself
abbrev pub this : Emit BcGen
this gen = some (gen, gen)

abbrev pub with_env : Env → Emit (Unit {0})
with_env env gen = some (tt, record gen { env = env })

-- `expect`
abbrev pub expect : {A : Type 0} → Option A → Emit A
expect (some a) = pure a
expect none = panicked

-- The variable's index, and where it lives
abbrev pub Slot : Type 0
Slot = ℕ × ValueRel

-- `allocate_variable` in this context
unfoldable pub allocate_in : Context → String → Emit Slot
allocate_in function name gen = some (
  (gen.env.local_counter, ValueRel.local),
  record gen {
    env = record gen.env {
      locals = insert name gen.env.local_counter gen.env.locals;
      local_counter = gen.env.local_counter + 1;
    };
  },
)
allocate_in global name gen = some (
  (gen.env.global_counter, ValueRel.global),
  record gen {
    env = record gen.env {
      globals = insert name gen.env.global_counter gen.env.globals;
      global_counter = gen.env.global_counter + 1;
    };
  },
)

unfoldable pub allocate_variable : String → Emit Slot
unfolding allocate_in
allocate_variable name gen = allocate_in gen.env.context name gen

unfoldable pub allocate_argument : String → Emit Slot
allocate_argument name gen = some (
  (gen.env.arg_counter, ValueRel.arg),
  record gen {
    env = record gen.env {
      args = insert name gen.env.arg_counter gen.env.args;
      arg_counter = gen.env.arg_counter + 1;
    };
  },
)

unfoldable pub deallocate_in : Context → String → Emit (Unit {0})
deallocate_in function name gen =
    some (tt, record gen { env = record gen.env { locals = remove name gen.env.locals } })
deallocate_in global name gen =
    some (tt, record gen { env = record gen.env { globals = remove name gen.env.globals } })

unfoldable pub deallocate_variable : String → Emit (Unit {0})
unfolding deallocate_in
deallocate_variable name gen = deallocate_in gen.env.context name gen

-- `local.or(arg).or(global)`
unfoldable pub or_else : Option Slot → Option Slot → Option Slot
or_else (some slot) other = some slot
or_else none other = other

abbrev pub slot_in : ValueRel → Option ℕ → Option Slot
slot_in rel none = none
slot_in rel (some id) = some (id, rel)

unfoldable pub find_variable : String → Env → Option Slot
unfolding or_else
find_variable name env = or_else (slot_in ValueRel.local (lookup name env.locals)) (
    or_else (slot_in ValueRel.arg (lookup name env.args))
      (slot_in ValueRel.global (lookup name env.globals)))

unfoldable pub fresh_label : String → Emit Label
fresh_label prefix gen = some (
  record { name = indexed prefix gen.env.label_counter; offset = none },
  record gen { env = record gen.env { label_counter = gen.env.label_counter + 1 } },
)

unfoldable pub push_loop_end : Label → Emit (Unit {0})
push_loop_end label gen =
    some (
      tt,
      record gen { env = record gen.env { loop_end_labels = label ∷ gen.env.loop_end_labels } },
    )

-- These labels without the innermost one; with none it panics.
abbrev pub pop_label : List Label → Emit (Unit {0})
pop_label [] gen = none
pop_label (label ∷ labels) gen =
    some (tt, record gen { env = record gen.env { loop_end_labels = labels } })

unfoldable pub pop_loop_end : Emit (Unit {0})
pop_loop_end gen = pop_label gen.env.loop_end_labels gen

-- The first of these labels, which is the innermost
unfoldable pub nearest : List Label → Option Label
nearest [] = none
nearest (label ∷ labels) = some label

abbrev pub current_loop_end : Env → Option Label
current_loop_end env = nearest env.loop_end_labels

-- `as i32` of a length or of an i64
abbrev pub as_i32 : ℕ → ℕ
as_i32 n = n % 2 ^ 32
