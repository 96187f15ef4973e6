-- ===== src/Codegen/Slots.antt =====
-- Where the generated code may look for a variable, and where it may jump: the predicates of the
-- proofs in this module's children.
mod Shapes
mod Steps
mod Expressions
mod Parts
mod Loops
mod Statements
pub mod Functions
pub mod TopLevel
use rapira.Prelude.{ℕ, ◌≡◌, ◌≤◌, ◌<◌, String, Bool, true, List, All, Values}
use rapira.Bytecode.{
  ValueRel, local, arg, capture, Label, Instruction, load, store, jmp, cjmp, label,
}
use rapira.Codegen.{Context, function, Env, BcGen, VariantInfo, Slot}
use rapira.Codegen.Context.{global}
use rapira.Codegen.Expressions.{Code}

-- How many locals and arguments a frame has, and how many globals there are
pub record Limits : Type 0 where
  pub locals : ℕ
  pub args : ℕ
  pub globals : ℕ

abbrev pub Below : Limits → ValueRel → ℕ → Type 0
Below top local index = index < top.locals
Below top arg index = index < top.args
Below top ValueRel.global index = index < top.globals
Below top capture index = ⊥

abbrev pub SlotFits : Limits → Slot → Type 0
SlotFits top slot = Below top slot.1 slot.0

-- An instruction of an expression: no label, no jump, and its variable is in the frame.
abbrev pub IsPlain : Limits → Instruction → Type 0
IsPlain top (load rel index) = Below top rel index
IsPlain top (store rel index) = Below top rel index
IsPlain top (jmp dest) = ⊥
IsPlain top (cjmp dest kind) = ⊥
IsPlain top (label name) = ⊥
IsPlain top _ = Unit

-- An instruction whose variable is in the frame and whose jump goes to one of these labels
abbrev pub IsPlaced : Limits → (String → Bool) → Instruction → Type 0
IsPlaced top known (load rel index) = Below top rel index
IsPlaced top known (store rel index) = Below top rel index
IsPlaced top known (jmp dest) = known dest.name ≡ true
IsPlaced top known (cjmp dest kind) = known dest.name ≡ true
IsPlaced top known _ = Unit

-- The labels of an instruction are among these.
abbrev pub Declares : (String → Bool) → Instruction → Type 0
Declares known (label name) = known name ≡ true
Declares known _ = Unit

-- The label of a loop's end is among these.
abbrev pub Known : (String → Bool) → Label → Type 0
Known known dest = known dest.name ≡ true

-- Code that has its variables in the frame, and jumps to its own labels or to the ends of the loops
-- around it
unfoldable pub IsClosed : Limits → List Label → Code → Type 0
IsClosed top ends code =
    (known : String → Bool)
    → All (Known known) ends
    → All (Declares known) code
    → All (IsPlaced top known) code

-- Code without labels that reads variables of the frame and jumps only to this label
abbrev pub IsTest : Limits → Label → Code → Type 0
IsTest top next code = (known : String → Bool) → Known known next → All (IsPlaced top known) code

-- The counter that the context allocates from, and its limit
abbrev pub counter : Context → ℕ → ℕ → ℕ
counter function locals globals = locals
counter global locals globals = globals

abbrev pub limit : Context → Limits → ℕ
limit function top = top.locals
limit global top = top.globals

-- The generator inside such loops, after at most n allocations
pub record Fits (top : Limits) (context : Context) (constructors : List (String × VariantInfo))
    (ends : List Label) (n : ℕ) (gen : BcGen) : Type 0 where
  pub same_context : gen.env.context ≡ context
  pub same_constructors : gen.variant_constructors ≡ constructors
  pub same_ends : gen.env.loop_end_labels ≡ ends
  pub allocated : counter context gen.env.local_counter gen.env.global_counter ≤ n
  pub locals_fit : Values (λ index. index < top.locals) gen.env.locals
  pub args_fit : Values (λ index. index < top.args) gen.env.args
  pub globals_fit : Values (λ index. index < top.globals) gen.env.globals
