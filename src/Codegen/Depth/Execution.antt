-- ===== src/Codegen/Depth/Execution.antt =====
-- crates/compiler-core/src/codegen/bcgen.rs: the execution of the code of statements, jumps included.
use rapira.Prelude.{ℕ, ◌+◌, ◌-◌, ◌≡◌, ◌≤◌, [], ◌∷◌, ◌++◌}
use rapira.Ast.{Statements}
use rapira.Bytecode.{Instruction, Label, CompareJumpKind, jmp, cjmp, label, end}
use rapira.Codegen.Depth.{effect}
use rapira.Codegen.Expressions.{Code}

-- The instructions after which the next one is executed
abbrev GoesOn : Instruction → Type 0
GoesOn (jmp dest) = ⊥
GoesOn end = ⊥
GoesOn i = Unit

-- What an execution of the code reaches: the code that is left, and the depth of the operand stack
-- there. A jump goes to any place of the code where its label stands; a conditional one pops its
-- condition and jumps or goes on.
pub data Reaches (fields : ℕ → ℕ) (code : Code) (base : ℕ) : Code → ℕ → Type 0 where
  entered : Reaches fields code base code base
  executed :
      {i : Instruction} {rest : Code} {d : ℕ}
      → Reaches fields code base (i ∷ rest) d
      → GoesOn i
      → Reaches fields code base rest (d - (effect fields i).0 + (effect fields i).1)
  jumped :
      {dest : Label} {rest : Code} {d : ℕ} (before after : Code)
      → Reaches fields code base (jmp dest ∷ rest) d
      → code ≡ before ++ label dest.name ∷ after
      → Reaches fields code base (label dest.name ∷ after) d
  branched :
      {dest : Label} {kind : CompareJumpKind} {rest : Code} {d : ℕ} (before after : Code)
      → Reaches fields code base (cjmp dest kind ∷ rest) d
      → code ≡ before ++ label dest.name ∷ after
      → Reaches fields code base (label dest.name ∷ after) (d - 1)

-- The next instruction has the values that it pops; behind the last one the depth is the base.
abbrev pub Fits : (ℕ → ℕ) → ℕ → Code → ℕ → Type 0
Fits fields base [] d = d ≡ base
Fits fields base (i ∷ rest) d = (effect fields i).0 ≤ d
