-- ===== src/Codegen/Slots/TopLevel.antt =====
-- crates/compiler-core/src/codegen/bcgen.rs: the code of a module's top level uses globals only, no
-- more new ones than `count_locals` counts, and its jumps stay inside it.
use mathlib.Core.Path.{subst}
use rapira.Prelude.{
  ℕ, ◌+◌, ◌≤◌, ◌≡◌, refl, String, some, [], ◌∷◌, All, append-All, split-All, arith,
}
use rapira.Ast.{Statements}
use rapira.Bytecode.{null, end}
use rapira.Codegen.{BcGen, ◌>>=◌}
use rapira.Codegen.Context.{global}
use rapira.Codegen.Definitions.{emit_top_level_def, emit_top_level, top_level_code, clear_frame}
use rapira.Codegen.Expressions.{Code}
use rapira.Codegen.Logic.{Gives, Post, bind-Gives, pure-Gives, map-Gives}
use rapira.Codegen.Statements.{count_locals}
use rapira.Codegen.Slots.{Limits, IsPlaced, Declares, IsClosed, Fits}
use rapira.Codegen.Slots.Functions.{has_label, Declares-All, IsReady}
use rapira.Codegen.Slots.Statements.{emit_statements-Gives}

-- No locals, no arguments, and these globals
abbrev pub global_limits : ℕ → Limits
global_limits globals = record { locals = 0; args = 0; globals = globals }

abbrev IsTopLevelCode : ℕ → Code → Type 0
IsTopLevelCode globals code = All (IsPlaced (global_limits globals) (has_label code)) code

top_level_code-IsPlaced :
    (globals : ℕ) (name : String) (code : Code)
    → IsClosed (global_limits globals) [] code
    → IsTopLevelCode globals (top_level_code name code)
unfolding IsClosed
top_level_code-IsPlaced globals name code p =
    let known = has_label (top_level_code name code) in
    let ds = Declares-All known (top_level_code name code) (λ n e. e) in
    let d = (split-All (Declares known) code (null ∷ end ∷ []) ds.1.1).0 in
    (
      tt,
      (
        tt,
        append-All (IsPlaced (global_limits globals) known) code _ (p known tt d) (tt, (tt, tt)),
      ),
    )

emit_top_level-Gives :
    (gen : BcGen) (body : Statements) (globals n : ℕ)
    → n + count_locals gen.variant_constructors body ≤ globals
    → let count = count_locals gen.variant_constructors body in
      Gives
        (Fits (global_limits globals) global gen.variant_constructors [] n)
        (emit_top_level gen body)
        (IsTopLevelCode globals)
        (λ gen'. IsReady globals gen' × (gen'.env.global_counter ≤ n + count))
unfolding emit_top_level
emit_top_level-Gives gen body globals n h =
    map-Gives (λ code p. p)
      (λ gen' fits.
        (record { no_loops = fits.same_ends; globals_fit = fits.globals_fit }, fits.allocated))
      (bind-Gives
        (emit_statements-Gives (global_limits globals) global gen.variant_constructors [] n body h)
        (λ code p. pure-Gives (top_level_code-IsPlaced globals _ code p)))

-- The code of a module's top level stores and loads globals only, all of them below the given number,
-- and each of its jumps goes to a label of the code. It allocates no more globals than `count_locals`
-- counts. The hypotheses are that no loop is open, that the globals known before lie below the number,
-- and that the number leaves room for those that are counted.
pub emit_top_level_def-IsTopLevelCode :
    (body : Statements) (globals : ℕ) (gen gen' : BcGen) (code : Code)
    → IsReady globals gen
    → gen.env.global_counter + count_locals gen.variant_constructors body ≤ globals
    → emit_top_level_def body gen ≡ some (code, gen')
    → All (IsPlaced (global_limits globals) (has_label code)) code
      × (IsReady globals gen'
          × (gen'.env.global_counter
              ≤ gen.env.global_counter + count_locals gen.variant_constructors body))
unfolding emit_top_level_def ◌>>=◌
emit_top_level_def-IsTopLevelCode body globals gen gen' code ready h e =
    subst
      (Post (IsTopLevelCode globals) (λ g.
        IsReady globals g
        × (g.env.global_counter
            ≤ gen.env.global_counter + count_locals gen.variant_constructors body)))
      e
      ((emit_top_level-Gives gen body globals gen.env.global_counter h).from
        (record gen { env = clear_frame global gen.env })
        (record {
          same_context = refl;
          same_constructors = refl;
          same_ends = ready.no_loops;
          allocated = omega arith;
          locals_fit = tt;
          args_fit = tt;
          globals_fit = ready.globals_fit;
        }))
