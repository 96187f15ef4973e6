-- ===== src/Codegen/Slots/Functions.antt =====
-- crates/compiler-core/src/codegen/bcgen.rs: a function's code keeps to the frame that its BEGIN makes,
-- and its jumps stay inside it.
use mathlib.Core.Path.{subst}
use text.Mathlib.Text.{◌==◌ as str_eq}
use text.Mathlib.TextPositions.{eq_refl}
use rapira.Prelude.{
  ℕ, suc, ◌+◌, ◌≤◌, ◌<◌, ◌≡◌, refl, String, Bool, true, false, ◌||◌, Option, none, some, List, [],
  ◌∷◌, ◌++◌, All, append-All, split-All, Values, WhenSome, length, arith,
}
use rapira.Ast.{Spannable, FunctionDefinition, Statements}
use rapira.Bytecode.{label, begin}
use rapira.Codegen.{function, BcGen, VariantInfo, ◌>>=◌, allocate_argument, as_i32}
use rapira.Codegen.Context.{global}
use rapira.Codegen.Definitions.{
  allocate_arguments, emit_framed, emit_function_def, function_code, return_null, has_return,
  set_context, clear_frame,
}
use rapira.Codegen.Expressions.{Code}
use rapira.Codegen.Logic.{Gives, Post, bind-Gives, pure-Gives, expect-Gives}
use rapira.Codegen.Statements.{count_locals}
use rapira.Codegen.Slots.{Limits, IsPlaced, Declares, IsClosed, Fits}
use rapira.Codegen.Slots.Statements.{emit_statements-Gives}

-- Whether a label of this name stands in the code
unfoldable pub has_label : Code → String → Bool
has_label [] name = false
has_label (label l ∷ code) name = str_eq l name || has_label code name
has_label (_ ∷ code) name = has_label code name

or_true : (b c : Bool) → c ≡ true → (b || c) ≡ true
or_true true c e = refl
or_true false c e = e

or_first : (b c : Bool) → b ≡ true → (b || c) ≡ true
or_first b c e = rw e refl

-- The labels of the code are among those that include them.
pub Declares-All :
    (known : String → Bool) (code : Code)
    → ((name : String) → has_label code name ≡ true → known name ≡ true)
    → All (Declares known) code
unfolding has_label
Declares-All known [] h = tt
Declares-All known (label l ∷ code) h =
    (h l (or_first _ _ (eq_refl l)), Declares-All known code (λ name e. h name (or_true _ _ e)))
Declares-All known (i ∷ code) h = (tt, Declares-All known code h)

module _ (top : Limits) (constructors : List (String × VariantInfo)) where
  -- Within the limits, after as many arguments
  record WithArgs (k : ℕ) (gen : BcGen) : Type 0 where
    pub fits : Fits top function constructors [] 0 gen
    pub counted : gen.env.arg_counter ≤ k

  allocate_argument-Gives :
      (k : ℕ) (parameter : String)
      → k < top.args
      → Gives (WithArgs k) (allocate_argument parameter) (λ _. Unit) (WithArgs (suc k))
  unfolding allocate_argument
  allocate_argument-Gives k parameter h = record {
    from = λ gen s. (
      tt,
      record {
        fits = record {
          same_context = s.fits.same_context;
          same_constructors = s.fits.same_constructors;
          same_ends = s.fits.same_ends;
          allocated = s.fits.allocated;
          locals_fit = s.fits.locals_fit;
          args_fit = (omega (arith, s.counted), s.fits.args_fit);
          globals_fit = s.fits.globals_fit;
        };
        counted = omega (arith, s.counted);
      },
    );
  }

  allocate_arguments-Gives :
      (k : ℕ) (parameters : List String)
      → k + length parameters ≤ top.args
      → Gives
          (WithArgs k)
          (allocate_arguments parameters)
          (λ _. Unit)
          (Fits top function constructors [] 0)
  unfolding allocate_arguments
  allocate_arguments-Gives k [] h = record { from = λ gen s. (tt, s.fits) }
  allocate_arguments-Gives k (parameter ∷ parameters) h =
      bind-Gives (allocate_argument-Gives k parameter (omega arith))
        (λ slot _. allocate_arguments-Gives (suc k) parameters (omega arith))

-- Between two definitions: inside no loop, and with the globals below their number
pub record IsReady (globals : ℕ) (gen : BcGen) : Type 0 where
  pub no_loops : gen.env.loop_end_labels ≡ []
  pub globals_fit : Values (λ index. index < globals) gen.env.globals

set_context-Gives :
    (top : Limits) (constructors : List (String × VariantInfo)) (n : ℕ)
    → Gives
        (Fits top function constructors [] n)
        (set_context global)
        (λ _. Unit)
        (IsReady top.globals)
unfolding ◌>>=◌
set_context-Gives top constructors n = record {
  from = λ gen fits. (tt, record { no_loops = fits.same_ends; globals_fit = fits.globals_fit });
}

-- The limits of a function
abbrev pub frame_limits : BcGen → FunctionDefinition → ℕ → Limits
frame_limits gen func_def globals = record {
  locals = count_locals gen.variant_constructors func_def.body;
  args = length func_def.parameters;
  globals = globals;
}

-- The code of a function: its label, a BEGIN with the sizes of its frame, and a body. Every variable
-- is in that frame or is a global below the number, and every jump goes to a label of the code.
unfoldable pub IsFunctionCode : BcGen → FunctionDefinition → ℕ → Code → Type 0
IsFunctionCode gen func_def globals code =
    ((name : String) × (rest : Code) × (code
        ≡ label name
          ∷ begin (as_i32 (length func_def.parameters))
              (as_i32 (count_locals gen.variant_constructors func_def.body))
          ∷ rest))
    × All (IsPlaced (frame_limits gen func_def globals) (has_label code)) code

return_null-IsPlaced :
    (top : Limits) (known : String → Bool) (b : Bool) → All (IsPlaced top known) (return_null b)
return_null-IsPlaced top known true = tt
return_null-IsPlaced top known false = (tt, (tt, tt))

function_code-IsPlaced :
    (top : Limits) (name : String) (parameters locals : ℕ) (body : Statements) (code : Code)
    → IsClosed top [] code
    → let whole = function_code name parameters locals body code in
      All (IsPlaced top (has_label whole)) whole
unfolding function_code IsClosed
function_code-IsPlaced top name parameters locals body code p =
    let tail = return_null (has_return body) in
    let whole = label name ∷ begin (as_i32 parameters) (as_i32 locals) ∷ code ++ tail in
    let ds = Declares-All (has_label whole) whole (λ n e. e) in
    (
      tt,
      (
        tt,
        append-All (IsPlaced top (has_label whole)) code tail
            (p (has_label whole) tt (split-All (Declares (has_label whole)) code tail ds.1.1).0)
            (return_null-IsPlaced top (has_label whole) (has_return body)),
      ),
    )

named_code-IsFunctionCode :
    (gen : BcGen) (func_def : FunctionDefinition) (globals : ℕ) (name : String) (code : Code)
    → let top = frame_limits gen func_def globals in
      IsClosed top [] code
      → IsFunctionCode gen func_def globals
          (function_code name (length func_def.parameters) top.locals func_def.body code)
unfolding IsFunctionCode function_code
named_code-IsFunctionCode gen func_def globals name code p =
    let top = frame_limits gen func_def globals in
    (
      (name, _, refl),
      function_code-IsPlaced top name (length func_def.parameters) top.locals func_def.body code p,
    )

emit_framed-Gives :
    (gen : BcGen) (func_def : FunctionDefinition) (globals : ℕ)
    → let top = frame_limits gen func_def globals in
      Gives
        (WithArgs top gen.variant_constructors 0)
        (emit_framed gen func_def)
        (IsFunctionCode gen func_def globals)
        (IsReady globals)
unfolding emit_framed
emit_framed-Gives gen func_def globals =
    let top = frame_limits gen func_def globals in
    let cs = gen.variant_constructors in
    bind-Gives (allocate_arguments-Gives top cs 0 func_def.parameters (omega arith)) (λ _ _.
      bind-Gives {F = λ _. Unit} (expect-Gives func_def.name (any func_def.name)) (λ name _.
        bind-Gives (emit_statements-Gives top function cs [] 0 func_def.body (omega arith))
          (λ code p.
            bind-Gives (set_context-Gives top cs (0 + top.locals))
              (λ _ _. pure-Gives (named_code-IsFunctionCode gen func_def globals _ code p)))))
  where
    any : (o : Option String) → WhenSome (λ _. Unit) o
    any none = tt
    any (some name) = tt

function_Post :
    (func_def : Spannable FunctionDefinition) (globals : ℕ) (gen : BcGen)
    → IsReady globals gen
    → Post
        (IsFunctionCode gen func_def.node globals)
        (IsReady globals)
        (emit_function_def func_def gen)
unfolding emit_function_def ◌>>=◌
function_Post func_def globals gen ready =
    (emit_framed-Gives gen func_def.node globals).from
      (record gen { env = clear_frame function gen.env })
      (record {
        fits = record {
          same_context = refl;
          same_constructors = refl;
          same_ends = ready.no_loops;
          allocated = omega arith;
          locals_fit = tt;
          args_fit = tt;
          globals_fit = ready.globals_fit;
        };
        counted = omega arith;
      })

-- The code of a function starts with its label and a BEGIN with the sizes of its frame; every variable
-- that the code loads or stores is in that frame, or is a global below the given number; and every
-- jump goes to a label of the code. The number of locals is the one that `count_locals` gives. The
-- hypotheses are that no loop is open and that the globals known before lie below the number; both
-- hold again afterwards.
pub emit_function_def-IsFunctionCode :
    (func_def : Spannable FunctionDefinition) (globals : ℕ) (gen gen' : BcGen) (code : Code)
    → IsReady globals gen
    → emit_function_def func_def gen ≡ some (code, gen')
    → IsFunctionCode gen func_def.node globals code × IsReady globals gen'
emit_function_def-IsFunctionCode func_def globals gen gen' code ready e =
    subst (Post (IsFunctionCode gen func_def.node globals) (IsReady globals)) e
      (function_Post func_def globals gen ready)
