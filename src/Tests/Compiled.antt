-- ===== src/Tests/Compiled.antt =====
-- The theorems on the generator at a function with loops, a selection and an input.
use rapira.Prelude.{ℕ, ◌+◌, ◌≤◌, ◌≡◌, refl, String, Option, some, none, [], ◌∷◌, arith, All, false}
use rapira.Ast.{
  Spannable, FunctionDefinition, LValue, Expr, SpannedExpr, at, literal, integer, binary_op, nil,
  cons, absent, present, Statement, declaration, assignment, conditional, loop, for, repeat, output,
  input, exit_loop, return_from_function, SpannedStatement, Statements, empty_names, greater,
  subtract,
}
use rapira.Codegen.{
  BcGen, ◌>>=◌, allocate_variable, fresh_label, allocate_argument, find_variable, push_loop_end,
  nearest, deallocate_variable, pop_loop_end,
}
use rapira.Codegen.Text.{spanned_name}
use rapira.Codegen.Shapes.{target_name, emit_maybe, emit_assignment, emit_inputs}
use rapira.Codegen.Slots.TopLevel.{global_limits, emit_top_level_def-IsTopLevelCode}
use rapira.Codegen.Slots.{IsPlaced}
use rapira.Codegen.Slots.Functions.{has_label}
use rapira.Codegen.Statements.{count_locals}
use rapira.Codegen.Expressions.{emit_expr}
use rapira.Codegen.Statements.{emit_statement}
use rapira.Codegen.Definitions.{new, emit_function_def, emit_top_level_def}
use rapira.Codegen.Expressions.{Code}
use rapira.Codegen.Slots.Functions.{IsReady, IsFunctionCode, emit_function_def-IsFunctionCode}

abbrev pub number : ℕ → SpannedExpr
number n = at (literal (integer n)) 0 0

abbrev var : String → SpannedExpr
var v = at (Expr.name v) 0 0

abbrev target_of : String → Spannable LValue
target_of v = record { node = LValue.name v; position_start = 0; position_end = 0 }

abbrev stmt : Statement → SpannedStatement
stmt s = at s 0 0

-- sum := 0; for i from 1 to n: if i > 7 then exit, else sum = i - sum; return sum
abbrev body : Statements
body = cons (stmt (declaration (target_of "sum") (number 0))) (
    cons
      (stmt (
        loop (for "i" (present (number 1)) (present (var "n")) absent) (
          cons
            (stmt (
              conditional (at (binary_op greater (var "i") (number 7)) 0 0)
                (cons (stmt exit_loop) nil)
                (present (
                  cons
                    (stmt (
                      assignment (target_of "sum")
                        (at (binary_op subtract (var "i") (var "sum")) 0 0)))
                    nil))))
            nil)))
      (cons (stmt (return_from_function (var "sum"))) nil))

abbrev sum : Spannable FunctionDefinition
sum = record {
  node = record {
    name = some "sum";
    parameters = "n" ∷ [];
    name_declarations = empty_names;
    body = body;
    variables_need_saving = [];
  };
  position_start = 0;
  position_end = 0;
}

abbrev pub code_of : Option (Code × BcGen) → Code
code_of none = []
code_of (some (code, gen)) = code

abbrev pub gen_of : Option (Code × BcGen) → BcGen
gen_of none = new
gen_of (some (code, gen)) = gen

emitted :
    emit_function_def sum new
    ≡ some (code_of (emit_function_def sum new), gen_of (emit_function_def sum new))
unfolding emit_function_def emit_statement emit_expr ◌>>=◌ allocate_variable fresh_label
    allocate_argument target_name emit_maybe find_variable push_loop_end nearest emit_assignment
    deallocate_variable pop_loop_end
emitted = refl

emit_function_def_example :
    IsFunctionCode new sum.node 0 (code_of (emit_function_def sum new))
    × IsReady 0 (gen_of (emit_function_def sum new))
emit_function_def_example =
    emit_function_def-IsFunctionCode sum 0 new (gen_of (emit_function_def sum new))
      (code_of (emit_function_def sum new)) (record { no_loops = refl; globals_fit = tt }) emitted

-- total := 5; repeat 2: read total, print total - total
abbrev pub top : Statements
top = cons (stmt (declaration (target_of "total") (number 5))) (
    cons
      (stmt (
        loop (repeat (number 2)) (
          cons (stmt (input false (target_of "total" ∷ []))) (
            cons
              (stmt
                (output false (cons (at (binary_op subtract (var "total") (var "total")) 0 0) nil)))
              nil))))
      nil)

top_emitted :
    emit_top_level_def top new
    ≡ some (code_of (emit_top_level_def top new), gen_of (emit_top_level_def top new))
unfolding emit_top_level_def emit_statement emit_expr ◌>>=◌ allocate_variable fresh_label
    target_name find_variable push_loop_end deallocate_variable pop_loop_end emit_inputs
    spanned_name
top_emitted = refl

top_counted : 0 + count_locals [] top ≤ 3
unfolding count_locals
top_counted = omega arith

emit_top_level_def_example :
    All
      (IsPlaced (global_limits 3) (has_label (code_of (emit_top_level_def top new))))
      (code_of (emit_top_level_def top new))
    × (IsReady 3 (gen_of (emit_top_level_def top new))
        × ((gen_of (emit_top_level_def top new)).env.global_counter ≤ 0 + count_locals [] top))
emit_top_level_def_example =
    emit_top_level_def-IsTopLevelCode top 3 new (gen_of (emit_top_level_def top new))
      (code_of (emit_top_level_def top new)) (record { no_loops = refl; globals_fit = tt })
      top_counted top_emitted
