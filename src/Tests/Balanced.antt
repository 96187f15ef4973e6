-- ===== src/Tests/Balanced.antt =====
-- The theorems on the depth of the stack at a call of a builtin and at the statements of a module.
use rapira.Prelude.{ℕ}
use rapira.Ast.{
  Expr, SpannedExpr, at, function_call, binary_op, multiply, tuple_construct, nil, cons,
}
use rapira.Codegen.Definitions.{new}
use rapira.Codegen.Expressions.{Code}
use rapira.Codegen.Statements.{emit_statements}
use rapira.Tests.Compiled.{number, code_of, top}

-- (abs(3), 4 * 5)
abbrev pair : SpannedExpr
pair =
    at
      (tuple_construct (
        cons (at (function_call (at (Expr.name "abs") 0 0) (cons (number 3) nil)) 0 0)
          (cons (at (binary_op multiply (number 4) (number 5)) 0 0) nil)))
      0 0

abbrev no_fields : ℕ → ℕ
no_fields schema = 0

abbrev top_code : Code
top_code = code_of (emit_statements top new)
