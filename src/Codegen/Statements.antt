-- ===== src/Codegen/Statements.antt =====
-- crates/compiler-core/src/codegen/bcgen.rs: `emit_statement` and `count_locals`.
use rapira.Prelude.{ℕ, ◌+◌, String, Option, none, some, List, [], ◌∷◌, ◌++◌, length}
use rapira.Ast.{
  SpannedExpr, at, Expr, Exprs, nil, cons, count_exprs, assignment, declaration, procedure_call,
  conditional, selection, loop, output, input, exit_loop, return_from_function, SpannedStatement,
  Statements, MaybeBody, absent, present, Cases, no_cases, case, LoopHeader, while, repeat, for,
}
use rapira.Bytecode.{Label, label, jmp, store, drop, end, call_builtin, lread, lwrite}
use rapira.Codegen.{
  VariantInfo, Slot, Emit, pure, panicked, ◌>>=◌, ◌>>◌, this, expect, allocate_variable,
  deallocate_variable, fresh_label, push_loop_end, pop_loop_end, current_loop_end,
}
use rapira.Codegen.Expressions.{Code, emit_expr, emit_exprs, emit_call}
use rapira.Codegen.Shapes.{
  flagged_count, repeat_code, for_code, while_code, if_code, if_else_code, emit_maybe, target_name,
  emit_assignment, procedure_of, emit_inputs, constructor_pattern, emit_subject, emit_pattern,
}
use rapira.Codegen.Text.{spanned_name}

-- The value that a selection compares: a variable is loaded anew each time, anything else goes to a
-- variable of its own, which is freed at the end.
pub record Selector : Type 0 where
  pub code : Code
  pub slot : Option Slot
  pub free : Emit (Unit {0})

-- A selector in the variable of this name
unfoldable pub emit_stored : String → SpannedExpr → Emit Selector
emit_stored selector_name expression = do
  slot ← allocate_variable selector_name
  code ← emit_expr expression
  pure (record {
    code = code ++ store slot.1 slot.0 ∷ [];
    slot = some slot;
    free = deallocate_variable selector_name;
  })

unfoldable pub emit_selector : SpannedExpr → ℕ → ℕ → Emit Selector
unfolding emit_stored
emit_selector (at (Expr.name n) s e) start end_ =
    pure (record { code = []; slot = none; free = pure tt })
emit_selector expression start end_ = emit_stored (spanned_name "match" start end_) expression

abbrev pub position_start : SpannedExpr → ℕ
position_start (at e start end_) = start

abbrev pub position_end : SpannedExpr → ℕ
position_end (at e start end_) = end_

-- A loop, from the code of its body
unfoldable pub emit_loop : LoopHeader → Emit Code → Emit Code
emit_loop (repeat count) body = do
  let counter = spanned_name "repeat" (position_start count) (position_end count)
  slot ← allocate_variable counter
  code ← emit_expr count
  loop_label ← fresh_label "repeat_loop"
  end_label ← fresh_label "repeat_end"
  push_loop_end end_label
  code' ← body
  deallocate_variable counter
  pop_loop_end
  pure (repeat_code slot code loop_label end_label code')
emit_loop (for variable from to step) body = do
  from_code ← emit_maybe from
  to_code ← emit_maybe to
  step_code ← emit_maybe step
  slot ← allocate_variable variable
  loop_label ← fresh_label "for_loop"
  end_label ← fresh_label "for_end"
  push_loop_end end_label
  code ← body
  deallocate_variable variable
  pop_loop_end
  pure (for_code slot from_code to_code step_code loop_label end_label code)
emit_loop (while condition) body = do
  loop_label ← fresh_label "while_loop"
  end_label ← fresh_label "while_end"
  code ← emit_expr condition
  push_loop_end end_label
  code' ← body
  pop_loop_end
  pure (while_code loop_label code end_label code')

unfoldable mutual
  unfolding emit_selector emit_loop

  pub emit_statement : SpannedStatement → Emit Code
  emit_statement (at (declaration target value) start end_) = do
    code ← emit_expr value
    n ← target_name target.node
    slot ← allocate_variable n
    pure (code ++ store slot.1 slot.0 ∷ [])
  emit_statement (at (assignment target value) start end_) = do
    code ← emit_expr value
    rest ← emit_assignment target.node
    pure (code ++ rest)
  emit_statement (at (output no_newline values) start end_) = do
    code ← emit_exprs values
    pure (code ++ call_builtin lwrite (flagged_count no_newline (count_exprs values)) ∷ [])
  emit_statement (at (loop header body) start end_) = emit_loop header (emit_statements body)
  emit_statement (at (return_from_function value) start end_) = do
    code ← emit_expr value
    pure (code ++ end ∷ [])
  emit_statement (at (conditional condition then_body else_body) start end_) = do
    code ← emit_expr condition
    begin_label ← fresh_label "if_begin"
    end_label ← fresh_label "if_skip"
    emit_branches code begin_label end_label (emit_statements then_body) else_body
  emit_statement (at (selection expression cases else_body) start end_) = do
    selector ← emit_selector expression start end_
    end_label ← fresh_label "match_end"
    code ← emit_cases (emit_subject selector.slot expression) end_label cases
    rest ← emit_else else_body
    selector.free
    pure (selector.code ++ code ++ rest ++ label end_label.name ∷ [])
  emit_statement (at (procedure_call procedure arguments) start end_) = do
    gen ← this
    code ←
        emit_call (procedure_of procedure gen) (count_exprs arguments) (emit_expr procedure)
          (emit_exprs arguments)
    pure (code ++ drop ∷ [])
  emit_statement (at (input text_mode variables) start end_) = do
    code ← emit_inputs variables
    pure (call_builtin lread (flagged_count text_mode (length variables)) ∷ code)
  emit_statement (at exit_loop start end_) = do
    gen ← this
    nearest ← expect (current_loop_end gen.env)
    pure (jmp nearest ∷ [])
  emit_statement _ = panicked

  pub emit_statements : Statements → Emit Code
  emit_statements nil = pure []
  emit_statements (cons statement rest) = do
    code ← emit_statement statement
    code' ← emit_statements rest
    pure (code ++ code')

  -- The branches of a conditional
  pub emit_branches : Code → Label → Label → Emit Code → MaybeBody → Emit Code
  emit_branches code begin_label end_label then_ absent = do
    code' ← then_
    pure (if_code code begin_label end_label code')
  emit_branches code begin_label end_label then_ (present else_body) = do
    else_label ← fresh_label "else"
    code' ← then_
    code'' ← emit_statements else_body
    pure (if_else_code code begin_label end_label else_label code' code'')

  pub emit_else : MaybeBody → Emit Code
  emit_else absent = pure []
  emit_else (present body) = emit_statements body

  pub emit_cases : Emit Code → Label → Cases → Emit Code
  emit_cases subject end_label no_cases = pure []
  emit_cases subject end_label (case values body rest) = do
    next ← fresh_label "match_next"
    test ← emit_pattern subject next values
    code ← emit_statements body
    code' ← emit_cases subject end_label rest
    pure (test ++ code ++ (jmp end_label ∷ label next.name ∷ []) ++ code')

abbrev pub bound_count : Option (VariantInfo × Exprs) → ℕ
bound_count none = 0
bound_count (some (info, bindings)) = count_exprs bindings

-- The variables that the patterns of a case bind
unfoldable pub count_bindings : List (String × VariantInfo) → Exprs → ℕ
count_bindings constructors nil = 0
count_bindings constructors (cons value values) =
    bound_count (constructor_pattern constructors value) + count_bindings constructors values

abbrev pub header_locals : LoopHeader → ℕ
header_locals (while condition) = 0
header_locals _ = 1

-- `count_locals`, which reads only the constructors of the generator
unfoldable mutual
  unfolding count_bindings

  pub count_locals : List (String × VariantInfo) → Statements → ℕ
  count_locals constructors nil = 0
  count_locals constructors (cons statement rest) =
      count_statement constructors statement + count_locals constructors rest

  pub count_statement : List (String × VariantInfo) → SpannedStatement → ℕ
  count_statement constructors (at (declaration target value) start end_) = 1
  count_statement constructors (at (conditional condition then_body else_body) start end_) =
      count_locals constructors then_body + count_else constructors else_body
  count_statement constructors (at (selection expression cases else_body) start end_) =
      1 + count_cases constructors cases + count_else constructors else_body
  count_statement constructors (at (loop header body) start end_) =
      header_locals header + count_locals constructors body
  count_statement constructors (at (input text_mode variables) start end_) = length variables
  count_statement constructors _ = 0

  pub count_else : List (String × VariantInfo) → MaybeBody → ℕ
  count_else constructors absent = 0
  count_else constructors (present body) = count_locals constructors body

  pub count_cases : List (String × VariantInfo) → Cases → ℕ
  count_cases constructors no_cases = 0
  count_cases constructors (case values body rest) =
      count_locals constructors body
      + count_bindings constructors values
      + count_cases constructors rest
