-- ===== src/Codegen/Slots/Statements.antt =====
-- crates/compiler-core/src/codegen/bcgen.rs: `emit_statement` allocates no more variables than
-- `count_locals` counts, and its code is closed.
use rapira.Prelude.{
  ℕ, suc, ◌+◌, ◌≤◌, ◌≡◌, String, List, [], ◌∷◌, ◌++◌, append-All, WhenSome, arith, All,
}
use rapira.Ast.{
  at, nil, cons, assignment, declaration, procedure_call, conditional, selection, loop, output,
  input, exit_loop, return_from_function, SpannedStatement, Statements, MaybeBody, absent, present,
  Cases, no_cases, case, count_exprs,
}
use rapira.Bytecode.{Label, jmp}
use rapira.Codegen.{BcGen, VariantInfo, Context, Emit, current_loop_end, nearest}
use rapira.Codegen.Expressions.{Code}
use rapira.Codegen.Logic.{Gives, bind-Gives, pure-Gives, expect-Gives, panicked-Gives, this-Gives}
use rapira.Codegen.Shapes.{procedure_of, emit_subject}
use rapira.Codegen.Statements.{
  emit_statement, emit_statements, emit_branches, emit_else, emit_cases, count_statement,
  count_locals, count_else, count_cases, count_bindings,
}
use rapira.Codegen.Slots.{Limits, IsPlain, IsClosed, Fits, limit}
use rapira.Codegen.Slots.Expressions.{emit_exprs-Gives, emit_call-Gives}
use rapira.Codegen.Slots.Loops.{
  expr_lem, label_lem, allocate_lem, emit_loop-Gives, emit_selector-Gives,
}
use rapira.Codegen.Slots.Parts.{
  loosen-Gives, target_name-Gives, emit_assignment-Gives, emit_subject-Gives, emit_inputs-Gives,
  emit_pattern-Gives,
}
use rapira.Codegen.Slots.Shapes.{
  plain-IsClosed, append-IsClosed, if_code-IsClosed, if_else_code-IsClosed, case-IsClosed,
  selection-IsClosed,
}

module _ (top : Limits) (context : Context) (constructors : List (String × VariantInfo)) where
  abbrev Now : List Label → ℕ → BcGen → Type 0
  Now = Fits top context constructors

  -- Within the limits this code is closed, and it allocates as many variables at most.
  abbrev Counted : List Label → ℕ → Emit Code → ℕ → Type 0
  Counted ends n m count = Gives (Now ends n) m (IsClosed top ends) (Now ends (n + count))

  -- A step that allocates nothing is counted as nothing.
  still :
      (ends : List Label) (n : ℕ) (m : Emit Code)
      → Gives (Now ends n) m (IsClosed top ends) (Now ends n)
      → Counted ends n m 0
  still ends n m h = loosen-Gives top context constructors ends n (n + 0) (omega arith) h

  plain_end :
      (ends : List Label) (code code' : Code)
      → All (IsPlain top) code
      → All (IsPlain top) code'
      → IsClosed top ends (code ++ code')
  plain_end ends code code' ps qs =
      plain-IsClosed top ends (code ++ code') (append-All (IsPlain top) code code' ps qs)

  nearest_lem : (ends : List Label) → WhenSome (λ l. IsClosed top ends (jmp l ∷ [])) (nearest ends)
  unfolding nearest IsClosed
  nearest_lem [] = tt
  nearest_lem (l ∷ ends) = λ known es ds. (es.0, tt)

  exit_lem :
      (ends labels : List Label)
      → labels ≡ ends
      → WhenSome (λ l. IsClosed top ends (jmp l ∷ [])) (nearest labels)
  exit_lem ends labels e = rw e (nearest_lem ends)

  mutual
    unfolding emit_statement count_locals

    statement_lem :
        (ends : List Label) (n : ℕ) (s : SpannedStatement)
        → n + count_statement constructors s ≤ limit context top
        → Counted ends n (emit_statement s) (count_statement constructors s)
    statement_lem ends n (at (declaration target value) start end_) h =
        bind-Gives (expr_lem top context constructors ends n value) (λ code ps.
          bind-Gives (target_name-Gives top context constructors ends n target.node) (λ v _.
            loosen-Gives top context constructors ends (suc n) (n + 1) (omega arith) (
              allocate_lem top context constructors ends n v (omega arith)
                (λ slot s. pure-Gives (plain_end ends code _ ps (s, tt))))))
    statement_lem ends n (at (assignment target value) start end_) h = still ends n _ (
        bind-Gives (expr_lem top context constructors ends n value) (λ code ps.
          bind-Gives (emit_assignment-Gives top context constructors ends n target.node)
            (λ rest qs. pure-Gives (plain_end ends code rest ps qs))))
    statement_lem ends n (at (output no_newline values) start end_) h = still ends n _ (
        bind-Gives (emit_exprs-Gives top context constructors ends n values)
          (λ code ps. pure-Gives (plain_end ends code _ ps (tt, tt))))
    statement_lem ends n (at (loop header body) start end_) h =
        emit_loop-Gives top context constructors ends (count_locals constructors body)
          (emit_statements body) (λ l k h'. statements_lem (l ∷ ends) k body h') n header h
    statement_lem ends n (at (return_from_function value) start end_) h = still ends n _ (
        bind-Gives (expr_lem top context constructors ends n value)
          (λ code ps. pure-Gives (plain_end ends code _ ps (tt, tt))))
    statement_lem ends n (at (conditional condition then_body else_body) start end_) h =
        bind-Gives (expr_lem top context constructors ends n condition) (λ code ps.
          label_lem top context constructors ends n "if_begin" (λ begin_label.
            label_lem top context constructors ends n "if_skip" (λ end_label.
              branches_lem ends n code begin_label end_label (count_locals constructors then_body)
                (emit_statements then_body) else_body ps h
                (statements_lem ends n then_body (omega arith)))))
    statement_lem ends n (at (selection expression cases else_body) start end_) h =
        let c = count_cases constructors cases in
        let d = count_else constructors else_body in
        bind-Gives
          (emit_selector-Gives top context constructors ends n start end_ expression (omega arith))
          (λ selector ok. label_lem top context constructors ends (suc n) "match_end" (λ end_label.
            bind-Gives
              (cases_lem ends (suc n) (emit_subject selector.slot expression) end_label cases
                (λ k.
                  emit_subject-Gives top context constructors ends k selector.slot expression
                    ok.slot_fits)
                (omega arith))
              (λ code p. bind-Gives (else_lem ends (suc n + c) else_body (omega arith)) (λ rest q.
                loosen-Gives top context constructors ends (suc n + c + d) (n + (1 + c + d))
                  (omega arith)
                  (bind-Gives (ok.free_lem (suc n + c + d)) (λ _ _. pure-Gives (
                    selection-IsClosed top ends end_label selector.code code rest ok.code_fits p
                      q)))))))
    statement_lem ends n (at (procedure_call procedure arguments) start end_) h = still ends n _ (
        bind-Gives this-Gives (λ gen fits.
          bind-Gives
            (emit_call-Gives top context constructors ends n (procedure_of procedure gen)
              (count_exprs arguments) _ _ (expr_lem top context constructors ends n procedure)
              (emit_exprs-Gives top context constructors ends n arguments))
            (λ code ps. pure-Gives (plain_end ends code _ ps (tt, tt)))))
    statement_lem ends n (at (input text_mode variables) start end_) h =
        bind-Gives (emit_inputs-Gives top context constructors ends n variables h)
          (λ code ps. pure-Gives (plain-IsClosed top ends _ (tt, ps)))
    statement_lem ends n (at exit_loop start end_) h = still ends n _ (
        bind-Gives this-Gives (λ gen fits.
          bind-Gives
            (expect-Gives (current_loop_end gen.env)
              (exit_lem ends gen.env.loop_end_labels fits.same_ends))
            (λ end_label p. pure-Gives p)))
    statement_lem ends n (at _ start end_) h = panicked-Gives

    statements_lem :
        (ends : List Label) (n : ℕ) (body : Statements)
        → n + count_locals constructors body ≤ limit context top
        → Counted ends n (emit_statements body) (count_locals constructors body)
    statements_lem ends n nil h = still ends n _ (pure-Gives (plain-IsClosed top ends [] tt))
    statements_lem ends n (cons s rest) h =
        let c = count_statement constructors s in
        let d = count_locals constructors rest in
        bind-Gives (statement_lem ends n s (omega arith)) (λ code p.
          bind-Gives
            (loosen-Gives top context constructors ends (n + c + d) (n + (c + d)) (omega arith)
              (statements_lem ends (n + c) rest (omega arith)))
            (λ code' q. pure-Gives (append-IsClosed top ends code code' p q)))

    branches_lem :
        (ends : List Label) (n : ℕ) (code : Code) (begin_label end_label : Label) (count : ℕ)
        (then_ : Emit Code) (other : MaybeBody)
        → All (IsPlain top) code
        → n + (count + count_else constructors other) ≤ limit context top
        → Counted ends n then_ count
        → Counted ends n
            (emit_branches code begin_label end_label then_ other)
            (count + count_else constructors other)
    branches_lem ends n code begin_label end_label count then_ absent ps h p =
        loosen-Gives top context constructors ends (n + count) (n + (count + 0)) (omega arith) (
          bind-Gives p (λ code' q.
            pure-Gives (if_code-IsClosed top ends code begin_label end_label code' ps q)))
    branches_lem ends n code begin_label end_label count then_ (present body) ps h p =
        let d = count_locals constructors body in
        label_lem top context constructors ends n "else" (λ else_label. bind-Gives p (λ code' q.
          bind-Gives
            (loosen-Gives top context constructors ends (n + count + d) (n + (count + d))
              (omega arith) (statements_lem ends (n + count) body (omega arith)))
            (λ code'' r. pure-Gives (
              if_else_code-IsClosed top ends code begin_label end_label else_label code' code'' ps q
                r))))

    else_lem :
        (ends : List Label) (n : ℕ) (other : MaybeBody)
        → n + count_else constructors other ≤ limit context top
        → Counted ends n (emit_else other) (count_else constructors other)
    else_lem ends n absent h = still ends n _ (pure-Gives (plain-IsClosed top ends [] tt))
    else_lem ends n (present body) h = statements_lem ends n body h

    cases_lem :
        (ends : List Label) (n : ℕ) (subject : Emit Code) (end_label : Label) (cases : Cases)
        → ((k : ℕ) → Gives (Now ends k) subject (All (IsPlain top)) (Now ends k))
        → n + count_cases constructors cases ≤ limit context top
        → Gives
            (Now ends n)
            (emit_cases subject end_label cases)
            (IsClosed top (end_label ∷ ends))
            (Now ends (n + count_cases constructors cases))
    cases_lem ends n subject end_label no_cases p h =
        loosen-Gives top context constructors ends n (n + 0) (omega arith)
          (pure-Gives (plain-IsClosed top (end_label ∷ ends) [] tt))
    cases_lem ends n subject end_label (case values body rest) p h =
        let b = count_bindings constructors values in
        let c = count_locals constructors body in
        let d = count_cases constructors rest in
        label_lem top context constructors ends n "match_next" (λ next.
          bind-Gives
            (emit_pattern-Gives top context constructors ends subject p n next values (omega arith))
            (λ test t. bind-Gives (statements_lem ends (n + b) body (omega arith)) (λ code q.
              bind-Gives
                (loosen-Gives top context constructors ends (n + b + c + d) (n + (c + b + d))
                  (omega arith) (cases_lem ends (n + b + c) subject end_label rest p (omega arith)))
                (λ code' r.
                  pure-Gives (case-IsClosed top ends end_label next test code code' t q r)))))

  pub emit_statements-Gives :
      (ends : List Label) (n : ℕ) (body : Statements)
      → n + count_locals constructors body ≤ limit context top
      → Gives
          (Now ends n)
          (emit_statements body)
          (IsClosed top ends)
          (Now ends (n + count_locals constructors body))
  emit_statements-Gives ends n body h = statements_lem ends n body h
