-- ===== src/Codegen/Depth/Balanced.antt =====
-- crates/compiler-core/src/codegen/bcgen.rs: the code of an expression leaves one value on the operand
-- stack, and the code of a statement none.
use mathlib.Core.Path.{subst}
use rapira.Prelude.{
  ℕ, true, All, WhenSome, List, ◌+◌, ◌≡◌, refl, String, some, [], ◌∷◌, ◌++◌, arith, length, bit_and,
}
use rapira.Ast.{
  Expr, SpannedExpr, at, nil, cons, assignment, declaration, procedure_call, conditional, selection,
  loop, output, input, exit_loop, return_from_function, SpannedStatement, Statements, MaybeBody,
  absent, present, Cases, no_cases, case, count_exprs, LoopHeader, while, repeat, for,
}
use rapira.Bytecode.{Label, Instruction, jmp, store, call_builtin, lread, lwrite_newline_mask}
use rapira.Codegen.{BcGen, Slot, Emit, ◌>>=◌, current_loop_end, nearest, fresh_label}
use rapira.Codegen.Depth.{
  IsEntry, effect, JumpsAt, Runs, Adds, Keeps, LoopsEnter, Enters, IsSound, IsSoundHeader,
  IsSoundStatement, IsSoundBody, IsSoundElse, AreSoundCases,
}
use rapira.Codegen.Depth.Expressions.{
  Runs-append, emit_expr-Adds, emit_exprs-Adds, emit_call-Adds, procedure_of-CalleeFits,
}
use rapira.Codegen.Depth.Parts.{
  emit_maybe-Adds, target_name-Agrees, Consumes, emit_assignment-Consumes, Takes, emit_inputs-Takes,
  emit_subject-Adds, emit_pattern-Keeps,
}
use rapira.Codegen.Depth.Shapes.{
  Adds-Runs, repeat_code-Keeps, while_code-Keeps, if_code-Keeps, if_else_code-Keeps, for_code-Keeps,
  case-Keeps, selection-Keeps,
}
use rapira.Codegen.Depth.Steps.{
  begin_label-Agrees, differs, allocate_variable-Agrees, deallocate_variable-Agrees,
  fresh_label-Agrees, push_loop_end-Agrees, pop_loop_end-Agrees,
}
use rapira.Codegen.Expressions.{Code}
use rapira.Codegen.Logic.{
  Gives, Post, bind-Gives, pure-Gives, expect-Gives, panicked-Gives, this-Gives,
}
use rapira.Codegen.Shapes.{procedure_of, emit_subject}
use rapira.Codegen.Statements.{
  Selector, emit_stored, emit_selector, emit_loop, emit_statement, emit_statements, emit_branches,
  emit_else, emit_cases,
}

module _ (fields : ℕ → ℕ) where
  abbrev S : BcGen → Type 0
  S = LoopsEnter fields

  abbrev Kept : Emit Code → Type 0
  Kept m = Gives S m (Keeps fields) S

  label_lem :
      {B : Type 0} {G : B → Type 0} {f : Label → Emit B} (prefix : String)
      → differs "if_begin" prefix ≡ true
      → ((l : Label) → IsEntry l.name → Gives S (f l) G S)
      → Gives S (fresh_label prefix >>= f) G S
  label_lem prefix h k = bind-Gives (fresh_label-Agrees fields prefix h) k

  -- The code of a value and the instruction that takes it
  stored_Keeps :
      (code : Code) (slot : Slot)
      → Adds fields 1 code
      → Keeps fields (code ++ store slot.1 slot.0 ∷ [])
  unfolding Keeps
  stored_Keeps code slot p base =
      Runs-append fields base code _ base (base + 1) base (Adds-Runs fields base base code p)
        (grind arith)

  emit_loop-Keeps :
      (header : LoopHeader) (body : Emit Code)
      → IsSoundHeader header
      → Kept body
      → Kept (emit_loop header body)
  unfolding emit_loop
  emit_loop-Keeps (repeat e) body h k = bind-Gives (allocate_variable-Agrees fields _) (λ slot _.
      bind-Gives (emit_expr-Adds fields Enters e h) (λ code p.
        label_lem "repeat_loop" refl (λ start hl. label_lem "repeat_end" refl (λ end_label he.
          bind-Gives (push_loop_end-Agrees fields end_label he) (λ _ _. bind-Gives k (λ code' q.
            bind-Gives (deallocate_variable-Agrees fields _) (λ _ _.
              bind-Gives (pop_loop_end-Agrees fields) (λ _ _.
                pure-Gives
                  (repeat_code-Keeps fields slot code start end_label code' hl he p q)))))))))
  emit_loop-Keeps (for v from to step) body (h, (h', h'')) k =
      bind-Gives (emit_maybe-Adds fields from h) (λ code₁ p.
        bind-Gives (emit_maybe-Adds fields to h') (λ code₂ q.
          bind-Gives (emit_maybe-Adds fields step h'') (λ code₃ r.
            bind-Gives (allocate_variable-Agrees fields v) (λ slot _.
              label_lem "for_loop" refl (λ start hl. label_lem "for_end" refl (λ end_label he.
                bind-Gives (push_loop_end-Agrees fields end_label he) (λ _ _.
                  bind-Gives k (λ code t. bind-Gives (deallocate_variable-Agrees fields v) (λ _ _.
                    bind-Gives (pop_loop_end-Agrees fields) (λ _ _. pure-Gives (
                      for_code-Keeps fields slot code₁ code₂ code₃ start end_label code hl he p q r
                        t)))))))))))
  emit_loop-Keeps (while e) body h k = label_lem "while_loop" refl (λ start hl.
      label_lem "while_end" refl (λ end_label he.
        bind-Gives (emit_expr-Adds fields Enters e h) (λ code p.
          bind-Gives (push_loop_end-Agrees fields end_label he) (λ _ _. bind-Gives k (λ code' q.
            bind-Gives (pop_loop_end-Agrees fields) (λ _ _.
              pure-Gives (while_code-Keeps fields start code end_label code' hl he p q)))))))

  -- The selector's code keeps the depth, and freeing it keeps the constructors.
  record IsKept (selector : Selector) : Type 0 where
    pub code_keeps : Keeps fields selector.code
    pub free_agrees : Gives S selector.free (λ _. Unit) S

  emit_stored-IsKept :
      (v : String) (e : SpannedExpr) → IsSound e → Gives S (emit_stored v e) IsKept S
  unfolding emit_stored
  emit_stored-IsKept v e h = bind-Gives (allocate_variable-Agrees fields v) (λ slot _.
      bind-Gives (emit_expr-Adds fields Enters e h) (λ code p. pure-Gives (record {
        code_keeps = stored_Keeps code slot p;
        free_agrees = deallocate_variable-Agrees fields v;
      })))

  Keeps-nil : Keeps fields []
  unfolding Keeps
  Keeps-nil base = refl

  emit_selector-IsKept :
      (start end_ : ℕ) (e : SpannedExpr) → IsSound e → Gives S (emit_selector e start end_) IsKept S
  unfolding emit_selector
  emit_selector-IsKept start end_ (at (Expr.name v) s e) h =
      pure-Gives (record { code_keeps = Keeps-nil; free_agrees = pure-Gives tt })
  emit_selector-IsKept start end_ e h = emit_stored-IsKept _ e h

  Keeps-append :
      (code code' : Code) → Keeps fields code → Keeps fields code' → Keeps fields (code ++ code')
  unfolding Keeps
  Keeps-append code code' p q base =
      Runs-append fields base code code' base base base (p base) (q base)

  assigned_Keeps :
      (code rest : Code) → Adds fields 1 code → Consumes fields rest → Keeps fields (code ++ rest)
  unfolding Keeps Consumes
  assigned_Keeps code rest p q base =
      Runs-append fields base code rest base (base + 1) base (Adds-Runs fields base base code p)
        (q base)

  last_Keeps :
      (n : ℕ) (code : Code) (i : Instruction)
      → Adds fields n code
      → (effect fields i).0 ≡ n
      → (effect fields i).1 ≡ 0
      → ((base : ℕ) → JumpsAt base i (base + n))
      → Keeps fields (code ++ i ∷ [])
  unfolding Keeps Adds
  last_Keeps n code i p h h' j base =
      Runs-append fields base code _ base (base + n) base (p base base (base + n) refl)
        (omega (arith, h), (j base, omega (arith, h, h')))

  nearest-IsEntry :
      (labels : List Label)
      → All (λ l. IsEntry l.name) labels
      → WhenSome (λ (l : Label). IsEntry l.name) (nearest labels)
  unfolding nearest
  nearest-IsEntry [] h = tt
  nearest-IsEntry (l ∷ labels) h = h.0

  nearest_Keeps : (l : Label) → IsEntry l.name → Keeps fields (jmp l ∷ [])
  unfolding Keeps
  nearest_Keeps l h base = grind arith

  input_Keeps :
      (n count : ℕ) (code : Code)
      → bit_and n lwrite_newline_mask ≡ count
      → Takes fields count code
      → Keeps fields (call_builtin lread n ∷ code)
  unfolding Keeps Takes
  input_Keeps n count code h p base = (omega arith, (tt, p base _ (omega (arith, h))))

  mutual
    unfolding emit_statement IsSoundStatement

    statement_Keeps : (s : SpannedStatement) → IsSoundStatement s → Kept (emit_statement s)
    statement_Keeps (at (declaration target value) start end_) h =
        bind-Gives (emit_expr-Adds fields Enters value h) (λ code p.
          bind-Gives (target_name-Agrees fields target.node) (λ v _.
            bind-Gives (allocate_variable-Agrees fields v)
              (λ slot _. pure-Gives (stored_Keeps code slot p))))
    statement_Keeps (at (assignment target value) start end_) (h, h') =
        bind-Gives (emit_expr-Adds fields Enters value h) (λ code p.
          bind-Gives (emit_assignment-Consumes fields target.node h')
            (λ rest q. pure-Gives (assigned_Keeps code rest p q)))
    statement_Keeps (at (output no_newline values) start end_) (h, hs) =
        bind-Gives (emit_exprs-Adds fields Enters values hs)
          (λ code p. pure-Gives (last_Keeps (count_exprs values) code _ p h refl (λ base. tt)))
    statement_Keeps (at (loop header body) start end_) (h, hs) =
        emit_loop-Keeps header (emit_statements body) h (statements_Keeps body hs)
    statement_Keeps (at (return_from_function value) start end_) h =
        bind-Gives (emit_expr-Adds fields Enters value h)
          (λ code p. pure-Gives (last_Keeps 1 code _ p refl refl (λ base. tt)))
    statement_Keeps (at (conditional condition then_body else_body) start end_) (h, (hs, h')) =
        bind-Gives (emit_expr-Adds fields Enters condition h) (λ code p.
          bind-Gives (begin_label-Agrees fields) (λ begin_label hb.
            label_lem "if_skip" refl (λ end_label he.
              branches_Keeps code begin_label end_label hb he (emit_statements then_body) else_body
                p (statements_Keeps then_body hs) h')))
    statement_Keeps (at (selection expression cases else_body) start end_) (h, (hs, h')) =
        bind-Gives (emit_selector-IsKept start end_ expression h) (λ selector k.
          label_lem "match_end" refl (λ end_label he.
            bind-Gives
              (cases_Keeps (emit_subject selector.slot expression) end_label he cases hs
                (emit_subject-Adds fields selector.slot expression h))
              (λ code p. bind-Gives (else_Keeps else_body h') (λ rest q.
                bind-Gives k.free_agrees (λ _ _. pure-Gives (
                  selection-Keeps fields selector.code code rest end_label he k.code_keeps p q))))))
    statement_Keeps (at (procedure_call procedure arguments) start end_) ((h, b), (h', hs)) =
        bind-Gives {F = S} this-Gives (λ gen s.
          bind-Gives
            (emit_call-Adds fields Enters (procedure_of procedure gen) (count_exprs arguments) _ _ h
              (procedure_of-CalleeFits fields Enters procedure gen (count_exprs arguments) b)
              (emit_expr-Adds fields Enters procedure h')
              (emit_exprs-Adds fields Enters arguments hs))
            (λ code p. pure-Gives (last_Keeps 1 code _ p refl refl (λ base. tt))))
    statement_Keeps (at (input text_mode variables) start end_) h =
        bind-Gives (emit_inputs-Takes fields variables)
          (λ code p. pure-Gives (input_Keeps _ (length variables) code h p))
    statement_Keeps (at exit_loop start end_) h = bind-Gives {F = S} this-Gives (λ gen s.
        bind-Gives
          (expect-Gives (current_loop_end gen.env) (nearest-IsEntry gen.env.loop_end_labels s.1))
          (λ l h. pure-Gives (nearest_Keeps l h)))
    statement_Keeps (at _ start end_) h = panicked-Gives

    statements_Keeps : (body : Statements) → IsSoundBody body → Kept (emit_statements body)
    statements_Keeps nil h = pure-Gives Keeps-nil
    statements_Keeps (cons s rest) (h, hs) = bind-Gives (statement_Keeps s h) (λ code p.
        bind-Gives (statements_Keeps rest hs) (λ code' q. pure-Gives (Keeps-append code code' p q)))

    branches_Keeps :
        (code : Code) (begin_label end_label : Label)
        → ¬ IsEntry begin_label.name
        → IsEntry end_label.name
        → (then_ : Emit Code) (other : MaybeBody) → Adds fields 1 code
        → Kept then_
        → IsSoundElse other
        → Kept (emit_branches code begin_label end_label then_ other)
    branches_Keeps code begin_label end_label hb he then_ absent p k h =
        bind-Gives k
          (λ code' q. pure-Gives (if_code-Keeps fields code begin_label end_label code' hb he p q))
    branches_Keeps code begin_label end_label hb he then_ (present body) p k h =
        label_lem "else" refl (λ else_label ho. bind-Gives k (λ code' q.
          bind-Gives (statements_Keeps body h) (λ code'' r. pure-Gives (
            if_else_code-Keeps fields code begin_label end_label else_label code' code'' hb he ho p
              q r))))

    else_Keeps : (other : MaybeBody) → IsSoundElse other → Kept (emit_else other)
    else_Keeps absent h = pure-Gives Keeps-nil
    else_Keeps (present body) h = statements_Keeps body h

    cases_Keeps :
        (subject : Emit Code) (end_label : Label)
        → IsEntry end_label.name
        → (cases : Cases) → AreSoundCases cases
        → Gives S subject (Adds fields 1) S
        → Kept (emit_cases subject end_label cases)
    cases_Keeps subject end_label he no_cases h p = pure-Gives Keeps-nil
    cases_Keeps subject end_label he (case values body rest) (h, (hs, h')) p =
        label_lem "match_next" refl (λ next hn.
          bind-Gives (emit_pattern-Keeps fields subject p next values hn h) (λ test q.
            bind-Gives (statements_Keeps body hs) (λ code r.
              bind-Gives (cases_Keeps subject end_label he rest h' p) (λ code' t.
                pure-Gives (case-Keeps fields test code code' end_label next he hn q r t)))))

-- Read once from its start to its end, the code of sound statements never pops a value that is not
-- there, ends at the depth at which it began, and has that depth at each jump and at each label that is
-- jumped to.
pub emit_statements-Runs :
    (fields : ℕ → ℕ) (body : Statements) (gen gen' : BcGen) (code : Code)
    → IsSoundBody body
    → LoopsEnter fields gen
    → emit_statements body gen ≡ some (code, gen')
    → ((base : ℕ) → Runs fields base code base base) × LoopsEnter fields gen'
unfolding Keeps
emit_statements-Runs fields body gen gen' code h s eq =
    subst (Post (Keeps fields) (LoopsEnter fields)) eq ((statements_Keeps fields body h).from gen s)
