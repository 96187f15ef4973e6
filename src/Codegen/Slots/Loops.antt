-- ===== src/Codegen/Slots/Loops.antt =====
-- crates/compiler-core/src/codegen/bcgen.rs: a loop is closed where its body is, and a selector
-- keeps to the limits.
use rapira.Prelude.{ℕ, suc, ◌+◌, ◌≤◌, ◌<◌, String, List, ◌∷◌, All, append-All, WhenSome, arith}
use rapira.Ast.{Expr, SpannedExpr, at, LoopHeader, while, repeat, for}
use rapira.Bytecode.{Label}
use rapira.Codegen.{BcGen, VariantInfo, Slot, Context, Emit, ◌>>=◌, fresh_label, allocate_variable}
use rapira.Codegen.Expressions.{Code, emit_expr}
use rapira.Codegen.Logic.{Gives, bind-Gives, pure-Gives}
use rapira.Codegen.Statements.{Selector, emit_stored, emit_selector, emit_loop, header_locals}
use rapira.Codegen.Slots.{Limits, SlotFits, IsPlain, IsClosed, Fits, limit}
use rapira.Codegen.Slots.Expressions.{emit_expr-Gives}
use rapira.Codegen.Slots.Parts.{loosen-Gives, emit_maybe-Gives}
use rapira.Codegen.Slots.Shapes.{repeat_code-IsClosed, while_code-IsClosed, for_code-IsClosed}
use rapira.Codegen.Slots.Steps.{
  allocate_variable-Gives, deallocate_variable-Gives, fresh_label-Gives, push_loop_end-Gives,
  pop_loop_end-Gives,
}

module _ (top : Limits) (context : Context) (constructors : List (String × VariantInfo)) where
  abbrev pub After : List Label → ℕ → BcGen → Type 0
  After = Fits top context constructors

  abbrev pub Plain : Code → Type 0
  Plain = All (IsPlain top)

  module _ (ends : List Label) (n : ℕ) where
    pub expr_lem : (e : SpannedExpr) → Gives (After ends n) (emit_expr e) Plain (After ends n)
    expr_lem = emit_expr-Gives top context constructors ends n

    pub label_lem :
        {B : Type 0} {G : B → Type 0} {S : BcGen → Type 0} {f : Label → Emit B} (prefix : String)
        → ((l : Label) → Gives (After ends n) (f l) G S)
        → Gives (After ends n) (fresh_label prefix >>= f) G S
    label_lem prefix k =
        bind-Gives (fresh_label-Gives top constructors ends n context prefix) (λ l _. k l)

    pub allocate_lem :
        {B : Type 0} {G : B → Type 0} {S : BcGen → Type 0} {f : Slot → Emit B} (v : String)
        → n < limit context top
        → ((slot : Slot) → SlotFits top slot → Gives (After ends (suc n)) (f slot) G S)
        → Gives (After ends n) (allocate_variable v >>= f) G S
    allocate_lem v h k = bind-Gives (allocate_variable-Gives top constructors ends n context v h) k

  module _ (ends : List Label) (count : ℕ) (body : Emit Code)
      (body_lem : (l : Label) (k : ℕ)
        → k + count ≤ limit context top
        → Gives
            (After (l ∷ ends) k)
            body
            (IsClosed top (l ∷ ends))
            (After (l ∷ ends) (k + count))) where
    pub emit_loop-Gives :
        (n : ℕ) (header : LoopHeader)
        → n + (header_locals header + count) ≤ limit context top
        → Gives
            (After ends n)
            (emit_loop header body)
            (IsClosed top ends)
            (After ends (n + (header_locals header + count)))
    unfolding emit_loop
    emit_loop-Gives n (repeat e) h =
        loosen-Gives top context constructors ends (suc n + count) (n + (1 + count)) (omega arith) (
          allocate_lem ends n _ (omega arith) (λ slot s.
            bind-Gives (expr_lem ends (suc n) e) (λ code ps.
              label_lem ends (suc n) "repeat_loop" (λ start.
                label_lem ends (suc n) "repeat_end" (λ end.
                  bind-Gives (push_loop_end-Gives top constructors ends (suc n) context end) (λ _ _.
                    bind-Gives (body_lem end (suc n) (omega arith)) (λ code' q.
                      bind-Gives
                        (deallocate_variable-Gives top constructors (end ∷ ends) (suc n + count)
                          context _)
                        (λ _ _.
                          bind-Gives
                            (pop_loop_end-Gives top constructors ends (suc n + count) context end)
                            (λ _ _. pure-Gives (
                              repeat_code-IsClosed top ends slot code start end code' s ps
                                q))))))))))
    emit_loop-Gives n (for v from to step) h =
        loosen-Gives top context constructors ends (suc n + count) (n + (1 + count)) (omega arith) (
          bind-Gives (emit_maybe-Gives top context constructors ends n from) (λ code₁ ps.
            bind-Gives (emit_maybe-Gives top context constructors ends n to) (λ code₂ qs.
              bind-Gives (emit_maybe-Gives top context constructors ends n step) (λ code₃ rs.
                allocate_lem ends n v (omega arith) (λ slot s.
                  label_lem ends (suc n) "for_loop" (λ start.
                    label_lem ends (suc n) "for_end" (λ end.
                      bind-Gives (push_loop_end-Gives top constructors ends (suc n) context end)
                        (λ _ _. bind-Gives (body_lem end (suc n) (omega arith)) (λ code q.
                          bind-Gives
                            (deallocate_variable-Gives top constructors (end ∷ ends) (suc n + count)
                              context v)
                            (λ _ _.
                              bind-Gives
                                (pop_loop_end-Gives top constructors ends (suc n + count) context
                                  end)
                                (λ _ _. pure-Gives (
                                  for_code-IsClosed top ends slot code₁ code₂ code₃ start end code s
                                    ps qs rs q))))))))))))
    emit_loop-Gives n (while e) h =
        loosen-Gives top context constructors ends (n + count) (n + (0 + count)) (omega arith) (
          label_lem ends n "while_loop" (λ start. label_lem ends n "while_end" (λ end.
            bind-Gives (expr_lem ends n e) (λ code ps.
              bind-Gives (push_loop_end-Gives top constructors ends n context end) (λ _ _.
                bind-Gives (body_lem end n (omega arith)) (λ code' q.
                  bind-Gives (pop_loop_end-Gives top constructors ends (n + count) context end)
                    (λ _ _.
                      pure-Gives (while_code-IsClosed top ends start code end code' ps q))))))))

  -- The selector's code and slot are in the frame, and freeing it allocates nothing.
  pub record IsSelector (ends : List Label) (selector : Selector) : Type 0 where
    pub code_fits : Plain selector.code
    pub slot_fits : WhenSome (SlotFits top) selector.slot
    pub free_lem : (k : ℕ) → Gives (After ends k) selector.free (λ _. Unit) (After ends k)

  stored-IsSelector :
      (ends : List Label) (n : ℕ) (v : String) (e : SpannedExpr)
      → suc n ≤ limit context top
      → Gives (After ends n) (emit_stored v e) (IsSelector ends) (After ends (suc n))
  unfolding emit_stored
  stored-IsSelector ends n v e h = allocate_lem ends n v (omega arith) (λ slot s.
      bind-Gives (expr_lem ends (suc n) e) (λ code ps. pure-Gives (record {
        code_fits = append-All (IsPlain top) code _ ps (s, tt);
        slot_fits = s;
        free_lem = λ k. deallocate_variable-Gives top constructors ends k context v;
      })))

  pub emit_selector-Gives :
      (ends : List Label) (n start end_ : ℕ) (e : SpannedExpr)
      → suc n ≤ limit context top
      → Gives (After ends n) (emit_selector e start end_) (IsSelector ends) (After ends (suc n))
  unfolding emit_selector
  emit_selector-Gives ends n start end_ (at (Expr.name v) s e) h =
      loosen-Gives top context constructors ends n (suc n) (omega arith)
        (pure-Gives (record { code_fits = tt; slot_fits = tt; free_lem = λ k. pure-Gives tt }))
  emit_selector-Gives ends n start end_ e h = stored-IsSelector ends n _ e h
