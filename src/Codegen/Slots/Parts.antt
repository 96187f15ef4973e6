-- ===== src/Codegen/Slots/Parts.antt =====
-- crates/compiler-core/src/codegen/bcgen.rs: assignments, inputs and patterns keep to the limits. What
-- they allocate is counted by the names that they hold.
use mathlib.Core.Path.{subst⁻¹}
use rapira.Prelude.{
  ℕ, suc, ◌+◌, ◌≤◌, ◌<◌, String, Option, none, some, List, [], ◌∷◌, ◌++◌, All, append-All, WhenSome,
  lookup, length, arith,
}
use rapira.Ast.{
  Spannable, LValue, SpannedExpr, at, MaybeExpr, absent, present, Exprs, nil, cons, count_exprs,
  name,
}
use rapira.Bytecode.{Label}
use rapira.Codegen.{BcGen, VariantInfo, Slot, Context, Emit, expect, find_variable}
use rapira.Codegen.Expressions.{Code}
use rapira.Codegen.Logic.{
  Gives, bind-Gives, pure-Gives, expect-Gives, panicked-Gives, this-Gives, map-Gives,
}
use rapira.Codegen.Shapes.{
  emit_maybe, target_name, target_slot, emit_assignment, slot_or_new, emit_inputs,
  constructor_pattern, emit_subject, emit_bindings, emit_test, emit_pattern,
}
use rapira.Codegen.Statements.{bound_count, count_bindings}
use rapira.Codegen.Slots.{Limits, SlotFits, IsPlain, IsPlaced, IsTest, Fits, limit}
use rapira.Codegen.Slots.Shapes.{plain-IsPlaced}
use rapira.Codegen.Slots.Expressions.{emit_expr-Gives, emit_bound-Gives}
use rapira.Codegen.Slots.Steps.{allocate_variable-Gives, find_variable-WhenSome, Fits-mono}

module _ (top : Limits) (context : Context) (constructors : List (String × VariantInfo))
    (ends : List Label) where
  abbrev After : ℕ → BcGen → Type 0
  After = Fits top context constructors ends

  abbrev Plain : Code → Type 0
  Plain = All (IsPlain top)

  Plain-append : (code code' : Code) → Plain code → Plain code' → Plain (code ++ code')
  Plain-append = append-All (IsPlain top)

  -- What fits after fewer allocations fits after more.
  pub loosen-Gives :
      {A : Type 0} {F : A → Type 0} {S : BcGen → Type 0} {m : Emit A} (k l : ℕ)
      → k ≤ l
      → Gives S m F (After k)
      → Gives S m F (After l)
  loosen-Gives k l h = map-Gives (λ a p. p) (Fits-mono top context constructors ends k l h)

  module _ (n : ℕ) where
    pub emit_maybe-Gives :
        (e : MaybeExpr) → Gives (After n) (emit_maybe e) (WhenSome Plain) (After n)
    unfolding emit_maybe
    emit_maybe-Gives absent = pure-Gives tt
    emit_maybe-Gives (present e) =
        bind-Gives (emit_expr-Gives top context constructors ends n e) (λ code ps. pure-Gives ps)

    pub target_name-Gives :
        (target : LValue) → Gives (After n) (target_name target) (λ _. Unit) (After n)
    unfolding target_name
    target_name-Gives (LValue.name v) = pure-Gives tt
    target_name-Gives (LValue.subscript collection index) = panicked-Gives
    target_name-Gives (LValue.slice collection from to) = panicked-Gives
    target_name-Gives (LValue.field left f) = panicked-Gives

    found-Gives :
        (v : String) (gen : BcGen)
        → After n gen
        → Gives (After n) (expect (find_variable v gen.env)) (SlotFits top) (After n)
    found-Gives v gen fits =
        expect-Gives _ (find_variable-WhenSome top constructors ends n context v gen fits)

    target_slot-Gives : (e : SpannedExpr) → Gives (After n) (target_slot e) (SlotFits top) (After n)
    unfolding target_slot
    target_slot-Gives (at (name v) start end) = bind-Gives this-Gives (found-Gives v)
    target_slot-Gives (at _ start end) = panicked-Gives

    pub emit_assignment-Gives :
        (target : LValue) → Gives (After n) (emit_assignment target) Plain (After n)
    unfolding emit_assignment
    emit_assignment-Gives (LValue.name v) =
        bind-Gives this-Gives
          (λ gen fits. bind-Gives (found-Gives v gen fits) (λ slot s. pure-Gives (s, tt)))
    emit_assignment-Gives (LValue.subscript collection index) =
        bind-Gives (target_slot-Gives collection) (λ slot s.
          bind-Gives (emit_expr-Gives top context constructors ends n index)
            (λ code ps. pure-Gives (Plain-append code _ ps (s, (tt, (tt, tt))))))
    emit_assignment-Gives (LValue.slice collection from to) =
        bind-Gives (target_slot-Gives collection) (λ slot s.
          bind-Gives (emit_bound-Gives top context constructors ends n from 1) (λ lower ps.
            bind-Gives (emit_bound-Gives top context constructors ends n to 2) (λ upper qs.
              pure-Gives (
                s,
                Plain-append (lower.0 ++ upper.0) _ (Plain-append lower.0 upper.0 ps qs)
                    (tt, (tt, tt)),
              ))))
    emit_assignment-Gives (LValue.field left f) = bind-Gives this-Gives (λ gen fits.
        bind-Gives {F = λ _. Unit}
          (expect-Gives (lookup f gen.field_indices) (any (lookup f gen.field_indices)))
          (λ index _.
            bind-Gives (emit_expr-Gives top context constructors ends n left)
              (λ code ps. pure-Gives (Plain-append code _ ps (tt, tt)))))
      where
        any : (o : Option ℕ) → WhenSome (λ _. Unit) o
        any none = tt
        any (some index) = tt

    pub emit_subject-Gives :
        (slot : Option Slot) (e : SpannedExpr)
        → WhenSome (SlotFits top) slot
        → Gives (After n) (emit_subject slot e) Plain (After n)
    unfolding emit_subject
    emit_subject-Gives (some slot) e s = pure-Gives (s, tt)
    emit_subject-Gives none e s = emit_expr-Gives top context constructors ends n e

    slot_or_new-Gives :
        (v : String) (found : Option Slot)
        → n < limit context top
        → WhenSome (SlotFits top) found
        → Gives (After n) (slot_or_new v found) (SlotFits top) (After (suc n))
    unfolding slot_or_new
    slot_or_new-Gives v (some slot) h s = loosen-Gives n (suc n) (omega arith) (pure-Gives s)
    slot_or_new-Gives v none h s = allocate_variable-Gives top constructors ends n context v h

  pub emit_inputs-Gives :
      (n : ℕ) (variables : List (Spannable LValue))
      → n + length variables ≤ limit context top
      → Gives (After n) (emit_inputs variables) Plain (After (n + length variables))
  unfolding emit_inputs
  emit_inputs-Gives n [] h = loosen-Gives n (n + 0) (omega arith) (pure-Gives tt)
  emit_inputs-Gives n (variable ∷ variables) h =
      bind-Gives (target_name-Gives n variable.node) (λ v _. bind-Gives this-Gives (λ gen fits.
        bind-Gives
          (slot_or_new-Gives n v _ (omega arith)
            (find_variable-WhenSome top constructors ends n context v gen fits))
          (λ slot s.
            bind-Gives
              (loosen-Gives (suc n + length variables) (n + suc (length variables)) (omega arith)
                (emit_inputs-Gives (suc n) variables (omega arith)))
              (λ code ps. pure-Gives (s, ps)))))

  module _ (subject : Emit Code)
      (subject_lem : (k : ℕ) → Gives (After k) subject Plain (After k)) where
    emit_bindings-Gives :
        (n index : ℕ) (bindings : Exprs)
        → n + count_exprs bindings ≤ limit context top
        → Gives
            (After n)
            (emit_bindings subject index bindings)
            Plain
            (After (n + count_exprs bindings))
    unfolding emit_bindings count_exprs
    emit_bindings-Gives n index nil h = loosen-Gives n (n + 0) (omega arith) (pure-Gives tt)
    emit_bindings-Gives n index (cons (at (name v) start end) bindings) h =
        bind-Gives (subject_lem n) (λ code ps.
          bind-Gives (allocate_variable-Gives top constructors ends n context v (omega arith))
            (λ slot s.
              bind-Gives
                (loosen-Gives (suc n + count_exprs bindings) (n + suc (count_exprs bindings))
                  (omega arith) (emit_bindings-Gives (suc n) (suc index) bindings (omega arith)))
                (λ rest qs.
                  pure-Gives
                    (Plain-append (code ++ _) rest (Plain-append code _ ps (tt, (s, tt))) qs))))
    emit_bindings-Gives n index (cons (at _ start end) bindings) h = panicked-Gives

    emit_test-Gives :
        (n : ℕ) (next : Label) (e : SpannedExpr) (o : Option (VariantInfo × Exprs))
        → n + bound_count o ≤ limit context top
        → Gives (After n) (emit_test subject next e o) (IsTest top next) (After (n + bound_count o))
    unfolding emit_test
    emit_test-Gives n next e (some (info, bindings)) h = bind-Gives (subject_lem n) (λ code ps.
        bind-Gives (emit_bindings-Gives n 0 bindings h) (λ bound qs. pure-Gives (λ known k.
          append-All (IsPlaced top known) _ bound
            (append-All (IsPlaced top known) code _ (plain-IsPlaced top known code ps)
              (tt, (k, tt)))
            (plain-IsPlaced top known bound qs))))
    emit_test-Gives n next e none h = loosen-Gives n (n + 0) (omega arith) (
        bind-Gives (subject_lem n) (λ code ps.
          bind-Gives (emit_expr-Gives top context constructors ends n e) (λ value qs.
            pure-Gives (λ known k.
              append-All (IsPlaced top known) (code ++ value) _
                (append-All (IsPlaced top known) code value (plain-IsPlaced top known code ps)
                  (plain-IsPlaced top known value qs))
                (tt, (k, tt))))))

    pub emit_pattern-Gives :
        (n : ℕ) (next : Label) (values : Exprs)
        → n + count_bindings constructors values ≤ limit context top
        → Gives
            (After n)
            (emit_pattern subject next values)
            (IsTest top next)
            (After (n + count_bindings constructors values))
    unfolding emit_pattern count_bindings
    emit_pattern-Gives n next nil h = panicked-Gives
    emit_pattern-Gives n next (cons e es) h =
        let bound = bound_count (constructor_pattern constructors e) in
        bind-Gives {F = After n} this-Gives (λ gen fits.
          subst⁻¹
            (λ cs.
              Gives (After n) (emit_test subject next e (constructor_pattern cs e))
                (IsTest top next) (After (n + (bound + count_bindings constructors es))))
            fits.same_constructors
            (loosen-Gives (n + bound) (n + (bound + count_bindings constructors es)) (omega arith)
              (emit_test-Gives n next e (constructor_pattern constructors e) (omega arith))))
