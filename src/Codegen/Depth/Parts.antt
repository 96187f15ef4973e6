-- ===== src/Codegen/Depth/Parts.antt =====
-- crates/compiler-core/src/codegen/bcgen.rs: assignments, inputs and patterns keep the depth.
use rapira.Prelude.{
  ℕ, suc, ◌+◌, ◌≡◌, refl, String, Option, none, some, List, [], ◌∷◌, ◌++◌, WhenSome, arith, length,
  lookup,
}
use rapira.Ast.{
  Spannable, LValue, SpannedExpr, at, MaybeExpr, absent, present, Exprs, nil, cons, name,
}
use rapira.Bytecode.{Label, load, sts, slice}
use rapira.Codegen.{BcGen, VariantInfo, Slot, Emit, expect, find_variable}
use rapira.Codegen.Depth.{
  IsEntry, Runs, Adds, Keeps, LoopsEnter, Enters, IsSound, AreSound, IsSoundBound, IsSoundTarget,
}
use rapira.Codegen.Depth.Expressions.{
  Runs-append, emit_expr-Adds, emit_bound-IsBound, IsBound, slice_effect,
}
use rapira.Codegen.Depth.Shapes.{Adds-Runs, Adds-from}
use rapira.Codegen.Depth.Steps.{allocate_variable-Agrees}
use rapira.Codegen.Expressions.{Code}
use rapira.Codegen.Logic.{Gives, bind-Gives, pure-Gives, expect-Gives, panicked-Gives, this-Gives}
use rapira.Codegen.Shapes.{
  emit_maybe, target_name, target_slot, emit_assignment, slot_or_new, emit_inputs,
  constructor_pattern, emit_subject, emit_bindings, emit_test, emit_pattern,
}

module _ (fields : ℕ → ℕ) where
  abbrev S : BcGen → Type 0
  S = LoopsEnter fields

  pub any : {A : Type 0} (o : Option A) → WhenSome (λ _. Unit) o
  any none = tt
  any (some a) = tt

  expect_any : {A : Type 0} (o : Option A) → Gives S (expect o) (λ _. Unit) S
  expect_any o = expect-Gives o (any o)

  pub emit_maybe-Adds :
      (e : MaybeExpr) → IsSoundBound e → Gives S (emit_maybe e) (WhenSome (Adds fields 1)) S
  unfolding emit_maybe IsSound
  emit_maybe-Adds absent h = pure-Gives tt
  emit_maybe-Adds (present e) h =
      bind-Gives (emit_expr-Adds fields Enters e h) (λ code p. pure-Gives p)

  pub target_name-Agrees : (target : LValue) → Gives S (target_name target) (λ _. Unit) S
  unfolding target_name
  target_name-Agrees (LValue.name v) = pure-Gives tt
  target_name-Agrees (LValue.subscript collection index) = panicked-Gives
  target_name-Agrees (LValue.slice collection from to) = panicked-Gives
  target_name-Agrees (LValue.field left f) = panicked-Gives

  target_slot-Agrees : (e : SpannedExpr) → Gives S (target_slot e) (λ _. Unit) S
  unfolding target_slot
  target_slot-Agrees (at (name v) start end) =
      bind-Gives {F = S} this-Gives (λ gen s. expect_any (find_variable v gen.env))
  target_slot-Agrees (at _ start end) = panicked-Gives

  -- The code behind the value of an assignment takes this value from the stack.
  unfoldable pub Consumes : Code → Type 0
  Consumes code = (base : ℕ) → Runs fields base code (base + 1) base

  slice_assignment-Consumes :
      (slot : Slot) (lower upper : Code × ℕ)
      → IsBound fields Enters 1 lower
      → IsBound fields Enters 2 upper
      → Consumes
          ((load slot.1 slot.0 ∷ []) ++ lower.0 ++ upper.0 ++ slice (lower.1 + upper.1) ∷ sts ∷ [])
  unfolding Consumes Adds
  slice_assignment-Consumes slot lower upper b c base =
      let k = b.present_count in
      let l = c.present_count in
      let pops = slice_effect fields Enters lower upper b c in
      Runs-append fields base ((load slot.1 slot.0 ∷ lower.0) ++ upper.0) _ (base + 1)
        (base + 2 + k + l) base
        (Runs-append fields base (load slot.1 slot.0 ∷ lower.0) upper.0 _ (base + 2 + k)
          (base + 2 + k + l) (omega arith, (tt, b.adds base _ (base + 2 + k) (omega arith)))
          (c.adds base (base + 2 + k) (base + 2 + k + l) refl))
        (omega (arith, pops), (tt, (omega (arith, pops), (tt, omega (arith, pops)))))

  pub emit_assignment-Consumes :
      (target : LValue) → IsSoundTarget target → Gives S (emit_assignment target) Consumes S
  unfolding emit_assignment Consumes
  emit_assignment-Consumes (LValue.name v) h = bind-Gives {F = S} this-Gives (λ gen s.
      bind-Gives (expect_any (find_variable v gen.env))
        (λ slot _. pure-Gives (λ base. grind arith)))
  emit_assignment-Consumes (LValue.subscript collection index) h =
      bind-Gives (target_slot-Agrees collection) (λ slot _.
        bind-Gives (emit_expr-Adds fields Enters index h) (λ code p. pure-Gives (λ base.
          Runs-append fields base code _ (base + 1) (base + 2) base
            (Adds-from fields base (base + 1) (base + 2) code p (omega arith)) (grind arith))))
  emit_assignment-Consumes (LValue.slice collection from to) (h, h') =
      bind-Gives (target_slot-Agrees collection) (λ slot _.
        bind-Gives (emit_bound-IsBound fields Enters from 1 h) (λ lower b.
          bind-Gives (emit_bound-IsBound fields Enters to 2 h')
            (λ upper c. pure-Gives (slice_assignment-Consumes slot lower upper b c))))
  emit_assignment-Consumes (LValue.field left f) h = bind-Gives {F = S} this-Gives (λ gen s.
      bind-Gives (expect_any (lookup f gen.field_indices)) (λ index _.
        bind-Gives (emit_expr-Adds fields Enters left h) (λ code p. pure-Gives (λ base.
          Runs-append fields base code _ (base + 1) (base + 2) base
            (Adds-from fields base (base + 1) (base + 2) code p (omega arith)) (grind arith)))))

  slot_or_new-Agrees :
      (v : String) (found : Option Slot) → Gives S (slot_or_new v found) (λ _. Unit) S
  unfolding slot_or_new
  slot_or_new-Agrees v (some slot) = pure-Gives tt
  slot_or_new-Agrees v none = allocate_variable-Agrees fields v

  -- The stores of an input take as many values as it has variables.
  unfoldable pub Takes : ℕ → Code → Type 0
  Takes n code = (base d : ℕ) → d ≡ base + n → Runs fields base code d base

  pub emit_inputs-Takes :
      (variables : List (Spannable LValue))
      → Gives S (emit_inputs variables) (Takes (length variables)) S
  unfolding emit_inputs Takes
  emit_inputs-Takes [] = pure-Gives (λ base d e. omega (arith, e))
  emit_inputs-Takes (variable ∷ variables) = bind-Gives (target_name-Agrees variable.node) (λ v _.
      bind-Gives {F = S} this-Gives (λ gen s.
        bind-Gives (slot_or_new-Agrees v (find_variable v gen.env)) (λ slot _.
          bind-Gives (emit_inputs-Takes variables) (λ code p.
            pure-Gives (λ base d e. (omega (arith, e), (tt, p base _ (omega (arith, e)))))))))

  pub emit_subject-Adds :
      (slot : Option Slot) (e : SpannedExpr)
      → IsSound e
      → Gives S (emit_subject slot e) (Adds fields 1) S
  unfolding emit_subject Adds
  emit_subject-Adds (some slot) e h =
      pure-Gives (λ base d d' h'. (omega arith, (tt, omega (arith, h'))))
  emit_subject-Adds none e h = emit_expr-Adds fields Enters e h

  module _ (subject : Emit Code) (subject_lem : Gives S subject (Adds fields 1) S) where
    emit_bindings-Keeps :
        (index : ℕ) (bindings : Exprs)
        → Gives S (emit_bindings subject index bindings) (Keeps fields) S
    unfolding emit_bindings Keeps
    emit_bindings-Keeps index nil = pure-Gives (λ base. refl)
    emit_bindings-Keeps index (cons (at (name v) start end) bindings) =
        bind-Gives subject_lem (λ code p. bind-Gives (allocate_variable-Agrees fields v) (λ slot _.
          bind-Gives (emit_bindings-Keeps (suc index) bindings) (λ rest q. pure-Gives (λ base.
            Runs-append fields base (code ++ _) rest base base base
              (Runs-append fields base code _ base (base + 1) base
                (Adds-Runs fields base base code p) (grind arith))
              (q base)))))
    emit_bindings-Keeps index (cons (at _ start end) bindings) = panicked-Gives

    emit_test-Keeps :
        (next : Label) (e : SpannedExpr) (o : Option (VariantInfo × Exprs))
        → IsEntry next.name
        → IsSound e
        → Gives S (emit_test subject next e o) (Keeps fields) S
    unfolding emit_test Keeps
    emit_test-Keeps next e (some (info, bindings)) hn h = bind-Gives subject_lem (λ code p.
        bind-Gives (emit_bindings-Keeps 0 bindings) (λ bound q. pure-Gives (λ base.
          Runs-append fields base _ bound base base base
            (Runs-append fields base code _ base (base + 1) base (Adds-Runs fields base base code p)
              (grind arith))
            (q base))))
    emit_test-Keeps next e none hn h = bind-Gives subject_lem (λ code p.
        bind-Gives (emit_expr-Adds fields Enters e h) (λ value q. pure-Gives (λ base.
          Runs-append fields base (code ++ value) _ base (base + 2) base
            (Runs-append fields base code value base (base + 1) (base + 2)
              (Adds-Runs fields base base code p)
              (Adds-from fields base (base + 1) (base + 2) value q (omega arith)))
            (grind arith))))

    pub emit_pattern-Keeps :
        (next : Label) (values : Exprs)
        → IsEntry next.name
        → AreSound values
        → Gives S (emit_pattern subject next values) (Keeps fields) S
    unfolding emit_pattern IsSound
    emit_pattern-Keeps next nil hn h = panicked-Gives
    emit_pattern-Keeps next (cons e es) hn (h, hs) =
        bind-Gives {F = S} this-Gives
          (λ gen s. emit_test-Keeps next e (constructor_pattern gen.variant_constructors e) hn h)
