-- ===== src/Codegen/Slots/Expressions.antt =====
-- crates/compiler-core/src/codegen/bcgen.rs: the code of an expression reads variables of the frame
-- and has no jump, and no variable is allocated for it.
use rapira.Prelude.{
  ℕ, ◌==◌, String, Option, none, some, List, ◌++◌, All, append-All, WhenSome, lookup, length,
}
use rapira.Ast.{
  Literal, integer, boolean, real, text, Expr, SpannedExpr, at, MaybeExpr, absent, present, Exprs,
  nil, cons, count_exprs, BinaryOperator, UnaryOperator, literal, name, subscript, tuple_construct,
  function_call, binary_op, unary_op, dot,
}
use rapira.Bytecode.{Label}
use rapira.Codegen.{BcGen, VariantInfo, Slot, Context, Emit}
use rapira.Codegen.Expressions.{
  Code, ast_binop_to_vm_op, intern, emit_literal, Callee, constructor, builtin, target, computed,
  intern_at, emit_found, emit_name, unary_code, field_index, callee_of, emit_call, emit_expr,
  emit_exprs, emit_bound,
}
use rapira.Codegen.Logic.{
  Gives, Post, bind-Gives, pure-Gives, expect-Gives, panicked-Gives, this-Gives, if-panicked-Gives,
}
use rapira.Codegen.Slots.{Limits, SlotFits, IsPlain, Fits}
use rapira.Codegen.Slots.Steps.{find_variable-WhenSome}

module _ (top : Limits) (context : Context) (constructors : List (String × VariantInfo))
    (ends : List Label) (n : ℕ) where
  abbrev Here : BcGen → Type 0
  Here = Fits top context constructors ends n

  abbrev Plain : Code → Type 0
  Plain = All (IsPlain top)

  Plain-append : (code code' : Code) → Plain code → Plain code' → Plain (code ++ code')
  Plain-append = append-All (IsPlain top)

  intern_at-Post :
      (value : String) (o : Option ℕ) (gen : BcGen)
      → Here gen
      → Post (λ _. Unit) Here (intern_at value o gen)
  intern_at-Post value (some index) gen fits = (tt, fits)
  intern_at-Post value none gen fits = (
    tt,
    record {
      same_context = fits.same_context;
      same_constructors = fits.same_constructors;
      same_ends = fits.same_ends;
      allocated = fits.allocated;
      locals_fit = fits.locals_fit;
      args_fit = fits.args_fit;
      globals_fit = fits.globals_fit;
    },
  )

  intern-Gives : (value : String) → Gives Here (intern value) (λ _. Unit) Here
  unfolding intern
  intern-Gives value = record { from = λ gen fits. intern_at-Post value _ gen fits }

  emit_literal-Gives : (lit : Literal) → Gives Here (emit_literal lit) Plain Here
  unfolding emit_literal
  emit_literal-Gives (integer value) = pure-Gives (tt, tt)
  emit_literal-Gives (boolean value) = pure-Gives (tt, tt)
  emit_literal-Gives (real value) = pure-Gives (tt, tt)
  emit_literal-Gives (text value) = bind-Gives (intern-Gives value) (λ index _. pure-Gives (tt, tt))
  emit_literal-Gives Literal.null = pure-Gives (tt, tt)

  emit_found-Gives :
      (info : Option VariantInfo) (entry : Option (String × ℕ)) (slot : Option Slot)
      → WhenSome (SlotFits top) slot
      → Gives Here (emit_found info entry slot) Plain Here
  unfolding emit_found
  emit_found-Gives (some info) entry slot p =
      if-panicked-Gives (length info.fields == 0) _ (pure-Gives (tt, tt))
  emit_found-Gives none (some entry) slot p = pure-Gives (tt, tt)
  emit_found-Gives none none slot p =
      bind-Gives (expect-Gives {F = SlotFits top} slot p) (λ found q. pure-Gives (q, tt))

  emit_name-Gives : (v : String) → Gives Here (emit_name v) Plain Here
  unfolding emit_name
  emit_name-Gives v = bind-Gives this-Gives (λ gen fits.
      emit_found-Gives (lookup v gen.variant_constructors) (lookup v gen.call_targets) _
        (find_variable-WhenSome top constructors ends n context v gen fits))

  unary_code-IsPlain : (operator : UnaryOperator) → Plain (unary_code operator)
  unfolding unary_code
  unary_code-IsPlain UnaryOperator.negate = (tt, tt)
  unary_code-IsPlain UnaryOperator.plus = tt
  unary_code-IsPlain UnaryOperator.not_ = (tt, tt)
  unary_code-IsPlain UnaryOperator.length = (tt, tt)

  -- A step that leaves the generator alone or panics
  abbrev Harmless : {A : Type 0} → Emit A → Type 0
  Harmless m = Gives Here m (λ _. Unit) Here

  field_index-Gives : (e : SpannedExpr) → Harmless (field_index e)
  unfolding field_index
  field_index-Gives (at (name f) start end) =
      bind-Gives this-Gives (λ gen fits. expect-Gives _ (any (lookup f gen.field_indices)))
    where
      any : (o : Option ℕ) → WhenSome (λ _. Unit) o
      any none = tt
      any (some index) = tt
  field_index-Gives (at _ start end) = panicked-Gives

  vm_op-Gives : (operator : BinaryOperator) → Harmless (ast_binop_to_vm_op operator)
  unfolding ast_binop_to_vm_op
  vm_op-Gives dot = panicked-Gives
  vm_op-Gives _ = pure-Gives tt

  pub emit_call-Gives :
      (callee : Callee) (count : ℕ) (function arguments : Emit Code)
      → Gives Here function Plain Here
      → Gives Here arguments Plain Here
      → Gives Here (emit_call callee count function arguments) Plain Here
  unfolding emit_call
  emit_call-Gives (constructor info) count function arguments p q =
      if-panicked-Gives (count == length info.fields) _
        (bind-Gives q (λ code ps. pure-Gives (Plain-append code _ ps (tt, tt))))
  emit_call-Gives (builtin b) count function arguments p q =
      bind-Gives q (λ code ps. pure-Gives (Plain-append code _ ps (tt, tt)))
  emit_call-Gives (target label) count function arguments p q =
      bind-Gives q (λ code ps. pure-Gives (Plain-append code _ ps (tt, tt)))
  emit_call-Gives computed count function arguments p q = bind-Gives p (λ first ps.
      bind-Gives q (λ code qs.
        pure-Gives (Plain-append (first ++ code) _ (Plain-append first code ps qs) (tt, tt))))

  mutual
    unfolding emit_expr

    emit_expr-Plain : (e : SpannedExpr) → Gives Here (emit_expr e) Plain Here
    emit_expr-Plain (at (literal lit) start end) = emit_literal-Gives lit
    emit_expr-Plain (at (binary_op dot left right) start end) =
        bind-Gives (field_index-Gives right) (λ index _.
          bind-Gives (emit_expr-Plain left)
            (λ code ps. pure-Gives (Plain-append code _ ps (tt, tt))))
    emit_expr-Plain (at (binary_op operator left right) start end) =
        bind-Gives (emit_expr-Plain left) (λ code ps.
          bind-Gives (emit_expr-Plain right) (λ code' qs. bind-Gives (vm_op-Gives operator) (λ op _.
            pure-Gives (Plain-append (code ++ code') _ (Plain-append code code' ps qs) (tt, tt)))))
    emit_expr-Plain (at (unary_op operator operand) start end) =
        bind-Gives (emit_expr-Plain operand)
          (λ code ps. pure-Gives (Plain-append code _ ps (unary_code-IsPlain operator)))
    emit_expr-Plain (at (tuple_construct elements) start end) =
        bind-Gives (emit_exprs-Plain elements)
          (λ code ps. pure-Gives (Plain-append code _ ps (tt, tt)))
    emit_expr-Plain (at (function_call function arguments) start end) =
        bind-Gives this-Gives (λ gen fits.
          emit_call-Gives (callee_of function gen) (count_exprs arguments) _ _
            (emit_expr-Plain function) (emit_exprs-Plain arguments))
    emit_expr-Plain (at (name v) start end) = emit_name-Gives v
    emit_expr-Plain (at (subscript collection index) start end) =
        bind-Gives (emit_expr-Plain collection) (λ code ps.
          bind-Gives (emit_expr-Plain index) (λ code' qs.
            pure-Gives (Plain-append (code ++ code') _ (Plain-append code code' ps qs) (tt, tt))))
    emit_expr-Plain (at (Expr.slice collection from to) start end) =
        bind-Gives (emit_expr-Plain collection) (λ code ps.
          bind-Gives (emit_bound-Plain from 1) (λ lower qs.
            bind-Gives (emit_bound-Plain to 2) (λ upper rs. pure-Gives (
              Plain-append (code ++ lower.0 ++ upper.0) _
                (Plain-append (code ++ lower.0) upper.0 (Plain-append code lower.0 ps qs) rs)
                (tt, tt)))))

    emit_exprs-Plain : (es : Exprs) → Gives Here (emit_exprs es) Plain Here
    emit_exprs-Plain nil = pure-Gives tt
    emit_exprs-Plain (cons e es) = bind-Gives (emit_expr-Plain e) (λ code ps.
        bind-Gives (emit_exprs-Plain es) (λ code' qs. pure-Gives (Plain-append code code' ps qs)))

    emit_bound-Plain :
        (e : MaybeExpr) (bit : ℕ) → Gives Here (emit_bound e bit) (λ bound. Plain bound.0) Here
    emit_bound-Plain absent bit = pure-Gives tt
    emit_bound-Plain (present e) bit = bind-Gives (emit_expr-Plain e) (λ code ps. pure-Gives ps)

  pub emit_expr-Gives : (e : SpannedExpr) → Gives Here (emit_expr e) Plain Here
  emit_expr-Gives e = emit_expr-Plain e

  pub emit_exprs-Gives : (es : Exprs) → Gives Here (emit_exprs es) Plain Here
  emit_exprs-Gives es = emit_exprs-Plain es

  pub emit_bound-Gives :
      (e : MaybeExpr) (bit : ℕ) → Gives Here (emit_bound e bit) (λ bound. Plain bound.0) Here
  emit_bound-Gives e bit = emit_bound-Plain e bit
