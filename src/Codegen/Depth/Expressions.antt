-- ===== src/Codegen/Depth/Expressions.antt =====
-- crates/compiler-core/src/codegen/bcgen.rs: the code of an expression leaves one value.
use mathlib.Core.Path.{ap₂}
use rapira.Prelude.{
  ℕ, suc, ◌+◌, ◌*◌, ◌/◌, ◌%◌, ◌^◌, ◌≡◌, refl, sym, ap, ◌∙◌, ◌≤◌, ◌<◌, ◌==◌, ==→eq, Bool, true,
  false, Option, none, some, [], ◌∷◌, ◌++◌, length, lookup, lookup-Values, WhenSome, arith, String,
  if◌then◌else◌, Values, append-nil,
}
use rapira.Ast.{
  Literal, integer, boolean, real, text, Expr, SpannedExpr, at, MaybeExpr, absent, present, Exprs,
  nil, cons, count_exprs, BinaryOperator, UnaryOperator, literal, name, subscript, tuple_construct,
  function_call, binary_op, unary_op, dot,
}
use rapira.Bytecode.{Label, Instruction, Builtin, slice}
use rapira.Codegen.{BcGen, VariantInfo, Slot, Emit, panicked, builtin_funcs}
use rapira.Codegen.Depth.{
  effect, builtin_effect, Runs, Adds, HasFields, AgreesWith, BuiltinArity, IsSound, AreSound,
  IsSoundBound, JumpsAt,
}
use rapira.Codegen.Expressions.{
  Code, ast_binop_to_vm_op, intern_at, intern, emit_literal, Callee, constructor, builtin, target,
  computed, known_from, known_callee, callee_from, callee_of, emit_found, emit_name, unary_code,
  field_index, emit_call, emit_expr, emit_exprs, emit_bound,
}
use rapira.Codegen.Shapes.{procedure_of}
use rapira.Codegen.Logic.{
  Gives, Post, bind-Gives, pure-Gives, expect-Gives, panicked-Gives, this-Gives,
}

module _ (fields : ℕ → ℕ) where
  -- One run after another
  pub Runs-append :
      (base : ℕ) (code code' : Code) (d m d' : ℕ)
      → Runs fields base code d m
      → Runs fields base code' m d'
      → Runs fields base (code ++ code') d d'
  Runs-append base [] code' d m d' p q = rw p q
  Runs-append base (i ∷ code) code' d m d' (h, (j, p)) q =
      (h, (j, Runs-append base code code' _ m d' p q))

  pub Adds-append :
      (n m : ℕ) (code code' : Code)
      → Adds fields n code
      → Adds fields m code'
      → Adds fields (n + m) (code ++ code')
  unfolding Adds
  Adds-append n m code code' p q base d e h =
      Runs-append base code code' d (d + n) e (p base d (d + n) refl)
        (q base (d + n) e (omega arith))

  pub Adds-nil : Adds fields 0 []
  unfolding Adds
  Adds-nil base d d' e = omega (arith, e)

  Adds-append_suc :
      (n : ℕ) (code code' : Code)
      → Adds fields 1 code
      → Adds fields n code'
      → Adds fields (suc n) (code ++ code')
  unfolding Adds
  Adds-append_suc n code code' p q base d d' e =
      Runs-append base code code' d (d + 1) d' (p base d (d + 1) refl)
        (q base (d + 1) d' (omega (arith, e)))

  -- The code of a part, and a last instruction that takes what it left and leaves one value
  Adds-last :
      (n k : ℕ) (code : Code) (i : Instruction)
      → Adds fields n code
      → (effect fields i).0 ≡ n
      → (effect fields i).1 ≡ 1
      → ((base d : ℕ) → JumpsAt base i d)
      → k ≡ 1
      → Adds fields k (code ++ i ∷ [])
  unfolding Adds
  Adds-last n k code i p h h' j e base d d' e' =
      Runs-append base code (i ∷ []) d (d + n) d' (p base d (d + n) refl)
        (omega (arith, h), (j base (d + n), omega (arith, h, h', e, e')))

  module _ (P : Label → Type 0) where
    abbrev S : BcGen → Type 0
    S = AgreesWith P fields

    intern_at-Post :
        (value : String) (o : Option ℕ) (gen : BcGen)
        → S gen
        → Post (λ _. Unit) S (intern_at value o gen)
    intern_at-Post value (some index) gen s = (tt, s)
    intern_at-Post value none gen s = (tt, s)

    intern-Gives : (value : String) → Gives S (intern value) (λ _. Unit) S
    unfolding intern
    intern-Gives value = record { from = λ gen s. intern_at-Post value _ gen s }

    -- One instruction that pushes a value
    abbrev IsPush : Instruction → Type 0
    IsPush i =
        ((effect fields i).0 ≡ 0) × (((effect fields i).1 ≡ 1) × ((base d : ℕ) → JumpsAt base i d))

    push-Adds : (i : Instruction) → IsPush i → Adds fields 1 (i ∷ [])
    unfolding Adds
    push-Adds i (h, (h', j)) base d d' e = (omega (arith, h), (j base d, omega (arith, h, h', e)))

    emit_literal-Adds : (lit : Literal) → Gives S (emit_literal lit) (Adds fields 1) S
    unfolding emit_literal
    emit_literal-Adds (integer value) = pure-Gives (push-Adds _ (refl, (refl, λ base d. tt)))
    emit_literal-Adds (boolean value) = pure-Gives (push-Adds _ (refl, (refl, λ base d. tt)))
    emit_literal-Adds (real value) = pure-Gives (push-Adds _ (refl, (refl, λ base d. tt)))
    emit_literal-Adds (text value) =
        bind-Gives (intern-Gives value)
          (λ index _. pure-Gives (push-Adds _ (refl, (refl, λ base d. tt))))
    emit_literal-Adds Literal.null = pure-Gives (push-Adds _ (refl, (refl, λ base d. tt)))

    -- A test that the code makes, with what holds where it succeeds
    checked-Gives :
        {F : Code → Type 0} (b : Bool) (m : Emit Code)
        → (b ≡ true → Gives S m F S)
        → Gives S (if b then m else panicked) F S
    checked-Gives true m h = h refl
    checked-Gives false m h = panicked-Gives

    any : {A : Type 0} (o : Option A) → WhenSome (λ _. Unit) o
    any none = tt
    any (some a) = tt

    emit_found-Adds :
        (info : Option VariantInfo) (entry : Option (String × ℕ)) (slot : Option Slot)
        → WhenSome (HasFields fields) info
        → Gives S (emit_found info entry slot) (Adds fields 1) S
    unfolding emit_found
    emit_found-Adds (some info) entry slot h =
        checked-Gives (length info.fields == 0) _
          (λ e. pure-Gives (push-Adds _ (h ∙ ==→eq (length info.fields) 0 e, (refl, λ base d. tt))))
    emit_found-Adds none (some entry) slot h = pure-Gives (push-Adds _ (refl, (refl, λ base d. tt)))
    emit_found-Adds none none slot h =
        bind-Gives {F = λ _. Unit} (expect-Gives slot (any slot))
          (λ found _. pure-Gives (push-Adds _ (refl, (refl, λ base d. tt))))

    emit_name-Adds : (v : String) → Gives S (emit_name v) (Adds fields 1) S
    unfolding emit_name
    emit_name-Adds v = bind-Gives {F = S} this-Gives (λ gen s.
        emit_found-Adds (lookup v gen.variant_constructors) (lookup v gen.call_targets) _
          (lookup-Values (HasFields fields) v gen.variant_constructors s.0))

    -- What a callee takes from the arguments
    abbrev CalleeFits : Callee → ℕ → Type 0
    CalleeFits (constructor info) count = HasFields fields info
    CalleeFits (builtin b) count = (count ≡ 1) × (builtin_effect b 0 ≡ (1, 1))
    CalleeFits (target label) count = Unit
    CalleeFits computed count = Unit

    builtin_funcs-Values : Values (λ b. builtin_effect b 0 ≡ (1, 1)) builtin_funcs
    builtin_funcs-Values = (
      refl,
      (
        refl,
        (refl, (refl, (refl, (refl, (refl, (refl, (refl, (refl, (refl, (refl, (refl, tt))))))))))),
      ),
    )

    pub emit_call-Adds :
        (callee : Callee) (count : ℕ) (function arguments : Emit Code)
        → count < 2 ^ 32
        → CalleeFits callee count
        → Gives S function (Adds fields 1) S
        → Gives S arguments (Adds fields count) S
        → Gives S (emit_call callee count function arguments) (Adds fields 1) S
    unfolding emit_call
    emit_call-Adds (constructor info) count function arguments h f p q =
        checked-Gives (count == length info.fields) _ (λ e. bind-Gives q (λ code ps. pure-Gives (
          Adds-last count 1 code _ ps (f ∙ sym (==→eq count (length info.fields) e)) refl
            (λ base d. tt) refl)))
    emit_call-Adds (builtin b) count function arguments h (e, f) p q = bind-Gives q (λ code ps.
        pure-Gives (
          Adds-last count 1 code _ ps (ap (λ t. t.0) f ∙ sym e) (ap (λ t. t.1) f) (λ base d. tt)
            refl))
    emit_call-Adds (target label) count function arguments h f p q =
        bind-Gives q (λ code ps.
          pure-Gives (Adds-last count 1 code _ ps (omega arith) refl (λ base d. tt) refl))
    emit_call-Adds computed count function arguments h f p q = bind-Gives p (λ first ps.
        bind-Gives q (λ code qs. pure-Gives (
          Adds-last (1 + count) 1 (first ++ code) _ (Adds-append 1 count first code ps qs)
            (omega arith) refl (λ base d. tt) refl)))

    known_from-CalleeFits :
        (b : Option Builtin) (entry : Option (String × ℕ)) (count : ℕ)
        → WhenSome (λ _. count ≡ 1) b
        → WhenSome (λ b. builtin_effect b 0 ≡ (1, 1)) b
        → CalleeFits (known_from b entry) count
    known_from-CalleeFits (some b) entry count h e = (h, e)
    known_from-CalleeFits none (some entry) count h e = tt
    known_from-CalleeFits none none count h e = tt

    known_callee-CalleeFits :
        (v : String) (gen : BcGen) (count : ℕ)
        → WhenSome (λ _. count ≡ 1) (lookup v builtin_funcs)
        → CalleeFits (known_callee v gen) count
    unfolding known_callee
    known_callee-CalleeFits v gen count h =
        known_from-CalleeFits (lookup v builtin_funcs) (lookup v gen.call_targets) count h
          (lookup-Values (λ b. builtin_effect b 0 ≡ (1, 1)) v builtin_funcs builtin_funcs-Values)

    callee_from-CalleeFits :
        (info : Option VariantInfo) (known : Callee) (count : ℕ)
        → WhenSome (HasFields fields) info
        → CalleeFits known count
        → CalleeFits (callee_from info known) count
    callee_from-CalleeFits (some info) known count h k = h
    callee_from-CalleeFits none known count h k = k

    callee_of-CalleeFits :
        (e : SpannedExpr) (gen : BcGen) (count : ℕ)
        → S gen
        → BuiltinArity e count
        → CalleeFits (callee_of e gen) count
    unfolding callee_of
    callee_of-CalleeFits (at (name v) start end) gen count s h =
        callee_from-CalleeFits (lookup v gen.variant_constructors) _ count
          (lookup-Values (HasFields fields) v gen.variant_constructors s.0)
          (known_callee-CalleeFits v gen count h)
    callee_of-CalleeFits (at _ start end) gen count s h = tt

    -- A procedure is a builtin, a known function, or a value.
    pub procedure_of-CalleeFits :
        (e : SpannedExpr) (gen : BcGen) (count : ℕ)
        → BuiltinArity e count
        → CalleeFits (procedure_of e gen) count
    unfolding procedure_of
    procedure_of-CalleeFits (at (name v) start end) gen count h =
        known_callee-CalleeFits v gen count h
    procedure_of-CalleeFits (at _ start end) gen count h = tt

    unary_code-Adds :
        (operator : UnaryOperator) (code : Code)
        → Adds fields 1 code
        → Adds fields 1 (code ++ unary_code operator)
    unfolding unary_code
    unary_code-Adds UnaryOperator.negate code p =
        Adds-last 1 1 code _ p refl refl (λ base d. tt) refl
    unary_code-Adds UnaryOperator.plus code p = rw append-nil p
    unary_code-Adds UnaryOperator.not_ code p = Adds-last 1 1 code _ p refl refl (λ base d. tt) refl
    unary_code-Adds UnaryOperator.length code p =
        Adds-last 1 1 code _ p refl refl (λ base d. tt) refl

    field_index-Gives : (e : SpannedExpr) → Gives S (field_index e) (λ _. Unit) S
    unfolding field_index
    field_index-Gives (at (name f) start end) =
        bind-Gives {F = S} this-Gives
          (λ gen s. expect-Gives (lookup f gen.field_indices) (any (lookup f gen.field_indices)))
    field_index-Gives (at _ start end) = panicked-Gives

    vm_op-Gives : (operator : BinaryOperator) → Gives S (ast_binop_to_vm_op operator) (λ _. Unit) S
    unfolding ast_binop_to_vm_op
    vm_op-Gives dot = panicked-Gives
    vm_op-Gives _ = pure-Gives tt

    -- What a bound adds, and its bit, if it is there
    pub record IsBound (bit : ℕ) (bound : Code × ℕ) : Type 0 where
      pub present_count : ℕ
      pub at_most_one : present_count ≤ 1
      pub its_bit : bound.1 ≡ present_count * bit
      pub adds : Adds fields present_count bound.0

    slice_pops :
        (k l : ℕ) → k ≤ 1 → l ≤ 1 → (1 + (k * 1 + l * 2) % 2 + (k * 1 + l * 2) / 2 % 2) ≡ 1 + k + l
    slice_pops k l h h' = omega arith

    pub slice_effect :
        (lower upper : Code × ℕ) (b : IsBound 1 lower) (c : IsBound 2 upper)
        → (1 + (lower.1 + upper.1) % 2 + (lower.1 + upper.1) / 2 % 2)
          ≡ 1 + b.present_count + c.present_count
    slice_effect lower upper b c =
        ap (λ x. 1 + x % 2 + x / 2 % 2) (ap₂ (λ x y. x + y) b.its_bit c.its_bit)
        ∙ slice_pops b.present_count c.present_count b.at_most_one c.at_most_one

    pub slice_code-Adds :
        (code : Code) (lower upper : Code × ℕ)
        → Adds fields 1 code
        → IsBound 1 lower
        → IsBound 2 upper
        → Adds fields 1 (code ++ lower.0 ++ upper.0 ++ slice (lower.1 + upper.1) ∷ [])
    slice_code-Adds code lower upper p b c =
        let k = b.present_count in
        let l = c.present_count in
        Adds-last (1 + k + l) 1 (code ++ lower.0 ++ upper.0) _
          (Adds-append (1 + k) l (code ++ lower.0) upper.0 (Adds-append 1 k code lower.0 p b.adds)
            c.adds)
          (slice_effect lower upper b c) refl (λ base d. tt) refl

    mutual
      unfolding emit_expr IsSound count_exprs

      emit_expr_sound : (e : SpannedExpr) → IsSound e → Gives S (emit_expr e) (Adds fields 1) S
      emit_expr_sound (at (literal lit) start end) h = emit_literal-Adds lit
      emit_expr_sound (at (binary_op dot left right) start end) h =
          bind-Gives (field_index-Gives right) (λ index _.
            bind-Gives (emit_expr_sound left h)
              (λ code p. pure-Gives (Adds-last 1 1 code _ p refl refl (λ base d. tt) refl)))
      emit_expr_sound (at (binary_op operator left right) start end) (h, h') =
          bind-Gives (emit_expr_sound left h) (λ code p.
            bind-Gives (emit_expr_sound right h') (λ code' q.
              bind-Gives (vm_op-Gives operator) (λ op _. pure-Gives (
                Adds-last 2 1 (code ++ code') _ (Adds-append 1 1 code code' p q) refl refl
                  (λ base d. tt) refl))))
      emit_expr_sound (at (unary_op operator operand) start end) h =
          bind-Gives (emit_expr_sound operand h)
            (λ code p. pure-Gives (unary_code-Adds operator code p))
      emit_expr_sound (at (tuple_construct elements) start end) (h, hs) =
          bind-Gives (emit_exprs_sound elements hs) (λ code p.
            pure-Gives
              (Adds-last (count_exprs elements) 1 code _ p (omega arith) refl (λ base d. tt) refl))
      emit_expr_sound (at (function_call function arguments) start end) ((h, k), (h', hs)) =
          bind-Gives {F = S} this-Gives (λ gen s.
            emit_call-Adds (callee_of function gen) (count_exprs arguments) _ _ h
              (callee_of-CalleeFits function gen (count_exprs arguments) s k)
              (emit_expr_sound function h') (emit_exprs_sound arguments hs))
      emit_expr_sound (at (name v) start end) h = emit_name-Adds v
      emit_expr_sound (at (subscript collection index) start end) (h, h') =
          bind-Gives (emit_expr_sound collection h) (λ code p.
            bind-Gives (emit_expr_sound index h') (λ code' q. pure-Gives (
              Adds-last 2 1 (code ++ code') _ (Adds-append 1 1 code code' p q) refl refl
                (λ base d. tt) refl)))
      emit_expr_sound (at (Expr.slice collection from to) start end) (h, (hf, ht)) =
          bind-Gives (emit_expr_sound collection h) (λ code p.
            bind-Gives (emit_bound_sound from 1 hf) (λ lower b.
              bind-Gives (emit_bound_sound to 2 ht)
                (λ upper c. pure-Gives (slice_code-Adds code lower upper p b c))))

      emit_exprs_sound :
          (es : Exprs) → AreSound es → Gives S (emit_exprs es) (Adds fields (count_exprs es)) S
      emit_exprs_sound nil h = pure-Gives Adds-nil
      emit_exprs_sound (cons e es) (h, hs) = bind-Gives (emit_expr_sound e h) (λ code p.
          bind-Gives (emit_exprs_sound es hs)
            (λ code' q. pure-Gives (Adds-append_suc (count_exprs es) code code' p q)))

      emit_bound_sound :
          (e : MaybeExpr) (bit : ℕ) → IsSoundBound e → Gives S (emit_bound e bit) (IsBound bit) S
      emit_bound_sound absent bit h = pure-Gives (record {
        present_count = 0;
        at_most_one = omega arith;
        its_bit = omega arith;
        adds = Adds-nil;
      })
      emit_bound_sound (present e) bit h = bind-Gives (emit_expr_sound e h) (λ code p.
          pure-Gives (record {
            present_count = 1;
            at_most_one = omega arith;
            its_bit = omega arith;
            adds = p;
          }))

    pub emit_expr-Adds : (e : SpannedExpr) → IsSound e → Gives S (emit_expr e) (Adds fields 1) S
    emit_expr-Adds e h = emit_expr_sound e h

    pub emit_exprs-Adds :
        (es : Exprs) → AreSound es → Gives S (emit_exprs es) (Adds fields (count_exprs es)) S
    emit_exprs-Adds es h = emit_exprs_sound es h

    pub emit_bound-IsBound :
        (e : MaybeExpr) (bit : ℕ) → IsSoundBound e → Gives S (emit_bound e bit) (IsBound bit) S
    emit_bound-IsBound e bit h = emit_bound_sound e bit h
