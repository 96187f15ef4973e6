-- ===== src/Codegen/Slots/Shapes.antt =====
-- crates/compiler-core/src/codegen/bcgen.rs: the code around loops, conditionals and selections is
-- closed where its parts are.
use rapira.Prelude.{
  ◌≡◌, String, Bool, true, false, Option, none, some, List, [], ◌∷◌, ◌++◌, All, append-All,
  split-All, map-All, WhenSome, if◌then◌else◌,
}
use rapira.Bytecode.{Label, Instruction, load, store, jmp, cjmp, label, const}
use rapira.Bytecode.CompareJumpKind.{is_zero}
use rapira.Codegen.{Slot}
use rapira.Codegen.Expressions.{Code}
use rapira.Codegen.Shapes.{
  repeat_code, for_code, for_guard, is_simple, while_code, if_code, if_else_code, general_guard,
  simple_guard, plain_guard, step_code, from_code,
}
use rapira.Codegen.Slots.{Limits, SlotFits, IsPlain, IsPlaced, Declares, IsClosed, IsTest}

module _ (top : Limits) where
  IsPlain-IsPlaced :
      (known : String → Bool) (i : Instruction) → IsPlain top i → IsPlaced top known i
  IsPlain-IsPlaced known (load rel index) p = p
  IsPlain-IsPlaced known (store rel index) p = p
  IsPlain-IsPlaced known (jmp dest) p = absurd p
  IsPlain-IsPlaced known (cjmp dest kind) p = absurd p
  IsPlain-IsPlaced known _ p = tt

  pub plain-IsPlaced :
      (known : String → Bool) (code : Code) → All (IsPlain top) code → All (IsPlaced top known) code
  plain-IsPlaced known code ps =
      map-All (IsPlain top) (IsPlaced top known) code (IsPlain-IsPlaced known) ps

  pub plain-IsClosed :
      (ends : List Label) (code : Code) → All (IsPlain top) code → IsClosed top ends code
  unfolding IsClosed
  plain-IsClosed ends code ps known es ds = plain-IsPlaced known code ps

  pub append-IsClosed :
      (ends : List Label) (code code' : Code)
      → IsClosed top ends code
      → IsClosed top ends code'
      → IsClosed top ends (code ++ code')
  unfolding IsClosed
  append-IsClosed ends code code' p q known es ds =
      let (d, d') = split-All (Declares known) code code' ds in
      append-All (IsPlaced top known) code code' (p known es d) (q known es d')

  module _ (known : String → Bool) where
    IsPlaced-append :
        (code code' : Code)
        → All (IsPlaced top known) code
        → All (IsPlaced top known) code'
        → All (IsPlaced top known) (code ++ code')
    IsPlaced-append = append-All (IsPlaced top known)

    Declares-split :
        (code code' : Code)
        → All (Declares known) (code ++ code')
        → All (Declares known) code × All (Declares known) code'
    Declares-split = split-All (Declares known)

  pub repeat_code-IsClosed :
      (ends : List Label) (slot : Slot) (count : Code) (loop end : Label) (body : Code)
      → SlotFits top slot
      → All (IsPlain top) count
      → IsClosed top (end ∷ ends) body
      → IsClosed top ends (repeat_code slot count loop end body)
  unfolding IsClosed
  repeat_code-IsClosed ends slot count loop end body s ps q known es ds =
      let (front, tail) = Declares-split known (_ ++ body) _ ds in
      let (front', d) = Declares-split known _ body front in
      let (_, head) = Declares-split known count _ front' in
      let k : known end.name ≡ true = tail.1.1.1.1.1.0 in
      IsPlaced-append known _ _
        (IsPlaced-append known _ body
          (IsPlaced-append known count _ (plain-IsPlaced known count ps)
            (s, (tt, (s, (tt, (tt, (k, tt)))))))
          (q known (k, es) d))
        (s, (tt, (tt, (s, (head.1.0, (tt, tt))))))

  pub while_code-IsClosed :
      (ends : List Label) (loop : Label) (condition : Code) (end : Label) (body : Code)
      → All (IsPlain top) condition
      → IsClosed top (end ∷ ends) body
      → IsClosed top ends (while_code loop condition end body)
  unfolding IsClosed
  while_code-IsClosed ends loop condition end body ps q known es ds =
      let test = condition ++ cjmp end is_zero ∷ [] in
      let (front, tail) =
        Declares-split known (test ++ body) (jmp loop ∷ label end.name ∷ []) ds.1 in
      let (_, d) = Declares-split known test body front in
      let k : known end.name ≡ true = tail.1.0 in
      (
        tt,
        IsPlaced-append known (test ++ body) _
            (IsPlaced-append known test body
              (IsPlaced-append known condition _ (plain-IsPlaced known condition ps) (k, tt))
              (q known (k, es) d))
            (ds.0, (tt, tt)),
      )

  pub if_code-IsClosed :
      (ends : List Label) (condition : Code) (begin end : Label) (then_ : Code)
      → All (IsPlain top) condition
      → IsClosed top ends then_
      → IsClosed top ends (if_code condition begin end then_)
  unfolding IsClosed
  if_code-IsClosed ends condition begin end then_ ps q known es ds =
      let (front, tail) = Declares-split known (_ ++ then_) _ ds in
      let (_, d) = Declares-split known _ then_ front in
      IsPlaced-append known _ _
        (IsPlaced-append known _ then_
          (IsPlaced-append known condition _ (plain-IsPlaced known condition ps) (tt, (tail.0, tt)))
          (q known es d))
        (tt, tt)

  pub if_else_code-IsClosed :
      (ends : List Label) (condition : Code) (begin end other : Label) (then_ else_ : Code)
      → All (IsPlain top) condition
      → IsClosed top ends then_
      → IsClosed top ends else_
      → IsClosed top ends (if_else_code condition begin end other then_ else_)
  unfolding IsClosed
  if_else_code-IsClosed ends condition begin end other then_ else_ ps p q known es ds =
      let (front, tail) = Declares-split known (_ ++ else_) _ ds in
      let (front', d') = Declares-split known _ else_ front in
      let (front'', middle) = Declares-split known (_ ++ then_) _ front' in
      let (_, d) = Declares-split known _ then_ front'' in
      IsPlaced-append known _ _
        (IsPlaced-append known _ else_
          (IsPlaced-append known _ _
            (IsPlaced-append known _ then_
              (IsPlaced-append known condition _ (plain-IsPlaced known condition ps)
                (tt, (middle.1.0, tt)))
              (p known es d))
            (tail.0, (tt, tt)))
          (q known es d'))
        (tt, tt)

  module _ (known : String → Bool) (slot : Slot) (s : SlotFits top slot) where
    simple_guard-IsPlaced :
        (to : Code) → All (IsPlain top) to → All (IsPlaced top known) (simple_guard slot to)
    simple_guard-IsPlaced to ps =
        (s, IsPlaced-append known to _ (plain-IsPlaced known to ps) (tt, tt))

    general_guard-IsPlaced :
        (to step : Code)
        → All (IsPlain top) to
        → All (IsPlain top) step
        → All (IsPlaced top known) (general_guard slot to step)
    general_guard-IsPlaced to step ps qs =
        let to_placed = plain-IsPlaced known to ps in
        let step_placed = plain-IsPlaced known step qs in
        IsPlaced-append known _ _
          (IsPlaced-append known _ _
            (IsPlaced-append known _ _
              (IsPlaced-append known step _ step_placed (tt, (tt, (s, to_placed))))
              (tt, (tt, step_placed)))
            (tt, (tt, (s, to_placed))))
          (tt, (tt, (tt, tt)))

    plain_guard-IsPlaced :
        (to : Code) (end : Label)
        → All (IsPlain top) to
        → known end.name ≡ true
        → All (IsPlaced top known) (plain_guard slot to end)
    plain_guard-IsPlaced to end ps k =
        IsPlaced-append known _ (cjmp end is_zero ∷ []) (either (is_simple to)) (k, tt)
      where
        either :
            (b : Bool)
            → All
                (IsPlaced top known)
                (if b then simple_guard slot to else general_guard slot to (const 1 ∷ []))
        either true = simple_guard-IsPlaced to ps
        either false = general_guard-IsPlaced to (const 1 ∷ []) ps (tt, tt)

    guard-IsPlaced :
        (to step : Option Code) (end : Label)
        → WhenSome (All (IsPlain top)) to
        → WhenSome (All (IsPlain top)) step
        → known end.name ≡ true
        → All (IsPlaced top known) (for_guard slot to step end)
    guard-IsPlaced none step end ps qs k = tt
    guard-IsPlaced (some to) none end ps qs k = plain_guard-IsPlaced to end ps k
    guard-IsPlaced (some to) (some step) end ps qs k =
        IsPlaced-append known (general_guard slot to step) _ (general_guard-IsPlaced to step ps qs)
          (k, tt)

  from_code-IsPlain :
      (from : Option Code) → WhenSome (All (IsPlain top)) from → All (IsPlain top) (from_code from)
  from_code-IsPlain none p = (tt, tt)
  from_code-IsPlain (some from) p = p

  step_code-IsPlain :
      (step : Option Code) → WhenSome (All (IsPlain top)) step → All (IsPlain top) (step_code step)
  step_code-IsPlain none p = (tt, tt)
  step_code-IsPlain (some step) p = p

  pub for_code-IsClosed :
      (ends : List Label) (slot : Slot) (from to step : Option Code) (loop end : Label)
      (body : Code)
      → SlotFits top slot
      → WhenSome (All (IsPlain top)) from
      → WhenSome (All (IsPlain top)) to
      → WhenSome (All (IsPlain top)) step
      → IsClosed top (end ∷ ends) body
      → IsClosed top ends (for_code slot from to step loop end body)
  unfolding IsClosed
  for_code-IsClosed ends slot from to step loop end body s ps qs rs q known es ds =
      let head = from_code from ++ store slot.1 slot.0 ∷ label loop.name ∷ [] in
      let guarded = head ++ for_guard slot to step end in
      let before = guarded ++ body ++ load slot.1 slot.0 ∷ [] in
      let (front, tail) = Declares-split known (before ++ step_code step) _ ds in
      let (with_load, _) = Declares-split known before (step_code step) front in
      let (with_body, _) = Declares-split known (guarded ++ body) _ with_load in
      let (with_guard, d) = Declares-split known guarded body with_body in
      let (with_head, _) = Declares-split known head (for_guard slot to step end) with_guard in
      let (_, start) = Declares-split known (from_code from) _ with_head in
      let k : known end.name ≡ true = tail.1.1.1.0 in
      IsPlaced-append known _ _
        (IsPlaced-append known before (step_code step)
          (IsPlaced-append known (guarded ++ body) _
            (IsPlaced-append known guarded body
              (IsPlaced-append known head _
                (IsPlaced-append known (from_code from) _
                  (plain-IsPlaced known (from_code from) (from_code-IsPlain from ps)) (s, (tt, tt)))
                (guard-IsPlaced known slot s to step end qs rs k))
              (q known (k, es) d))
            (s, tt))
          (plain-IsPlaced known (step_code step) (step_code-IsPlain step rs)))
        (tt, (s, (start.1.0, (tt, tt))))

  pub case-IsClosed :
      (ends : List Label) (end next : Label) (test body rest : Code)
      → IsTest top next test
      → IsClosed top ends body
      → IsClosed top (end ∷ ends) rest
      → IsClosed top (end ∷ ends) (test ++ body ++ (jmp end ∷ label next.name ∷ []) ++ rest)
  unfolding IsClosed
  case-IsClosed ends end next test body rest t p q known es ds =
      let (front, d') =
        Declares-split known (test ++ body ++ jmp end ∷ label next.name ∷ []) rest ds in
      let (front', tail) =
        Declares-split known (test ++ body) (jmp end ∷ label next.name ∷ []) front in
      let (_, d) = Declares-split known test body front' in
      IsPlaced-append known (test ++ body ++ jmp end ∷ label next.name ∷ []) rest
        (IsPlaced-append known (test ++ body) _
          (IsPlaced-append known test body (t known tail.1.0) (p known es.1 d)) (es.0, (tt, tt)))
        (q known es d')

  pub selection-IsClosed :
      (ends : List Label) (end : Label) (selector cases other : Code)
      → All (IsPlain top) selector
      → IsClosed top (end ∷ ends) cases
      → IsClosed top ends other
      → IsClosed top ends (selector ++ cases ++ other ++ label end.name ∷ [])
  unfolding IsClosed
  selection-IsClosed ends end selector cases other ps p q known es ds =
      let (front, tail) =
        Declares-split known (selector ++ cases ++ other) (label end.name ∷ []) ds in
      let (front', d') = Declares-split known (selector ++ cases) other front in
      let (_, d) = Declares-split known selector cases front' in
      IsPlaced-append known (selector ++ cases ++ other) _
        (IsPlaced-append known (selector ++ cases) other
          (IsPlaced-append known selector cases (plain-IsPlaced known selector ps)
            (p known (tail.0, es) d))
          (q known es d'))
        (tt, tt)
