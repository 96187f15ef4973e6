-- ===== src/Codegen/Depth/Shapes.antt =====
-- crates/compiler-core/src/codegen/bcgen.rs: the code around loops, conditionals and selections keeps
-- the depth of the stack where its parts do.
use rapira.Prelude.{
  ℕ, ◌+◌, ◌≡◌, refl, Option, none, some, [], ◌∷◌, ◌++◌, WhenSome, arith, if◌then◌else◌, Bool, true,
  false,
}
use rapira.Bytecode.{Label, jmp, cjmp, label, const}
use rapira.Bytecode.CompareJumpKind.{is_zero}
use rapira.Codegen.{Slot}
use rapira.Codegen.Depth.{Runs, Adds, Keeps, IsEntry}
use rapira.Codegen.Depth.Expressions.{Runs-append}
use rapira.Codegen.Expressions.{Code}
use rapira.Codegen.Shapes.{
  repeat_code, for_code, for_guard, plain_guard, is_simple, while_code, if_code, if_else_code,
  general_guard, simple_guard, step_code, from_code,
}

module _ (fields : ℕ → ℕ) where
  -- The code of an expression, from a depth to the next one
  pub Adds-Runs : (base d : ℕ) (code : Code) → Adds fields 1 code → Runs fields base code d (d + 1)
  unfolding Adds
  Adds-Runs base d code p = p base d (d + 1) refl

  -- The same, between depths that differ by one
  pub Adds-from :
      (base d d' : ℕ) (code : Code) → Adds fields 1 code → d' ≡ d + 1 → Runs fields base code d d'
  unfolding Adds
  Adds-from base d d' code p e = p base d d' e

  pub repeat_code-Keeps :
      (slot : Slot) (count : Code) (loop end : Label) (body : Code)
      → IsEntry loop.name
      → IsEntry end.name
      → Adds fields 1 count
      → Keeps fields body
      → Keeps fields (repeat_code slot count loop end body)
  unfolding Keeps
  repeat_code-Keeps slot count loop end body hl he p q base =
      Runs-append fields base _ _ base base base
        (Runs-append fields base _ body base base base
          (Runs-append fields base count _ base (base + 1) base (Adds-Runs base base count p)
            (grind arith))
          (q base))
        (grind arith)

  pub while_code-Keeps :
      (loop : Label) (condition : Code) (end : Label) (body : Code)
      → IsEntry loop.name
      → IsEntry end.name
      → Adds fields 1 condition
      → Keeps fields body
      → Keeps fields (while_code loop condition end body)
  unfolding Keeps
  while_code-Keeps loop condition end body hl he p q base =
      let test = condition ++ cjmp end is_zero ∷ [] in
      (
        omega arith,
        (
          λ _. refl,
          Runs-append fields base (test ++ body) (jmp loop ∷ label end.name ∷ []) _ base base
              (Runs-append fields base test body _ base base
                (Runs-append fields base condition (cjmp end is_zero ∷ []) _ (base + 1) base
                  (Adds-from base _ (base + 1) condition p (omega arith)) (grind arith))
                (q base))
              (grind arith),
        ),
      )

  pub if_code-Keeps :
      (condition : Code) (begin end : Label) (then_ : Code)
      → ¬ IsEntry begin.name
      → IsEntry end.name
      → Adds fields 1 condition
      → Keeps fields then_
      → Keeps fields (if_code condition begin end then_)
  unfolding Keeps
  if_code-Keeps condition begin end then_ hb he p q base =
      Runs-append fields base _ _ base base base
        (Runs-append fields base _ then_ base base base
          (Runs-append fields base condition _ base (base + 1) base
            (Adds-Runs base base condition p) (grind arith))
          (q base))
        (grind arith)

  pub if_else_code-Keeps :
      (condition : Code) (begin end other : Label) (then_ else_ : Code)
      → ¬ IsEntry begin.name
      → IsEntry end.name
      → IsEntry other.name
      → Adds fields 1 condition
      → Keeps fields then_
      → Keeps fields else_
      → Keeps fields (if_else_code condition begin end other then_ else_)
  unfolding Keeps
  if_else_code-Keeps condition begin end other then_ else_ hb he ho p q r base =
      Runs-append fields base _ _ base base base
        (Runs-append fields base _ else_ base base base
          (Runs-append fields base _ _ base base base
            (Runs-append fields base _ then_ base base base
              (Runs-append fields base condition _ base (base + 1) base
                (Adds-Runs base base condition p) (grind arith))
              (q base))
            (grind arith))
          (r base))
        (grind arith)

  simple_guard-Runs :
      (base : ℕ) (slot : Slot) (to : Code)
      → Adds fields 1 to
      → Runs fields base (simple_guard slot to) base (base + 1)
  simple_guard-Runs base slot to p = (
    omega arith,
    (
      tt,
      Runs-append fields base to _ _ (base + 2) (base + 1)
          (Adds-from base _ (base + 2) to p (omega arith)) (grind arith),
    ),
  )

  general_guard-Runs :
      (base : ℕ) (slot : Slot) (to step : Code)
      → Adds fields 1 to
      → Adds fields 1 step
      → Runs fields base (general_guard slot to step) base (base + 1)
  general_guard-Runs base slot to step p q =
      Runs-append fields base _ _ base (base + 4) (base + 1)
        (Runs-append fields base _ _ base (base + 2) (base + 4)
          (Runs-append fields base _ _ base (base + 3) (base + 2)
            (Runs-append fields base step _ base (base + 1) (base + 3) (Adds-Runs base base step q)
              (
                omega arith,
                (
                  tt,
                  (
                    omega arith,
                    (tt, (omega arith, (tt, Adds-from base _ (base + 3) to p (omega arith)))),
                  ),
                ),
              ))
            (
              omega arith,
              (tt, (omega arith, (tt, Adds-from base _ (base + 2) step q (omega arith)))),
            ))
          (
            omega arith,
            (
              tt,
              (
                omega arith,
                (tt, (omega arith, (tt, Adds-from base _ (base + 4) to p (omega arith)))),
              ),
            ),
          ))
        (grind arith)

  constant-Adds : (value : ℕ) → Adds fields 1 (const value ∷ [])
  unfolding Adds
  constant-Adds value base d d' e = (omega arith, (tt, omega (arith, e)))

  plain_guard-Runs :
      (base : ℕ) (slot : Slot) (to : Code) (end : Label)
      → IsEntry end.name
      → Adds fields 1 to
      → Runs fields base (plain_guard slot to end) base base
  plain_guard-Runs base slot to end he p =
      Runs-append fields base _ (cjmp end is_zero ∷ []) base (base + 1) base (either (is_simple to))
        (grind arith)
    where
      either :
          (b : Bool)
          → Runs fields base
              (if b then simple_guard slot to else general_guard slot to (const 1 ∷ []))
              base
              (base + 1)
      either true = simple_guard-Runs base slot to p
      either false = general_guard-Runs base slot to (const 1 ∷ []) p (constant-Adds 1)

  guard-Runs :
      (base : ℕ) (slot : Slot) (to step : Option Code) (end : Label)
      → IsEntry end.name
      → WhenSome (Adds fields 1) to
      → WhenSome (Adds fields 1) step
      → Runs fields base (for_guard slot to step end) base base
  guard-Runs base slot none step end he p q = refl
  guard-Runs base slot (some to) none end he p q = plain_guard-Runs base slot to end he p
  guard-Runs base slot (some to) (some step) end he p q =
      Runs-append fields base (general_guard slot to step) _ base (base + 1) base
        (general_guard-Runs base slot to step p q) (grind arith)

  from_code-Adds :
      (from : Option Code) → WhenSome (Adds fields 1) from → Adds fields 1 (from_code from)
  from_code-Adds none p = constant-Adds 0
  from_code-Adds (some from) p = p

  step_code-Adds :
      (step : Option Code) → WhenSome (Adds fields 1) step → Adds fields 1 (step_code step)
  step_code-Adds none p = constant-Adds 1
  step_code-Adds (some step) p = p

  pub for_code-Keeps :
      (slot : Slot) (from to step : Option Code) (loop end : Label) (body : Code)
      → IsEntry loop.name
      → IsEntry end.name
      → WhenSome (Adds fields 1) from
      → WhenSome (Adds fields 1) to
      → WhenSome (Adds fields 1) step
      → Keeps fields body
      → Keeps fields (for_code slot from to step loop end body)
  unfolding Keeps
  for_code-Keeps slot from to step loop end body hl he p q r k base =
      Runs-append fields base _ _ base (base + 2) base
        (Runs-append fields base _ (step_code step) base (base + 1) (base + 2)
          (Runs-append fields base _ _ base base (base + 1)
            (Runs-append fields base _ body base base base
              (Runs-append fields base _ (for_guard slot to step end) base base base
                (Runs-append fields base (from_code from) _ base (base + 1) base
                  (Adds-Runs base base (from_code from) (from_code-Adds from p)) (grind arith))
                (guard-Runs base slot to step end he q r))
              (k base))
            (grind arith))
          (Adds-from base (base + 1) (base + 2) (step_code step) (step_code-Adds step r)
            (omega arith)))
        (grind arith)

  -- The test of a case, its body, and what follows
  pub case-Keeps :
      (test body rest : Code) (end next : Label)
      → IsEntry end.name
      → IsEntry next.name
      → Keeps fields test
      → Keeps fields body
      → Keeps fields rest
      → Keeps fields (test ++ body ++ (jmp end ∷ label next.name ∷ []) ++ rest)
  unfolding Keeps
  case-Keeps test body rest end next he hn p q r base =
      Runs-append fields base _ rest base base base
        (Runs-append fields base _ _ base base base
          (Runs-append fields base test body base base base (p base) (q base)) (grind arith))
        (r base)

  pub selection-Keeps :
      (selector cases other : Code) (end : Label)
      → IsEntry end.name
      → Keeps fields selector
      → Keeps fields cases
      → Keeps fields other
      → Keeps fields (selector ++ cases ++ other ++ label end.name ∷ [])
  unfolding Keeps
  selection-Keeps selector cases other end he p q r base =
      Runs-append fields base _ _ base base base
        (Runs-append fields base _ other base base base
          (Runs-append fields base selector cases base base base (p base) (q base)) (r base))
        (grind arith)
