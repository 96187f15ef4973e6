-- ===== src/Vm/Stack.antt =====
-- crates/vm-interp/src/interpreter.rs: the discipline of the operand stack.
use rapira.Prelude.{
  ℕ, ◌+◌, ◌≤◌, ◌<◌, ◌≡◌, ◌≢◌, refl, inl, inr, Bool-cases, leb→lt, some, List, [], ◌∷◌, ◌++◌, arith,
  leb, leb-false, length, length-append,
}
use rapira.Outcome.{ok, panic}
use rapira.Runtime.{Runtime}
use rapira.Vm.{Machine, max_operand_stack_size, unsnoc, push, pop, ◌>>◌}

unsnoc-append {ℓ} : {A : Type ℓ} (xs : List A) (x : A) → unsnoc (xs ++ x ∷ []) ≡ some (xs, x)
unfolding unsnoc
unsnoc-append [] x = refl
unsnoc-append (y ∷ ys) x = rw (unsnoc-append ys x)

module _ {R : Runtime} where
  -- Above the globals, `pop` takes the last value.
  pub pop_lem :
      (xs : List ℕ) (x : ℕ) (m : Machine R)
      → m.operand_stack ≡ xs ++ x ∷ []
      → m.global_areas_size ≤ length xs
      → pop m ≡ (ok x, record m { operand_stack = xs })
  unfolding pop
  pop_lem xs x m e h = rw (
    e,
    leb-false (length (xs ++ x ∷ [])) m.global_areas_size
        (omega (arith, length-append xs (x ∷ []))),
    unsnoc-append xs x,
  )

  pub push_lem :
      (x : ℕ) (m : Machine R)
      → length m.operand_stack < max_operand_stack_size
      → push x m ≡ (ok tt, record m { operand_stack = m.operand_stack ++ x ∷ [] })
  unfolding push
  push_lem x m h = rw (leb-false max_operand_stack_size (length m.operand_stack) h)

  -- A value pushed below the stack's limit and above the globals is popped again, and the machine is
  -- as it was.
  pub pop-push :
      (x : ℕ) (m : Machine R)
      → m.global_areas_size ≤ length m.operand_stack
      → length m.operand_stack < max_operand_stack_size
      → (push x >> pop) m ≡ (ok x, m)
  pop-push x m above below = rw (push_lem x m below) (
      pop_lem m.operand_stack x (record m { operand_stack = m.operand_stack ++ x ∷ [] }) refl above)

unsnoc-cons :
    (y : ℕ) (ys : List ℕ)
    → (rest : List ℕ) × (last : ℕ) × (unsnoc (y ∷ ys) ≡ some (rest, last))
      × (length rest ≡ length ys)
unfolding unsnoc
unsnoc-cons y [] = ([], y, refl, refl)
unsnoc-cons y (z ∷ zs) =
    let (rest, last, e, n) = unsnoc-cons z zs in (y ∷ rest, last, rw e, omega (arith, n))

unsnoc-pos :
    (xs : List ℕ)
    → 0 < length xs
    → (rest : List ℕ) × (last : ℕ) × (unsnoc xs ≡ some (rest, last)) × (length rest + 1 ≡ length xs)
unsnoc-pos [] h = absurd (omega (arith, h))
unsnoc-pos (y ∷ ys) h =
    let (rest, last, e, n) = unsnoc-cons y ys in (rest, last, e, omega (arith, n))

-- The stack holds the globals, and no more values than it may.
abbrev pub IsBounded : {R : Runtime} → Machine R → Type 0
IsBounded m =
    (m.global_areas_size ≤ length m.operand_stack)
    × (length m.operand_stack ≤ max_operand_stack_size)

module _ {R : Runtime} where
  push-IsBounded :
      (x : ℕ) (m : Machine R) → IsBounded m → IsBounded (push x m).1 × ((push x m).0 ≢ panic)
  unfolding push
  push-IsBounded x m (above, below) =
      elim (Bool-cases (leb max_operand_stack_size (length m.operand_stack))) [
        | inl full ↦ rw full ((above, below), λ e. cc)
        | inr room ↦
            let more = leb→lt max_operand_stack_size (length m.operand_stack) room in
            let size = length-append m.operand_stack (x ∷ []) in
            rw room ((omega (arith, size), omega (arith, size, more)), λ e. cc)
      ]

  pop-IsBounded : (m : Machine R) → IsBounded m → IsBounded (pop m).1 × ((pop m).0 ≢ panic)
  unfolding pop
  pop-IsBounded m (above, below) =
      elim (Bool-cases (leb (length m.operand_stack) m.global_areas_size)) [
        | inl empty ↦ rw empty ((above, below), λ e. cc)
        | inr more ↦
            let some_value = leb→lt (length m.operand_stack) m.global_areas_size more in
            let (rest, last, e, n) = unsnoc-pos m.operand_stack (omega (arith, some_value)) in
            rw (more, e) ((omega (arith, n, some_value), omega (arith, n, below)), λ e. cc)
      ]

  -- On a stack that holds the globals and no more values than it may, neither `push` nor `pop`
  -- panics, and each leaves such a stack, on an error too.
  pub IsBounded-kept :
      (x : ℕ) (m : Machine R)
      → IsBounded m
      → (IsBounded (push x m).1 × ((push x m).0 ≢ panic))
        × (IsBounded (pop m).1 × ((pop m).0 ≢ panic))
  IsBounded-kept x m h = (push-IsBounded x m h, pop-IsBounded m h)
