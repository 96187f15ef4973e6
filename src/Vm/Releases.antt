-- ===== src/Vm/Releases.antt =====
-- crates/vm-interp/src/interpreter.rs: the references that a run releases at its end.
use rapira.Prelude.{
  ℕ, ◌+◌, ◌≡◌, ◌≢◌, refl, ◌∙◌, arith, ◌==◌, if◌then◌else◌, List, [], ◌∷◌, Option, none, some, Bool,
}
use rapira.Prelude.Int.{ℤ, pos, ◌-ℤ◌, leb_ℤ}
use rapira.Object.{as_ptr}
use rapira.Outcome.{Outcome, ok, err, panic}
use rapira.Runtime.{Runtime}
use rapira.Vm.{Exec, ◌>>◌, Machine, InterpreterError, dec_ref_if_ptr, updated}
use rapira.Vm.Run.{release_all, drain}

-- How often an object stands in a list of values
abbrev pub held_by : ℕ → Option ℕ → ℕ
held_by p none = 0
held_by p (some q) = if q == p then 1 else 0

unfoldable pub places : ℕ → List ℕ → ℕ
places p [] = 0
places p (obj ∷ objects) = held_by p (as_ptr obj) + places p objects

-- An object whose count is its own, and which no other object holds: a count that is set is read back and
-- leaves the others, and freeing another object leaves this one's.
pub record IsCounted (R : Runtime) (p : ℕ) : Type 0 where
  pub own : (count : ℤ) (heap : R.Heap) → R.refcount p (R.set_refcount p count heap) ≡ count
  pub other :
      (q : ℕ) (count : ℤ) (heap : R.Heap)
      → q ≢ p
      → R.refcount p (R.set_refcount q count heap) ≡ R.refcount p heap
  pub freed :
      (q : ℕ) (heap heap' : R.Heap)
      → q ≢ p
      → R.free_object q heap ≡ some heap'
      → R.refcount p heap' ≡ R.refcount p heap

module _ {R : Runtime} where
  abbrev heap_of : Outcome InterpreterError (Unit {0}) × Machine R → R.Heap
  heap_of r = r.1.heap

  -- The end of a release: the object is freed where its count is used up.
  abbrev settled :
      Bool → Option R.Heap → R.Heap → Machine R → Outcome InterpreterError (Unit {0}) × Machine R
  settled last after heap m =
      if last then updated (record m { heap = heap }) after else (ok tt, record m { heap = heap })

  abbrev count_at : ℕ → Machine R → ℤ
  count_at q m = R.refcount q m.heap -ℤ pos 1

  abbrev set_at : ℕ → Machine R → R.Heap
  set_at q m = R.set_refcount q (count_at q m) m.heap

  abbrev release_at : ℕ → Machine R → Outcome InterpreterError (Unit {0}) × Machine R
  release_at q m =
      if q == 0
      then (ok tt, m)
      else settled (leb_ℤ (count_at q m) (pos 0)) (R.free_object q (set_at q m)) (set_at q m) m

  updated-stack :
      (m : Machine R) (heap : Option R.Heap) → (updated m heap).1.operand_stack ≡ m.operand_stack
  updated-stack m none = refl
  updated-stack m (some heap) = refl

  dec_ref-stack :
      (obj : ℕ) (m : Machine R) → (dec_ref_if_ptr obj m).1.operand_stack ≡ m.operand_stack
  unfolding dec_ref_if_ptr
  dec_ref-stack obj m = grind (arith, updated-stack)

  then-stack :
      (k : Exec R (Unit {0})) (r : Outcome InterpreterError (Unit {0}) × Machine R)
      → ((m : Machine R) → (k m).1.operand_stack ≡ m.operand_stack)
      → (((λ m. r) >> k) r.1).1.operand_stack ≡ r.1.operand_stack
  then-stack k (ok t, m) h = h m
  then-stack k (err e, m) h = refl
  then-stack k (panic, m) h = refl

  release_all-stack :
      (objects : List ℕ) (m : Machine R) → (release_all objects m).1.operand_stack ≡ m.operand_stack
  unfolding release_all
  release_all-stack [] m = refl
  release_all-stack (obj ∷ objects) m =
      then-stack (release_all objects) (dec_ref_if_ptr obj m) (release_all-stack objects)
      ∙ dec_ref-stack obj m

  pub drain-stack : (m : Machine R) → (drain m).1.operand_stack ≡ []
  unfolding drain
  drain-stack m = release_all-stack m.operand_stack (record m { operand_stack = [] })

  -- The machine at the entry point
  abbrev pub at_main : Machine R → Machine R
  at_main m = record m { decoder = record m.decoder { ip = m.decoder.bf.main_offset } }
