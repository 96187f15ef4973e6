-- ===== src/Vm/Elements.antt =====
-- crates/vm-interp/src/interpreter.rs: what ELEM asks of the runtime.
use rapira.Prelude.{
  ℕ, ◌^◌, ◌<◌, ◌≤◌, ◌≡◌, ◌≢◌, refl, sym, ltb-true, ◌∙◌, arith, length, length-append, append_assoc,
  List, [], ◌∷◌, ◌++◌, Bool, Option, none, some, true, false,
}
use rapira.Prelude.Int.{ℤ, pos, negsuc}
use rapira.Outcome.{Outcome, ok, err, panic}
use rapira.Object.{new_boxed, unbox}
use rapira.Object.Boxing.{unbox-new_boxed}
use rapira.Runtime.{Runtime}
use rapira.Vm.{
  Machine, InterpreterError, Exec, ◌>>=◌, ◌>>◌, pure, fail_if, runtime, dispatch_next, push,
  dec_ref_if_ptr, updated, returned,
}
use rapira.Vm.Aggregates.{eval_elem, out_of_range, u32_try_from}
use rapira.Vm.Stack.{pop_lem}

-- An index that the test lets pass is an index of the collection.
in_range :
    (index : ℤ) (n : ℕ) → out_of_range index (pos n) ≡ false → (i : ℕ) × (index ≡ pos i) × (i < n)
unfolding out_of_range
in_range (pos k) n e = (k, refl, grind arith)
in_range (negsuc k) n e = absurd (grind (arith, e))

module _ {R : Runtime} where
  -- Computations that do not panic
  abbrev NeverPanics : {A : Type 0} → Exec R A → Type 0
  NeverPanics x = (m : Machine R) → (x m).0 ≢ panic

  and_then-NeverPanics :
      {A B : Type 0} (k : A → Exec R B) (r : Outcome InterpreterError A × Machine R)
      → ((a : A) → NeverPanics (k a))
      → r.0 ≢ panic
      → (((λ m. r) >>= k) r.1).0 ≢ panic
  and_then-NeverPanics k (ok a, m) h p = h a m
  and_then-NeverPanics k (err e, m) h p = λ q. cc
  and_then-NeverPanics k (panic, m) h p = λ q. p refl

  push-NeverPanics : (x : ℕ) → NeverPanics (push x)
  unfolding push
  push-NeverPanics x m = ground arith

  updated-NeverPanics :
      (m : Machine R) (heap : Option R.Heap) → heap ≢ none → (updated m heap).0 ≢ panic
  updated-NeverPanics m none h = λ q. h refl
  updated-NeverPanics m (some heap) h = λ q. cc

  returned-NeverPanics :
      (m : Machine R) (r : Option (ℕ × R.Heap)) → r ≢ none → (returned m r).0 ≢ panic
  returned-NeverPanics m none h = λ q. h refl
  returned-NeverPanics m (some (value, heap)) h = λ q. cc

  dec_ref-NeverPanics :
      ((address : ℕ) (heap : R.Heap) → R.free_object address heap ≢ none)
      → (obj : ℕ) → NeverPanics (dec_ref_if_ptr obj)
  unfolding dec_ref_if_ptr
  dec_ref-NeverPanics h obj m = grind (arith, updated-NeverPanics, h)

  then-NeverPanics :
      {A : Type 0} (x : Exec R (Unit {0})) (y : Exec R A)
      → NeverPanics x
      → NeverPanics y
      → NeverPanics (x >> y)
  then-NeverPanics x y p q m = and_then-NeverPanics (λ _. y) (x m) (λ _. q) (p m)

  element-NeverPanics :
      (collection index_obj index : ℕ)
      → ((address : ℕ) (heap : R.Heap) → R.free_object address heap ≢ none)
      → (m : Machine R) → R.get_tuple_item collection index m.heap ≢ none
      → ((runtime (R.get_tuple_item collection index) >>= λ element.
            push element
            >> (dec_ref_if_ptr collection >> (dec_ref_if_ptr index_obj >> pure dispatch_next)))
          m).0
        ≢ panic
  element-NeverPanics collection index_obj index free m h =
      let released = dec_ref-NeverPanics free in
      and_then-NeverPanics _ (returned m (R.get_tuple_item collection index m.heap))
        (λ element. then-NeverPanics _ _ (push-NeverPanics element) (
          then-NeverPanics _ _ (released collection)
            (then-NeverPanics _ _ (released index_obj) (λ m' q. cc))))
        (returned-NeverPanics m (R.get_tuple_item collection index m.heap) h)

  fail_if-panic :
      {A : Type 0} (test : Bool) (e : InterpreterError) (k : Unit {0} → Exec R A) (m : Machine R)
      → (test ≡ false → (k tt m).0 ≢ panic)
      → ((fail_if test e >>= k) m).0 ≢ panic
  fail_if-panic true e k m h = λ q. cc
  fail_if-panic false e k m h = h refl

  u32_try_from-panic :
      {A : Type 0} (index : ℤ) (i : ℕ) (k : ℕ → Exec R A) (m : Machine R)
      → index ≡ pos i
      → i < 2 ^ 32
      → (k i m).0 ≢ panic
      → ((u32_try_from index >>= k) m).0 ≢ panic
  unfolding u32_try_from
  u32_try_from-panic index i k m e small h = rw (e, ltb-true i (2 ^ 32) small) h

  -- ELEM on a collection and an index, above the globals, never panics, whatever the index is: where the
  -- runtime tells the collection's length, which is below 2 ^ 31, has each element below it, and can
  -- free every object.
  pub elem_never_panics :
      (m : Machine R) (xs : List ℕ) (collection index_obj n : ℕ) (heap : R.Heap)
      → m.operand_stack ≡ xs ++ collection ∷ index_obj ∷ []
      → m.global_areas_size ≤ length xs
      → n < 2 ^ 31
      → R.length collection m.heap ≡ some (new_boxed (pos n), heap)
      → ((i : ℕ) → i < n → R.get_tuple_item collection i heap ≢ none)
      → ((address : ℕ) (heap : R.Heap) → R.free_object address heap ≢ none)
      → (eval_elem m).0 ≢ panic
  unfolding eval_elem
  elem_never_panics m xs collection index_obj n heap stack above small answer items free =
      rw
        (
          pop_lem (xs ++ collection ∷ []) index_obj m
              (stack ∙ sym (append_assoc xs (collection ∷ []) (index_obj ∷ [])))
              (omega (arith, length-append xs (collection ∷ []), above)),
          pop_lem xs collection (record m { operand_stack = xs ++ collection ∷ [] }) refl above,
          answer,
          unbox-new_boxed (pos n) (small, omega arith),
        )
        (fail_if-panic _ _ _ (record m { operand_stack = xs; heap = heap })
          (λ e.
            let (i, e', below) = in_range (unbox index_obj) n e in
            u32_try_from-panic (unbox index_obj) i _ _ e' (omega (arith, below, small))
              (element-NeverPanics collection index_obj i free _ (items i below))))
