-- ===== src/Vm/Returns.antt =====
-- crates/vm-interp/src/interpreter.rs: what END leaves of a frame.
use rapira.Prelude.{
  ◌%◌, ℕ, ◌+◌, ◌-◌, ◌^◌, ◌≤◌, ◌<◌, ◌≡◌, refl, sym, ap, ◌∙◌, some, Bool-cases, inl, inr, ◌==◌,
  if◌then◌else◌, List, [], ◌∷◌, ◌++◌, append_assoc, append-nil, arith, ltb-false, leb-false, length,
  length-append, take, take-append, drop-append, get_elem?, get_elem?-append,
}
use rapira.Prelude.Int.{pos}
use rapira.Outcome.{ok}
use rapira.Object.{new_boxed, unbox, to_u64}
use rapira.Object.Boxing.{unbox-new_boxed}
use rapira.Runtime.{Runtime}
use rapira.Vm.{Machine, max_operand_stack_size, finished, dispatch_next}
use rapira.Vm.Slots.{frame_stack_value, frame_return_pointer, frame_return_ip}
use rapira.Vm.Control.{dec_all, restore_counts, eval_end}
use rapira.Vm.Stack.{pop_lem, push_lem}
use rapira.Vm.SmallIntegers.{with_stack}

-- The frame of a call, with the numbers of where to return to.
abbrev pub frame_words : ℕ → ℕ → ℕ → ℕ → ℕ → List ℕ → List ℕ
frame_words closure argc localc fp ip slots =
    closure ∷ argc ∷ localc ∷ new_boxed (pos fp) ∷ new_boxed (pos ip) ∷ slots

-- A machine at the end of a call: the values below, the arguments, the frame with its locals, and the
-- value to return.
pub record Ending {R : Runtime} (m : Machine R) (below arguments slots : List ℕ)
    (closure argc localc fp ip value : ℕ) : Type 0 where
  pub stack :
      m.operand_stack
      ≡ (below ++ (arguments ++ frame_words closure argc localc fp ip slots)) ++ value ∷ []
  pub frame : m.frame_pointer ≡ length below + length arguments
  pub arg_count : m.frame_arg_count ≡ length arguments
  pub local_count : m.frame_local_count ≡ length slots
  pub globals : m.global_areas_size ≤ length below
  pub size : length m.operand_stack ≤ max_operand_stack_size
  pub fp_fits : fp < 2 ^ 31
  pub ip_fits : ip < 2 ^ 31

as_number : (n : ℕ) → n < 2 ^ 31 → to_u64 (unbox (new_boxed (pos n))) ≡ n
as_number n h = ap to_u64 (unbox-new_boxed (pos n) (h, omega arith)) ∙ omega (arith, h)

frame_slot :
    (below arguments before after : List ℕ) (x n : ℕ)
    → n ≡ length below + length arguments + length before
    → get_elem? (below ++ (arguments ++ (before ++ x ∷ after))) n ≡ some x
frame_slot below arguments before after x n e =
    let inner : arguments ++ (before ++ x ∷ after) ≡ (arguments ++ before) ++ x ∷ after =
      sym (append_assoc arguments before (x ∷ after)) in
    let outer : below ++ ((arguments ++ before) ++ x ∷ after)
        ≡ (below ++ (arguments ++ before)) ++ x ∷ after =
      sym (append_assoc below (arguments ++ before) (x ∷ after)) in
    ap (λ s. get_elem? s n) (ap (λ s. below ++ s) inner ∙ outer)
    ∙ get_elem?-append (below ++ (arguments ++ before)) after x n (
        omega (arith, e, length-append below (arguments ++ before), length-append arguments before))

take_whole : (xs : List ℕ) (n : ℕ) → n ≡ length xs → take n xs ≡ xs
take_whole xs n e = ap (take n) (sym (append-nil xs)) ∙ take-append xs [] n e

module _ {R : Runtime} where
  -- The machine after END has taken its frame away, and has not looked at the caller's.
  abbrev pub returned_to : Machine R → R.Heap → List ℕ → ℕ → ℕ → ℕ → Machine R
  returned_to m h below fp ip value = record m {
    operand_stack = below ++ value ∷ [];
    frame_pointer = fp;
    decoder = record m.decoder { ip = ip };
    heap = h;
  }

  -- The references of the arguments and of the frame are dropped, which leaves this heap.
  abbrev pub Released : Machine R → R.Heap → List ℕ → List ℕ → Type 0
  Released m h below words =
      dec_all words (with_stack m (below ++ words))
      ≡ (ok tt, record m { operand_stack = below ++ words; heap = h })

  end_lem :
      (m : Machine R) (h : R.Heap) (below arguments slots : List ℕ)
      (closure argc localc fp ip value : ℕ)
      → Ending m below arguments slots closure argc localc fp ip value
      → Released m h below (arguments ++ frame_words closure argc localc fp ip slots)
      → eval_end m ≡ restore_counts (returned_to m h below fp ip value)
  unfolding eval_end frame_return_pointer frame_return_ip frame_stack_value
  end_lem m h below arguments slots closure argc localc fp ip value s d =
      let frame = frame_words closure argc localc fp ip slots in
      let rest = below ++ (arguments ++ frame) in
      let height : length rest ≡ length below + (length arguments + (5 + length slots)) =
        omega (arith, length-append below (arguments ++ frame), length-append arguments frame) in
      let whole : length m.operand_stack ≡ length rest + 1 =
        ap length s.stack ∙ length-append rest (value ∷ []) in
      let start : m.frame_pointer - m.frame_arg_count ≡ length below =
        omega (arith, s.frame, s.arg_count) in
      let span : m.frame_pointer + (5 + m.frame_local_count) % 2 ^ 64 - length below
          ≡ length (arguments ++ frame) =
        omega
          (arith, s.frame, s.local_count, s.size, whole, height, length-append arguments frame) in
      rw (
        pop_lem rest value m s.stack (omega (arith, s.globals, height)),
        frame_slot below arguments (closure ∷ argc ∷ localc ∷ []) (new_boxed (pos ip) ∷ slots)
            (new_boxed (pos fp)) ((m.frame_pointer + 3) % 2 ^ 64)
            (omega (arith, s.frame, s.size, whole, height)),
        frame_slot below arguments (closure ∷ argc ∷ localc ∷ new_boxed (pos fp) ∷ []) slots
            (new_boxed (pos ip)) ((m.frame_pointer + 4) % 2 ^ 64)
            (omega (arith, s.frame, s.size, whole, height)),
        as_number fp s.fp_fits,
        as_number ip s.ip_fits,
        ltb-false m.frame_pointer m.frame_arg_count (omega (arith, s.frame, s.arg_count)),
        leb-false (2 ^ 64) (m.frame_pointer + (5 + m.frame_local_count) % 2 ^ 64)
            (omega (arith, s.frame, s.local_count, s.size, whole, height)),
        ltb-false (length rest) (m.frame_pointer + (5 + m.frame_local_count) % 2 ^ 64)
            (omega (arith, s.frame, s.local_count, s.size, whole, height)),
        start,
        span,
        drop-append below (arguments ++ frame) (length below) refl,
        take_whole (arguments ++ frame) (length (arguments ++ frame)) refl,
        d,
        take-append below (arguments ++ frame) (length below) refl,
        push_lem value
            (record m {
              operand_stack = below;
              frame_pointer = fp;
              decoder = record m.decoder { ip = ip };
              heap = h;
            })
            (omega (arith, s.size, whole, height)),
      )

  -- END, on a machine at the end of a call, releases the arguments and the frame and leaves on the
  -- values below it just the value to return. The frame pointer and the position are those that the
  -- frame held. In the frame of the entry point it ends the run; else it goes on with the counts that
  -- the caller's frame holds.
  pub end_returns :
      (m : Machine R) (h : R.Heap) (below arguments slots : List ℕ)
      (closure argc localc fp ip value caller_args caller_locals : ℕ)
      → Ending m below arguments slots closure argc localc fp ip value
      → Released m h below (arguments ++ frame_words closure argc localc fp ip slots)
      → caller_args < 2 ^ 31
      → caller_locals < 2 ^ 31
      → get_elem? (below ++ value ∷ []) (fp + 1) ≡ some (new_boxed (pos caller_args))
      → get_elem? (below ++ value ∷ []) (fp + 2) ≡ some (new_boxed (pos caller_locals))
      → eval_end m ≡ (
          if fp == m.global_areas_size then (ok finished, returned_to m h below fp ip value) else (
            ok dispatch_next,
            record (returned_to m h below fp ip value) {
              frame_arg_count = caller_args;
              frame_local_count = caller_locals;
            },
          ))
  unfolding restore_counts frame_stack_value
  end_returns m h below arguments slots closure argc localc fp ip value caller_args caller_locals s
        d ha hl ea el =
      let first : (fp + 1) % 2 ^ 64 ≡ fp + 1 = omega (arith, s.fp_fits) in
      let second : (fp + 2) % 2 ^ 64 ≡ fp + 2 = omega (arith, s.fp_fits) in
      elim (Bool-cases (fp == m.global_areas_size)) [
        | inl at ↦
            rw at (end_lem m h below arguments slots closure argc localc fp ip value s d ∙ rw at)
        | inr off ↦ rw off (
            end_lem m h below arguments slots closure argc localc fp ip value s d
            ∙ rw (off, first, ea, second, el, as_number caller_args ha, as_number caller_locals hl))
      ]
