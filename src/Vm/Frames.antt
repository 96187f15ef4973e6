-- ===== src/Vm/Frames.antt =====
-- crates/vm-interp/src/interpreter.rs: what BEGIN puts on the stack.
use rapira.Prelude.{
  ℕ, zero, suc, ◌+◌, ◌%◌, ◌^◌, ◌≤◌, ◌<◌, ◌≡◌, refl, sym, ap, ◌∙◌, List, [], ◌∷◌, ◌++◌, append_assoc,
  append-nil, arith, ltb-false, leb-false, length, length-append, replicate,
}
use rapira.Prelude.Int.{pos}
use rapira.Outcome.{ok}
use rapira.Numeric.{to_le_bytes, length-to_le_bytes}
use rapira.Decoder.Reads.{Ahead, advance, Ahead-advance, advance-advance, next_lem}
use rapira.Object.{new_empty, new_boxed}
use rapira.Runtime.{Runtime}
use rapira.Vm.{Machine, max_operand_stack_size, dispatch_next, push}
use rapira.Vm.Words.{high_half}
use rapira.Vm.Control.{push_locals, eval_begin}
use rapira.Vm.Stack.{pop_lem, push_lem}
use rapira.Vm.SmallIntegers.{with_stack}

-- A frame above its arguments: the slot of the closure, the counts, where to return to, the locals.
abbrev pub frame_of : ℕ → ℕ → ℕ → ℕ → List ℕ
frame_of args locals return_frame_pointer return_ip =
    new_empty
    ∷ new_boxed (pos args)
    ∷ new_boxed (pos locals)
    ∷ new_boxed (pos return_frame_pointer)
    ∷ return_ip
    ∷ replicate locals (new_boxed (pos 0))

module _ {R : Runtime} where
  push_end :
      (x : ℕ) (xs ys : List ℕ) (m : Machine R)
      → length xs + length ys < max_operand_stack_size
      → push x (with_stack m (xs ++ ys)) ≡ (ok tt, with_stack m (xs ++ (ys ++ x ∷ [])))
  push_end x xs ys m h =
      push_lem x (with_stack m (xs ++ ys)) (omega (arith, h, length-append xs ys))
      ∙ ap (λ s. (ok tt, with_stack m s)) (append_assoc xs ys (x ∷ []))

  push_locals_lem :
      (n : ℕ) (xs ys : List ℕ) (m : Machine R)
      → length xs + length ys + n ≤ max_operand_stack_size
      → push_locals n (with_stack m (xs ++ ys))
        ≡ (ok tt, with_stack m (xs ++ (ys ++ replicate n (new_boxed (pos 0)))))
  unfolding push_locals
  push_locals_lem zero xs ys m h = rw (append-nil ys)
  push_locals_lem (suc n) xs ys m h =
      let zero_ = new_boxed (pos 0) in
      rw (push_end zero_ xs ys m (omega (arith, h))) (
        push_locals_lem n xs (ys ++ zero_ ∷ []) m (omega (arith, h, length-append ys (zero_ ∷ [])))
        ∙ ap (λ s. (ok tt, with_stack m (xs ++ s)))
            (append_assoc ys (zero_ ∷ []) (replicate n zero_)))

  -- BEGIN, with its operands ahead, a return address on the stack above the globals and the arguments,
  -- and room for the frame, pops the address, makes the stack's height the frame pointer, and puts
  -- exactly the frame on the stack; it stands behind its operands and changes nothing else.
  pub begin_lem :
      (payload locals return_ip : ℕ) (below rest : List ℕ) (m : Machine R)
      → payload < 2 ^ 32
      → locals < 2 ^ 31
      → Ahead m.decoder (to_le_bytes 4 payload ++ (to_le_bytes 4 locals ++ rest))
      → m.operand_stack ≡ below ++ return_ip ∷ []
      → m.global_areas_size ≤ length below
      → payload % 2 ^ 16 ≤ length below
      → (length below + 1 + high_half payload) % 2 ^ 64 ≤ max_operand_stack_size
      → length below + 5 + locals ≤ max_operand_stack_size
      → eval_begin m ≡ (
        ok dispatch_next,
        record m {
          operand_stack = below ++ frame_of (payload % 2 ^ 16) locals m.frame_pointer return_ip;
          frame_pointer = length below;
          frame_arg_count = payload % 2 ^ 16;
          frame_local_count = locals;
          decoder = advance 8 m.decoder;
        },
      )
  unfolding eval_begin
  begin_lem payload locals return_ip below rest m fits small ahead e globals args declared room =
      let ahead' =
        Ahead-advance (to_le_bytes 4 payload) _ 4 m.decoder (sym (length-to_le_bytes 4 payload))
          ahead in
      let height : length m.operand_stack ≡ length below + 1 =
        ap length e ∙ length-append below (return_ip ∷ []) in
      let f₁ = new_empty in
      let f₂ = new_boxed (pos (payload % 2 ^ 16)) in
      let f₃ = new_boxed (pos locals) in
      let f₄ = new_boxed (pos m.frame_pointer) in
      let f = record m {
        frame_pointer = length below;
        frame_arg_count = payload % 2 ^ 16;
        frame_local_count = locals;
        decoder = advance 8 m.decoder;
      } in
      rw (
        next_lem 4 payload _ m.decoder fits ahead,
        next_lem 4 locals rest (advance 4 m.decoder) (omega (arith, small)) ahead',
        leb-false (2 ^ 31) locals small,
        height,
        ltb-false max_operand_stack_size _ declared,
        advance-advance 4 4 8 m.decoder refl,
        pop_lem below return_ip (record m { decoder = advance 8 m.decoder }) e globals,
        ltb-false (length below) (payload % 2 ^ 16) args,
        push_lem new_empty (with_stack f below) (omega (arith, room)),
        push_end (new_boxed (pos (payload % 2 ^ 16))) below (f₁ ∷ []) f (omega (arith, room)),
        push_end (new_boxed (pos locals)) below (f₁ ∷ f₂ ∷ []) f (omega (arith, room)),
        push_end (new_boxed (pos m.frame_pointer)) below (f₁ ∷ f₂ ∷ f₃ ∷ []) f
            (omega (arith, room)),
        push_end return_ip below (f₁ ∷ f₂ ∷ f₃ ∷ f₄ ∷ []) f (omega (arith, room)),
        push_locals_lem locals below (f₁ ∷ f₂ ∷ f₃ ∷ f₄ ∷ return_ip ∷ []) f (omega (arith, room)),
      )
