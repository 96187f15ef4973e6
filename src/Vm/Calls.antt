-- ===== src/Vm/Calls.antt =====
-- crates/vm-interp/src/interpreter.rs: a call, from its BEGIN to its END.
use rapira.Prelude.{
  ℕ, ◌+◌, ◌%◌, ◌^◌, ◌≤◌, ◌<◌, ◌≡◌, ◌≢◌, refl, sym, some, List, [], ◌∷◌, ◌++◌, append_assoc, arith,
  ==-false, length, length-append, length-replicate, replicate, get_elem?,
}
use rapira.Prelude.Int.{pos}
use rapira.Outcome.{ok}
use rapira.Numeric.{to_le_bytes}
use rapira.Decoder.Reads.{Ahead, advance}
use rapira.Object.{new_empty, new_boxed}
use rapira.Runtime.{Runtime}
use rapira.Vm.{Machine, Exec, Flow, max_operand_stack_size, dispatch_next, push, ◌>>=◌, ◌>>◌}
use rapira.Vm.Words.{high_half}
use rapira.Vm.Control.{eval_begin, eval_end}
use rapira.Vm.Stack.{push_lem}
use rapira.Vm.Frames.{frame_of, begin_lem}
use rapira.Vm.Returns.{Released, end_returns}

module _ {R : Runtime} where
  -- A function that just returns a value, behind its BEGIN
  abbrev pub call_of : ℕ → Exec R Flow
  call_of value = eval_begin >>= λ flow. push value >> eval_end

  -- The machine in the function's frame, but for the stack
  abbrev pub entered : Machine R → ℕ → ℕ → ℕ → Machine R
  entered m args locals height = record m {
    frame_pointer = height;
    frame_arg_count = args;
    frame_local_count = locals;
    decoder = advance 8 m.decoder;
  }

  -- BEGIN, a pushed value and END, called from a function that is not the entry point, with the
  -- arguments and the return address on the stack, the caller's counts in its frame, and room for the
  -- frame and the value, give back the caller's machine: the arguments and the address are replaced by
  -- the value, the position is the address, the heap is what releasing the frame leaves, and all else
  -- is as it was.
  pub call_returns :
      (payload locals ip value : ℕ) (below arguments rest : List ℕ) (m : Machine R) (h : R.Heap)
      → payload < 2 ^ 32
      → locals < 2 ^ 31
      → ip < 2 ^ 31
      → m.frame_pointer < 2 ^ 31
      → m.frame_arg_count < 2 ^ 31
      → m.frame_local_count < 2 ^ 31
      → Ahead m.decoder (to_le_bytes 4 payload ++ (to_le_bytes 4 locals ++ rest))
      → m.operand_stack ≡ (below ++ arguments) ++ new_boxed (pos ip) ∷ []
      → length arguments ≡ payload % 2 ^ 16
      → m.global_areas_size ≤ length below
      → m.frame_pointer ≢ m.global_areas_size
      → (length below + length arguments + 1 + high_half payload) % 2 ^ 64 ≤ max_operand_stack_size
      → length below + length arguments + 6 + locals ≤ max_operand_stack_size
      → get_elem? (below ++ value ∷ []) (m.frame_pointer + 1)
        ≡ some (new_boxed (pos m.frame_arg_count))
      → get_elem? (below ++ value ∷ []) (m.frame_pointer + 2)
        ≡ some (new_boxed (pos m.frame_local_count))
      → Released
          (entered m (payload % 2 ^ 16) locals (length below + length arguments))
          h
          below
          (arguments ++ frame_of (payload % 2 ^ 16) locals m.frame_pointer (new_boxed (pos ip)))
      → call_of value m ≡ (
        ok dispatch_next,
        record m {
          operand_stack = below ++ value ∷ [];
          decoder = record m.decoder { ip = ip };
          heap = h;
        },
      )
  call_returns payload locals ip value below arguments rest m h fits small hip hfp hargs hlocals
        ahead e count globals inner declared room ea el released =
      let height = length-append below arguments in
      let frame = frame_of (payload % 2 ^ 16) locals m.frame_pointer (new_boxed (pos ip)) in
      let slots = replicate locals (new_boxed (pos 0)) in
      let whole : length (below ++ (arguments ++ frame))
          ≡ length below + length arguments + (5 + locals) =
        omega (
          arith,
          length-append below (arguments ++ frame),
          length-append arguments frame,
          length-replicate locals (new_boxed (pos 0)),
        ) in
      let f = entered m (payload % 2 ^ 16) locals (length below + length arguments) in
      let full = (below ++ (arguments ++ frame)) ++ value ∷ [] in
      rw (
        begin_lem payload locals (new_boxed (pos ip)) (below ++ arguments) rest m fits small ahead e
            (omega (arith, globals, height)) (omega (arith, count, height)) (rw height declared)
            (omega (arith, room, height)),
        height,
        append_assoc below arguments frame,
        push_lem value (record f { operand_stack = below ++ (arguments ++ frame) })
            (omega (arith, whole, room)),
        end_returns (record f { operand_stack = full }) h below arguments slots new_empty
            (new_boxed (pos (payload % 2 ^ 16))) (new_boxed (pos locals)) m.frame_pointer ip value
            m.frame_arg_count m.frame_local_count
            (record {
              stack = refl;
              frame = refl;
              arg_count = sym count;
              local_count = sym (length-replicate locals (new_boxed (pos 0)));
              globals = globals;
              size =
                  omega (
                    arith,
                    whole,
                    room,
                    length-append (below ++ (arguments ++ frame)) (value ∷ []),
                  );
              fp_fits = hfp;
              ip_fits = hip;
            })
            released hargs hlocals ea el,
        ==-false m.frame_pointer m.global_areas_size inner,
      )
