-- ===== src/Vm/Control.antt =====
-- crates/vm-interp/src/interpreter.rs: the handlers of jumps, calls and frames.
-- Each ends by dispatching the next instruction, but for the END that returns from the entry point.
use rapira.Prelude.{
  ℕ, zero, suc, ◌+◌, ◌-◌, ◌%◌, ◌^◌, Bool, not, ◌||◌, List, [], ◌∷◌, ◌++◌, ◌==◌, ltb, leb,
  if◌then◌else◌, length, get_elem?, take, drop, bit_and,
}
use rapira.Prelude.Int.{pos}
use rapira.Bytecode.{CompareJumpKind, is_zero, is_nonzero}
use rapira.Decoder.{next}
use rapira.Object.{new_empty, new_boxed, unbox, get_bool, to_u64}
use rapira.Runtime.{Runtime}
use rapira.Vm.{
  stack_overflow, invalid_object_pointer, invalid_opcode, invalid_type, not_enough_arguments,
  callable_arity_mismatch, max_operand_stack_size, Flow, dispatch_next, finished, Exec, ◌>>=◌, ◌>>◌,
  pure, raise, fail, gets, modify, fail_if, ok_or, or_panic, map_err, read, runtime, push, pop,
  dec_ref_if_ptr,
}
use rapira.Vm.Slots.{frame_stack_value, frame_return_pointer, frame_return_ip}
use rapira.Vm.Words.{as_usize, is_negative, high_half}

-- `Vec::remove` at an index inside the stack
abbrev pub remove_at : ℕ → List ℕ → List ℕ
remove_at i stack = take i stack ++ drop (i + 1) stack

-- The jump of a conditional, by its kind and the boolean.
abbrev pub cjmp_taken : CompareJumpKind → Bool → Bool
cjmp_taken is_nonzero value = value
cjmp_taken is_zero value = not value

module _ {R : Runtime} where
  abbrev pub jump_to : ℕ → Exec R (Unit {0})
  jump_to ip = modify (λ m. record m { decoder = record m.decoder { ip = ip } })

  unfoldable pub eval_closure : Exec R Flow
  eval_closure = do
    offset ← read (next 4)
    arity ← read (next 4)
    fail_if (is_negative offset || is_negative arity) invalid_object_pointer
    callable ← runtime (R.create_callable offset arity)
    push callable
    pure dispatch_next

  unfoldable pub eval_callc : Exec R Flow
  eval_callc = do
    argument_count ← read (next 4)
    fail_if (is_negative argument_count) (not_enough_arguments "CALLC")
    stack ← gets (λ m. m.operand_stack)
    fail_if (ltb (length stack) (argument_count + 1)) (not_enough_arguments "CALLC")
    let callable_index = length stack - (argument_count + 1)
    callable ← or_panic (get_elem? stack callable_index)
    heap ← gets (λ m. m.heap)
    fail_if (not (R.is_callable callable heap)) (invalid_type "expected callable")
    let expected_arity = R.callable_arity callable heap
    fail_if (not (expected_arity == argument_count))
        (callable_arity_mismatch expected_arity argument_count)
    let entry = R.callable_entry callable heap
    modify (λ m. record m { operand_stack = remove_at callable_index m.operand_stack })
    dec_ref_if_ptr callable
    ip ← gets (λ m. m.decoder.ip)
    push (new_boxed (pos ip))
    jump_to entry
    pure dispatch_next

  -- `match self.current_opcode & 0x0f`
  abbrev pub cjmp_kind : ℕ → Exec R CompareJumpKind
  cjmp_kind opcode =
      if bit_and opcode 0x0f == 0
      then pure is_zero
      else if bit_and opcode 0x0f == 1
      then pure is_nonzero
      else raise (invalid_opcode opcode)

  unfoldable pub eval_cjmp : Exec R Flow
  eval_cjmp = do
    offset_at ← read (next 4)
    opcode ← gets (λ m. m.current_opcode)
    kind ← cjmp_kind opcode
    obj ← pop
    value ← ok_or (get_bool obj) (invalid_type "expected Bool")
    if cjmp_taken kind value then jump_to (as_usize offset_at) else pure tt
    pure dispatch_next

  unfoldable pub eval_call : Exec R Flow
  eval_call = do
    offset ← read (next 4)
    _ ← read (next 4)
    ip ← gets (λ m. m.decoder.ip)
    push (new_boxed (pos ip))
    jump_to (as_usize offset)
    pure dispatch_next

  -- the loop that releases the slots of a frame
  unfoldable pub dec_all : List ℕ → Exec R (Unit {0})
  dec_all [] = pure tt
  dec_all (object ∷ rest) = do dec_ref_if_ptr object; dec_all rest

  -- the last steps of END: at the frame of the entry point it returns, and else it reads the counts of
  -- the caller's frame
  unfoldable pub restore_counts : Exec R Flow
  restore_counts = do
    at_entry ← gets (λ m. m.frame_pointer == m.global_areas_size)
    if at_entry then pure finished else do
      argc ← frame_stack_value 1 "caller frame arg count"
      modify (λ m. record m { frame_arg_count = to_u64 (unbox argc) })
      localc ← frame_stack_value 2 "caller frame local count"
      modify (λ m. record m { frame_local_count = to_u64 (unbox localc) })
      pure dispatch_next

  unfoldable pub eval_end : Exec R Flow
  unfolding dec_all restore_counts
  eval_end = do
    return_value ← map_err (not_enough_arguments "END") pop
    argument_count ← gets (λ m. m.frame_arg_count)
    local_count ← gets (λ m. m.frame_local_count)
    return_frame_pointer ← frame_return_pointer
    return_ip ← frame_return_ip
    fp ← gets (λ m. m.frame_pointer)
    fail_if (ltb fp argument_count) (not_enough_arguments "END arguments")
    let arguments_start = fp - argument_count
    let frame_end = fp + (5 + local_count) % 2 ^ 64
    fail_if (leb (2 ^ 64) frame_end) stack_overflow
    stack ← gets (λ m. m.operand_stack)
    fail_if (ltb (length stack) frame_end) (not_enough_arguments "END frame")
    dec_all (take (frame_end - arguments_start) (drop arguments_start stack))
    modify (λ m. record m {
      operand_stack = take arguments_start m.operand_stack;
      frame_pointer = return_frame_pointer;
      decoder = record m.decoder { ip = return_ip };
    })
    push return_value
    restore_counts

  -- the loop that initialises the locals
  unfoldable pub push_locals : ℕ → Exec R (Unit {0})
  push_locals zero = pure tt
  push_locals (suc n) = do push (new_boxed (pos 0)); push_locals n

  unfoldable pub eval_begin : Exec R Flow
  unfolding push_locals
  eval_begin = do
    payload ← read (next 4)
    locals ← read (next 4)
    fail_if (is_negative locals) (not_enough_arguments "BEGIN locals")
    let args = payload % 2 ^ 16
    len ← gets (λ m. length m.operand_stack)
    fail_if (ltb max_operand_stack_size ((len + high_half payload) % 2 ^ 64)) stack_overflow
    ret_ip ← map_err (not_enough_arguments "BEGIN") pop
    ret_frame_pointer ← gets (λ m. m.frame_pointer)
    rest ← gets (λ m. length m.operand_stack)
    fail_if (ltb rest args) (not_enough_arguments "BEGIN arguments")
    modify (λ m. record m {
      frame_pointer = length m.operand_stack;
      frame_arg_count = args;
      frame_local_count = locals;
    })
    push new_empty
    push (new_boxed (pos args))
    push (new_boxed (pos locals))
    push (new_boxed (pos ret_frame_pointer))
    push ret_ip
    push_locals locals
    pure dispatch_next

  -- `todo!`
  unfoldable pub eval_cbegin : Exec R Flow
  eval_cbegin = fail

  unfoldable pub eval_jmp : Exec R Flow
  eval_jmp = do offset_at ← read (next 4); jump_to (as_usize offset_at); pure dispatch_next
