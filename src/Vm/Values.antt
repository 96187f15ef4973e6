-- ===== src/Vm/Values.antt =====
-- crates/vm-interp/src/interpreter.rs: the handlers of constants, variables and the top of the stack.
use rapira.Prelude.{
  ℕ, not, ◌||◌, List, ◌==◌, ltb, leb, if◌then◌else◌, length, get_elem?, set, bit_and,
}
use rapira.Outcome.{Outcome, ok, err, panic}
use rapira.Bytecode.Codes.{unary_op_from_u8}
use rapira.Bytefile
use rapira.Bytefile.{get_string_at_offset, position_of_null}
use rapira.Decoder.{next}
use rapira.Object.{new_boxed, new_bool, signed32}
use rapira.Runtime.{Runtime}
use rapira.Vm.{
  string_index_out_of_bounds, invalid_opcode, Flow, dispatch_next, Exec, ◌>>=◌, ◌>>◌, pure, raise,
  fail, gets, modify, ok_or, or_panic, read, runtime, push, pop, inc_ref_if_ptr, dec_ref_if_ptr,
}
use rapira.Vm.Slots.{load_arg, load_local, store_arg, store_local}
use rapira.Vm.Words.{as_usize}

module _ {R : Runtime} where
  unfoldable pub eval_bool : Exec R Flow
  eval_bool = do index ← read (next 1); push (new_bool (not (index == 0))); pure dispatch_next

  unfoldable pub eval_line : Exec R Flow
  eval_line = do _ ← read (next 4); pure dispatch_next

  unfoldable pub eval_nop : Exec R Flow
  eval_nop = pure dispatch_next

  unfoldable pub eval_swap : Exec R Flow
  eval_swap = do value1 ← pop; value2 ← pop; push value1; push value2; pure dispatch_next

  unfoldable pub eval_dup : Exec R Flow
  eval_dup = do value ← pop; push value; push value; inc_ref_if_ptr value; pure dispatch_next

  unfoldable pub eval_drop : Exec R Flow
  eval_drop = do obj ← pop; dec_ref_if_ptr obj; pure dispatch_next

  -- `self.globals()[index]`, which panics out of the global area
  unfoldable pub global_slot : ℕ → Exec R ℕ
  global_slot index m =
      if leb m.global_areas_size index || ltb (length m.operand_stack) m.global_areas_size
      then (panic, m)
      else or_panic (get_elem? m.operand_stack index) m

  unfoldable pub eval_load_global : Exec R Flow
  unfolding global_slot
  eval_load_global = do
    index ← read (next 4)
    value ← global_slot (as_usize index)
    inc_ref_if_ptr value
    push value
    pure dispatch_next

  unfoldable pub eval_load_local : Exec R Flow
  eval_load_local = do
    index ← read (next 4)
    value ← load_local (as_usize index)
    inc_ref_if_ptr value
    push value
    pure dispatch_next

  unfoldable pub eval_load_arg : Exec R Flow
  eval_load_arg = do
    index ← read (next 4)
    value ← load_arg (as_usize index)
    inc_ref_if_ptr value
    push value
    pure dispatch_next

  -- `todo!`
  unfoldable pub eval_load_capture : Exec R Flow
  eval_load_capture = fail

  unfoldable pub eval_store_global : Exec R Flow
  unfolding global_slot
  eval_store_global = do
    index ← read (next 4)
    value ← pop
    old ← global_slot (as_usize index)
    modify (λ m. record m { operand_stack = set m.operand_stack (as_usize index) value })
    dec_ref_if_ptr old
    pure dispatch_next

  unfoldable pub eval_store_local : Exec R Flow
  eval_store_local = do
    index ← read (next 4)
    value ← pop
    old ← store_local (as_usize index) value
    dec_ref_if_ptr old
    pure dispatch_next

  unfoldable pub eval_store_arg : Exec R Flow
  eval_store_arg = do
    index ← read (next 4)
    value ← pop
    old ← store_arg (as_usize index) value
    dec_ref_if_ptr old
    pure dispatch_next

  -- `todo!`
  unfoldable pub eval_store_capture : Exec R Flow
  eval_store_capture = fail

  -- `todo!`
  unfoldable pub eval_array : Exec R Flow
  eval_array = fail

  -- `get_string_at_offset(...).map_err(|_| StringIndexOutOfBounds)?`
  abbrev string_result : Outcome Bytefile.BytefileError (List ℕ) → Exec R (List ℕ)
  string_result (ok bytes) = pure bytes
  string_result (err e) = raise string_index_out_of_bounds
  string_result panic = fail

  -- The bytes end at their first terminator, so that `CStr::from_bytes_with_nul` accepts them.
  unfoldable pub eval_string : Exec R Flow
  eval_string = do
    index ← read (next 4)
    bf ← gets (λ m. m.decoder.bf)
    bytes ← string_result (get_string_at_offset (as_usize index) bf)
    text ← runtime (R.create_text bytes)
    push text
    pure dispatch_next

  unfoldable pub eval_const : Exec R Flow
  eval_const = do index ← read (next 4); push (new_boxed (signed32 index)); pure dispatch_next

  unfoldable pub eval_unary : Exec R Flow
  unfolding unary_op_from_u8
  eval_unary = do
    opcode ← gets (λ m. m.current_opcode)
    op ← ok_or (unary_op_from_u8 (bit_and opcode 0x0f)) (invalid_opcode opcode)
    value ← pop
    result ← runtime (R.unary op value)
    push result
    dec_ref_if_ptr value
    pure dispatch_next

  unfoldable pub eval_constf : Exec R Flow
  eval_constf = do
    value ← read (next 8)
    object ← runtime (R.create_float value)
    push object
    pure dispatch_next

  unfoldable pub eval_null : Exec R Flow
  eval_null = do object ← runtime R.create_null; push object; pure dispatch_next

  unfoldable pub eval_label : Exec R Flow
  eval_label = pure dispatch_next
