-- ===== src/Vm/Slots.antt =====
-- crates/vm-interp/src/interpreter.rs: the slots of a frame, which hold its arguments, its metadata and
-- its locals.
use rapira.Prelude.{ℕ, ◌+◌, ◌-◌, ◌%◌, ◌^◌, String, leb, if◌then◌else◌, get_elem?, set}
use rapira.Outcome.{ok, err}
use rapira.Object.{unbox, to_u64}
use rapira.Runtime.{Runtime}
use rapira.Vm.{Exec, ◌>>=◌, ◌>>◌, pure, gets, modify, ok_or, or_panic, not_enough_arguments}

module _ {R : Runtime} where
  unfoldable pub frame_stack_value : ℕ → String → Exec R ℕ
  frame_stack_value offset operation m =
      ok_or (get_elem? m.operand_stack ((m.frame_pointer + offset) % 2 ^ 64))
        (not_enough_arguments operation) m

  unfoldable pub frame_return_pointer : Exec R ℕ
  unfolding frame_stack_value
  frame_return_pointer = do
    value ← frame_stack_value 3 "frame return pointer"
    pure (to_u64 (unbox value))

  unfoldable pub frame_return_ip : Exec R ℕ
  unfolding frame_stack_value
  frame_return_ip = do value ← frame_stack_value 4 "frame return ip"; pure (to_u64 (unbox value))

  -- `frame_pointer - frame_arg_count + index`, on usize
  unfoldable pub arg_slot_index : ℕ → Exec R ℕ
  arg_slot_index index m =
      if leb m.frame_arg_count index
      then (err (not_enough_arguments "LOAD/STORE arg"), m)
      else (ok ((m.frame_pointer + 2 ^ 64 - m.frame_arg_count + index) % 2 ^ 64), m)

  unfoldable pub local_slot_index : ℕ → Exec R ℕ
  local_slot_index index m =
      if leb m.frame_local_count index
      then (err (not_enough_arguments "LOAD/STORE local"), m)
      else (ok ((m.frame_pointer + 5 + index) % 2 ^ 64), m)

  unfoldable pub load_arg : ℕ → Exec R ℕ
  unfolding arg_slot_index
  load_arg index = do
    slot ← arg_slot_index index
    found ← gets (λ m. get_elem? m.operand_stack slot)
    ok_or found (not_enough_arguments "LOAD arg")

  unfoldable pub load_local : ℕ → Exec R ℕ
  unfolding local_slot_index
  load_local index = do
    slot ← local_slot_index index
    found ← gets (λ m. get_elem? m.operand_stack slot)
    ok_or found (not_enough_arguments "LOAD local")

  -- The old value of a slot, which is given a new one.
  unfoldable pub replace_slot : ℕ → ℕ → Exec R ℕ
  replace_slot slot value = do
    found ← gets (λ m. get_elem? m.operand_stack slot)
    old ← or_panic found
    modify (λ m. record m { operand_stack = set m.operand_stack slot value })
    pure old

  unfoldable pub store_arg : ℕ → ℕ → Exec R ℕ
  unfolding arg_slot_index replace_slot
  store_arg index value = do slot ← arg_slot_index index; replace_slot slot value

  unfoldable pub store_local : ℕ → ℕ → Exec R ℕ
  unfolding local_slot_index replace_slot
  store_local index value = do slot ← local_slot_index index; replace_slot slot value
