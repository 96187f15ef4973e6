-- ===== src/Vm/Builtins.antt =====
-- crates/vm-interp/src/interpreter.rs: `eval_call_builtin`.
use rapira.Prelude.{
  ℕ, zero, suc, not, Bool, true, false, Option, List, [], ◌∷◌, ◌==◌, leb, if◌then◌else◌, bit_and,
}
use rapira.Bytecode.{
  Builtin, lread, lwrite, llength, abs, sqrt, floor, round, lwrite_newline_flag,
  lwrite_newline_mask,
}
use rapira.Bytecode.Codes.{builtin_from_u8}
use rapira.Decoder.{next}
use rapira.Object.{new_bool}
use rapira.Runtime.{Runtime}
use rapira.Vm.{
  invalid_opcode, Flow, dispatch_next, Exec, ◌>>=◌, ◌>>◌, pure, gets, ok_or, read, runtime, update,
  push, pop, dec_ref_if_ptr,
}
use rapira.Vm.Aggregates.{top_values, release_values}

-- `n & FLAG != 0`, and the count without the flag
abbrev pub flag_of : ℕ → Bool
flag_of n = not (bit_and n lwrite_newline_flag == 0)

abbrev pub count_of : ℕ → ℕ
count_of n = bit_and n lwrite_newline_mask

module _ {R : Runtime} where
  -- `for _ in 0..arg_count`, an input that is typed or is a text
  unfoldable pub read_inputs : Bool → ℕ → Exec R (Unit {0})
  read_inputs typed zero = pure tt
  read_inputs true (suc count) = do
    value ← runtime R.input_value
    push value
    read_inputs true count
  read_inputs false (suc count) = do
    value ← runtime R.input_text
    push value
    read_inputs false count

  unfoldable pub print_objects : List ℕ → Exec R (Unit {0})
  print_objects [] = pure tt
  print_objects (obj ∷ objects) = do update (R.print_object obj); print_objects objects

  abbrev newline_if : Bool → Exec R (Unit {0})
  newline_if true = update R.print_newline
  newline_if false = pure tt

  -- What is printed for a count that is not 0
  unfoldable pub write_values : ℕ → Bool → Exec R (Unit {0})
  unfolding print_objects
  write_values zero newline = pure tt
  write_values (suc n) newline = do
    objects ← top_values (suc n)
    print_objects objects
    newline_if newline

  -- The result of the runtime's function, and the argument released before it is pushed
  abbrev call_runtime : (ℕ → R.Heap → Option (ℕ × R.Heap)) → Exec R (Unit {0})
  call_runtime f = do value ← pop; result ← runtime (f value); dec_ref_if_ptr value; push result

  abbrev by_type : Builtin → Exec R (Unit {0})
  by_type name = do
    value ← pop
    result ← gets (λ m. R.has_type name value m.heap)
    dec_ref_if_ptr value
    push (new_bool result)

  -- The `match` on the builtin
  unfoldable pub call_builtin_body : Builtin → ℕ → Exec R (Unit {0})
  unfolding read_inputs write_values
  call_builtin_body llength n = call_runtime R.length
  call_builtin_body lread n = read_inputs (flag_of n) (count_of n)
  call_builtin_body lwrite n = do write_values (count_of n) (flag_of n); release_values (count_of n)
  call_builtin_body abs n = call_runtime (R.numeric abs)
  call_builtin_body sqrt n = call_runtime (R.numeric sqrt)
  call_builtin_body floor n = call_runtime (R.numeric floor)
  call_builtin_body round n = call_runtime (R.numeric round)
  call_builtin_body name n = by_type name

  -- `if [0x0, 0x1].contains(&subopcode) { next } else { 0 }`
  abbrev pub read_count : ℕ → Exec R ℕ
  read_count subopcode = if leb subopcode 1 then read (next 4) else pure 0

  unfoldable pub eval_call_builtin : Exec R Flow
  unfolding call_builtin_body builtin_from_u8
  eval_call_builtin = do
    opcode ← gets (λ m. m.current_opcode)
    let subopcode = bit_and opcode 0x0f
    name ← ok_or (builtin_from_u8 subopcode) (invalid_opcode opcode)
    n ← read_count subopcode
    call_builtin_body name n
    pure dispatch_next
