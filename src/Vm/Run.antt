-- ===== src/Vm/Run.antt =====
-- crates/vm-interp/src/interpreter.rs: the construction of the interpreter and the run of a program.
use rapira.Prelude.{
  ℕ, zero, suc, ◌+◌, ◌*◌, ◌&&◌, Bool, true, leb, if◌then◌else◌, length, List, [], ◌∷◌, ◌++◌, map,
  replicate, Option, none, some,
}
use rapira.Prelude.Int.{pos}
use rapira.Outcome.{Outcome, ok, err, panic}
use rapira.Bytefile.{VariantSchema}
use rapira.Bytecode.{Instruction, end}
use rapira.Decoder.{Decoder, DecoderError}
use rapira.Object.{new_empty, new_boxed}
use rapira.Runtime.{Runtime}
use rapira.Vm.{
  Machine, InterpreterError, RuntimeVariantSchema, Flow, dispatch_next, finished, Exec, ◌>>=◌, ◌>>◌,
  pure, gets, modify, dec_ref_if_ptr,
}
use rapira.Vm.Aggregates.{eval_elem, eval_sts, eval_sta, eval_tuple, eval_slice}
use rapira.Vm.Arithmetic.{
  eval_binop_add, eval_binop_subtract, eval_binop_multiply, eval_binop_divide, eval_binop_modulo,
  eval_binop_floor_divide, eval_binop_less_than, eval_binop_less_or_equal, eval_binop_greater_than,
  eval_binop_greater_or_equal, eval_binop_equal, eval_binop_not_equal, eval_binop_and,
  eval_binop_or, eval_binop_power,
}
use rapira.Vm.Builtins.{eval_call_builtin}
use rapira.Vm.Control.{
  eval_closure, eval_callc, eval_cjmp, eval_call, eval_end, eval_begin, eval_cbegin, eval_jmp,
}
use rapira.Vm.Dispatch.{
  dispatch, Handler, handle_nop, handle_end, handle_binop_add, handle_const, handle_string,
  handle_begin, handle_cbegin, handle_closure, handle_store_global, handle_load_global, handle_call,
  handle_call_builtin, handle_callc, handle_line, handle_drop, handle_dup, handle_swap, handle_jmp,
  handle_cjmp, handle_elem, handle_sts, handle_sta, handle_array, handle_bool, handle_unary,
  handle_constf, handle_tuple, handle_null, handle_label, handle_slice, handle_load_local,
  handle_load_arg, handle_load_capture, handle_store_local, handle_store_arg, handle_store_capture,
  handle_variant, handle_variant_tag, handle_field, handle_set_field, handle_is_variant,
  handle_binop_subtract, handle_binop_multiply, handle_binop_divide, handle_binop_modulo,
  handle_binop_less_than, handle_binop_less_or_equal, handle_binop_greater_than,
  handle_binop_greater_or_equal, handle_binop_equal, handle_binop_not_equal, handle_binop_and,
  handle_binop_or, handle_binop_floor_divide, handle_binop_power,
}
use rapira.Vm.Values.{
  eval_bool, eval_line, eval_nop, eval_swap, eval_dup, eval_drop, eval_load_global, eval_load_local,
  eval_load_arg, eval_load_capture, eval_store_global, eval_store_local, eval_store_arg,
  eval_store_capture, eval_array, eval_string, eval_const, eval_unary, eval_constf, eval_null,
  eval_label,
}
use rapira.Vm.Variants.{eval_variant, eval_variant_tag, eval_is_variant, eval_field, eval_set_field}

-- A name is the offset at which the source takes a pointer into the string table.
abbrev pub runtime_schema : VariantSchema → RuntimeVariantSchema
runtime_schema schema = record {
  name = schema.name_offset;
  tag = schema.tag;
  field_names = schema.field_offsets;
}

unfoldable pub all_within : ℕ → List ℕ → Bool
all_within size [] = true
all_within size (offset ∷ offsets) = leb offset size && all_within size offsets

-- The slices of the string table at the offsets, which panic past its end
unfoldable pub schemas_fit : ℕ → List VariantSchema → Bool
unfolding all_within
schemas_fit size [] = true
schemas_fit size (schema ∷ schemas) =
    all_within size (schema.name_offset ∷ schema.field_offsets) && schemas_fit size schemas

-- The call of `main` that is emulated: closure, counts of arguments and locals, old frame pointer, old
-- position, argv, argc, position
abbrev pub first_frame : List ℕ
first_frame =
    new_empty
    ∷ new_boxed (pos 2)
    ∷ new_empty
    ∷ new_empty
    ∷ new_empty
    ∷ new_empty
    ∷ new_empty
    ∷ new_empty
    ∷ []

-- RunError of the source; the instruction is always END.
pub data RunError : Type 0 where
  error_at_offset : ℕ → InterpreterError → Instruction → RunError
  decoder_error : DecoderError → RunError

-- What the handlers of a program come to
abbrev pub Ended : Runtime → Type 0
Ended R = Outcome InterpreterError (Unit {0}) × Machine R

module _ {R : Runtime} where
  abbrev pub first_machine : Decoder → R.Heap → Machine R
  first_machine decoder heap = record {
    operand_stack = replicate decoder.bf.global_area_size new_empty ++ first_frame;
    frame_pointer = decoder.bf.global_area_size;
    frame_arg_count = 2;
    frame_local_count = 0;
    decoder = decoder;
    current_opcode = 0;
    global_areas_size = decoder.bf.global_area_size;
    variant_schemas = map runtime_schema decoder.bf.variant_schemas;
    heap = heap;
  }

  -- `Interpreter::new`; none is a panic.
  unfoldable pub new_machine : Decoder → R.Heap → Option (Machine R)
  unfolding schemas_fit
  new_machine decoder heap =
      if schemas_fit (length decoder.bf.string_table) decoder.bf.variant_schemas
      then some (first_machine decoder heap)
      else none

  -- The function that stands at a handler's place in DISPATCH_TABLE
  unfoldable pub perform : Handler → Exec R Flow
  perform handle_nop = eval_nop
  perform handle_end = eval_end
  perform handle_binop_add = eval_binop_add
  perform handle_const = eval_const
  perform handle_string = eval_string
  perform handle_begin = eval_begin
  perform handle_cbegin = eval_cbegin
  perform handle_closure = eval_closure
  perform handle_store_global = eval_store_global
  perform handle_load_global = eval_load_global
  perform handle_call = eval_call
  perform handle_call_builtin = eval_call_builtin
  perform handle_callc = eval_callc
  perform handle_line = eval_line
  perform handle_drop = eval_drop
  perform handle_dup = eval_dup
  perform handle_swap = eval_swap
  perform handle_jmp = eval_jmp
  perform handle_cjmp = eval_cjmp
  perform handle_elem = eval_elem
  perform handle_sts = eval_sts
  perform handle_sta = eval_sta
  perform handle_array = eval_array
  perform handle_bool = eval_bool
  perform handle_unary = eval_unary
  perform handle_constf = eval_constf
  perform handle_tuple = eval_tuple
  perform handle_null = eval_null
  perform handle_label = eval_label
  perform handle_slice = eval_slice
  perform handle_load_local = eval_load_local
  perform handle_load_arg = eval_load_arg
  perform handle_load_capture = eval_load_capture
  perform handle_store_local = eval_store_local
  perform handle_store_arg = eval_store_arg
  perform handle_store_capture = eval_store_capture
  perform handle_variant = eval_variant
  perform handle_variant_tag = eval_variant_tag
  perform handle_field = eval_field
  perform handle_set_field = eval_set_field
  perform handle_is_variant = eval_is_variant
  perform handle_binop_subtract = eval_binop_subtract
  perform handle_binop_multiply = eval_binop_multiply
  perform handle_binop_divide = eval_binop_divide
  perform handle_binop_modulo = eval_binop_modulo
  perform handle_binop_less_than = eval_binop_less_than
  perform handle_binop_less_or_equal = eval_binop_less_or_equal
  perform handle_binop_greater_than = eval_binop_greater_than
  perform handle_binop_greater_or_equal = eval_binop_greater_or_equal
  perform handle_binop_equal = eval_binop_equal
  perform handle_binop_not_equal = eval_binop_not_equal
  perform handle_binop_and = eval_binop_and
  perform handle_binop_or = eval_binop_or
  perform handle_binop_floor_divide = eval_binop_floor_divide
  perform handle_binop_power = eval_binop_power

  -- After a handler: the next instruction, or the end of the run
  abbrev pub continue_with :
      (Machine R → Option (Ended R)) → Outcome InterpreterError Flow × Machine R → Option (Ended R)
  continue_with rest (ok dispatch_next, m) = rest m
  continue_with rest (ok finished, m) = some (ok tt, m)
  continue_with rest (err e, m) = some (err e, m)
  continue_with rest (panic, m) = some (panic, m)

  abbrev pub step : Exec R Flow
  step = dispatch >>= perform

  -- The chain of `become self.dispatch()`, as many instructions as there is fuel; none where the
  -- program still runs.
  unfoldable pub run_from : ℕ → Machine R → Option (Ended R)
  unfolding dispatch perform
  run_from zero m = none
  run_from (suc fuel) m = continue_with (run_from fuel) (step m)

  unfoldable pub release_all : List ℕ → Exec R (Unit {0})
  release_all [] = pure tt
  release_all (obj ∷ objects) = do dec_ref_if_ptr obj; release_all objects

  -- `self.operand_stack.drain(..)`, each object released, after a run and in `drop`
  unfoldable pub drain : Exec R (Unit {0})
  unfolding release_all
  drain = do
    objects ← gets (λ m. m.operand_stack)
    modify (λ m. record m { operand_stack = [] })
    release_all objects

  -- The offset that `run` reports, of the machine at the error
  abbrev pub error_offset : Machine R → ℕ
  error_offset m =
      4
      + 4
      + 4
      + 4 * 2 * m.decoder.bf.public_symbols_number
      + m.decoder.bf.stringtab_size
      + m.decoder.ip

  -- A release has no error to give.
  abbrev pub after_drain :
      Outcome InterpreterError (Unit {0}) × Machine R → Outcome RunError (Unit {0}) × Machine R
  after_drain (ok t, m) = (ok t, m)
  after_drain (err e, m) = (panic, m)
  after_drain (panic, m) = (panic, m)

  abbrev pub ended : Option (Ended R) → Option (Outcome RunError (Unit {0}) × Machine R)
  ended none = none
  ended (some (ok t, m)) = some (after_drain (drain m))
  ended (some (err e, m)) = some (err (error_at_offset (error_offset m) e end), m)
  ended (some (panic, m)) = some (panic, m)

  unfoldable pub run : ℕ → Machine R → Option (Outcome RunError (Unit {0}) × Machine R)
  unfolding run_from drain
  run fuel m =
      ended
        (run_from fuel (record m { decoder = record m.decoder { ip = m.decoder.bf.main_offset } }))
