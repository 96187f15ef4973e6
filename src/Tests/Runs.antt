-- ===== src/Tests/Runs.antt =====
-- The theorems on whole runs at a concrete program.
use rapira.Prelude.{
  ◌+◌, length, none, false, ◌==◌, if◌then◌else◌, ◌≡◌, ◌≢◌, arith, refl, [], ◌∷◌, some,
}
use rapira.Bytefile.{variant_schemas_size}
use rapira.Bytefile.Serial.{encode}
use rapira.Outcome.{panic}
use rapira.Decoder.{Decoder}
use rapira.Vm.{Machine}
use rapira.Object.{new_empty, new_boxed}
use rapira.Prelude.Int.{ℤ, pos}
use rapira.Vm.Aggregates.{eval_elem}
use rapira.Vm.Elements.{elem_never_panics}
use rapira.Vm.Ends.{error_offset_short}
use rapira.Runtime.{Runtime}
use rapira.Vm.Run.{error_offset, first_machine}
use rapira.Tests.{file}
use rapira.Tests.Machines.{runtime, machine}

-- BEGIN with two arguments, CONST 7, END
abbrev main_decoder : Decoder
main_decoder = record {
  bf = record file {
    code_section = 82 ∷ 2 ∷ 0 ∷ 0 ∷ 0 ∷ 0 ∷ 0 ∷ 0 ∷ 0 ∷ 16 ∷ 7 ∷ 0 ∷ 0 ∷ 0 ∷ 22 ∷ [];
  };
  ip = 0;
  code_section_len = 15;
}

abbrev main_machine : Machine runtime
main_machine = first_machine main_decoder tt

error_offset_short_example :
    error_offset main_machine
      + 8
      + variant_schemas_size main_decoder.bf.variant_schemas
      + length main_decoder.bf.code_section
    ≡ length (encode main_decoder.bf) + main_machine.decoder.ip
error_offset_short_example =
    error_offset_short main_machine (record { strings = refl; symbols = refl })

-- ELEM with index 9 of a collection of three
elem_never_panics_example : (eval_elem (machine (4 ∷ 8 ∷ new_boxed (pos 9) ∷ []))).0 ≢ panic
elem_never_panics_example =
    elem_never_panics (machine (4 ∷ 8 ∷ new_boxed (pos 9) ∷ [])) (4 ∷ []) 8 (new_boxed (pos 9)) 3 tt
      refl (omega arith) (omega arith) refl (λ i h e. cc) (λ address heap e. cc)

-- A heap that is the count of the object at 4, which NULL gives
abbrev counting : Runtime
counting = record {
  Heap = ℤ;
  refcount = λ address heap. heap;
  set_refcount = λ address count heap. if address == 4 then count else heap;
  is_float = λ address heap. false;
  float_val = λ address heap. 0;
  set_float_val = λ address value heap. heap;
  free_object = λ address heap. some heap;
  create_float = λ value heap. none;
  create_text = λ bytes heap. none;
  create_null = λ heap. some (7, heap);
  create_callable = λ offset arity heap. none;
  is_callable = λ value heap. false;
  callable_arity = λ value heap. 0;
  callable_entry = λ value heap. 0;
  binary = λ op left right heap. none;
  unary = λ op value heap. none;
  is_variant = λ value heap. false;
  variant_tag = λ value heap. 0;
  variant_field = λ value index heap. none;
  set_variant_field = λ target index value heap. none;
  create_custom_typed = λ name fields count payload heap. none;
  length = λ value heap. some (new_boxed (pos 3), heap);
  get_tuple_item = λ value index heap. some (new_boxed (pos index), heap);
  set_tuple_item = λ target index value heap. some (target, heap);
  create_tuple = λ values heap. none;
  create_slice = λ collection from to heap. none;
  slice_assign = λ slice value heap. some heap;
  input_value = λ heap. some (new_boxed (pos 7), heap);
  input_text = λ heap. none;
  print_object = λ value heap. some heap;
  print_newline = λ heap. some heap;
  numeric = λ builtin value heap. some (value, heap);
  has_type = λ builtin value heap. false;
  float_add = λ left right. 0;
  float_sub = λ left right. 0;
  float_mul = λ left right. 0;
}

-- BEGIN with two arguments, NULL, END, where the object has five references
abbrev null_machine : Machine counting
null_machine =
    first_machine
      (record main_decoder {
        bf = record file { code_section = 82 ∷ 2 ∷ 0 ∷ 0 ∷ 0 ∷ 0 ∷ 0 ∷ 0 ∷ 0 ∷ 118 ∷ 22 ∷ [] };
        code_section_len = 11;
      })
      (pos 5)

abbrev null_end : Machine counting
null_end = record null_machine {
  operand_stack = new_empty ∷ new_boxed (pos 2) ∷ 0 ∷ 0 ∷ 0 ∷ 7 ∷ [];
  current_opcode = 22;
}

-- Of its five references the stack held one.
abbrev released : Machine counting
released = record null_end { operand_stack = []; heap = pos 4 }
