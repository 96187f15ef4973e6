-- ===== src/Tests/Machines.antt =====
-- The theorems on the interpreter at concrete machines, over a runtime without objects.
use rapira.Prelude.{
  ℕ, ◌≡◌, ◌≢◌, refl, none, some, false, List, [], ◌∷◌, ◌++◌, arith, ◌==◌, if◌then◌else◌,
}
use rapira.Prelude.Int.{pos, negsuc, ◌+ℤ◌, ◌-ℤ◌, quot_ℤ, rem_ℤ}
use rapira.Outcome.{ok, err, panic}
use rapira.Numeric.{to_le_bytes}
use rapira.Bytecode.{const}
use rapira.Decoder.{Decoder}
use rapira.Decoder.Encode.{encode}
use rapira.Decoder.Reads.{advance}
use rapira.Object.{unbox, new_boxed, as_ptr, is_ptr}
use rapira.Runtime.{Runtime}
use rapira.Vm.{Machine, push, pop, ◌>>◌, dispatch_next, finished, division_by_zero, dec_ref_if_ptr}
use rapira.Vm.Arithmetic.{eval_binop_divide, eval_binop_modulo, eval_binop_floor_divide}
use rapira.Vm.Control.{dec_all, eval_begin, eval_end}
use rapira.Vm.Dispatch.{dispatch, handle_const}
use rapira.Vm.Dispatched.{dispatch-encode}
use rapira.Vm.Frames.{frame_of, begin_lem}
use rapira.Vm.Returns.{frame_words, returned_to, end_returns}
use rapira.Vm.SmallIntegers.{division_lem}
use rapira.Vm.Integers.{int, pushed, step-binop, binop_overflows}
use rapira.Vm.Run.{step}
use rapira.Bytecode.{sub, add}
use rapira.Vm.Stack.{pop-push, IsBounded, IsBounded-kept}
use rapira.Tests.{file, decoder}

-- A heap that is always empty
abbrev pub runtime : Runtime
runtime = record {
  Heap = Unit;
  refcount = λ address heap. pos 1;
  set_refcount = λ address count heap. heap;
  is_float = λ address heap. false;
  float_val = λ address heap. 0;
  set_float_val = λ address value heap. heap;
  free_object = λ address heap. some heap;
  create_float = λ value heap. none;
  create_text = λ bytes heap. none;
  create_null = λ heap. none;
  create_callable = λ offset arity heap. none;
  is_callable = λ value heap. false;
  callable_arity = λ value heap. 0;
  callable_entry = λ value heap. 0;
  binary = λ op left right heap. none;
  unary = λ op value heap. none;
  is_variant = λ value heap. false;
  variant_tag = λ value heap. 0;
  variant_field = λ value index heap. none;
  set_variant_field = λ target index value heap. none;
  create_custom_typed = λ name fields count payload heap. none;
  length = λ value heap. some (new_boxed (pos 3), heap);
  get_tuple_item = λ value index heap. some (new_boxed (pos index), heap);
  set_tuple_item = λ target index value heap. some (target, heap);
  create_tuple = λ values heap. none;
  create_slice = λ collection from to heap. none;
  slice_assign = λ slice value heap. some heap;
  input_value = λ heap. some (new_boxed (pos 7), heap);
  input_text = λ heap. none;
  print_object = λ value heap. some heap;
  print_newline = λ heap. some heap;
  numeric = λ builtin value heap. some (value, heap);
  has_type = λ builtin value heap. false;
  float_add = λ left right. 0;
  float_sub = λ left right. 0;
  float_mul = λ left right. 0;
}

-- A machine with this stack and no globals, before the first instruction of the file
abbrev pub machine : List ℕ → Machine runtime
machine stack = record {
  operand_stack = stack;
  frame_pointer = 0;
  frame_arg_count = 0;
  frame_local_count = 0;
  decoder = decoder;
  current_opcode = 0;
  global_areas_size = 0;
  variant_schemas = [];
  heap = tt;
}

pop-push_example : (push 9 >> pop) (machine (4 ∷ [])) ≡ (ok 9, machine (4 ∷ []))
pop-push_example = pop-push 9 (machine (4 ∷ [])) (omega arith) (omega arith)

IsBounded-kept_example :
    (IsBounded (push 9 (machine (4 ∷ []))).1 × ((push 9 (machine (4 ∷ []))).0 ≢ panic))
    × (IsBounded (pop (machine (4 ∷ []))).1 × ((pop (machine (4 ∷ []))).0 ≢ panic))
IsBounded-kept_example = IsBounded-kept 9 (machine (4 ∷ [])) (omega arith, omega arith)

-- -7 and 2 above another value
abbrev two : List ℕ
two = 4 ∷ new_boxed (negsuc 6) ∷ new_boxed (pos 2) ∷ []

abbrev result : ℕ → Machine runtime
result value = machine (4 ∷ value ∷ [])

-- BINOP SUB, and BINOP ADD
abbrev operator_decoder : ℕ → Decoder
operator_decoder opcode = record {
  bf = record file { code_section = opcode ∷ 22 ∷ [] };
  ip = 0;
  code_section_len = 2;
}

abbrev operating : ℕ → List ℕ → Machine runtime
operating opcode stack = record (machine stack) { decoder = operator_decoder opcode }

-- -7 - 2
step-binop_example :
    (raw : ℕ) × (unbox raw ≡ negsuc 8)
    × (step (operating 2 two) ≡ pushed (operating 2 two) (4 ∷ []) raw 2)
unfolding encode ◌-ℤ◌
step-binop_example =
    step-binop sub (negsuc 6) (pos 2) (int (negsuc 8)) 2 (22 ∷ []) (4 ∷ []) (operating 2 two)
      (omega arith, omega arith) (omega arith, omega arith) refl (omega arith, omega arith) refl
      (record { fits = refl; bounded = omega arith; within = refl; rest = refl })
      (record { stack = refl; above = omega arith; room = omega arith })

abbrev large : List ℕ
large = 4 ∷ new_boxed (pos 2147483647) ∷ new_boxed (pos 1) ∷ []

binop_overflows_example :
    (raw : ℕ) × (unbox raw ≢ pos 2147483648)
    × (step (operating 1 large) ≡ pushed (operating 1 large) (4 ∷ []) raw 1)
unfolding encode ◌+ℤ◌
binop_overflows_example =
    binop_overflows add (pos 2147483647) (pos 1) (pos 2147483648) 1 (22 ∷ []) (4 ∷ [])
      (operating 1 large) (omega arith, omega arith) (omega arith, omega arith) refl
      (λ h. omega (arith, h)) refl
      (record { fits = refl; bounded = omega arith; within = refl; rest = refl })
      (record { stack = refl; above = omega arith; room = omega arith })

abbrev by_zero : List ℕ
by_zero = 4 ∷ 11 ∷ new_boxed (pos 0) ∷ []

abbrev six_by_two : List ℕ
six_by_two = 4 ∷ new_boxed (pos 6) ∷ new_boxed (pos 2) ∷ []

division_example :
    (eval_binop_divide (machine by_zero) ≡ (err division_by_zero, machine (4 ∷ [])))
    × (eval_binop_modulo (machine by_zero) ≡ (err division_by_zero, machine (4 ∷ [])))
    × (eval_binop_floor_divide (machine by_zero) ≡ (err division_by_zero, machine (4 ∷ [])))
    × (eval_binop_divide (machine six_by_two)
        ≡ (ok dispatch_next, result (new_boxed (quot_ℤ (pos 6) (pos 2)))))
unfolding rem_ℤ
division_example =
    division_lem (pos 6) (pos 2) 11 (machine by_zero) (machine six_by_two) (4 ∷ [])
      (omega arith, omega arith) (omega arith, omega arith) (λ e. cc) refl
      (record { stack = refl; above = omega arith; room = omega arith })
      (record { stack = refl; above = omega arith; room = omega arith })

dispatch_example :
    dispatch (machine [])
    ≡ (ok handle_const, record (machine []) { decoder = advance 1 decoder; current_opcode = 16 })
unfolding encode to_le_bytes
dispatch_example =
    dispatch-encode (const 7) 16 (7 ∷ 0 ∷ 0 ∷ 0 ∷ []) (22 ∷ []) (machine []) refl
      (record { fits = refl; bounded = omega arith; within = refl; rest = refl })

-- BEGIN with one argument and two locals, behind its opcode
abbrev pub begin_decoder : Decoder
begin_decoder = record {
  bf = record file { code_section = 82 ∷ 1 ∷ 0 ∷ 0 ∷ 0 ∷ 2 ∷ 0 ∷ 0 ∷ 0 ∷ 22 ∷ [] };
  ip = 1;
  code_section_len = 10;
}

abbrev begin_machine : Machine runtime
begin_machine = record (machine (8 ∷ 4 ∷ 12 ∷ [])) { decoder = begin_decoder }

begin_example : eval_begin begin_machine ≡ (
  ok dispatch_next,
  record begin_machine {
    operand_stack = (8 ∷ 4 ∷ []) ++ frame_of 1 2 0 12;
    frame_pointer = 2;
    frame_arg_count = 1;
    frame_local_count = 2;
    decoder = advance 8 begin_decoder;
  },
)
unfolding to_le_bytes
begin_example =
    begin_lem 1 2 12 (8 ∷ 4 ∷ []) (22 ∷ []) begin_machine (omega arith) (omega arith)
      (record { fits = refl; bounded = omega arith; within = refl; rest = refl }) refl (omega arith)
      (omega arith) (omega arith) (omega arith)

-- A call with one argument and one local, from a function with three arguments and no local
abbrev caller : List ℕ
caller = 0 ∷ new_boxed (pos 3) ∷ new_boxed (pos 0) ∷ new_boxed (pos 0) ∷ new_boxed (pos 0) ∷ []

abbrev callee_frame : List ℕ
callee_frame = frame_words 0 0 0 0 5 (new_boxed (pos 0) ∷ [])

abbrev end_machine : Machine runtime
end_machine = record (machine (caller ++ (4 ∷ callee_frame) ++ 20 ∷ [])) {
  frame_pointer = 6;
  frame_arg_count = 1;
  frame_local_count = 1;
}

end_example : eval_end end_machine ≡ (
    if 0 == 0 then (ok finished, returned_to end_machine tt caller 0 5 20) else (
      ok dispatch_next,
      record (returned_to end_machine tt caller 0 5 20) {
        frame_arg_count = 3;
        frame_local_count = 0;
      },
    ))
unfolding dec_all dec_ref_if_ptr as_ptr is_ptr new_boxed
end_example =
    end_returns end_machine tt caller (4 ∷ []) (new_boxed (pos 0) ∷ []) 0 0 0 0 5 20 3 0
      (record {
        stack = refl;
        frame = refl;
        arg_count = refl;
        local_count = refl;
        globals = omega arith;
        size = omega arith;
        fp_fits = omega arith;
        ip_fits = omega arith;
      })
      refl (omega arith) (omega arith) refl refl
