-- ===== src/Tests/Calls.antt =====
-- The theorems on a whole call and on the opcodes at concrete inputs.
use rapira.Prelude.{ℕ, ◌≡◌, ◌≢◌, refl, List, [], ◌∷◌, ◌++◌, arith}
use rapira.Prelude.Int.{pos}
use rapira.Outcome.{ok}
use rapira.Numeric.{to_le_bytes}
use rapira.Object.{new_empty, new_boxed, as_ptr, is_ptr}
use rapira.Vm.{Machine, dispatch_next, dec_ref_if_ptr}
use rapira.Bytecode.{end}
use rapira.Decoder.{decode}
use rapira.Vm.Accepted.{decode-dispatch_indices}
use rapira.Vm.Dispatch.{dispatch_indices, invalid_handler}
use rapira.Vm.Calls.{call_of, call_returns}
use rapira.Vm.Control.{dec_all}
use rapira.Tests.Machines.{runtime, machine, begin_decoder}

-- The frame of the entry point, and above it that of a function without arguments and locals
abbrev frames : List ℕ
frames =
    0
    ∷ new_boxed (pos 0)
    ∷ new_boxed (pos 0)
    ∷ new_boxed (pos 0)
    ∷ new_boxed (pos 0)
    ∷ 0
    ∷ new_boxed (pos 0)
    ∷ new_boxed (pos 0)
    ∷ new_boxed (pos 0)
    ∷ new_boxed (pos 0)
    ∷ []

-- That function has called another, which is about to BEGIN, with one argument.
abbrev calling : Machine runtime
calling = record (machine ((frames ++ 4 ∷ []) ++ new_boxed (pos 7) ∷ [])) {
  frame_pointer = 5;
  decoder = begin_decoder;
}

call_example : call_of 20 calling ≡ (
  ok dispatch_next,
  record calling {
    operand_stack = frames ++ 20 ∷ [];
    decoder = record begin_decoder { ip = 7 };
    heap = tt;
  },
)
unfolding to_le_bytes dec_all dec_ref_if_ptr as_ptr is_ptr new_boxed new_empty
call_example =
    call_returns 1 2 7 20 frames (4 ∷ []) (22 ∷ []) calling tt (omega arith) (omega arith)
      (omega arith) (omega arith) (omega arith) (omega arith)
      (record { fits = refl; bounded = omega arith; within = refl; rest = refl }) refl refl
      (omega arith) (λ e. omega (arith, e)) (omega arith) (omega arith) refl refl refl

dispatch_indices_example : dispatch_indices 0x16 ≢ invalid_handler
unfolding decode
dispatch_indices_example =
    decode-dispatch_indices 0x16 end begin_decoder begin_decoder (omega arith) refl
