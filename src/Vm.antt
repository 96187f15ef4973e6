-- ===== src/Vm.antt =====
-- crates/vm-interp/src/interpreter.rs: the interpreter's state and its primitives.
-- A method on `&mut self` is an action on the machine: it gives its result and the machine that it
-- leaves, on an error too. The heap of the runtime is a part of the machine. The operand stack is
-- listed from its bottom, as the Vec is. A panic, and the runtime's exit of the process, is `panic`.
pub mod Words
pub mod Slots
pub mod Values
pub mod Control
pub mod Arithmetic
pub mod Variants
pub mod Aggregates
pub mod Builtins
pub mod Run
pub mod Ends
pub mod Releases
pub mod Integers
pub mod Elements
pub mod Dispatch
pub mod Dispatched
pub mod Accepted
pub mod Stack
pub mod SmallIntegers
pub mod Frames
pub mod Returns
pub mod Calls
pub mod FloorDivision
use rapira.Prelude.{
  ℕ, ◌+◌, ◌-◌, ◌*◌, ◌%◌, ◌^◌, String, Bool, true, false, Option, none, some, List, [], ◌∷◌, ◌++◌,
  ◌==◌, ltb, leb, if◌then◌else◌, length, get_elem?, set, take, replicate,
}
use rapira.Prelude.Int.{ℤ, pos, negsuc, ◌+ℤ◌, ◌-ℤ◌, leb_ℤ}
use rapira.Outcome.{Outcome, ok, err, panic}
use rapira.Bytefile.{Bytefile, VariantSchema}
use rapira.Decoder.{Decoder, DecoderError, Read}
use rapira.Object.{new_empty, new_boxed, unbox, as_ptr, to_u64}
use rapira.Runtime.{Runtime}

pub data ObjectError : Type 0 where
  invalid_pointer : ObjectError

pub data InterpreterError : Type 0 where
  stack_underflow end_of_code_section reading_more_then_code_section : InterpreterError
  invalid_opcode : ℕ → InterpreterError
  invalid_type : String → InterpreterError
  out_of_bounds_access : ℕ → ℕ → InterpreterError
  invalid_byte_sequence : ℕ → InterpreterError
  string_index_out_of_bounds invalid_string_pointer invalid_utf8_string : InterpreterError
  invalid_c_string invalid_object_pointer : InterpreterError
  not_enough_arguments : String → InterpreterError
  invalid_length_for_array : InterpreterError
  object_error : ObjectError → InterpreterError
  invalid_value_rel division_by_zero : InterpreterError
  decoder_error : DecoderError → InterpreterError
  stack_overflow : InterpreterError
  unknown_label : String → InterpreterError
  invalid_variant_schema : ℕ → InterpreterError
  invalid_field_index : InterpreterError
  callable_arity_mismatch : ℕ → ℕ → InterpreterError

-- The names of a schema are pointers into the string table: offsets here.
pub record RuntimeVariantSchema : Type 0 where
  pub name : ℕ
  pub tag : ℕ
  pub field_names : List ℕ

pub record Machine (R : Runtime) : Type 0 where
  pub operand_stack : List ℕ
  pub frame_pointer : ℕ
  pub frame_arg_count : ℕ
  pub frame_local_count : ℕ
  pub decoder : Decoder
  pub current_opcode : ℕ
  pub global_areas_size : ℕ
  pub variant_schemas : List RuntimeVariantSchema
  pub heap : R.Heap

-- MAX_OPERAND_STACK_SIZE
abbrev pub max_operand_stack_size : ℕ
max_operand_stack_size = 1024 * 64

-- After a handler: `become self.dispatch()`, or `return Ok(())`.
pub data Flow : Type 0 where
  dispatch_next finished : Flow

unfoldable pub unsnoc {ℓ} : {A : Type ℓ} → List A → Option (List A × A)
unsnoc [] = none
unsnoc (x ∷ xs) = elim (unsnoc xs) [ none ↦ some ([], x) | some (ys, y) ↦ some (x ∷ ys, y) ]

abbrev pub Exec : Runtime → Type 0 → Type 0
Exec R A = Machine R → Outcome InterpreterError A × Machine R

module _ {R : Runtime} where
  abbrev pub and_then :
      {A B : Type 0}
      → (A → Exec R B)
      → Outcome InterpreterError A × Machine R
      → Outcome InterpreterError B × Machine R
  and_then f (ok a, m) = f a m
  and_then f (err e, m) = (err e, m)
  and_then f (panic, m) = (panic, m)

  infixl 5 ◌>>=◌ ◌>>◌
  abbrev pub ◌>>=◌ : {A B : Type 0} → Exec R A → (A → Exec R B) → Exec R B
  ◌>>=◌ x f m = and_then f (x m)

  abbrev pub ◌>>◌ : {B : Type 0} → Exec R (Unit {0}) → Exec R B → Exec R B
  x >> y = x >>= λ _. y

  abbrev pub pure : {A : Type 0} → A → Exec R A
  pure a m = (ok a, m)

  abbrev pub raise : {A : Type 0} → InterpreterError → Exec R A
  raise e m = (err e, m)

  abbrev pub fail : {A : Type 0} → Exec R A
  fail m = (panic, m)

  abbrev pub gets : {A : Type 0} → (Machine R → A) → Exec R A
  gets f m = (ok (f m), m)

  abbrev pub modify : (Machine R → Machine R) → Exec R (Unit {0})
  modify f m = (ok tt, f m)

  -- `if b { return Err(e); }`
  abbrev pub fail_if : Bool → InterpreterError → Exec R (Unit {0})
  fail_if true e = raise e
  fail_if false e = pure tt

  -- `.ok_or(e)?`, and an index that panics out of range
  abbrev pub ok_or : {A : Type 0} → Option A → InterpreterError → Exec R A
  ok_or none e = raise e
  ok_or (some a) e = pure a

  abbrev pub or_panic : {A : Type 0} → Option A → Exec R A
  or_panic none = fail
  or_panic (some a) = pure a

  abbrev renamed :
      {A : Type 0}
      → InterpreterError
      → Outcome InterpreterError A × Machine R
      → Outcome InterpreterError A × Machine R
  renamed e (ok a, m) = (ok a, m)
  renamed e (err e', m) = (err e, m)
  renamed e (panic, m) = (panic, m)

  -- `.map_err(|_| e)`
  abbrev pub map_err : {A : Type 0} → InterpreterError → Exec R A → Exec R A
  map_err e x m = renamed e (x m)

  abbrev lifted :
      {A : Type 0}
      → Machine R
      → Outcome DecoderError A × Decoder
      → Outcome InterpreterError A × Machine R
  lifted m (ok a, d) = (ok a, record m { decoder = d })
  lifted m (err e, d) = (err (decoder_error e), record m { decoder = d })
  lifted m (panic, d) = (panic, record m { decoder = d })

  -- `self.decoder.next()?`, with `From<DecoderError>`
  abbrev pub read : {A : Type 0} → Read A → Exec R A
  read x m = lifted m (x m.decoder)

  abbrev pub returned : Machine R → Option (ℕ × R.Heap) → Outcome InterpreterError ℕ × Machine R
  returned m none = (panic, m)
  returned m (some (raw, heap)) = (ok raw, record m { heap = heap })

  abbrev pub updated : Machine R → Option R.Heap → Outcome InterpreterError (Unit {0}) × Machine R
  updated m none = (panic, m)
  updated m (some heap) = (ok tt, record m { heap = heap })

  -- a call of the runtime that gives nothing
  abbrev pub update : (R.Heap → Option R.Heap) → Exec R (Unit {0})
  update f m = updated m (f m.heap)

  -- a call of the runtime
  abbrev pub runtime : (R.Heap → Option (ℕ × R.Heap)) → Exec R ℕ
  runtime f m = returned m (f m.heap)

  unfoldable pub push : ℕ → Exec R (Unit {0})
  push obj m =
      if leb max_operand_stack_size (length m.operand_stack)
      then (err stack_overflow, m)
      else (ok tt, record m { operand_stack = m.operand_stack ++ obj ∷ [] })

  abbrev popped : Machine R → Option (List ℕ × ℕ) → Outcome InterpreterError ℕ × Machine R
  popped m none = (panic, m)
  popped m (some (rest, obj)) = (ok obj, record m { operand_stack = rest })

  unfoldable pub pop : Exec R ℕ
  unfolding unsnoc
  pop m =
      if leb (length m.operand_stack) m.global_areas_size
      then (err stack_underflow, m)
      else popped m (unsnoc m.operand_stack)

  unfoldable pub inc_ref_if_ptr : ℕ → Exec R (Unit {0})
  inc_ref_if_ptr obj m = elim (as_ptr obj) [
    | none ↦ (ok tt, m)
    | some pointer ↦ (
      ok tt,
      record m { heap = R.set_refcount pointer (R.refcount pointer m.heap +ℤ pos 1) m.heap },
    )
  ]

  unfoldable pub dec_ref_if_ptr : ℕ → Exec R (Unit {0})
  dec_ref_if_ptr obj m = elim (as_ptr obj) [
    | none ↦ (ok tt, m)
    | some pointer ↦
        let count = R.refcount pointer m.heap -ℤ pos 1 in
        let heap = R.set_refcount pointer count m.heap in
        if pointer == 0
        then (ok tt, m)
        else if leb_ℤ count (pos 0)
        then updated (record m { heap = heap }) (R.free_object pointer heap)
        else (ok tt, record m { heap = heap })
  ]
