-- ===== src/Runtime.antt =====
-- What crates/vm-interp takes from the C runtime and from the floating-point unit: an abstract heap of
-- reference-counted objects, and the calls. A call that the runtime ends by `RAP_fatal_error`, which
-- exits the process, gives `none`. `Heap` also holds what the input has left and the output has got.
use rapira.Prelude.{ℕ, Bool, Option, List}
use rapira.Prelude.Int.{ℤ}
use rapira.Bytecode.{Op, UnaryOp, Builtin}

pub record Runtime : Type 1 where
  pub Heap : Type 0
  -- the fields of the object at an address
  pub refcount : ℕ → Heap → ℤ
  pub set_refcount : ℕ → ℤ → Heap → Heap
  pub is_float : ℕ → Heap → Bool
  pub float_val : ℕ → Heap → ℕ
  pub set_float_val : ℕ → ℕ → Heap → Heap
  -- RAP_free_object
  pub free_object : ℕ → Heap → Option Heap
  -- RAP_create_float_obj, RAP_create_text_obj, RAP_create_null_obj, RAP_create_callable_obj
  pub create_float : ℕ → Heap → Option (ℕ × Heap)
  pub create_text : List ℕ → Heap → Option (ℕ × Heap)
  pub create_null : Heap → Option (ℕ × Heap)
  pub create_callable : ℕ → ℕ → Heap → Option (ℕ × Heap)
  -- RAP_IS_CALLABLE, RAP_get_callable_arity, RAP_get_callable_offset_or_ptr
  pub is_callable : ℕ → Heap → Bool
  pub callable_arity : ℕ → Heap → ℕ
  pub callable_entry : ℕ → Heap → ℕ
  -- RAP_add and the other binary operations; RAP_negate and RAP_not
  pub binary : Op → ℕ → ℕ → Heap → Option (ℕ × Heap)
  pub unary : UnaryOp → ℕ → Heap → Option (ℕ × Heap)
  -- RAP_IS_VARIANT, RAP_get_variant_tag, RAP_get_variant_field_at, RAP_set_variant_field_at
  pub is_variant : ℕ → Heap → Bool
  pub variant_tag : ℕ → Heap → ℕ
  pub variant_field : ℕ → ℕ → Heap → Option (ℕ × Heap)
  pub set_variant_field : ℕ → ℕ → ℕ → Heap → Option Heap
  -- RAP_create_custom_typed_obj, from the name, the names of the fields, their count, and the bytes
  pub create_custom_typed : ℕ → List ℕ → ℕ → List ℕ → Heap → Option (ℕ × Heap)
  -- RAP_length, RAP_get_tuple_item, RAP_set_tuple_item, RAP_create_tuple_obj
  pub length : ℕ → Heap → Option (ℕ × Heap)
  pub get_tuple_item : ℕ → ℕ → Heap → Option (ℕ × Heap)
  pub set_tuple_item : ℕ → ℕ → ℕ → Heap → Option (ℕ × Heap)
  pub create_tuple : List ℕ → Heap → Option (ℕ × Heap)
  -- RAP_create_slice, from the collection and its two bounds; RAP_slice_assign
  pub create_slice : ℕ → ℤ → ℤ → Heap → Option (ℕ × Heap)
  pub slice_assign : ℕ → ℕ → Heap → Option Heap
  -- RAP_input_value, RAP_input_text; RAP_stringify_object with printf; printf of a newline
  pub input_value : Heap → Option (ℕ × Heap)
  pub input_text : Heap → Option (ℕ × Heap)
  pub print_object : ℕ → Heap → Option Heap
  pub print_newline : Heap → Option Heap
  -- RAP_abs, RAP_sqrt, RAP_floor, RAP_round; RAP_IS_SMI and the other tests of a type
  pub numeric : Builtin → ℕ → Heap → Option (ℕ × Heap)
  pub has_type : Builtin → ℕ → Heap → Bool
  -- f64 addition, subtraction and multiplication, on bit patterns
  pub float_add : ℕ → ℕ → ℕ
  pub float_sub : ℕ → ℕ → ℕ
  pub float_mul : ℕ → ℕ → ℕ
