-- ===== src/Vm/Dispatch.antt =====
-- crates/vm-interp/src/interpreter.rs: the table of the handlers and the dispatch of an opcode.
-- A handler is named here by its function: `handle_add` stands for `Interpreter::eval_add`.
use rapira.Prelude.{ℕ, List, [], ◌∷◌, ◌==◌, leb, ◌&&◌, if◌then◌else◌, get_elem?}
use rapira.Decoder.{next}
use rapira.Runtime.{Runtime}
use rapira.Vm.{Exec, ◌>>=◌, ◌>>◌, modify, fail_if, or_panic, read, invalid_opcode}

pub data Handler : Type 0 where
  handle_nop handle_end handle_binop_add handle_const handle_string handle_begin handle_cbegin
        handle_closure :
      Handler
  handle_store_global handle_load_global handle_call handle_call_builtin handle_callc handle_line :
      Handler
  handle_drop handle_dup handle_swap handle_jmp handle_cjmp handle_elem handle_sts handle_sta
        handle_array :
      Handler
  handle_bool handle_unary handle_constf handle_tuple handle_null handle_label handle_slice
        handle_load_local :
      Handler
  handle_load_arg handle_load_capture handle_store_local handle_store_arg handle_store_capture :
      Handler
  handle_variant handle_variant_tag handle_field handle_set_field handle_is_variant
        handle_binop_subtract :
      Handler
  handle_binop_multiply handle_binop_divide handle_binop_modulo handle_binop_less_than : Handler
  handle_binop_less_or_equal handle_binop_greater_than handle_binop_greater_or_equal : Handler
  handle_binop_equal handle_binop_not_equal handle_binop_and handle_binop_or
        handle_binop_floor_divide :
      Handler
  handle_binop_power : Handler

-- DISPATCH_TABLE
abbrev pub dispatch_table : List Handler
dispatch_table =
    handle_nop ∷ handle_end ∷ handle_binop_add ∷ handle_const ∷ handle_string ∷ handle_begin
    ∷ handle_cbegin ∷ handle_closure ∷ handle_store_global ∷ handle_load_global ∷ handle_call
    ∷ handle_call_builtin ∷ handle_callc ∷ handle_line ∷ handle_drop ∷ handle_dup ∷ handle_swap
    ∷ handle_jmp ∷ handle_cjmp ∷ handle_elem ∷ handle_sts ∷ handle_sta ∷ handle_array ∷ handle_bool
    ∷ handle_unary ∷ handle_constf ∷ handle_tuple ∷ handle_null ∷ handle_label ∷ handle_slice
    ∷ handle_load_local ∷ handle_load_arg ∷ handle_load_capture ∷ handle_store_local
    ∷ handle_store_arg ∷ handle_store_capture ∷ handle_variant ∷ handle_variant_tag ∷ handle_field
    ∷ handle_set_field ∷ handle_is_variant ∷ handle_binop_subtract ∷ handle_binop_multiply
    ∷ handle_binop_divide ∷ handle_binop_modulo ∷ handle_binop_less_than
    ∷ handle_binop_less_or_equal ∷ handle_binop_greater_than ∷ handle_binop_greater_or_equal
    ∷ handle_binop_equal ∷ handle_binop_not_equal ∷ handle_binop_and ∷ handle_binop_or
    ∷ handle_binop_floor_divide ∷ handle_binop_power ∷ []

-- INVALID_HANDLER
abbrev pub invalid_handler : ℕ
invalid_handler = 255

-- the assignments of build_dispatch_indices, no entry twice
abbrev pub assignments : List (ℕ × ℕ)
assignments =
    (0x00, 0)
    ∷ (0x01, 2)
    ∷ (0x02, 41)
    ∷ (0x03, 42)
    ∷ (0x04, 43)
    ∷ (0x05, 44)
    ∷ (0x06, 45)
    ∷ (0x07, 46)
    ∷ (0x08, 47)
    ∷ (0x09, 48)
    ∷ (0x0a, 49)
    ∷ (0x0b, 50)
    ∷ (0x0c, 51)
    ∷ (0x0d, 52)
    ∷ (0x0e, 53)
    ∷ (0x0f, 54)
    ∷ (0x10, 3)
    ∷ (0x11, 4)
    ∷ (0x12, 26)
    ∷ (0x13, 20)
    ∷ (0x14, 21)
    ∷ (0x15, 17)
    ∷ (0x16, 1)
    ∷ (0x17, 29)
    ∷ (0x18, 14)
    ∷ (0x19, 15)
    ∷ (0x1a, 16)
    ∷ (0x1b, 19)
    ∷ (0x1c, 25)
    ∷ (0x21, 9)
    ∷ (0x22, 30)
    ∷ (0x23, 31)
    ∷ (0x24, 32)
    ∷ (0x30, 24)
    ∷ (0x31, 24)
    ∷ (0x41, 8)
    ∷ (0x42, 33)
    ∷ (0x43, 34)
    ∷ (0x44, 35)
    ∷ (0x50, 18)
    ∷ (0x51, 18)
    ∷ (0x52, 5)
    ∷ (0x53, 6)
    ∷ (0x54, 7)
    ∷ (0x55, 12)
    ∷ (0x56, 10)
    ∷ (0x58, 22)
    ∷ (0x59, 36)
    ∷ (0x5a, 13)
    ∷ (0x5b, 37)
    ∷ (0x5c, 38)
    ∷ (0x5d, 39)
    ∷ (0x5e, 40)
    ∷ (0x70, 11)
    ∷ (0x71, 11)
    ∷ (0x72, 11)
    ∷ (0x73, 11)
    ∷ (0x74, 11)
    ∷ (0x75, 23)
    ∷ (0x76, 27)
    ∷ []

abbrev pub assigned : ℕ → List (ℕ × ℕ) → ℕ
assigned opcode [] = invalid_handler
assigned opcode ((entry, index) ∷ rest) = if opcode == entry then index else assigned opcode rest

-- DISPATCH_INDICES: the assignments and the loop from 0x77 to 0x7f
unfoldable pub dispatch_indices : ℕ → ℕ
dispatch_indices opcode =
    if leb 0x77 opcode && leb opcode 0x7f then 11 else assigned opcode assignments

module _ {R : Runtime} where
  -- `dispatch`, up to its call of the handler
  unfoldable pub dispatch : Exec R Handler
  unfolding dispatch_indices
  dispatch = do
    opcode ← read (next 1)
    let index = dispatch_indices opcode
    fail_if (index == invalid_handler) (invalid_opcode opcode)
    modify (λ m. record m { current_opcode = opcode })
    or_panic (get_elem? dispatch_table index)
