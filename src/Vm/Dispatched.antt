-- ===== src/Vm/Dispatched.antt =====
-- crates/vm-interp/src/interpreter.rs with crates/vm-core/src/decoder.rs: the handler to which an
-- encoded instruction is dispatched.
use mathlib.Core.Path.{subst}
use rapira.Prelude.{
  ℕ, ◌+◌, ◌≡◌, refl, ap, some, Option, List, [], ◌∷◌, ◌++◌, ◌==◌, get_elem?, arith, Bool-cases, inl,
  inr, ==→eq, ◌*◌, false,
}
use rapira.Outcome.{Outcome, ok, >>=-eq-ok, ok_injective}
use rapira.Numeric.{from_le_bytes}
use rapira.Bytecode.{
  Op, add, sub, mul, div, mod_, lt, leq, gt, geq, eq, neq, and, or, idiv, pow, negate, not_, global,
  local, arg, capture, is_zero, is_nonzero, Builtin, lread, Instruction, nop, end, binop, const,
  string, begin, cbegin, closure, store, load, call, call_builtin, callc, line, dup, swap, jmp,
  cjmp, elem, sts, sta, array, bool, unary, constf, tuple, null, label, slice, variant, variant_tag,
  field, set_field, is_variant,
}
use rapira.Decoder.{DecoderError}
use rapira.Decoder.Encode.{target, encode}
use rapira.Decoder.Reads.{Ahead, advance, next-Ahead}
use rapira.Runtime.{Runtime}
use rapira.Vm.{Machine}
use rapira.Vm.Dispatch.{
  Handler, dispatch_table, invalid_handler, dispatch_indices, dispatch, handle_nop, handle_end,
  handle_binop_add, handle_const, handle_string, handle_begin, handle_cbegin, handle_closure,
  handle_store_global, handle_load_global, handle_call, handle_call_builtin, handle_callc,
  handle_line, handle_drop, handle_dup, handle_swap, handle_jmp, handle_cjmp, handle_elem,
  handle_sts, handle_sta, handle_array, handle_bool, handle_unary, handle_constf, handle_tuple,
  handle_null, handle_label, handle_slice, handle_load_local, handle_load_arg, handle_load_capture,
  handle_store_local, handle_store_arg, handle_store_capture, handle_variant, handle_variant_tag,
  handle_field, handle_set_field, handle_is_variant, handle_binop_subtract, handle_binop_multiply,
  handle_binop_divide, handle_binop_modulo, handle_binop_less_than, handle_binop_less_or_equal,
  handle_binop_greater_than, handle_binop_greater_or_equal, handle_binop_equal,
  handle_binop_not_equal, handle_binop_and, handle_binop_or, handle_binop_floor_divide,
  handle_binop_power,
}

-- The handler that is meant for an instruction.
abbrev pub handler_for : Instruction → Handler
handler_for nop = handle_nop
handler_for end = handle_end
handler_for (const value) = handle_const
handler_for (string index) = handle_string
handler_for (tuple n) = handle_tuple
handler_for sts = handle_sts
handler_for sta = handle_sta
handler_for (jmp dest) = handle_jmp
handler_for (slice bounds) = handle_slice
handler_for Instruction.drop = handle_drop
handler_for dup = handle_dup
handler_for swap = handle_swap
handler_for elem = handle_elem
handler_for (constf value) = handle_constf
handler_for (load global index) = handle_load_global
handler_for (load local index) = handle_load_local
handler_for (load arg index) = handle_load_arg
handler_for (load capture index) = handle_load_capture
handler_for (unary op) = handle_unary
handler_for (store global index) = handle_store_global
handler_for (store local index) = handle_store_local
handler_for (store arg index) = handle_store_arg
handler_for (store capture index) = handle_store_capture
handler_for (cjmp dest kind) = handle_cjmp
handler_for (begin args locals) = handle_begin
handler_for (cbegin args locals) = handle_cbegin
handler_for (closure dest arity) = handle_closure
handler_for (callc arity) = handle_callc
handler_for (call dest n) = handle_call
handler_for (array n) = handle_array
handler_for (variant schema) = handle_variant
handler_for (line n) = handle_line
handler_for variant_tag = handle_variant_tag
handler_for (field index) = handle_field
handler_for (set_field index) = handle_set_field
handler_for (is_variant schema) = handle_is_variant
handler_for (call_builtin name n) = handle_call_builtin
handler_for (bool value) = handle_bool
handler_for null = handle_null
handler_for (label name) = handle_label
handler_for (binop add) = handle_binop_add
handler_for (binop sub) = handle_binop_subtract
handler_for (binop mul) = handle_binop_multiply
handler_for (binop div) = handle_binop_divide
handler_for (binop mod_) = handle_binop_modulo
handler_for (binop lt) = handle_binop_less_than
handler_for (binop leq) = handle_binop_less_or_equal
handler_for (binop gt) = handle_binop_greater_than
handler_for (binop geq) = handle_binop_greater_or_equal
handler_for (binop eq) = handle_binop_equal
handler_for (binop neq) = handle_binop_not_equal
handler_for (binop idiv) = handle_binop_floor_divide
handler_for (binop pow) = handle_binop_power
handler_for (binop and) = handle_binop_and
handler_for (binop or) = handle_binop_or

-- The handler that the tables give an opcode.
abbrev handler_at : ℕ → Option Handler
handler_at opcode = get_elem? dispatch_table (dispatch_indices opcode)

abbrev first : List ℕ → ℕ
first [] = 0
first (x ∷ xs) = x

at :
    {c b : ℕ} {xs bs : List ℕ} {h : Handler}
    → ◌≡◌ {A = Outcome DecoderError (List ℕ)} (ok (c ∷ xs)) (ok (b ∷ bs))
    → handler_at c ≡ some h
    → handler_at b ≡ some h
at {c} {b} {h = h} e p =
    let head : c ≡ b = ap first (ok_injective e) in subst (λ x. handler_at x ≡ some h) head p

head_binop :
    (op : Op) (b : ℕ) (bs : List ℕ)
    → encode (binop op) ≡ ok (b ∷ bs)
    → handler_at b ≡ some (handler_for (binop op))
unfolding encode dispatch_indices
head_binop add b bs e = at e refl
head_binop op b bs e = at e refl

head_builtin :
    (name : Builtin) (n b : ℕ) (bs : List ℕ)
    → encode (call_builtin name n) ≡ ok (b ∷ bs)
    → handler_at b ≡ some handle_call_builtin
unfolding encode dispatch_indices
head_builtin lread n b bs e = at e refl
head_builtin name n b bs e = at e refl

head_lem :
    (i : Instruction) (b : ℕ) (bs : List ℕ)
    → encode i ≡ ok (b ∷ bs)
    → handler_at b ≡ some (handler_for i)
unfolding encode dispatch_indices
head_lem nop b bs e = at e refl
head_lem end b bs e = at e refl
head_lem (const value) b bs e = at e refl
head_lem (string index) b bs e = at e refl
head_lem (tuple n) b bs e = at e refl
head_lem sts b bs e = at e refl
head_lem sta b bs e = at e refl
head_lem (jmp dest) b bs e = let (x, _, e₁) = >>=-eq-ok (target dest) _ e in at e₁ refl
head_lem (slice bounds) b bs e = at e refl
head_lem Instruction.drop b bs e = at e refl
head_lem dup b bs e = at e refl
head_lem swap b bs e = at e refl
head_lem elem b bs e = at e refl
head_lem (constf value) b bs e = at e refl
head_lem (load global index) b bs e = at e refl
head_lem (load local index) b bs e = at e refl
head_lem (load arg index) b bs e = at e refl
head_lem (load capture index) b bs e = at e refl
head_lem (unary negate) b bs e = at e refl
head_lem (unary not_) b bs e = at e refl
head_lem (store global index) b bs e = at e refl
head_lem (store local index) b bs e = at e refl
head_lem (store arg index) b bs e = at e refl
head_lem (store capture index) b bs e = at e refl
head_lem (cjmp dest is_zero) b bs e = let (x, _, e₁) = >>=-eq-ok (target dest) _ e in at e₁ refl
head_lem (cjmp dest is_nonzero) b bs e = let (x, _, e₁) = >>=-eq-ok (target dest) _ e in at e₁ refl
head_lem (begin args locals) b bs e = at e refl
head_lem (cbegin args locals) b bs e = at e refl
head_lem (closure dest arity) b bs e = let (x, _, e₁) = >>=-eq-ok (target dest) _ e in at e₁ refl
head_lem (callc arity) b bs e = at e refl
head_lem (call dest n) b bs e = let (x, _, e₁) = >>=-eq-ok (target dest) _ e in at e₁ refl
head_lem (array n) b bs e = at e refl
head_lem (variant schema) b bs e = at e refl
head_lem (line n) b bs e = at e refl
head_lem variant_tag b bs e = at e refl
head_lem (field index) b bs e = at e refl
head_lem (set_field index) b bs e = at e refl
head_lem (is_variant schema) b bs e = at e refl
head_lem (call_builtin name n) b bs e = head_builtin name n b bs e
head_lem (bool value) b bs e = at e refl
head_lem null b bs e = at e refl
head_lem (label name) b bs e = cc
head_lem (binop op) b bs e = head_binop op b bs e

handler_at-valid :
    (opcode : ℕ) (h : Handler)
    → handler_at opcode ≡ some h
    → (dispatch_indices opcode == invalid_handler) ≡ false
handler_at-valid opcode h e = elim (Bool-cases (dispatch_indices opcode == invalid_handler)) [
  | inr valid ↦ valid
  | inl invalid ↦
      let e' : get_elem? dispatch_table invalid_handler ≡ some h =
        subst (λ x. get_elem? dispatch_table x ≡ some h) (==→eq _ _ invalid) e in
      cc
]

module _ {R : Runtime} where
  -- At the bytes that `encode` gives for any instruction, `dispatch` reads the opcode, keeps it, stands
  -- behind it, and gives the handler that is meant for the instruction.
  pub dispatch-encode :
      (i : Instruction) (b : ℕ) (bs rest : List ℕ) (m : Machine R)
      → encode i ≡ ok (b ∷ bs)
      → Ahead m.decoder ((b ∷ bs) ++ rest)
      → dispatch m
        ≡ (ok (handler_for i), record m { decoder = advance 1 m.decoder; current_opcode = b })
  unfolding dispatch from_le_bytes
  dispatch-encode i b bs rest m e h =
      let one : b + 256 * 0 ≡ b = omega arith in
      let at = head_lem i b bs e in
      rw (
        next-Ahead (b ∷ []) (bs ++ rest) 1 m.decoder refl h,
        one,
        handler_at-valid b (handler_for i) at,
        at,
      )
