-- ===== src/Vm/Variants.antt =====
-- crates/vm-interp/src/interpreter.rs: the handlers of variants and their fields.
use rapira.Prelude.{
  ℕ, zero, suc, ◌-◌, ◌&&◌, not, List, [], ◌∷◌, ◌++◌, ◌==◌, ltb, length, get_elem?, drop,
}
use rapira.Prelude.Int.{pos}
use rapira.Decoder.{next}
use rapira.Numeric.{to_le_bytes}
use rapira.Object.{new_boxed, new_bool}
use rapira.Runtime.{Runtime}
use rapira.Vm.{
  RuntimeVariantSchema, invalid_variant_schema, stack_underflow, invalid_type, invalid_field_index,
  Flow, dispatch_next, Exec, ◌>>=◌, ◌>>◌, pure, gets, fail_if, ok_or, read, runtime, update, push,
  pop, inc_ref_if_ptr, dec_ref_if_ptr,
}
use rapira.Vm.Words.{is_negative}

-- The words of the values, each in the machine's byte order
unfoldable pub payload_words : List ℕ → List ℕ
payload_words [] = []
payload_words (value ∷ values) = to_le_bytes 8 value ++ payload_words values

module _ {R : Runtime} where
  unfoldable pub get_variant_schema : ℕ → Exec R RuntimeVariantSchema
  get_variant_schema id = do
    fail_if (is_negative id) (invalid_variant_schema id)
    schemas ← gets (λ m. m.variant_schemas)
    ok_or (get_elem? schemas id) (invalid_variant_schema id)

  -- `for _ in 0..count { self.pop()?; }`
  unfoldable pub pop_values : ℕ → Exec R (Unit {0})
  pop_values zero = pure tt
  pop_values (suc count) = do _ ← pop; pop_values count

  -- Where the count is 0, there are no words and nothing is popped.
  unfoldable pub eval_variant : Exec R Flow
  unfolding get_variant_schema payload_words pop_values
  eval_variant = do
    id ← read (next 4)
    schema ← get_variant_schema id
    stack ← gets (λ m. m.operand_stack)
    let count = length schema.field_names
    fail_if (ltb (length stack) count) stack_underflow
    let payload = to_le_bytes 2 schema.tag ++ payload_words (drop (length stack - count) stack)
    pop_values count
    value ← runtime (R.create_custom_typed schema.name schema.field_names count payload)
    push value
    pure dispatch_next

  -- `if !RAP_IS_VARIANT(value) { return Err(..) }`
  abbrev expect_variant : ℕ → Exec R (Unit {0})
  expect_variant value = do
    heap ← gets (λ m. m.heap)
    fail_if (not (R.is_variant value heap)) (invalid_type "expected variant")

  unfoldable pub eval_variant_tag : Exec R Flow
  eval_variant_tag = do
    value ← pop
    expect_variant value
    tag ← gets (λ m. R.variant_tag value m.heap)
    dec_ref_if_ptr value
    push (new_boxed (pos tag))
    pure dispatch_next

  unfoldable pub eval_is_variant : Exec R Flow
  unfolding get_variant_schema
  eval_is_variant = do
    id ← read (next 4)
    schema ← get_variant_schema id
    value ← pop
    matches ← gets (λ m. R.is_variant value m.heap && R.variant_tag value m.heap == schema.tag)
    dec_ref_if_ptr value
    push (new_bool matches)
    pure dispatch_next

  unfoldable pub eval_field : Exec R Flow
  eval_field = do
    index ← read (next 4)
    fail_if (is_negative index) invalid_field_index
    value ← pop
    expect_variant value
    field ← runtime (R.variant_field value index)
    inc_ref_if_ptr field
    dec_ref_if_ptr value
    push field
    pure dispatch_next

  unfoldable pub eval_set_field : Exec R Flow
  eval_set_field = do
    index ← read (next 4)
    fail_if (is_negative index) invalid_field_index
    variant_value ← pop
    value ← pop
    expect_variant variant_value
    update (R.set_variant_field variant_value index value)
    dec_ref_if_ptr value
    dec_ref_if_ptr variant_value
    pure dispatch_next
