-- ===== src/Vm/Aggregates.antt =====
-- crates/vm-interp/src/interpreter.rs: the handlers of tuples, slices and their elements.
use rapira.Prelude.{
  ℕ, zero, suc, ◌-◌, ◌%◌, ◌/◌, ◌^◌, ◌||◌, not, Bool, true, false, List, ◌==◌, leb, ltb,
  if◌then◌else◌, length, drop,
}
use rapira.Prelude.Int.{ℤ, pos, negsuc, leb_ℤ, ltb_ℤ}
use rapira.Decoder.{next}
use rapira.Object.{unbox, to_u64}
use rapira.Runtime.{Runtime}
use rapira.Vm.{
  out_of_bounds_access, Flow, dispatch_next, Exec, ◌>>=◌, ◌>>◌, pure, gets, fail, fail_if, read,
  runtime, update, push, pop, dec_ref_if_ptr,
}
use rapira.Vm.Words.{as_usize}

-- `index < 0 || index >= length`
unfoldable pub out_of_range : ℤ → ℤ → Bool
out_of_range index length = ltb_ℤ index (pos 0) || leb_ℤ length index

module _ {R : Runtime} where
  -- `u32::try_from(index).unwrap()`
  unfoldable pub u32_try_from : ℤ → Exec R ℕ
  u32_try_from (pos index) = if ltb index (2 ^ 32) then pure index else fail
  u32_try_from (negsuc index) = fail

  unfoldable pub eval_elem : Exec R Flow
  unfolding out_of_range u32_try_from
  eval_elem = do
    index_obj ← pop
    collection ← pop
    let index = unbox index_obj
    length_obj ← runtime (R.length collection)
    let length = unbox length_obj
    fail_if (out_of_range index length) (out_of_bounds_access (to_u64 index) (to_u64 length))
    at ← u32_try_from index
    element ← runtime (R.get_tuple_item collection at)
    push element
    dec_ref_if_ptr collection
    dec_ref_if_ptr index_obj
    pure dispatch_next

  unfoldable pub eval_sts : Exec R Flow
  eval_sts = do
    slice ← pop
    value ← pop
    update (R.slice_assign slice value)
    dec_ref_if_ptr slice
    dec_ref_if_ptr value
    pure dispatch_next

  -- `index.unbox() as u32`
  unfoldable pub eval_sta : Exec R Flow
  eval_sta = do
    aggregate ← pop
    index ← pop
    value ← pop
    obj ← runtime (R.set_tuple_item aggregate (to_u64 (unbox index) % 2 ^ 32) value)
    push obj
    dec_ref_if_ptr index
    dec_ref_if_ptr value
    pure dispatch_next

  -- `for _ in 0..n { let element = self.pop()?; Self::dec_ref_if_ptr(element); }`
  unfoldable pub release_values : ℕ → Exec R (Unit {0})
  release_values zero = pure tt
  release_values (suc n) = do element ← pop; dec_ref_if_ptr element; release_values n

  -- The top values of the stack, a slice that panics where there are fewer
  unfoldable pub top_values : ℕ → Exec R (List ℕ)
  top_values n = do
    stack ← gets (λ m. m.operand_stack)
    if leb n (length stack) then pure (drop (length stack - n) stack) else fail

  -- A count of 0 takes the same steps: no value, and none to release.
  unfoldable pub eval_tuple : Exec R Flow
  unfolding top_values release_values
  eval_tuple = do
    n ← read (next 4)
    values ← top_values (as_usize n)
    obj ← runtime (R.create_tuple values)
    release_values n
    push obj
    pure dispatch_next

  -- `if bounds & bit != 0 { self.pop()?.unbox() } else { default }`
  abbrev pop_bound : Bool → ℤ → Exec R ℤ
  pop_bound true default = do bound ← pop; pure (unbox bound)
  pop_bound false default = pure default

  -- An upper bound below 0 stands for the length.
  abbrev upper_bound : Bool → ℤ → ℕ → Exec R ℤ
  upper_bound true to collection = do length ← runtime (R.length collection); pure (unbox length)
  upper_bound false to collection = pure to

  unfoldable pub eval_slice : Exec R Flow
  eval_slice = do
    bounds ← read (next 1)
    to ← pop_bound (not (bounds / 2 % 2 == 0)) (negsuc 0)
    from ← pop_bound (not (bounds % 2 == 0)) (pos 0)
    collection ← pop
    end ← upper_bound (ltb_ℤ to (pos 0)) to collection
    result ← runtime (R.create_slice collection from end)
    dec_ref_if_ptr collection
    push result
    pure dispatch_next
