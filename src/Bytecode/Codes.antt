-- ===== src/Bytecode/Codes.antt =====
-- crates/vm-core/src/bytecode.rs: the numbers of the sub-opcodes, `TryFrom<u8>` and
-- `From<&T> for &i32`. `none` is the `Err(())` of a conversion.
use rapira.Prelude.{ℕ, ◌+◌, ◌≡◌, ◌≢◌, refl, Option, none, some, ◌==◌, if◌then◌else◌}
use rapira.Bytecode.{
  Op, add, sub, mul, div, mod_, lt, leq, gt, geq, eq, neq, and, or, idiv, pow, UnaryOp, negate,
  not_, ValueRel, global, local, arg, capture, CompareJumpKind, is_zero, is_nonzero, Builtin, lread,
  lwrite, llength, abs, ttuple, sqrt, floor, round, tslice, tint, tfloat, ttext, tbool, tnull,
}

unfoldable pub op_from_u8 : ℕ → Option Op
op_from_u8 subopcode =
    if subopcode == 0x1
    then some add
    else if subopcode == 0x2
    then some sub
    else if subopcode == 0x3
    then some mul
    else if subopcode == 0x4
    then some div
    else if subopcode == 0x5
    then some mod_
    else if subopcode == 0x6
    then some lt
    else if subopcode == 0x7
    then some leq
    else if subopcode == 0x8
    then some gt
    else if subopcode == 0x9
    then some geq
    else if subopcode == 0xa
    then some eq
    else if subopcode == 0xb
    then some neq
    else if subopcode == 0xc
    then some and
    else if subopcode == 0xd
    then some or
    else if subopcode == 0xe
    then some idiv
    else if subopcode == 0xf
    then some pow
    else none

unfoldable pub value_rel_from_u8 : ℕ → Option ValueRel
value_rel_from_u8 subopcode =
    if subopcode == 0x1
    then some global
    else if subopcode == 0x2
    then some local
    else if subopcode == 0x3
    then some arg
    else if subopcode == 0x4
    then some capture
    else none

unfoldable pub builtin_from_u8 : ℕ → Option Builtin
builtin_from_u8 subopcode =
    if subopcode == 0x0
    then some lread
    else if subopcode == 0x1
    then some lwrite
    else if subopcode == 0x2
    then some llength
    else if subopcode == 0x3
    then some tbool
    else if subopcode == 0x4
    then some ttext
    else if subopcode == 0x7
    then some abs
    else if subopcode == 0x8
    then some ttuple
    else if subopcode == 0x9
    then some sqrt
    else if subopcode == 0xa
    then some floor
    else if subopcode == 0xb
    then some round
    else if subopcode == 0xc
    then some tslice
    else if subopcode == 0xd
    then some tint
    else if subopcode == 0xe
    then some tfloat
    else if subopcode == 0xf
    then some tnull
    else none

unfoldable pub compare_jump_kind_from_u8 : ℕ → Option CompareJumpKind
compare_jump_kind_from_u8 subopcode =
    if subopcode == 0 then some is_zero else if subopcode == 1 then some is_nonzero else none

unfoldable pub unary_op_from_u8 : ℕ → Option UnaryOp
unary_op_from_u8 subopcode =
    if subopcode == 0 then some negate else if subopcode == 1 then some not_ else none

unfoldable pub op_to_i32 : Op → ℕ
op_to_i32 add = 0
op_to_i32 sub = 1
op_to_i32 mul = 2
op_to_i32 div = 3
op_to_i32 mod_ = 4
op_to_i32 lt = 5
op_to_i32 leq = 6
op_to_i32 gt = 7
op_to_i32 geq = 8
op_to_i32 eq = 9
op_to_i32 neq = 10
op_to_i32 and = 11
op_to_i32 or = 12
op_to_i32 idiv = 13
op_to_i32 pow = 14

unfoldable pub unary_op_to_i32 : UnaryOp → ℕ
unary_op_to_i32 negate = 0
unary_op_to_i32 not_ = 1

unfoldable pub value_rel_to_i32 : ValueRel → ℕ
value_rel_to_i32 global = 1
value_rel_to_i32 local = 2
value_rel_to_i32 arg = 3
value_rel_to_i32 capture = 4

unfoldable pub builtin_to_i32 : Builtin → ℕ
builtin_to_i32 lread = 0
builtin_to_i32 lwrite = 1
builtin_to_i32 llength = 2
builtin_to_i32 tbool = 3
builtin_to_i32 ttext = 4
builtin_to_i32 abs = 7
builtin_to_i32 ttuple = 8
builtin_to_i32 sqrt = 9
builtin_to_i32 floor = 10
builtin_to_i32 round = 11
builtin_to_i32 tslice = 12
builtin_to_i32 tint = 13
builtin_to_i32 tfloat = 14
builtin_to_i32 tnull = 15

unfoldable pub compare_jump_kind_to_i32 : CompareJumpKind → ℕ
compare_jump_kind_to_i32 is_zero = 1
compare_jump_kind_to_i32 is_nonzero = 2

op_round_trip : (op : Op) → op_from_u8 (op_to_i32 op + 1) ≡ some op
unfolding op_from_u8 op_to_i32
op_round_trip add = refl
op_round_trip _ = refl

builtin_round_trip : (name : Builtin) → builtin_from_u8 (builtin_to_i32 name) ≡ some name
unfolding builtin_from_u8 builtin_to_i32
builtin_round_trip lread = refl
builtin_round_trip _ = refl

value_rel_round_trip : (rel : ValueRel) → value_rel_from_u8 (value_rel_to_i32 rel) ≡ some rel
unfolding value_rel_from_u8 value_rel_to_i32
value_rel_round_trip global = refl
value_rel_round_trip _ = refl

unary_op_round_trip : (op : UnaryOp) → unary_op_from_u8 (unary_op_to_i32 op) ≡ some op
unfolding unary_op_from_u8 unary_op_to_i32
unary_op_round_trip negate = refl
unary_op_round_trip not_ = refl

compare_jump_kind_mismatch :
    (kind : CompareJumpKind) → compare_jump_kind_from_u8 (compare_jump_kind_to_i32 kind) ≢ some kind
unfolding compare_jump_kind_from_u8 compare_jump_kind_to_i32
compare_jump_kind_mismatch is_zero = cc
compare_jump_kind_mismatch is_nonzero = cc

-- The number of a builtin, of a value's scope and of a unary operation is converted back to it, and
-- so is one more than the number of a binary operation. The number of a jump's kind never is.
pub codes_invert :
    ((op : Op) → op_from_u8 (op_to_i32 op + 1) ≡ some op)
    × ((name : Builtin) → builtin_from_u8 (builtin_to_i32 name) ≡ some name)
    × ((rel : ValueRel) → value_rel_from_u8 (value_rel_to_i32 rel) ≡ some rel)
    × ((op : UnaryOp) → unary_op_from_u8 (unary_op_to_i32 op) ≡ some op)
    × ((kind : CompareJumpKind)
        → compare_jump_kind_from_u8 (compare_jump_kind_to_i32 kind) ≢ some kind)
codes_invert = (
  op_round_trip, builtin_round_trip, value_rel_round_trip, unary_op_round_trip,
  compare_jump_kind_mismatch,
)
