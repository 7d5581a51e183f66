-- ===== src/Ir/StrengthReduce.antt =====
-- `ArithmeticStrengthReduction` (src/backend/ir/transform/optim/strength_reduce.hpp). `int` and `int64_t` are words of
-- `w` bits; the loop of `log2_pow2_impl` has the value as its fuel.
use Prim.Native.Nat.{bit_and}
use ucas_cplab.Common.{
  ℕ, zero, suc, ◌+◌, ◌-◌, ◌/◌, ◌^◌, Bool, true, false, ◌||◌, Option, none, some, List, [], ◌∷◌, ltb,
  leb, ◌==◌, if◌then◌else◌,
}
use ucas_cplab.Ir.Inst.{
  LeftValue, Value, const_value, left_value, ConstexprValue, void_const, int_const, int64_const,
  float_const, bool_const, double_const, bytes_const, InstOp, mul_op, shl_op, Inst, phi_inst,
  unary_inst, binary_inst, call_inst, Block, Func,
}
pub mod Power
pub mod Same

-- `while (uv > 1) { uv >>= 1; n++; }`
unfoldable pub log2_loop : ℕ → ℕ → ℕ → ℕ
log2_loop zero uv n = n
log2_loop (suc fuel) uv n =
    let rest = log2_loop fuel (uv / 2) (n + 1) in if ltb 1 uv then rest else n

-- `v <= 0` is zero or the upper half of the words.
unfoldable pub log2_pow2_impl : ℕ → ℕ → Option ℕ
unfolding log2_loop
log2_pow2_impl w v =
    if v == 0 || leb (2 ^ (w - 1)) v
    then none
    else if bit_and v (v - 1) == 0
    then some (log2_loop v v 0)
    else none

unfoldable pub log2_pow2 : ConstexprValue → Option ℕ
unfolding log2_pow2_impl
log2_pow2 (int_const v) = log2_pow2_impl 32 v
log2_pow2 (int64_const v) = log2_pow2_impl 64 v
log2_pow2 void_const = none
log2_pow2 (float_const v) = none
log2_pow2 (bool_const v) = none
log2_pow2 (double_const v) = none
log2_pow2 (bytes_const v) = none

-- The new instruction, and whether it is one: `lhs_c` goes before `rhs_c`.
abbrev pub shift_by : Option LeftValue → Value → Option ℕ → Inst → Inst × Bool
shift_by result x none old = (old, false)
shift_by result x (some n) old = (binary_inst shl_op result x (const_value (int_const n)), true)

abbrev pub reduce_mul : Option LeftValue → Value → Value → Inst → Inst × Bool
unfolding log2_pow2
reduce_mul result (const_value c) rhs old = shift_by result rhs (log2_pow2 c) old
reduce_mul result (left_value x) (const_value c) old =
    shift_by result (left_value x) (log2_pow2 c) old
reduce_mul result (left_value x) (left_value y) old = (old, false)

unfoldable pub reduce_inst : Inst → Inst × Bool
unfolding log2_pow2
reduce_inst (binary_inst mul_op result lhs rhs) =
    reduce_mul result lhs rhs (binary_inst mul_op result lhs rhs)
reduce_inst (binary_inst op result lhs rhs) = (binary_inst op result lhs rhs, false)
reduce_inst (phi_inst result args) = (phi_inst result args, false)
reduce_inst (unary_inst op result operand) = (unary_inst op result operand, false)
reduce_inst (call_inst result func args) = (call_inst result func args, false)

unfoldable pub reduce_insts : List Inst → List Inst × Bool
unfolding reduce_inst
reduce_insts [] = ([], false)
reduce_insts (i ∷ is) =
    let (j, c) = reduce_inst i in let (js, d) = reduce_insts is in (j ∷ js, c || d)

unfoldable pub reduce_blocks : List (ℕ × Block) → List (ℕ × Block) × Bool
unfolding reduce_insts
reduce_blocks [] = ([], false)
reduce_blocks (b ∷ bs) =
    let (is, c) = reduce_insts b.1.insts in
    let (cs, d) = reduce_blocks bs in ((b.0, record b.1 { insts = is }) ∷ cs, c || d)
