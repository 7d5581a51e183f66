-- ===== src/Examples/Shift.antt =====
-- Strength reduction (src/backend/ir/transform/optim/strength_reduce.hpp) of `t0 * 8`.
use ucas_cplab.Common.{ℕ, ◌-◌, ◌^◌, ◌<◌, ◌≡◌, ◌↔◌, refl, true, some}
use ucas_cplab.Ir.Inst.{
  temp_value, Value, const_value, left_value, ConstexprValue, int_const, int64_const, mul_op,
  shl_op, Inst, binary_inst,
}
use ucas_cplab.Ir.StrengthReduce.{log2_loop, log2_pow2_impl, log2_pow2, reduce_inst}
use ucas_cplab.Ir.StrengthReduce.Power.{log2_pow2_impl_iff}
use ucas_cplab.Ir.StrengthReduce.Same.{Factors, Scales, reduce_inst-Scales}

abbrev t0 : Value
t0 = left_value (temp_value 0 0)

abbrev eight : Value
eight = const_value (int64_const 8)

abbrev shifted : Inst
shifted = binary_inst shl_op (some (temp_value 0 1)) t0 (const_value (int_const 3))

reduce_inst-eight :
    reduce_inst (binary_inst mul_op (some (temp_value 0 1)) t0 eight) ≡ (shifted, true)
unfolding reduce_inst log2_pow2 log2_pow2_impl log2_loop
reduce_inst-eight = refl

reduce_inst-Scales_example :
    (c : ConstexprValue) × (x : Value) × (n : ℕ) × Factors c x t0 eight
    × (shifted ≡ binary_inst shl_op (some (temp_value 0 1)) x (const_value (int_const n)))
    × Scales c n
reduce_inst-Scales_example =
    reduce_inst-Scales (some (temp_value 0 1)) t0 eight shifted reduce_inst-eight

log2_pow2_impl_iff_example : (log2_pow2_impl 32 64 ≡ some 6) ↔ ((6 < 32 - 1) × (64 ≡ 2 ^ 6))
log2_pow2_impl_iff_example = log2_pow2_impl_iff 32 64 6
