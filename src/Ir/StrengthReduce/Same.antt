-- ===== src/Ir/StrengthReduce/Same.antt =====
-- A multiplication that `ArithmeticStrengthReduction` (src/backend/ir/transform/optim/strength_reduce.hpp) replaces, and the
-- shift: the RV64 instructions that src/backend/rv64/isel.hpp selects for them give the same word.
use native.Mathlib.Nat.{mod-eq_of_lt, mul_comm}
use ucas_cplab.Common.{
  ℕ, ◌%◌, ◌<◌, ◌≡◌, ◌≢◌, refl, sym, ◌∙◌, ap, true, false, Option, some, arith, inl, inr,
  Option-cases,
}
use ucas_cplab.Ir.Inst.{
  LeftValue, Value, const_value, left_value, ConstexprValue, void_const, int_const, int64_const,
  float_const, bool_const, double_const, bytes_const, mul_op, shl_op, Inst, binary_inst,
}
use ucas_cplab.Ir.StrengthReduce.{log2_pow2, shift_by, reduce_inst}
use ucas_cplab.Ir.StrengthReduce.Power.{log2_pow2_impl_iff}
use ucas_cplab.Rv64.Op.{OpR}
use ucas_cplab.Rv64.Vm.Exec.{alu_r}

true-ne-false : true ≢ false
true-ne-false e = absurd (cc)

-- A word of the machine multiplied by the constant, on either side, is the word shifted by `n`, which is a
-- count within the type.
abbrev pub Scales : ConstexprValue → ℕ → Type 0
Scales (int_const v) n =
    (n < 31)
    × ((a : ℕ)
        → (alu_r OpR.mulw a v ≡ alu_r OpR.sllw a n) × (alu_r OpR.mulw v a ≡ alu_r OpR.sllw a n))
Scales (int64_const v) n =
    (n < 63)
    × ((a : ℕ) → (alu_r OpR.mul a v ≡ alu_r OpR.sll a n) × (alu_r OpR.mul v a ≡ alu_r OpR.sll a n))
Scales void_const n = ⊥
Scales (float_const v) n = ⊥
Scales (bool_const v) n = ⊥
Scales (double_const v) n = ⊥
Scales (bytes_const v) n = ⊥

shift_count : (w n : ℕ) → n < w → n % w ≡ n
shift_count w n h = mod-eq_of_lt h

log2_pow2-Scales : (c : ConstexprValue) (n : ℕ) → log2_pow2 c ≡ some n → Scales c n
unfolding log2_pow2 alu_r
log2_pow2-Scales (int_const v) n h =
    let (lt, e) = (log2_pow2_impl_iff 32 v n).0 h in
    let count = shift_count 32 n (omega (arith, lt)) in
    (lt, λ a. (rw (e, count) refl, rw (mul_comm v a, e, count) refl))
log2_pow2-Scales (int64_const v) n h =
    let (lt, e) = (log2_pow2_impl_iff 64 v n).0 h in
    let count = shift_count 64 n (omega (arith, lt)) in
    (lt, λ a. (rw (e, count) refl, rw (mul_comm v a, e, count) refl))
log2_pow2-Scales void_const n h = absurd (cc)
log2_pow2-Scales (float_const v) n h = absurd (cc)
log2_pow2-Scales (bool_const v) n h = absurd (cc)
log2_pow2-Scales (double_const v) n h = absurd (cc)
log2_pow2-Scales (bytes_const v) n h = absurd (cc)

-- The operands of the product are the constant `c` and `x`, on either side.
pub data Factors (c : ConstexprValue) (x : Value) : Value → Value → Type 0 where
  const_left : Factors c x (const_value c) x
  const_right : Factors c x x (const_value c)

shift_by-some :
    (result : Option LeftValue) (x : Value) (c : ConstexprValue) (old new : Inst)
    → shift_by result x (log2_pow2 c) old ≡ (new, true)
    → (n : ℕ) × (log2_pow2 c ≡ some n)
      × (new ≡ binary_inst shl_op result x (const_value (int_const n)))
shift_by-some result x c old new h = elim (Option-cases (log2_pow2 c)) [
  | inl e ↦
      absurd (true-ne-false (sym (ap (λ p. p.1) (sym (ap (λ o. shift_by result x o old) e) ∙ h))))
  | inr (n, e) ↦ (n, e, sym (ap (λ p. p.0) (sym (ap (λ o. shift_by result x o old) e) ∙ h)))
]

-- A multiplication that is replaced has a constant operand, and the new instruction shifts the other
-- operand by a count that is less than the width of the type by more than one: at every word, the shift of
-- the machine gives what its multiplication by the constant gives, on whichever side the constant stands.
pub reduce_inst-Scales :
    (result : Option LeftValue) (lhs rhs : Value) (new : Inst)
    → reduce_inst (binary_inst mul_op result lhs rhs) ≡ (new, true)
    → (c : ConstexprValue) × (x : Value) × (n : ℕ) × Factors c x lhs rhs
      × (new ≡ binary_inst shl_op result x (const_value (int_const n)))
      × Scales c n
unfolding reduce_inst
reduce_inst-Scales result (const_value c) rhs new h =
    let (n, e, q) =
      shift_by-some result rhs c (binary_inst mul_op result (const_value c) rhs) new h in
    (c, rhs, n, const_left, q, log2_pow2-Scales c n e)
reduce_inst-Scales result (left_value y) (const_value c) new h =
    let (n, e, q) =
      shift_by-some result (left_value y) c
        (binary_inst mul_op result (left_value y) (const_value c)) new h in
    (c, left_value y, n, const_right, q, log2_pow2-Scales c n e)
reduce_inst-Scales result (left_value y) (left_value z) new h =
    absurd (true-ne-false (sym (ap (λ p. p.1) h)))
