-- ===== src/Ir/ConstantFold.antt =====
-- `ConstexprFolder` and `ConstantFolding` (src/backend/ir/transform/optim/constant_fold.hpp). An `int` or an `int64_t` is
-- its pattern of `w` bits, a `float` or a `double` its bits; floating-point arithmetic is that of the host.
use ucas_cplab.Common.{
  ℕ, ◌+◌, ◌-◌, ◌*◌, ◌/◌, ◌%◌, ◌^◌, Bool, true, false, not, ◌&&◌, ◌||◌, if◌then◌else◌, ltb, ◌==◌,
}
use ucas_cplab.Ir.Inst.{
  ConstexprValue, void_const, int_const, int64_const, float_const, bool_const, double_const,
  bytes_const, UnaryInstOp, InstOp,
}
use ucas_cplab.Rv64.Vm.{Host}
pub mod Pass
pub mod Identity
pub mod Same

-- `undefined`: C++ leaves the result of a division or of a shift undefined. An overflow of +, - or *, which it leaves
-- undefined as well, wraps.
pub data Folded : Type 0 where
  unfolded : Folded
  folded : ConstexprValue → Folded
  undefined : Folded

-- Two's complement with `w` bits.
abbrev pub signed_neg : ℕ → ℕ → ℕ
signed_neg w a = (2 ^ w - a) % 2 ^ w

abbrev pub signed_lt : ℕ → ℕ → ℕ → Bool
signed_lt w a b = ltb ((a + 2 ^ (w - 1)) % 2 ^ w) ((b + 2 ^ (w - 1)) % 2 ^ w)

abbrev pub below_zero : ℕ → ℕ → Bool
below_zero w a = not (ltb a (2 ^ (w - 1)))

abbrev pub absolute : ℕ → ℕ → ℕ
absolute w a = if below_zero w a then 2 ^ w - a else a

-- The quotient is truncated, and the remainder has the sign of the dividend.
unfoldable pub signed_div : ℕ → ℕ → ℕ → ℕ
signed_div w a b =
    if below_zero w a && not (below_zero w b) || below_zero w b && not (below_zero w a)
    then signed_neg w (absolute w a / absolute w b)
    else absolute w a / absolute w b

unfoldable pub signed_mod : ℕ → ℕ → ℕ → ℕ
signed_mod w a b =
    if below_zero w a
    then signed_neg w (absolute w a % absolute w b)
    else absolute w a % absolute w b

-- `>>` on a negative number fills with ones.
unfoldable pub signed_shift : ℕ → ℕ → ℕ → ℕ
signed_shift w a s = if below_zero w a then 2 ^ w - 1 - (2 ^ w - 1 - a) / 2 ^ s else a / 2 ^ s

-- The smallest number divided by -1.
abbrev pub overflows : ℕ → ℕ → ℕ → Bool
overflows w l r = l == 2 ^ (w - 1) && r == 2 ^ w - 1

-- `r ? l / r : std::nullopt`
abbrev pub divided : ℕ → (ℕ → ConstexprValue) → ℕ → ℕ → ℕ → Folded
divided w mk l r q =
    if r == 0 then unfolded else if overflows w l r then undefined else folded (mk q)

-- A count outside of the type is undefined.
abbrev pub shifted : ℕ → (ℕ → ConstexprValue) → ℕ → ℕ → Folded
shifted w mk r v = if ltb r w then folded (mk v) else undefined

-- The `switch` for an `int` (`w` is 32) and an `int64_t` (64); `mk` is the constructor of the type.
unfoldable pub fold_int : ℕ → (ℕ → ConstexprValue) → InstOp → ℕ → ℕ → Folded
fold_int w mk InstOp.add_op l r = folded (mk ((l + r) % 2 ^ w))
fold_int w mk InstOp.sub_op l r = folded (mk ((l + 2 ^ w - r) % 2 ^ w))
fold_int w mk InstOp.mul_op l r = folded (mk (l * r % 2 ^ w))
fold_int w mk InstOp.div_op l r = divided w mk l r (signed_div w l r)
fold_int w mk InstOp.mod_op l r = divided w mk l r (signed_mod w l r)
fold_int w mk InstOp.shl_op l r = shifted w mk r (l * 2 ^ r % 2 ^ w)
fold_int w mk InstOp.shrl_op l r = shifted w mk r (l / 2 ^ r)
fold_int w mk InstOp.shra_op l r = shifted w mk r (signed_shift w l r)
fold_int w mk InstOp.lt_op l r = folded (bool_const (signed_lt w l r))
fold_int w mk InstOp.gt_op l r = folded (bool_const (signed_lt w r l))
fold_int w mk InstOp.leq_op l r = folded (bool_const (not (signed_lt w r l)))
fold_int w mk InstOp.geq_op l r = folded (bool_const (not (signed_lt w l r)))
fold_int w mk InstOp.eq_op l r = folded (bool_const (l == r))
fold_int w mk InstOp.neq_op l r = folded (bool_const (not (l == r)))
fold_int w mk op l r = unfolded

-- The `switch` for a `float`, and for a `double`. `r ? ... : ...` tests for a zero of either sign.
unfoldable pub fold_float : Host → InstOp → ℕ → ℕ → Folded
fold_float h InstOp.add_op l r = folded (float_const (h.add_s l r))
fold_float h InstOp.sub_op l r = folded (float_const (h.sub_s l r))
fold_float h InstOp.mul_op l r = folded (float_const (h.mul_s l r))
fold_float h InstOp.div_op l r = if h.eq_s r 0 then unfolded else folded (float_const (h.div_s l r))
fold_float h InstOp.lt_op l r = folded (bool_const (h.lt_s l r))
fold_float h InstOp.gt_op l r = folded (bool_const (h.lt_s r l))
fold_float h InstOp.leq_op l r = folded (bool_const (h.le_s l r))
fold_float h InstOp.geq_op l r = folded (bool_const (h.le_s r l))
fold_float h InstOp.eq_op l r = folded (bool_const (h.eq_s l r))
fold_float h InstOp.neq_op l r = folded (bool_const (not (h.eq_s l r)))
fold_float h op l r = unfolded

unfoldable pub fold_double : Host → InstOp → ℕ → ℕ → Folded
fold_double h InstOp.add_op l r = folded (double_const (h.add_d l r))
fold_double h InstOp.sub_op l r = folded (double_const (h.sub_d l r))
fold_double h InstOp.mul_op l r = folded (double_const (h.mul_d l r))
fold_double h InstOp.div_op l r =
    if h.eq_d r 0 then unfolded else folded (double_const (h.div_d l r))
fold_double h InstOp.lt_op l r = folded (bool_const (h.lt_d l r))
fold_double h InstOp.gt_op l r = folded (bool_const (h.lt_d r l))
fold_double h InstOp.leq_op l r = folded (bool_const (h.le_d l r))
fold_double h InstOp.geq_op l r = folded (bool_const (h.le_d r l))
fold_double h InstOp.eq_op l r = folded (bool_const (h.eq_d l r))
fold_double h InstOp.neq_op l r = folded (bool_const (not (h.eq_d l r)))
fold_double h op l r = unfolded

abbrev pub same_bool : Bool → Bool → Bool
same_bool true b = b
same_bool false b = not b

unfoldable pub fold_bool : InstOp → Bool → Bool → Folded
fold_bool InstOp.and_op l r = folded (bool_const (l && r))
fold_bool InstOp.or_op l r = folded (bool_const (l || r))
fold_bool InstOp.eq_op l r = folded (bool_const (same_bool l r))
fold_bool InstOp.neq_op l r = folded (bool_const (not (same_bool l r)))
fold_bool op l r = unfolded

-- The two overloads of `fold`. Constants of different types, and those of no primitive type, stay.
unfoldable pub fold_binary : Host → InstOp → ConstexprValue → ConstexprValue → Folded
unfolding fold_int fold_float fold_double fold_bool
fold_binary h op (int_const l) (int_const r) = fold_int 32 int_const op l r
fold_binary h op (int64_const l) (int64_const r) = fold_int 64 int64_const op l r
fold_binary h op (float_const l) (float_const r) = fold_float h op l r
fold_binary h op (double_const l) (double_const r) = fold_double h op l r
fold_binary h op (bool_const l) (bool_const r) = fold_bool op l r
fold_binary h op lhs rhs = unfolded

unfoldable pub fold_unary : UnaryInstOp → ConstexprValue → Folded
fold_unary UnaryInstOp.neg_op (int_const v) = folded (int_const (signed_neg 32 v))
fold_unary UnaryInstOp.neg_op (int64_const v) = folded (int64_const (signed_neg 64 v))
fold_unary UnaryInstOp.neg_op (float_const v) = folded (float_const ((v + 2 ^ 31) % 2 ^ 32))
fold_unary UnaryInstOp.neg_op (double_const v) = folded (double_const ((v + 2 ^ 63) % 2 ^ 64))
fold_unary UnaryInstOp.not_op (bool_const v) = folded (bool_const (not v))
fold_unary op operand = unfolded
