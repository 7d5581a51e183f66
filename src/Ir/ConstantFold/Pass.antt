-- ===== src/Ir/ConstantFold/Pass.antt =====
-- `ConstantFolding::propagate` on the blocks of a function (src/backend/ir/transform/optim/constant_fold.hpp). The equality
-- of array constants looks at their types, which are not part of the model: it is an argument.
use ucas_cplab.Common.{
  ℕ, Bool, true, false, not, ◌||◌, Option, none, some, List, [], ◌∷◌, if◌then◌else◌, ◌==◌,
}
use mathlib.Core.Option
use ucas_cplab.Ir.Inst.{
  ConstexprValue, void_const, int_const, int64_const, float_const, bool_const, double_const,
  bytes_const, LeftValue, Value, const_value, left_value, UnaryInstOp, InstOp, Inst, phi_inst,
  unary_inst, binary_inst, Exit, branch_exit, jump_exit, Block,
}
use ucas_cplab.Ir.ConstantFold.{
  Folded, unfolded, folded, undefined, fold_unary, fold_binary, same_bool,
}
use ucas_cplab.Rv64.Vm.{Host}

-- What happens to an instruction.
pub data Rewrite : Type 0 where
  kept : Rewrite
  replaced : Inst → Rewrite
  undefined_fold : Rewrite

abbrev pub move : LeftValue → Value → Rewrite
move result v = replaced (unary_inst UnaryInstOp.mov_op (some result) v)

abbrev pub move_folded : LeftValue → Folded → Rewrite
move_folded result unfolded = kept
move_folded result (folded c) = move result (const_value c)
move_folded result undefined = undefined_fold

-- The lambdas `is_zero` and `is_one`: a floating-point zero has either sign, and `false` is a zero.
unfoldable pub is_zero : Host → ConstexprValue → Bool
is_zero h (int_const v) = v == 0
is_zero h (int64_const v) = v == 0
is_zero h (float_const v) = h.eq_s v 0
is_zero h (double_const v) = h.eq_d v 0
is_zero h (bool_const v) = not v
is_zero h void_const = false
is_zero h (bytes_const v) = false

-- The bits of 1.0f and of 1.0.
unfoldable pub is_one : Host → ConstexprValue → Bool
is_one h (int_const v) = v == 1
is_one h (int64_const v) = v == 1
is_one h (float_const v) = h.eq_s v 0x3f80_0000
is_one h (double_const v) = h.eq_d v 0x3ff0_0000_0000_0000
is_one h (bool_const v) = false
is_one h void_const = false
is_one h (bytes_const v) = false

abbrev pub constant_is : (ConstexprValue → Bool) → Value → Bool
constant_is p (const_value c) = p c
constant_is p (left_value x) = false

-- `identity_result`: x + 0, 0 + x, x - 0, x * 1, 1 * x.
unfoldable pub identity_result : Host → InstOp → Value → Value → Option Value
unfolding is_zero is_one
identity_result h InstOp.add_op lhs rhs =
    if constant_is (is_zero h) rhs
    then some lhs
    else if constant_is (is_zero h) lhs
    then some rhs
    else none
identity_result h InstOp.sub_op lhs rhs = if constant_is (is_zero h) rhs then some lhs else none
identity_result h InstOp.mul_op lhs rhs =
    if constant_is (is_one h) rhs
    then some lhs
    else if constant_is (is_one h) lhs
    then some rhs
    else none
identity_result h op lhs rhs = none

abbrev pub move_identity : LeftValue → Option Value → Rewrite
move_identity result none = kept
move_identity result (some v) = move result v

-- `operator==` of constants.
unfoldable pub const_eq : Host → (List ℕ → List ℕ → Bool) → ConstexprValue → ConstexprValue → Bool
const_eq h bytes_eq void_const void_const = true
const_eq h bytes_eq (int_const a) (int_const b) = a == b
const_eq h bytes_eq (int64_const a) (int64_const b) = a == b
const_eq h bytes_eq (float_const a) (float_const b) = h.eq_s a b
const_eq h bytes_eq (bool_const a) (bool_const b) = same_bool a b
const_eq h bytes_eq (double_const a) (double_const b) = h.eq_d a b
const_eq h bytes_eq (bytes_const a) (bytes_const b) = bytes_eq a b
const_eq h bytes_eq a b = false

-- The loop over the arguments of a phi, after the first constant.
abbrev pub common_loop :
    (ConstexprValue → ConstexprValue → Bool)
    → ConstexprValue
    → List (ℕ × Value)
    → Option ConstexprValue
common_loop eq common [] = some common
common_loop eq common ((b, const_value c) ∷ args) =
    let rest = common_loop eq common args in if eq common c then rest else none
common_loop eq common ((b, left_value x) ∷ args) = none

unfoldable pub common_const :
    (ConstexprValue → ConstexprValue → Bool) → List (ℕ × Value) → Option ConstexprValue
common_const eq [] = none
common_const eq ((b, const_value c) ∷ args) = common_loop eq c args
common_const eq ((b, left_value x) ∷ args) = none

abbrev pub move_common : LeftValue → Option ConstexprValue → Rewrite
move_common result none = kept
move_common result (some c) = move result (const_value c)

module _ (h : Host) (bytes_eq : List ℕ → List ℕ → Bool) where
  unfoldable pub fold_operands : LeftValue → InstOp → Value → Value → Rewrite
  unfolding fold_binary identity_result
  fold_operands result op (const_value l) (const_value r) =
      move_folded result (fold_binary h op l r)
  fold_operands result op lhs rhs = move_identity result (identity_result h op lhs rhs)

  -- One instruction; one without a result stays.
  unfoldable pub fold_inst : Inst → Rewrite
  unfolding fold_operands fold_unary fold_binary identity_result common_const const_eq
  fold_inst (unary_inst op (some result) (const_value c)) = move_folded result (fold_unary op c)
  fold_inst (unary_inst op (some result) (left_value x)) = kept
  fold_inst (binary_inst op (some result) lhs rhs) = fold_operands result op lhs rhs
  fold_inst (phi_inst (some result) args) =
      move_common result (common_const (const_eq h bytes_eq) args)
  fold_inst i = kept

  -- The instructions and whether one has changed; `none` where a fold is undefined.
  abbrev pub rewritten : Inst → Rewrite → Option (List Inst × Bool) → Option (List Inst × Bool)
  rewritten i kept rest = Option.map (λ p. (i ∷ p.0, p.1)) rest
  rewritten i (replaced j) rest = Option.map (λ p. (j ∷ p.0, true)) rest
  rewritten i undefined_fold rest = none

  unfoldable pub fold_insts : List Inst → Option (List Inst × Bool)
  unfolding fold_inst
  fold_insts [] = some ([], false)
  fold_insts (i ∷ is) = rewritten i (fold_inst i) (fold_insts is)

  -- A branch on a constant becomes a jump.
  unfoldable pub fold_exit : Exit → Exit × Bool
  fold_exit (branch_exit (const_value (bool_const b)) true_target false_target) =
      (jump_exit (if b then true_target else false_target), true)
  fold_exit e = (e, false)

  unfoldable pub fold_block : Block → Option (Block × Bool)
  unfolding fold_insts fold_exit
  fold_block b =
      Option.map
        (λ p. (record { insts = p.0; exit = (fold_exit b.exit).0 }, p.1 || (fold_exit b.exit).1))
        (fold_insts b.insts)

  unfoldable pub fold_blocks : List (ℕ × Block) → Option (List (ℕ × Block) × Bool)
  unfolding fold_block
  fold_blocks [] = some ([], false)
  fold_blocks (b ∷ bs) = elim (fold_block b.1) [
    | none ↦ none
    | some c ↦ Option.map (λ p. ((b.0, c.0) ∷ p.0, c.1 || p.1)) (fold_blocks bs)
  ]
