-- ===== src/Ir/Vars.antt =====
-- The variables and the blocks that instructions name (src/backend/ir/analysis/utils.hpp).
use ucas_cplab.Common.{ℕ, Bool, true, false, Option, none, some, List, [], ◌∷◌, ◌++◌}
use ucas_cplab.Ir.Inst.{
  LeftValue, Value, const_value, left_value, InstOp, Inst, phi_inst, unary_inst, binary_inst,
  call_inst, Exit, return_exit, branch_exit, jump_exit, Block, Func,
}

unfoldable pub as_var : Value → Option LeftValue
as_var (left_value v) = some v
as_var (const_value c) = none

abbrev pub push_some {ℓ} : {A : Type ℓ} → Option A → List A → List A
push_some none xs = xs
push_some (some x) xs = x ∷ xs

unfoldable pub defined_var : Inst → Option LeftValue
defined_var (phi_inst result args) = result
defined_var (unary_inst op result operand) = result
defined_var (binary_inst op result lhs rhs) = result
defined_var (call_inst result func args) = result

abbrev pub phi_vars : List (ℕ × Value) → List LeftValue
unfolding as_var
phi_vars [] = []
phi_vars (a ∷ args) = push_some (as_var a.1) (phi_vars args)

abbrev pub value_vars : List Value → List LeftValue
unfolding as_var
value_vars [] = []
value_vars (v ∷ vs) = push_some (as_var v) (value_vars vs)

unfoldable pub used_vars : Inst → List LeftValue
unfolding as_var
used_vars (phi_inst result args) = phi_vars args
used_vars (unary_inst op result operand) = value_vars (operand ∷ [])
used_vars (binary_inst op result lhs rhs) = value_vars (lhs ∷ rhs ∷ [])
used_vars (call_inst result func args) = value_vars args

unfoldable pub exit_used_var : Exit → Option LeftValue
unfolding as_var
exit_used_var (jump_exit target) = none
exit_used_var (branch_exit cond true_target false_target) = as_var cond
exit_used_var (return_exit exp) = as_var exp

unfoldable pub targets : Exit → List ℕ
targets (jump_exit target) = target ∷ []
targets (branch_exit cond true_target false_target) = true_target ∷ false_target ∷ []
targets (return_exit exp) = []

unfoldable pub has_side_effect : Inst → Bool
has_side_effect (call_inst result func args) = true
has_side_effect (binary_inst InstOp.store_op result lhs rhs) = true
has_side_effect (binary_inst op result lhs rhs) = false
has_side_effect (unary_inst op result operand) = false
has_side_effect (phi_inst result args) = false

-- `used_vars` of a block and of a function.
abbrev pub insts_used_vars : List Inst → List LeftValue
unfolding used_vars
insts_used_vars [] = []
insts_used_vars (i ∷ is) = used_vars i ++ insts_used_vars is

unfoldable pub block_used_vars : Block → List LeftValue
unfolding exit_used_var used_vars
block_used_vars b = insts_used_vars b.insts ++ push_some (exit_used_var b.exit) []

abbrev pub blocks_used_vars : List (ℕ × Block) → List LeftValue
unfolding block_used_vars
blocks_used_vars [] = []
blocks_used_vars (b ∷ bs) = block_used_vars b.1 ++ blocks_used_vars bs

unfoldable pub func_used_vars : Func → List LeftValue
unfolding block_used_vars
func_used_vars f = blocks_used_vars f.blocks
