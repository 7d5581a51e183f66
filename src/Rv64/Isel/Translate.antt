-- ===== src/Rv64/Isel/Translate.antt =====
-- `translate_binary` (src/backend/rv64/isel.hpp): stores, floating-point operators, and the choice between the forms.
use ucas_cplab.Common.{
  ℕ, Bool, true, false, not, ◌&&◌, ◌||◌, Option, none, some, List, [], ◌∷◌, ◌++◌, if◌then◌else◌,
  ltb, ◌>>=◌,
}
use mathlib.Core.Option
use ucas_cplab.Types.{IrType}
use ucas_cplab.Types.Subtype.{type_eq}
use ucas_cplab.Abi.{abi_size}
use ucas_cplab.Ir.Inst.{LeftValue, Value, const_value, ConstexprValue, InstOp}
use ucas_cplab.Rv64.Op.{OpFr}
use ucas_cplab.Rv64.Inst.{Inst, inst_fr, pseudo_l, PseudoLOp, float, general, general_reg}
use ucas_cplab.Rv64.Isel.{
  Context, Code, lookup_reg, type_of, extract_imm, is_32bit_op, is_fp_op, resolve_alloc, gpr,
  reg_t0, reg_sp, reg_ft0, resolve_addr, slot_of, store_inst, load_float_const,
}
use ucas_cplab.Rv64.Isel.Binary.{flip, int_reg_reg, int_reg_const, int_const_reg}

-- The casts of `gpr` and `fpr` are the same, and `val` is one or the other by its type.
abbrev pub store_to : Context → IrType → ℕ → Value → Option (List Inst)
unfolding general_reg resolve_addr store_inst resolve_alloc
store_to cx t val lhs = elim (slot_of cx (resolve_alloc lhs)) [
  | some off ↦
      let (pre, base, imm) = resolve_addr reg_sp off in some (pre ++ store_inst t val base imm ∷ [])
  | none ↦ elim (lookup_reg cx lhs) [
    | some base ↦ Option.map (λ b. store_inst t val b 0 ∷ []) (gpr base)
    | none ↦
        Option.map
          (λ a. pseudo_l PseudoLOp.la reg_t0 (cx.alloc a).name ∷ store_inst t val reg_t0 0 ∷ [])
          (resolve_alloc lhs)
  ]
]

unfoldable pub translate_store : Context → Value → Value → Option (List Inst)
unfolding general_reg resolve_addr store_inst resolve_alloc type_of
translate_store cx lhs rhs = do
  id ← lookup_reg cx rhs
  val ← gpr id
  store_to cx (type_of cx rhs) val lhs

-- An arithmetic operator on floating-point registers, and a comparison.
abbrev pub float_op : OpFr → OpFr → Bool → ℕ → ℕ → ℕ → List Inst
float_op op_d op_s is_double rd lhs rhs =
    inst_fr (if is_double then op_d else op_s) (float rd) (float lhs) (some (float rhs)) ∷ []

abbrev pub float_test : OpFr → OpFr → Bool → ℕ → ℕ → ℕ → List Inst
float_test op_d op_s is_double rd lhs rhs =
    inst_fr (if is_double then op_d else op_s) (general rd) (float lhs) (some (float rhs)) ∷ []

unfoldable pub fp_reg_reg : InstOp → Bool → ℕ → ℕ → ℕ → Option (List Inst)
fp_reg_reg InstOp.add_op d rd lhs rhs = some (float_op OpFr.fadd_d OpFr.fadd_s d rd lhs rhs)
fp_reg_reg InstOp.sub_op d rd lhs rhs = some (float_op OpFr.fsub_d OpFr.fsub_s d rd lhs rhs)
fp_reg_reg InstOp.mul_op d rd lhs rhs = some (float_op OpFr.fmul_d OpFr.fmul_s d rd lhs rhs)
fp_reg_reg InstOp.div_op d rd lhs rhs = some (float_op OpFr.fdiv_d OpFr.fdiv_s d rd lhs rhs)
fp_reg_reg InstOp.lt_op d rd lhs rhs = some (float_test OpFr.flt_d OpFr.flt_s d rd lhs rhs)
fp_reg_reg InstOp.gt_op d rd lhs rhs = some (float_test OpFr.flt_d OpFr.flt_s d rd rhs lhs)
fp_reg_reg InstOp.leq_op d rd lhs rhs = some (float_test OpFr.fle_d OpFr.fle_s d rd lhs rhs)
fp_reg_reg InstOp.geq_op d rd lhs rhs = some (float_test OpFr.fle_d OpFr.fle_s d rd rhs lhs)
fp_reg_reg InstOp.eq_op d rd lhs rhs = some (float_test OpFr.feq_d OpFr.feq_s d rd lhs rhs)
fp_reg_reg InstOp.neq_op d rd lhs rhs =
    some (float_test OpFr.feq_d OpFr.feq_s d rd lhs rhs ++ flip rd ∷ [])
fp_reg_reg op d rd lhs rhs = none

-- The forms by which operands have registers; `fp` holds for floating-point operands, `w` for 32 bits.
unfoldable pub operands :
    InstOp → Bool → Bool → ℕ → Option ℕ → Option ℕ → Value → Value → Option (List Inst)
unfolding general_reg fp_reg_reg int_reg_reg int_reg_const int_const_reg extract_imm
operands op fp w id (some l) (some r) lhs rhs = do
  rd ← gpr id
  a ← gpr l
  b ← gpr r
  if fp then fp_reg_reg op (not w) rd a b else int_reg_reg op w rd a b
operands op fp w id (some l) none lhs (const_value c) = do
  imm ← extract_imm c
  rd ← gpr id
  a ← gpr l
  int_reg_const op w rd a imm
operands op fp w id none (some r) (const_value c) rhs = do
  imm ← extract_imm c
  rd ← gpr id
  b ← gpr r
  int_const_reg op w rd b imm
operands op fp w id lreg rreg lhs rhs = none

-- A floating-point constant without a register goes to `ft0`.
unfoldable pub load_operand :
    Context → Bool → Option ℕ → Value → List ConstexprValue → Code × Option ℕ
unfolding extract_imm load_float_const type_of
load_operand cx true none (const_value c) literals = elim (extract_imm c) [
  | some imm ↦ (([], literals), none)
  | none ↦ (load_float_const cx c (type_of cx (const_value c)) reg_ft0 literals, some reg_ft0)
]
load_operand cx fp reg v literals = (([], literals), reg)

abbrev pub is_none {ℓ} : {A : Type ℓ} → Option A → Bool
is_none none = true
is_none (some x) = false

-- The larger type of the two, and whether the two are an operand pair at all.
abbrev pub operand_type : IrType → IrType → Option IrType
unfolding is_fp_op abi_size
operand_type lt rt =
    if (is_fp_op lt || is_fp_op rt) && not (type_eq lt rt)
    then none
    else (abi_size lt >>= (λ a. Option.map (λ b. if ltb a b then rt else lt) (abi_size rt)))

-- With the type `t` of the operands; `l` and `r` are their registers.
unfoldable pub translate_typed :
    Context
    → InstOp
    → Bool
    → IrType
    → ℕ
    → Option ℕ
    → Option ℕ
    → Value
    → Value
    → List ConstexprValue
    → Option Code
unfolding load_operand operands is_32bit_op
translate_typed cx op fp t id l r lhs rhs literals =
    if fp && is_none l && is_none r
    then none
    else let ((code_l, pool_l), l') = load_operand cx fp l lhs literals in
      let ((code_r, pool_r), r') = load_operand cx fp r rhs pool_l in
      Option.map (λ code. (code_l ++ (code_r ++ code), pool_r))
        (operands op fp (is_32bit_op t) id l' r' lhs rhs)

unfoldable pub translate_operator :
    Context → InstOp → LeftValue → Value → Value → List ConstexprValue → Option Code
unfolding is_fp_op abi_size type_of translate_typed
translate_operator cx op result lhs rhs literals = do
  id ← cx.regs result
  t ← operand_type (type_of cx lhs) (type_of cx rhs)
  translate_typed cx op (is_fp_op (type_of cx lhs) || is_fp_op (type_of cx rhs)) t id
      (lookup_reg cx lhs) (lookup_reg cx rhs) lhs rhs literals

unfoldable pub translate_binary :
    Context → InstOp → Option LeftValue → Value → Value → List ConstexprValue → Option Code
unfolding translate_store translate_operator
translate_binary cx InstOp.store_op none lhs rhs literals =
    Option.map (λ code. (code, literals)) (translate_store cx lhs rhs)
translate_binary cx op none lhs rhs literals = none
translate_binary cx op (some result) lhs rhs literals =
    translate_operator cx op result lhs rhs literals
