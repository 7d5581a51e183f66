-- ===== src/Rv64/Isel/Binary.antt =====
-- `translate_binary` on integers (src/backend/rv64/isel.hpp): two registers, a register and a constant, and a
-- constant and a register.
use ucas_cplab.Common.{
  ℕ, ◌+◌, ◌%◌, ◌^◌, Bool, Option, none, some, List, [], ◌∷◌, ◌++◌, if◌then◌else◌, ◌==◌,
}
use ucas_cplab.Ir.Inst.{InstOp}
use ucas_cplab.Rv64.Op.{OpR, OpI}
use ucas_cplab.Rv64.Inst.{Inst, inst_r, inst_i, pseudo_r, pseudo_li, PseudoROp}
use ucas_cplab.Rv64.Words.{sext, add64, neg64}
use ucas_cplab.Rv64.Isel.{fits_i12, low_word, reg_t0, int_reg_op, add_reg_imm}
pub mod Words32
pub mod Words64

-- `rd ^= 1`, `rd = rd == 0`, `rd = rd != 0`
abbrev pub flip : ℕ → Inst
flip rd = inst_i OpI.xori rd rd 1

abbrev pub is_zero : ℕ → Inst
is_zero rd = pseudo_r PseudoROp.seqz rd rd

abbrev pub is_nonzero : ℕ → Inst
is_nonzero rd = pseudo_r PseudoROp.snez rd rd

unfoldable pub int_reg_reg : InstOp → Bool → ℕ → ℕ → ℕ → Option (List Inst)
int_reg_reg InstOp.add_op w rd lhs rhs = some (int_reg_op OpR.add OpR.addw w rd lhs rhs ∷ [])
int_reg_reg InstOp.sub_op w rd lhs rhs = some (int_reg_op OpR.sub OpR.subw w rd lhs rhs ∷ [])
int_reg_reg InstOp.mul_op w rd lhs rhs = some (int_reg_op OpR.mul OpR.mulw w rd lhs rhs ∷ [])
int_reg_reg InstOp.div_op w rd lhs rhs = some (int_reg_op OpR.div OpR.divw w rd lhs rhs ∷ [])
int_reg_reg InstOp.mod_op w rd lhs rhs = some (int_reg_op OpR.rem OpR.remw w rd lhs rhs ∷ [])
int_reg_reg InstOp.shl_op w rd lhs rhs = some (int_reg_op OpR.sll OpR.sllw w rd lhs rhs ∷ [])
int_reg_reg InstOp.shrl_op w rd lhs rhs = some (int_reg_op OpR.srl OpR.srlw w rd lhs rhs ∷ [])
int_reg_reg InstOp.shra_op w rd lhs rhs = some (int_reg_op OpR.sra OpR.sraw w rd lhs rhs ∷ [])
int_reg_reg InstOp.and_op w rd lhs rhs = some (inst_r OpR.and rd lhs rhs ∷ [])
int_reg_reg InstOp.or_op w rd lhs rhs = some (inst_r OpR.or rd lhs rhs ∷ [])
int_reg_reg InstOp.lt_op w rd lhs rhs = some (inst_r OpR.slt rd lhs rhs ∷ [])
int_reg_reg InstOp.gt_op w rd lhs rhs = some (inst_r OpR.slt rd rhs lhs ∷ [])
int_reg_reg InstOp.leq_op w rd lhs rhs = some (inst_r OpR.slt rd rhs lhs ∷ flip rd ∷ [])
int_reg_reg InstOp.geq_op w rd lhs rhs = some (inst_r OpR.slt rd lhs rhs ∷ flip rd ∷ [])
int_reg_reg InstOp.eq_op w rd lhs rhs = some (inst_r OpR.sub rd lhs rhs ∷ is_zero rd ∷ [])
int_reg_reg InstOp.neq_op w rd lhs rhs = some (inst_r OpR.sub rd lhs rhs ∷ is_nonzero rd ∷ [])
int_reg_reg op w rd lhs rhs = none

-- `rd = lhs < imm`, where the constant as an `int32_t` decides on the form.
abbrev pub less_imm : ℕ → ℕ → ℕ → List Inst
less_imm rd lhs imm =
    if fits_i12 (sext 32 imm)
    then inst_i OpI.slti rd lhs (low_word imm) ∷ []
    else pseudo_li reg_t0 imm ∷ inst_r OpR.slt rd lhs reg_t0 ∷ []

-- The successor of the constant as an `int32_t`.
abbrev pub next_imm : ℕ → ℕ
next_imm imm = add64 (sext 32 imm) 1

abbrev pub next_word : ℕ → ℕ
next_word imm = (low_word imm + 1) % 2 ^ 32

-- The register for the constant: `rd`, unless that is the operand.
abbrev pub scratch : ℕ → ℕ → ℕ
scratch rd operand = if rd == operand then reg_t0 else rd

-- `imm` is `*imm_opt`, and `sext 32 imm` the variable `imm` of the source.
unfoldable pub int_reg_const : InstOp → Bool → ℕ → ℕ → ℕ → Option (List Inst)
unfolding add_reg_imm fits_i12
int_reg_const InstOp.add_op w rd lhs imm = some (add_reg_imm rd lhs imm w)
int_reg_const InstOp.sub_op w rd lhs imm = some (add_reg_imm rd lhs (neg64 imm) w)
int_reg_const InstOp.lt_op w rd lhs imm = some (less_imm rd lhs imm)
int_reg_const InstOp.geq_op w rd lhs imm = some (less_imm rd lhs imm ++ flip rd ∷ [])
int_reg_const InstOp.gt_op w rd lhs imm = some (
    if fits_i12 (next_imm imm)
    then inst_i OpI.slti rd lhs (next_word imm) ∷ flip rd ∷ []
    else pseudo_li reg_t0 (sext 32 imm) ∷ inst_r OpR.slt rd reg_t0 lhs ∷ [])
int_reg_const InstOp.leq_op w rd lhs imm = some (
    if fits_i12 (next_imm imm)
    then inst_i OpI.slti rd lhs (next_word imm) ∷ []
    else pseudo_li reg_t0 (sext 32 imm) ∷ inst_r OpR.slt rd reg_t0 lhs ∷ flip rd ∷ [])
int_reg_const InstOp.eq_op w rd lhs imm =
    some (pseudo_li reg_t0 (sext 32 imm) ∷ inst_r OpR.sub rd lhs reg_t0 ∷ is_zero rd ∷ [])
int_reg_const InstOp.neq_op w rd lhs imm =
    some (pseudo_li reg_t0 (sext 32 imm) ∷ inst_r OpR.sub rd lhs reg_t0 ∷ is_nonzero rd ∷ [])
int_reg_const InstOp.shl_op w rd lhs imm =
    some (inst_i (if w then OpI.slliw else OpI.slli) rd lhs (low_word imm) ∷ [])
int_reg_const InstOp.shrl_op w rd lhs imm =
    some (inst_i (if w then OpI.srliw else OpI.srli) rd lhs (low_word imm) ∷ [])
int_reg_const InstOp.shra_op w rd lhs imm =
    some (inst_i (if w then OpI.sraiw else OpI.srai) rd lhs (low_word imm) ∷ [])
int_reg_const InstOp.mul_op w rd lhs imm =
    let tmp = scratch rd lhs in
    some (pseudo_li tmp (sext 32 imm) ∷ int_reg_op OpR.mul OpR.mulw w rd lhs tmp ∷ [])
int_reg_const InstOp.div_op w rd lhs imm =
    let tmp = scratch rd lhs in
    some (pseudo_li tmp (sext 32 imm) ∷ int_reg_op OpR.div OpR.divw w rd lhs tmp ∷ [])
int_reg_const InstOp.mod_op w rd lhs imm =
    let tmp = scratch rd lhs in
    some (pseudo_li tmp (sext 32 imm) ∷ int_reg_op OpR.rem OpR.remw w rd lhs tmp ∷ [])
int_reg_const InstOp.and_op w rd lhs imm =
    let tmp = scratch rd lhs in some (pseudo_li tmp (sext 32 imm) ∷ inst_r OpR.and rd lhs tmp ∷ [])
int_reg_const InstOp.or_op w rd lhs imm =
    let tmp = scratch rd lhs in some (pseudo_li tmp (sext 32 imm) ∷ inst_r OpR.or rd lhs tmp ∷ [])
int_reg_const op w rd lhs imm = none

unfoldable pub int_const_reg : InstOp → Bool → ℕ → ℕ → ℕ → Option (List Inst)
unfolding add_reg_imm fits_i12
int_const_reg InstOp.add_op w rd rhs cv = some (add_reg_imm rd rhs cv w)
int_const_reg InstOp.mul_op w rd rhs cv =
    let tmp = scratch rd rhs in
    some (pseudo_li tmp cv ∷ int_reg_op OpR.mul OpR.mulw w rd rhs tmp ∷ [])
int_const_reg InstOp.and_op w rd rhs cv =
    let tmp = scratch rd rhs in some (pseudo_li tmp cv ∷ inst_r OpR.and rd rhs tmp ∷ [])
int_const_reg InstOp.or_op w rd rhs cv =
    let tmp = scratch rd rhs in some (pseudo_li tmp cv ∷ inst_r OpR.or rd rhs tmp ∷ [])
int_const_reg InstOp.eq_op w rd rhs cv =
    let tmp = scratch rd rhs in
    some (pseudo_li tmp cv ∷ inst_r OpR.sub rd rhs tmp ∷ is_zero rd ∷ [])
int_const_reg InstOp.neq_op w rd rhs cv =
    let tmp = scratch rd rhs in
    some (pseudo_li tmp cv ∷ inst_r OpR.sub rd rhs tmp ∷ is_nonzero rd ∷ [])
int_const_reg InstOp.sub_op w rd rhs cv =
    let tmp = scratch rd rhs in
    some (pseudo_li tmp cv ∷ int_reg_op OpR.sub OpR.subw w rd tmp rhs ∷ [])
int_const_reg InstOp.div_op w rd rhs cv =
    let tmp = scratch rd rhs in
    some (pseudo_li tmp cv ∷ int_reg_op OpR.div OpR.divw w rd tmp rhs ∷ [])
int_const_reg InstOp.mod_op w rd rhs cv =
    let tmp = scratch rd rhs in
    some (pseudo_li tmp cv ∷ int_reg_op OpR.rem OpR.remw w rd tmp rhs ∷ [])
int_const_reg InstOp.gt_op w rd rhs cv = some (
    if fits_i12 cv
    then inst_i OpI.slti rd rhs (low_word cv) ∷ []
    else pseudo_li reg_t0 cv ∷ inst_r OpR.slt rd reg_t0 rhs ∷ [])
int_const_reg InstOp.leq_op w rd rhs cv = some (
    if fits_i12 cv
    then inst_i OpI.slti rd rhs (low_word cv) ∷ flip rd ∷ []
    else pseudo_li reg_t0 cv ∷ inst_r OpR.slt rd reg_t0 rhs ∷ flip rd ∷ [])
int_const_reg InstOp.lt_op w rd rhs cv =
    some (pseudo_li reg_t0 cv ∷ inst_r OpR.slt rd reg_t0 rhs ∷ [])
int_const_reg InstOp.geq_op w rd rhs cv =
    some (pseudo_li reg_t0 cv ∷ inst_r OpR.slt rd reg_t0 rhs ∷ flip rd ∷ [])
int_const_reg op w rd rhs cv = none
