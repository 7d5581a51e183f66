-- ===== src/Rv64/Op/Names.antt =====
-- The mnemonics of src/backend/rv64/op.hpp tell all opcodes apart, also those of different formats.
use Prim.Native.String.{String}
use text.Mathlib.Text.{◌==◌ as str_eq}
use ucas_cplab.Common.{◌≡◌, refl, if◌then◌else◌, Option, none, some, List, [], ◌∷◌}
use ucas_cplab.Rv64.Op.{
  OpR, OpFr, OpI, OpB, OpFi, OpJ, OpU, name_r, name_fr, name_i, name_b, name_fi, name_j, name_u,
}

-- An opcode of any format.
pub data AnyOp : Type 0 where
  r : OpR → AnyOp
  fr : OpFr → AnyOp
  i : OpI → AnyOp
  b : OpB → AnyOp
  fi : OpFi → AnyOp
  j : OpJ → AnyOp
  u : OpU → AnyOp

unfoldable pub mnemonic : AnyOp → String
unfolding name_r name_fr name_i name_b name_fi name_j name_u
mnemonic (AnyOp.r op) = name_r op
mnemonic (AnyOp.fr op) = name_fr op
mnemonic (AnyOp.i op) = name_i op
mnemonic (AnyOp.b op) = name_b op
mnemonic (AnyOp.fi op) = name_fi op
mnemonic (AnyOp.j op) = name_j op
mnemonic (AnyOp.u op) = name_u op

abbrev all_ops : List AnyOp
all_ops =
    AnyOp.r OpR.add
    ∷ AnyOp.r OpR.sub
    ∷ AnyOp.r OpR.sll
    ∷ AnyOp.r OpR.slt
    ∷ AnyOp.r OpR.sltu
    ∷ AnyOp.r OpR.xor
    ∷ AnyOp.r OpR.srl
    ∷ AnyOp.r OpR.sra
    ∷ AnyOp.r OpR.or
    ∷ AnyOp.r OpR.and
    ∷ AnyOp.r OpR.mul
    ∷ AnyOp.r OpR.div
    ∷ AnyOp.r OpR.rem
    ∷ AnyOp.r OpR.addw
    ∷ AnyOp.r OpR.subw
    ∷ AnyOp.r OpR.sllw
    ∷ AnyOp.r OpR.srlw
    ∷ AnyOp.r OpR.sraw
    ∷ AnyOp.r OpR.mulw
    ∷ AnyOp.r OpR.divw
    ∷ AnyOp.r OpR.remw
    ∷ AnyOp.fr OpFr.fadd_s
    ∷ AnyOp.fr OpFr.fadd_d
    ∷ AnyOp.fr OpFr.fsub_s
    ∷ AnyOp.fr OpFr.fsub_d
    ∷ AnyOp.fr OpFr.fmul_s
    ∷ AnyOp.fr OpFr.fmul_d
    ∷ AnyOp.fr OpFr.fdiv_s
    ∷ AnyOp.fr OpFr.fdiv_d
    ∷ AnyOp.fr OpFr.fsqrt_s
    ∷ AnyOp.fr OpFr.fsqrt_d
    ∷ AnyOp.fr OpFr.fsgnj_s
    ∷ AnyOp.fr OpFr.fsgnj_d
    ∷ AnyOp.fr OpFr.fsgnjn_s
    ∷ AnyOp.fr OpFr.fsgnjn_d
    ∷ AnyOp.fr OpFr.feq_s
    ∷ AnyOp.fr OpFr.feq_d
    ∷ AnyOp.fr OpFr.flt_s
    ∷ AnyOp.fr OpFr.flt_d
    ∷ AnyOp.fr OpFr.fle_s
    ∷ AnyOp.fr OpFr.fle_d
    ∷ AnyOp.fr OpFr.fcvt_w_s
    ∷ AnyOp.fr OpFr.fcvt_w_d
    ∷ AnyOp.fr OpFr.fcvt_l_s
    ∷ AnyOp.fr OpFr.fcvt_l_d
    ∷ AnyOp.fr OpFr.fcvt_s_w
    ∷ AnyOp.fr OpFr.fcvt_d_w
    ∷ AnyOp.fr OpFr.fcvt_s_l
    ∷ AnyOp.fr OpFr.fcvt_d_l
    ∷ AnyOp.fr OpFr.fcvt_s_d
    ∷ AnyOp.fr OpFr.fcvt_d_s
    ∷ AnyOp.fr OpFr.fmv_x_w
    ∷ AnyOp.fr OpFr.fmv_w_x
    ∷ AnyOp.i OpI.addi
    ∷ AnyOp.i OpI.slli
    ∷ AnyOp.i OpI.slti
    ∷ AnyOp.i OpI.sltiu
    ∷ AnyOp.i OpI.xori
    ∷ AnyOp.i OpI.srli
    ∷ AnyOp.i OpI.srai
    ∷ AnyOp.i OpI.ori
    ∷ AnyOp.i OpI.andi
    ∷ AnyOp.i OpI.ld
    ∷ AnyOp.i OpI.lw
    ∷ AnyOp.i OpI.lwu
    ∷ AnyOp.i OpI.lb
    ∷ AnyOp.i OpI.lbu
    ∷ AnyOp.i OpI.lh
    ∷ AnyOp.i OpI.lhu
    ∷ AnyOp.i OpI.jalr
    ∷ AnyOp.i OpI.sd
    ∷ AnyOp.i OpI.sw
    ∷ AnyOp.i OpI.sb
    ∷ AnyOp.i OpI.sh
    ∷ AnyOp.i OpI.addiw
    ∷ AnyOp.i OpI.slliw
    ∷ AnyOp.i OpI.srliw
    ∷ AnyOp.i OpI.sraiw
    ∷ AnyOp.b OpB.beq
    ∷ AnyOp.b OpB.bne
    ∷ AnyOp.b OpB.blt
    ∷ AnyOp.b OpB.bge
    ∷ AnyOp.b OpB.bltu
    ∷ AnyOp.b OpB.bgeu
    ∷ AnyOp.fi OpFi.flw
    ∷ AnyOp.fi OpFi.fld
    ∷ AnyOp.fi OpFi.fsw
    ∷ AnyOp.fi OpFi.fsd
    ∷ AnyOp.j OpJ.jal
    ∷ AnyOp.u OpU.lui
    ∷ AnyOp.u OpU.auipc
    ∷ []

-- Reading a mnemonic back: the first opcode of the list that is written so.
unfoldable pub find_op : List AnyOp → String → Option AnyOp
find_op [] s = none
find_op (op ∷ ops) s = if str_eq (mnemonic op) s then some op else find_op ops s

unfoldable pub op_of_mnemonic : String → Option AnyOp
unfolding find_op
op_of_mnemonic s = find_op all_ops s

read_r : (op : OpR) → op_of_mnemonic (mnemonic (AnyOp.r op)) ≡ some (AnyOp.r op)
unfolding mnemonic op_of_mnemonic
read_r OpR.add = refl
read_r OpR.sub = refl
read_r OpR.sll = refl
read_r OpR.slt = refl
read_r OpR.sltu = refl
read_r OpR.xor = refl
read_r OpR.srl = refl
read_r OpR.sra = refl
read_r OpR.or = refl
read_r OpR.and = refl
read_r OpR.mul = refl
read_r OpR.div = refl
read_r OpR.rem = refl
read_r OpR.addw = refl
read_r OpR.subw = refl
read_r OpR.sllw = refl
read_r OpR.srlw = refl
read_r OpR.sraw = refl
read_r OpR.mulw = refl
read_r OpR.divw = refl
read_r OpR.remw = refl

read_fr : (op : OpFr) → op_of_mnemonic (mnemonic (AnyOp.fr op)) ≡ some (AnyOp.fr op)
unfolding mnemonic op_of_mnemonic
read_fr OpFr.fadd_s = refl
read_fr OpFr.fadd_d = refl
read_fr OpFr.fsub_s = refl
read_fr OpFr.fsub_d = refl
read_fr OpFr.fmul_s = refl
read_fr OpFr.fmul_d = refl
read_fr OpFr.fdiv_s = refl
read_fr OpFr.fdiv_d = refl
read_fr OpFr.fsqrt_s = refl
read_fr OpFr.fsqrt_d = refl
read_fr OpFr.fsgnj_s = refl
read_fr OpFr.fsgnj_d = refl
read_fr OpFr.fsgnjn_s = refl
read_fr OpFr.fsgnjn_d = refl
read_fr OpFr.feq_s = refl
read_fr OpFr.feq_d = refl
read_fr OpFr.flt_s = refl
read_fr OpFr.flt_d = refl
read_fr OpFr.fle_s = refl
read_fr OpFr.fle_d = refl
read_fr OpFr.fcvt_w_s = refl
read_fr OpFr.fcvt_w_d = refl
read_fr OpFr.fcvt_l_s = refl
read_fr OpFr.fcvt_l_d = refl
read_fr OpFr.fcvt_s_w = refl
read_fr OpFr.fcvt_d_w = refl
read_fr OpFr.fcvt_s_l = refl
read_fr OpFr.fcvt_d_l = refl
read_fr OpFr.fcvt_s_d = refl
read_fr OpFr.fcvt_d_s = refl
read_fr OpFr.fmv_x_w = refl
read_fr OpFr.fmv_w_x = refl

read_i : (op : OpI) → op_of_mnemonic (mnemonic (AnyOp.i op)) ≡ some (AnyOp.i op)
unfolding mnemonic op_of_mnemonic
read_i OpI.addi = refl
read_i OpI.slli = refl
read_i OpI.slti = refl
read_i OpI.sltiu = refl
read_i OpI.xori = refl
read_i OpI.srli = refl
read_i OpI.srai = refl
read_i OpI.ori = refl
read_i OpI.andi = refl
read_i OpI.ld = refl
read_i OpI.lw = refl
read_i OpI.lwu = refl
read_i OpI.lb = refl
read_i OpI.lbu = refl
read_i OpI.lh = refl
read_i OpI.lhu = refl
read_i OpI.jalr = refl
read_i OpI.sd = refl
read_i OpI.sw = refl
read_i OpI.sb = refl
read_i OpI.sh = refl
read_i OpI.addiw = refl
read_i OpI.slliw = refl
read_i OpI.srliw = refl
read_i OpI.sraiw = refl

read_b : (op : OpB) → op_of_mnemonic (mnemonic (AnyOp.b op)) ≡ some (AnyOp.b op)
unfolding mnemonic op_of_mnemonic
read_b OpB.beq = refl
read_b OpB.bne = refl
read_b OpB.blt = refl
read_b OpB.bge = refl
read_b OpB.bltu = refl
read_b OpB.bgeu = refl

read_fi : (op : OpFi) → op_of_mnemonic (mnemonic (AnyOp.fi op)) ≡ some (AnyOp.fi op)
unfolding mnemonic op_of_mnemonic
read_fi OpFi.flw = refl
read_fi OpFi.fld = refl
read_fi OpFi.fsw = refl
read_fi OpFi.fsd = refl

read_j : (op : OpJ) → op_of_mnemonic (mnemonic (AnyOp.j op)) ≡ some (AnyOp.j op)
unfolding mnemonic op_of_mnemonic
read_j OpJ.jal = refl

read_u : (op : OpU) → op_of_mnemonic (mnemonic (AnyOp.u op)) ≡ some (AnyOp.u op)
unfolding mnemonic op_of_mnemonic
read_u OpU.lui = refl
read_u OpU.auipc = refl

-- Every opcode can be read back from its mnemonic: no two opcodes, of one format or of two, are
-- written alike.
pub op_of_mnemonic-mnemonic : (op : AnyOp) → op_of_mnemonic (mnemonic op) ≡ some op
op_of_mnemonic-mnemonic (AnyOp.r op) = read_r op
op_of_mnemonic-mnemonic (AnyOp.fr op) = read_fr op
op_of_mnemonic-mnemonic (AnyOp.i op) = read_i op
op_of_mnemonic-mnemonic (AnyOp.b op) = read_b op
op_of_mnemonic-mnemonic (AnyOp.fi op) = read_fi op
op_of_mnemonic-mnemonic (AnyOp.j op) = read_j op
op_of_mnemonic-mnemonic (AnyOp.u op) = read_u op
