-- ===== src/Rv64/Op.antt =====
-- The opcodes of src/backend/rv64/op.hpp and the mnemonics that the assembler text uses.
use Prim.Native.String.{String}
pub mod Names

pub data OpR : Type 0 where
  add sub sll slt sltu xor srl sra or and mul div rem addw subw sllw srlw sraw mulw divw : OpR
  remw : OpR

pub data OpFr : Type 0 where
  fadd_s fadd_d fsub_s fsub_d fmul_s fmul_d fdiv_s fdiv_d fsqrt_s fsqrt_d fsgnj_s fsgnj_d : OpFr
  fsgnjn_s fsgnjn_d feq_s feq_d flt_s flt_d fle_s fle_d fcvt_w_s fcvt_w_d fcvt_l_s fcvt_l_d : OpFr
  fcvt_s_w fcvt_d_w fcvt_s_l fcvt_d_l fcvt_s_d fcvt_d_s fmv_x_w fmv_w_x : OpFr

pub data OpI : Type 0 where
  addi slli slti sltiu xori srli srai ori andi ld lw lwu lb lbu lh lhu jalr sd sw sb sh : OpI
  addiw slliw srliw sraiw : OpI

pub data OpB : Type 0 where
  beq bne blt bge bltu bgeu : OpB

pub data OpFi : Type 0 where
  flw fld fsw fsd : OpFi

pub data OpJ : Type 0 where
  jal : OpJ

pub data OpU : Type 0 where
  lui auipc : OpU

-- `toString(OpR)`
unfoldable pub name_r : OpR → String
name_r OpR.add = "add"
name_r OpR.sub = "sub"
name_r OpR.sll = "sll"
name_r OpR.slt = "slt"
name_r OpR.sltu = "sltu"
name_r OpR.xor = "xor"
name_r OpR.srl = "srl"
name_r OpR.sra = "sra"
name_r OpR.or = "or"
name_r OpR.and = "and"
name_r OpR.mul = "mul"
name_r OpR.div = "div"
name_r OpR.rem = "rem"
name_r OpR.addw = "addw"
name_r OpR.subw = "subw"
name_r OpR.sllw = "sllw"
name_r OpR.srlw = "srlw"
name_r OpR.sraw = "sraw"
name_r OpR.mulw = "mulw"
name_r OpR.divw = "divw"
name_r OpR.remw = "remw"

-- `toString(OpFr)`
unfoldable pub name_fr : OpFr → String
name_fr OpFr.fadd_s = "fadd.s"
name_fr OpFr.fadd_d = "fadd.d"
name_fr OpFr.fsub_s = "fsub.s"
name_fr OpFr.fsub_d = "fsub.d"
name_fr OpFr.fmul_s = "fmul.s"
name_fr OpFr.fmul_d = "fmul.d"
name_fr OpFr.fdiv_s = "fdiv.s"
name_fr OpFr.fdiv_d = "fdiv.d"
name_fr OpFr.fsqrt_s = "fsqrt.s"
name_fr OpFr.fsqrt_d = "fsqrt.d"
name_fr OpFr.fsgnj_s = "fsgnj.s"
name_fr OpFr.fsgnj_d = "fsgnj.d"
name_fr OpFr.fsgnjn_s = "fsgnjn.s"
name_fr OpFr.fsgnjn_d = "fsgnjn.d"
name_fr OpFr.feq_s = "feq.s"
name_fr OpFr.feq_d = "feq.d"
name_fr OpFr.flt_s = "flt.s"
name_fr OpFr.flt_d = "flt.d"
name_fr OpFr.fle_s = "fle.s"
name_fr OpFr.fle_d = "fle.d"
name_fr OpFr.fcvt_w_s = "fcvt.w.s"
name_fr OpFr.fcvt_w_d = "fcvt.w.d"
name_fr OpFr.fcvt_l_s = "fcvt.l.s"
name_fr OpFr.fcvt_l_d = "fcvt.l.d"
name_fr OpFr.fcvt_s_w = "fcvt.s.w"
name_fr OpFr.fcvt_d_w = "fcvt.d.w"
name_fr OpFr.fcvt_s_l = "fcvt.s.l"
name_fr OpFr.fcvt_d_l = "fcvt.d.l"
name_fr OpFr.fcvt_s_d = "fcvt.s.d"
name_fr OpFr.fcvt_d_s = "fcvt.d.s"
name_fr OpFr.fmv_x_w = "fmv.x.w"
name_fr OpFr.fmv_w_x = "fmv.w.x"

-- `toString(OpI)`
unfoldable pub name_i : OpI → String
name_i OpI.addi = "addi"
name_i OpI.slli = "slli"
name_i OpI.slti = "slti"
name_i OpI.sltiu = "sltiu"
name_i OpI.xori = "xori"
name_i OpI.srli = "srli"
name_i OpI.srai = "srai"
name_i OpI.ori = "ori"
name_i OpI.andi = "andi"
name_i OpI.ld = "ld"
name_i OpI.lw = "lw"
name_i OpI.lwu = "lwu"
name_i OpI.lb = "lb"
name_i OpI.lbu = "lbu"
name_i OpI.lh = "lh"
name_i OpI.lhu = "lhu"
name_i OpI.jalr = "jalr"
name_i OpI.sd = "sd"
name_i OpI.sw = "sw"
name_i OpI.sb = "sb"
name_i OpI.sh = "sh"
name_i OpI.addiw = "addiw"
name_i OpI.slliw = "slliw"
name_i OpI.srliw = "srliw"
name_i OpI.sraiw = "sraiw"

-- `toString(OpB)`
unfoldable pub name_b : OpB → String
name_b OpB.beq = "beq"
name_b OpB.bne = "bne"
name_b OpB.blt = "blt"
name_b OpB.bge = "bge"
name_b OpB.bltu = "bltu"
name_b OpB.bgeu = "bgeu"

-- `toString(OpFi)`
unfoldable pub name_fi : OpFi → String
name_fi OpFi.flw = "flw"
name_fi OpFi.fld = "fld"
name_fi OpFi.fsw = "fsw"
name_fi OpFi.fsd = "fsd"

-- `toString(OpJ)`
unfoldable pub name_j : OpJ → String
name_j OpJ.jal = "jal"

-- `toString(OpU)`
unfoldable pub name_u : OpU → String
name_u OpU.lui = "lui"
name_u OpU.auipc = "auipc"
