-- ===== src/Rv64/Inst.antt =====
-- The instructions of src/backend/rv64/inst.hpp. A register is its number, an `int32_t` immediate
-- its 32-bit pattern, an `int64_t` one its 64-bit pattern.
use Prim.Native.String.{String}
use ucas_cplab.Common.{ℕ, Option, none, some, List, ltb, if◌then◌else◌}
use ucas_cplab.Rv64.Op.{OpR, OpFr, OpI, OpB, OpFi, OpJ, OpU}

-- The constructors of `GeneralReg` and `FloatReg` throw on a number that is no register.
unfoldable pub general_reg : ℕ → Option ℕ
general_reg id = if ltb id 32 then some id else none

unfoldable pub float_reg : ℕ → Option ℕ
float_reg id = if ltb id 32 then some id else none

-- `std::variant<FloatReg, GeneralReg>`
pub data AnyReg : Type 0 where
  float general : ℕ → AnyReg

pub data PseudoROp : Type 0 where
  mv not neg negw seqz snez : PseudoROp

pub data PseudoBOp : Type 0 where
  beqz bnez : PseudoBOp

pub data PseudoJOp : Type 0 where
  j call : PseudoJOp

pub data PseudoLOp : Type 0 where
  la lgd lgw sgd sgw : PseudoLOp

-- The variant `Inst`. The fields are in the order of the structs: the opcode, then `rd`, `rs1`,
-- `rs2`, and the immediate, the target or the symbol.
pub data Inst : Type 0 where
  inst_r : OpR → ℕ → ℕ → ℕ → Inst
  inst_fr : OpFr → AnyReg → AnyReg → Option AnyReg → Inst
  inst_i : OpI → ℕ → ℕ → ℕ → Inst
  inst_b : OpB → ℕ → ℕ → String → Inst
  inst_fi : OpFi → ℕ → ℕ → ℕ → Inst
  inst_j : OpJ → ℕ → String → Inst
  inst_u : OpU → ℕ → ℕ → Inst
  pseudo_r : PseudoROp → ℕ → ℕ → Inst
  pseudo_li : ℕ → ℕ → Inst
  pseudo_l : PseudoLOp → ℕ → String → Inst
  pseudo_b : PseudoBOp → ℕ → String → Inst
  pseudo_j : PseudoJOp → String → Inst
  pseudo_ret : Inst

pub record Block : Type 0 where
  pub label : String
  pub insts : List Inst

pub record Func : Type 0 where
  pub name : String
  pub blocks : List Block
