-- ===== src/Rv64/Vm/Exec.antt =====
-- The instruction dispatch `exec` and its cases, src/backend/rv64/vm/exec.cpp. No case treats
-- register 0 specially, except that `JALR` does not write it.
use Prim.Native.Nat.{bit_and, bit_or, bit_xor}
use Prim.Native.String.{String}
use ucas_cplab.Common.{
  ℕ, ◌+◌, ◌-◌, ◌*◌, ◌/◌, ◌%◌, ◌^◌, Bool, not, none, some, List, [], ◌∷◌, if◌then◌else◌, ◌==◌, ltb,
  length,
}
use ucas_cplab.Rv64.Op.{OpR, OpI, OpB, OpU}
use ucas_cplab.Rv64.Inst.{
  Inst, inst_r, inst_fr, inst_i, inst_b, inst_fi, inst_j, inst_u, pseudo_r, pseudo_li, pseudo_l,
  pseudo_b, pseudo_j, pseudo_ret, PseudoROp, PseudoBOp, PseudoJOp, PseudoLOp,
}
use ucas_cplab.Rv64.Words.{
  bool_word, sext, add64, sub64, neg64, slt64, sll64, srl64, sra64, div64, rem64, divw, remw,
}
use ucas_cplab.Rv64.Memory.{Result, ok, err, invalid_register, load, store, ◌>>=◌}
use ucas_cplab.Rv64.Vm.{Host, Machine, FlatInst, set_reg, lookup, assign}
use ucas_cplab.Rv64.Vm.Float.{exec_fr, exec_fi}
use ucas_cplab.Rv64.Vm.Builtin.{find_builtin, call_builtin}

-- What `exec_r` stores in `rd`, from the two sources.
unfoldable pub alu_r : OpR → ℕ → ℕ → ℕ
alu_r OpR.add a b = add64 a b
alu_r OpR.sub a b = sub64 a b
alu_r OpR.sll a b = sll64 a (b % 64)
alu_r OpR.slt a b = bool_word (slt64 a b)
alu_r OpR.sltu a b = bool_word (ltb a b)
alu_r OpR.xor a b = bit_xor a b
alu_r OpR.srl a b = srl64 a (b % 64)
alu_r OpR.sra a b = sra64 a (b % 64)
alu_r OpR.or a b = bit_or a b
alu_r OpR.and a b = bit_and a b
alu_r OpR.mul a b = a * b % 2 ^ 64
alu_r OpR.div a b = div64 a b
alu_r OpR.rem a b = rem64 a b
alu_r OpR.addw a b = sext 32 (a + b)
alu_r OpR.subw a b = sext 32 (a % 2 ^ 32 + 2 ^ 32 - b % 2 ^ 32)
alu_r OpR.sllw a b = sext 32 (a * 2 ^ (b % 32))
alu_r OpR.srlw a b = sext 32 (a % 2 ^ 32 / 2 ^ (b % 32))
alu_r OpR.sraw a b = sext 32 (sra64 (sext 32 a) (b % 32))
alu_r OpR.mulw a b = sext 32 (a * b)
alu_r OpR.divw a b = divw a b
alu_r OpR.remw a b = remw a b

unfoldable pub exec_r : Machine → OpR → ℕ → ℕ → ℕ → Machine
exec_r s op rd rs1 rs2 = set_reg s rd (alu_r op (s.regs rs1) (s.regs rs2))

-- The immediate, sign-extended to 64 bits, and the address of a load or store.
abbrev pub offset : ℕ → ℕ → ℕ
offset base imm = add64 base (sext 32 imm)

abbrev pub load_to : Machine → ℕ → ℕ → ℕ → (ℕ → ℕ) → Result Machine
load_to s n addr rd extend = do v ← load n s.memory addr; ok (set_reg s rd (extend v))

abbrev pub store_from : Machine → ℕ → ℕ → ℕ → Result Machine
store_from s n addr v = do m ← store n s.memory addr v; ok (record s { memory = m })

-- `JALR` clears the lowest bit of the target, and writes the old `pc` to any register but 0.
abbrev pub jump_register : Machine → ℕ → ℕ → ℕ → Machine
jump_register s rd rs1 imm =
    let target = offset (s.regs rs1) imm / 2 * 2 in
    if rd == 0
    then record s { pc = target }
    else record s { pc = target; regs = λ r. if r == rd then s.pc else s.regs r }

unfoldable pub exec_i : Machine → OpI → ℕ → ℕ → ℕ → Result Machine
exec_i s OpI.addi rd rs1 imm = ok (set_reg s rd (add64 (s.regs rs1) (sext 32 imm)))
exec_i s OpI.addiw rd rs1 imm = ok (set_reg s rd (sext 32 (s.regs rs1 + imm)))
exec_i s OpI.slti rd rs1 imm = ok (set_reg s rd (bool_word (slt64 (s.regs rs1) (sext 32 imm))))
exec_i s OpI.sltiu rd rs1 imm = ok (set_reg s rd (bool_word (ltb (s.regs rs1) (sext 32 imm))))
exec_i s OpI.xori rd rs1 imm = ok (set_reg s rd (bit_xor (s.regs rs1) (sext 32 imm)))
exec_i s OpI.ori rd rs1 imm = ok (set_reg s rd (bit_or (s.regs rs1) (sext 32 imm)))
exec_i s OpI.andi rd rs1 imm = ok (set_reg s rd (bit_and (s.regs rs1) (sext 32 imm)))
exec_i s OpI.slli rd rs1 imm = ok (set_reg s rd (sll64 (s.regs rs1) (imm % 64)))
exec_i s OpI.srli rd rs1 imm = ok (set_reg s rd (srl64 (s.regs rs1) (imm % 64)))
exec_i s OpI.srai rd rs1 imm = ok (set_reg s rd (sra64 (s.regs rs1) (imm % 64)))
exec_i s OpI.slliw rd rs1 imm = ok (set_reg s rd (sext 32 (s.regs rs1 * 2 ^ (imm % 32))))
exec_i s OpI.srliw rd rs1 imm = ok (set_reg s rd (sext 32 (s.regs rs1 % 2 ^ 32 / 2 ^ (imm % 32))))
exec_i s OpI.sraiw rd rs1 imm =
    ok (set_reg s rd (sext 32 (sra64 (sext 32 (s.regs rs1)) (imm % 32))))
exec_i s OpI.ld rd rs1 imm = load_to s 8 (offset (s.regs rs1) imm) rd (λ v. v)
exec_i s OpI.lw rd rs1 imm = load_to s 4 (offset (s.regs rs1) imm) rd (sext 32)
exec_i s OpI.lwu rd rs1 imm = load_to s 4 (offset (s.regs rs1) imm) rd (λ v. v)
exec_i s OpI.lh rd rs1 imm = load_to s 2 (offset (s.regs rs1) imm) rd (sext 16)
exec_i s OpI.lhu rd rs1 imm = load_to s 2 (offset (s.regs rs1) imm) rd (λ v. v)
exec_i s OpI.lb rd rs1 imm = load_to s 1 (offset (s.regs rs1) imm) rd (sext 8)
exec_i s OpI.lbu rd rs1 imm = load_to s 1 (offset (s.regs rs1) imm) rd (λ v. v)
exec_i s OpI.sd rd rs1 imm = store_from s 8 (offset (s.regs rs1) imm) (s.regs rd)
exec_i s OpI.sw rd rs1 imm = store_from s 4 (offset (s.regs rs1) imm) (s.regs rd)
exec_i s OpI.sh rd rs1 imm = store_from s 2 (offset (s.regs rs1) imm) (s.regs rd)
exec_i s OpI.sb rd rs1 imm = store_from s 1 (offset (s.regs rs1) imm) (s.regs rd)
exec_i s OpI.jalr rd rs1 imm = ok (jump_register s rd rs1 imm)

unfoldable pub branch_taken : OpB → ℕ → ℕ → Bool
branch_taken OpB.beq a b = a == b
branch_taken OpB.bne a b = not (a == b)
branch_taken OpB.blt a b = slt64 a b
branch_taken OpB.bge a b = not (slt64 a b)
branch_taken OpB.bltu a b = ltb a b
branch_taken OpB.bgeu a b = not (ltb a b)

abbrev pub jump_if : Bool → ℕ → Machine → Machine
jump_if taken target s = if taken then record s { pc = target } else s

unfoldable pub exec_b : Machine → OpB → ℕ → ℕ → FlatInst → Machine
unfolding branch_taken
exec_b s op rs1 rs2 fi = jump_if (branch_taken op (s.regs rs1) (s.regs rs2)) fi.branch_target s

unfoldable pub exec_j : Machine → ℕ → FlatInst → Machine
exec_j s rd fi = record s { regs = λ r. if r == rd then s.pc else s.regs r; pc = fi.branch_target }

-- The sum `(pc - 1) + (imm << 12)` wraps like every other.
unfoldable pub exec_u : Machine → OpU → ℕ → ℕ → Machine
exec_u s OpU.lui rd imm = set_reg s rd (sll64 imm 12)
exec_u s OpU.auipc rd imm = set_reg s rd (add64 (sub64 s.pc 1) (sll64 imm 12))

unfoldable pub exec_pseudo_r : Machine → PseudoROp → ℕ → ℕ → Machine
exec_pseudo_r s PseudoROp.mv rd rs1 = set_reg s rd (s.regs rs1)
exec_pseudo_r s PseudoROp.not rd rs1 = set_reg s rd (2 ^ 64 - 1 - s.regs rs1)
exec_pseudo_r s PseudoROp.neg rd rs1 = set_reg s rd (neg64 (s.regs rs1))
exec_pseudo_r s PseudoROp.negw rd rs1 = set_reg s rd (sext 32 (2 ^ 32 - s.regs rs1 % 2 ^ 32))
exec_pseudo_r s PseudoROp.seqz rd rs1 = set_reg s rd (bool_word (s.regs rs1 == 0))
exec_pseudo_r s PseudoROp.snez rd rs1 = set_reg s rd (bool_word (not (s.regs rs1 == 0)))

unfoldable pub exec_pseudo_li : Machine → ℕ → ℕ → Machine
exec_pseudo_li s rd imm = set_reg s rd imm

unfoldable pub exec_pseudo_b : Machine → PseudoBOp → ℕ → FlatInst → Machine
exec_pseudo_b s PseudoBOp.beqz rs1 fi = jump_if (s.regs rs1 == 0) fi.branch_target s
exec_pseudo_b s PseudoBOp.bnez rs1 fi = jump_if (not (s.regs rs1 == 0)) fi.branch_target s

abbrev pub call_named : Host → Machine → String → Result Machine
call_named h s target = elim (find_builtin target) [
  | none ↦ err invalid_register
  | some b ↦ call_builtin h b s
]

-- The stack of return addresses is a vector: its last element is the head of the list.
unfoldable pub exec_pseudo_j : Host → Machine → PseudoJOp → String → FlatInst → Result Machine
exec_pseudo_j h s PseudoJOp.j target fi = ok (record s { pc = fi.branch_target })
exec_pseudo_j h s PseudoJOp.call target fi =
    if fi.is_call_builtin
    then call_named h s target
    else ok (record s { call_stack = s.pc ∷ s.call_stack; pc = fi.branch_target })

-- `symbol_map[i.symbol]` inserts 0 for a symbol that is missing.
abbrev pub symbol_address : Machine → String → ℕ × Machine
symbol_address s symbol = elim (lookup symbol s.symbol_map) [
  | none ↦ (0, record s { symbol_map = assign symbol 0 s.symbol_map })
  | some a ↦ (a, s)
]

unfoldable pub exec_pseudo_l : Machine → PseudoLOp → ℕ → String → Result Machine
exec_pseudo_l s PseudoLOp.la rd symbol =
    let (addr, s') = symbol_address s symbol in ok (set_reg s' rd addr)
exec_pseudo_l s PseudoLOp.lgd rd symbol =
    let (addr, s') = symbol_address s symbol in load_to s' 8 addr rd (λ v. v)
exec_pseudo_l s PseudoLOp.lgw rd symbol =
    let (addr, s') = symbol_address s symbol in load_to s' 4 addr rd (sext 32)
exec_pseudo_l s PseudoLOp.sgd rd symbol =
    let (addr, s') = symbol_address s symbol in store_from s' 8 addr (s'.regs rd)
exec_pseudo_l s PseudoLOp.sgw rd symbol =
    let (addr, s') = symbol_address s symbol in store_from s' 4 addr (s'.regs rd)

abbrev pub return_to : Machine → List ℕ → Machine
return_to s [] = record s { pc = length s.flat_insts }
return_to s (ra ∷ stack) = record s { pc = ra; call_stack = stack }

unfoldable pub exec_pseudo_ret : Machine → Machine
exec_pseudo_ret s = return_to s s.call_stack

unfoldable pub exec : Host → Machine → FlatInst → Inst → Result Machine
exec h s fi (inst_r op rd rs1 rs2) = ok (exec_r s op rd rs1 rs2)
exec h s fi (inst_fr op rd rs1 rs2) = exec_fr h s op rd rs1 rs2
exec h s fi (inst_i op rd rs1 imm) = exec_i s op rd rs1 imm
exec h s fi (inst_b op rs1 rs2 target) = ok (exec_b s op rs1 rs2 fi)
exec h s fi (inst_fi op rd rs1 imm) = exec_fi s op rd rs1 imm
exec h s fi (inst_j op rd target) = ok (exec_j s rd fi)
exec h s fi (inst_u op rd imm) = ok (exec_u s op rd imm)
exec h s fi (pseudo_r op rd rs1) = ok (exec_pseudo_r s op rd rs1)
exec h s fi (pseudo_li rd imm) = ok (exec_pseudo_li s rd imm)
exec h s fi (pseudo_b op rs1 target) = ok (exec_pseudo_b s op rs1 fi)
exec h s fi (pseudo_j op target) = exec_pseudo_j h s op target fi
exec h s fi (pseudo_l op rd symbol) = exec_pseudo_l s op rd symbol
exec h s fi pseudo_ret = ok (exec_pseudo_ret s)
