-- ===== src/Rv64/Vm/Float.antt =====
-- `exec_fr` and `exec_fi` of src/backend/rv64/vm/exec.cpp: floating-point instructions. The arithmetic
-- is the host's; which registers are read and written, and the sign injections, are the machine's.
use ucas_cplab.Common.{ℕ, ◌+◌, ◌-◌, ◌*◌, ◌/◌, ◌%◌, ◌^◌, Bool, Option}
use ucas_cplab.Rv64.Op.{OpFr, OpFi}
use ucas_cplab.Rv64.Inst.{AnyReg}
use ucas_cplab.Rv64.Words.{bool_word, sext, add64}
use ucas_cplab.Rv64.Memory.{Result, ok, load, store, ◌>>=◌}
use ucas_cplab.Rv64.Vm.{Host, Machine, set_reg, get_f, get_d, set_f, set_d, reg_id, optional_id}

-- The sign bit of `b` (or its opposite) on the magnitude of `a`, for a width of 32 or 64 bits.
abbrev pub sign_inject : ℕ → ℕ → ℕ → ℕ
sign_inject top a b = a % top + b / top * top

abbrev pub sign_inject_negated : ℕ → ℕ → ℕ → ℕ
sign_inject_negated top a b = a % top + (1 - b / top) * top

module _ (h : Host) (s : Machine) (rd rs1 : ℕ) where
  abbrev pub binary_s : (ℕ → ℕ → ℕ) → ℕ → Machine
  binary_s f rs2 = set_f s rd (f (get_f s rs1) (get_f s rs2))

  abbrev pub binary_d : (ℕ → ℕ → ℕ) → ℕ → Machine
  binary_d f rs2 = set_d s rd (f (get_d s rs1) (get_d s rs2))

  abbrev pub compare_s : (ℕ → ℕ → Bool) → ℕ → Machine
  compare_s f rs2 = set_reg s rd (bool_word (f (get_f s rs1) (get_f s rs2)))

  abbrev pub compare_d : (ℕ → ℕ → Bool) → ℕ → Machine
  compare_d f rs2 = set_reg s rd (bool_word (f (get_d s rs1) (get_d s rs2)))

-- The cases with two operands read `rs2`, which throws when the instruction has none.
unfoldable pub exec_fr : Host → Machine → OpFr → AnyReg → AnyReg → Option AnyReg → Result Machine
unfolding optional_id
exec_fr h s OpFr.fadd_s rd rs1 rs2 = do
  b ← optional_id rs2
  ok (binary_s h s (reg_id rd) (reg_id rs1) h.add_s b)
exec_fr h s OpFr.fsub_s rd rs1 rs2 = do
  b ← optional_id rs2
  ok (binary_s h s (reg_id rd) (reg_id rs1) h.sub_s b)
exec_fr h s OpFr.fmul_s rd rs1 rs2 = do
  b ← optional_id rs2
  ok (binary_s h s (reg_id rd) (reg_id rs1) h.mul_s b)
exec_fr h s OpFr.fdiv_s rd rs1 rs2 = do
  b ← optional_id rs2
  ok (binary_s h s (reg_id rd) (reg_id rs1) h.div_s b)
exec_fr h s OpFr.fadd_d rd rs1 rs2 = do
  b ← optional_id rs2
  ok (binary_d h s (reg_id rd) (reg_id rs1) h.add_d b)
exec_fr h s OpFr.fsub_d rd rs1 rs2 = do
  b ← optional_id rs2
  ok (binary_d h s (reg_id rd) (reg_id rs1) h.sub_d b)
exec_fr h s OpFr.fmul_d rd rs1 rs2 = do
  b ← optional_id rs2
  ok (binary_d h s (reg_id rd) (reg_id rs1) h.mul_d b)
exec_fr h s OpFr.fdiv_d rd rs1 rs2 = do
  b ← optional_id rs2
  ok (binary_d h s (reg_id rd) (reg_id rs1) h.div_d b)
exec_fr h s OpFr.fsqrt_s rd rs1 rs2 = ok (set_f s (reg_id rd) (h.sqrt_s (get_f s (reg_id rs1))))
exec_fr h s OpFr.fsqrt_d rd rs1 rs2 = ok (set_d s (reg_id rd) (h.sqrt_d (get_d s (reg_id rs1))))
exec_fr h s OpFr.fsgnj_s rd rs1 rs2 = do
  b ← optional_id rs2
  ok (binary_s h s (reg_id rd) (reg_id rs1) (sign_inject (2 ^ 31)) b)
exec_fr h s OpFr.fsgnjn_s rd rs1 rs2 = do
  b ← optional_id rs2
  ok (binary_s h s (reg_id rd) (reg_id rs1) (sign_inject_negated (2 ^ 31)) b)
exec_fr h s OpFr.fsgnj_d rd rs1 rs2 = do
  b ← optional_id rs2
  ok (binary_d h s (reg_id rd) (reg_id rs1) (sign_inject (2 ^ 63)) b)
exec_fr h s OpFr.fsgnjn_d rd rs1 rs2 = do
  b ← optional_id rs2
  ok (binary_d h s (reg_id rd) (reg_id rs1) (sign_inject_negated (2 ^ 63)) b)
exec_fr h s OpFr.feq_s rd rs1 rs2 = do
  b ← optional_id rs2
  ok (compare_s h s (reg_id rd) (reg_id rs1) h.eq_s b)
exec_fr h s OpFr.flt_s rd rs1 rs2 = do
  b ← optional_id rs2
  ok (compare_s h s (reg_id rd) (reg_id rs1) h.lt_s b)
exec_fr h s OpFr.fle_s rd rs1 rs2 = do
  b ← optional_id rs2
  ok (compare_s h s (reg_id rd) (reg_id rs1) h.le_s b)
exec_fr h s OpFr.feq_d rd rs1 rs2 = do
  b ← optional_id rs2
  ok (compare_d h s (reg_id rd) (reg_id rs1) h.eq_d b)
exec_fr h s OpFr.flt_d rd rs1 rs2 = do
  b ← optional_id rs2
  ok (compare_d h s (reg_id rd) (reg_id rs1) h.lt_d b)
exec_fr h s OpFr.fle_d rd rs1 rs2 = do
  b ← optional_id rs2
  ok (compare_d h s (reg_id rd) (reg_id rs1) h.le_d b)
exec_fr h s OpFr.fcvt_w_s rd rs1 rs2 =
    ok (set_reg s (reg_id rd) (sext 32 (h.s_to_int32 (get_f s (reg_id rs1)))))
exec_fr h s OpFr.fcvt_w_d rd rs1 rs2 =
    ok (set_reg s (reg_id rd) (sext 32 (h.d_to_int32 (get_d s (reg_id rs1)))))
exec_fr h s OpFr.fcvt_l_s rd rs1 rs2 =
    ok (set_reg s (reg_id rd) (h.s_to_int64 (get_f s (reg_id rs1))))
exec_fr h s OpFr.fcvt_l_d rd rs1 rs2 =
    ok (set_reg s (reg_id rd) (h.d_to_int64 (get_d s (reg_id rs1))))
exec_fr h s OpFr.fcvt_s_w rd rs1 rs2 =
    ok (set_f s (reg_id rd) (h.int32_to_s (s.regs (reg_id rs1) % 2 ^ 32)))
exec_fr h s OpFr.fcvt_d_w rd rs1 rs2 =
    ok (set_d s (reg_id rd) (h.int32_to_d (s.regs (reg_id rs1) % 2 ^ 32)))
exec_fr h s OpFr.fcvt_s_l rd rs1 rs2 = ok (set_f s (reg_id rd) (h.int64_to_s (s.regs (reg_id rs1))))
exec_fr h s OpFr.fcvt_d_l rd rs1 rs2 = ok (set_d s (reg_id rd) (h.int64_to_d (s.regs (reg_id rs1))))
exec_fr h s OpFr.fcvt_s_d rd rs1 rs2 = ok (set_f s (reg_id rd) (h.d_to_s (get_d s (reg_id rs1))))
exec_fr h s OpFr.fcvt_d_s rd rs1 rs2 = ok (set_d s (reg_id rd) (h.s_to_d (get_f s (reg_id rs1))))
exec_fr h s OpFr.fmv_x_w rd rs1 rs2 = ok (set_reg s (reg_id rd) (sext 32 (get_f s (reg_id rs1))))
exec_fr h s OpFr.fmv_w_x rd rs1 rs2 = ok (set_f s (reg_id rd) (s.regs (reg_id rs1) % 2 ^ 32))

unfoldable pub exec_fi : Machine → OpFi → ℕ → ℕ → ℕ → Result Machine
exec_fi s OpFi.flw rd rs1 imm = do
  v ← load 4 s.memory (add64 (s.regs rs1) (sext 32 imm))
  ok (set_f s rd v)
exec_fi s OpFi.fld rd rs1 imm = do
  v ← load 8 s.memory (add64 (s.regs rs1) (sext 32 imm))
  ok (set_d s rd v)
exec_fi s OpFi.fsw rd rs1 imm = do
  m ← store 4 s.memory (add64 (s.regs rs1) (sext 32 imm)) (get_f s rd)
  ok (record s { memory = m })
exec_fi s OpFi.fsd rd rs1 imm = do
  m ← store 8 s.memory (add64 (s.regs rs1) (sext 32 imm)) (get_d s rd)
  ok (record s { memory = m })
