-- ===== src/Rv64/Isel/Runs.antt =====
-- Straight-line code on the machine of src/backend/rv64/vm/exec.cpp: each instruction that src/backend/rv64/isel.hpp selects for an
-- integer operator sets one register.
use Prim.Native.Nat.{bit_xor}
use Prim.Native.String.{String}
use ucas_cplab.Common.{
  ℕ, ◌%◌, ◌^◌, ◌*◌, ◌/◌, ◌+◌, ◌-◌, ◌≡◌, ◌⊎◌, refl, ◌∙◌, Bool, true, false, not, List, [], ◌∷◌, ◌==◌,
  arith, update, if◌then◌else◌,
}
use ucas_cplab.Rv64.Op.{OpR, OpI}
use ucas_cplab.Rv64.Inst.{Inst, inst_r, inst_i, pseudo_r, pseudo_li, PseudoROp}
use ucas_cplab.Rv64.Words.{bool_word, sext, add64, slt64, sll64, srl64, sra64, neg64}
use ucas_cplab.Rv64.Memory.{Result, ok}
use ucas_cplab.Rv64.Vm.{Host, Machine, set_reg}
use ucas_cplab.Rv64.Vm.Exec.{exec, exec_r, exec_i, exec_pseudo_r, exec_pseudo_li, alu_r}
use ucas_cplab.Rv64.Peephole.Run.{Outcome, fallthrough, exec_then, exec_block}
use ucas_cplab.Rv64.Isel.{reg_t0}
use ucas_cplab.Rv64.Isel.Binary.{flip, is_zero, is_nonzero}

abbrev pub Regs : Type 0
Regs = ℕ → ℕ

module _ (host : Host) (call : String → Machine → Result Machine) where
  -- The code runs to its end and leaves `v` in `rd`; it writes no register but `rd` and `t0`, and nothing
  -- else of the machine.
  abbrev pub Computes : List Inst → Machine → ℕ → ℕ → Type 0
  Computes code s rd v =
      (regs' : Regs) × (exec_block host call code s ≡ ok (fallthrough (record s { regs = regs' })))
      × (regs' rd ≡ v)
      × ((r : ℕ) → (r == rd) ≡ false → (r == reg_t0) ≡ false → regs' r ≡ s.regs r)

  -- The instruction sets the register `rd` from the registers.
  abbrev pub Sets : Inst → ℕ → (Regs → ℕ) → Type 0
  Sets i rd f =
      (s : Machine) (k : Machine → Result Outcome)
      → exec_then host call i s k ≡ k (set_reg s rd (f s.regs))

  pub inst_r-Sets : (op : OpR) (rd a b : ℕ) → Sets (inst_r op rd a b) rd (λ g. alu_r op (g a) (g b))
  unfolding exec_then exec exec_r
  inst_r-Sets op rd a b s k = refl

  pub pseudo_li-Sets : (rd imm : ℕ) → Sets (pseudo_li rd imm) rd (λ g. imm)
  unfolding exec_then exec exec_pseudo_li
  pseudo_li-Sets rd imm s k = refl

  pub flip-Sets : (rd : ℕ) → Sets (flip rd) rd (λ g. bit_xor (g rd) 1)
  unfolding exec_then exec exec_i
  flip-Sets rd s k = refl

  pub negate-Sets :
      (w : Bool) (rd a : ℕ)
      → Sets
          (pseudo_r (if w then PseudoROp.negw else PseudoROp.neg) rd a)
          rd
          (λ g. if w then sext 32 (2 ^ 32 - g a % 2 ^ 32) else neg64 (g a))
  unfolding exec_then exec exec_pseudo_r
  negate-Sets true rd a s k = refl
  negate-Sets false rd a s k = refl

  pub xori-Sets : (rd a : ℕ) → Sets (inst_i OpI.xori rd a 1) rd (λ g. bit_xor (g a) 1)
  unfolding exec_then exec exec_i
  xori-Sets rd a s k = refl

  pub is_zero-Sets : (rd : ℕ) → Sets (is_zero rd) rd (λ g. bool_word (g rd == 0))
  unfolding exec_then exec exec_pseudo_r
  is_zero-Sets rd s k = refl

  pub is_nonzero-Sets : (rd : ℕ) → Sets (is_nonzero rd) rd (λ g. bool_word (not (g rd == 0)))
  unfolding exec_then exec exec_pseudo_r
  is_nonzero-Sets rd s k = refl

  pub addi-Sets :
      (w : Bool) (rd a imm : ℕ)
      → Sets
          (inst_i (if w then OpI.addiw else OpI.addi) rd a imm)
          rd
          (λ g. if w then sext 32 (g a + imm) else add64 (g a) (sext 32 imm))
  unfolding exec_then exec exec_i
  addi-Sets true rd a imm s k = refl
  addi-Sets false rd a imm s k = refl

  pub slti-Sets :
      (rd a imm : ℕ)
      → Sets (inst_i OpI.slti rd a imm) rd (λ g. bool_word (slt64 (g a) (sext 32 imm)))
  unfolding exec_then exec exec_i
  slti-Sets rd a imm s k = refl

  pub slli-Sets :
      (w : Bool) (rd a imm : ℕ)
      → Sets
          (inst_i (if w then OpI.slliw else OpI.slli) rd a imm)
          rd
          (λ g. if w then sext 32 (g a * 2 ^ (imm % 32)) else sll64 (g a) (imm % 64))
  unfolding exec_then exec exec_i
  slli-Sets true rd a imm s k = refl
  slli-Sets false rd a imm s k = refl

  pub srli-Sets :
      (w : Bool) (rd a imm : ℕ)
      → Sets
          (inst_i (if w then OpI.srliw else OpI.srli) rd a imm)
          rd
          (λ g. if w then sext 32 (g a % 2 ^ 32 / 2 ^ (imm % 32)) else srl64 (g a) (imm % 64))
  unfolding exec_then exec exec_i
  srli-Sets true rd a imm s k = refl
  srli-Sets false rd a imm s k = refl

  pub srai-Sets :
      (w : Bool) (rd a imm : ℕ)
      → Sets
          (inst_i (if w then OpI.sraiw else OpI.srai) rd a imm)
          rd
          (λ g. if w then sext 32 (sra64 (sext 32 (g a)) (imm % 32)) else sra64 (g a) (imm % 64))
  unfolding exec_then exec exec_i
  srai-Sets true rd a imm s k = refl
  srai-Sets false rd a imm s k = refl

  -- One, two and three instructions, where the first may use `t0`.
  pub Computes-one :
      (i : Inst) (s : Machine) (rd v : ℕ) (f : Regs → ℕ)
      → Sets i rd f
      → f s.regs ≡ v
      → Computes (i ∷ []) s rd v
  unfolding exec_block
  Computes-one i s rd v f p e =
      (update s.regs rd (f s.regs), p s _, ground (arith, e), λ r n t. ground arith)

  pub Computes-two :
      (i j : Inst) (s : Machine) (t rd v : ℕ) (f g : Regs → ℕ)
      → Sets i t f
      → Sets j rd g
      → (t ≡ rd) ⊎ (t ≡ reg_t0)
      → g (update s.regs t (f s.regs)) ≡ v
      → Computes (i ∷ j ∷ []) s rd v
  unfolding exec_block
  Computes-two i j s t rd v f g p q w e =
      let between = update s.regs t (f s.regs) in
      (
        update between rd (g between),
        p s _ ∙ q (record s { regs = between }) _,
        ground (arith, e),
        λ r n m. ground arith,
      )

  pub Computes-three :
      (i j l : Inst) (s : Machine) (t rd v : ℕ) (f g h : Regs → ℕ)
      → Sets i t f
      → Sets j rd g
      → Sets l rd h
      → (t ≡ rd) ⊎ (t ≡ reg_t0)
      → (let one = update s.regs t (f s.regs) in h (update one rd (g one))) ≡ v
      → Computes (i ∷ j ∷ l ∷ []) s rd v
  unfolding exec_block
  Computes-three i j l s t rd v f g h p q o w e =
      let one = update s.regs t (f s.regs) in
      let two = update one rd (g one) in
      (
        update two rd (h two),
        p s _ ∙ q (record s { regs = one }) _ ∙ o (record s { regs = two }) _,
        ground (arith, e),
        λ r n m. ground arith,
      )
