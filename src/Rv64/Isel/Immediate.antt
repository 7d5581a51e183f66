-- ===== src/Rv64/Isel/Immediate.antt =====
-- The instructions with an immediate that src/backend/rv64/isel.hpp selects, against the operators on a register and a constant.
use Prim.Native.String.{String}
use ucas_cplab.Common.{
  ℕ, ◌+◌, ◌-◌, ◌*◌, ◌/◌, ◌%◌, ◌^◌, ◌<◌, ◌≡◌, inl, inr, refl, ap, ◌∙◌, Bool, true, false, not, some,
  [], ◌∷◌, ◌==◌, arith, update_same, Bool-cases, if◌then◌else◌,
}
use ucas_cplab.Rv64.Op.{OpR, OpI}
use ucas_cplab.Rv64.Inst.{Inst, inst_i}
use ucas_cplab.Rv64.Words.{sext, add64, neg64, slt64, sll64, srl64, sra64}
use ucas_cplab.Rv64.Memory.{Result}
use ucas_cplab.Rv64.Vm.{Host, Machine}
use ucas_cplab.Rv64.Vm.Exec.{alu_r}
use ucas_cplab.Rv64.Isel.{reg_t0, fits_i12, low_word, add_reg_imm, int_reg_op}
use ucas_cplab.Rv64.Isel.Binary.{next_imm, next_word}
use ucas_cplab.Rv64.Isel.OpWord.{alu_w}
use ucas_cplab.Rv64.Isel.Runs.{Sets, inst_r-Sets, addi-Sets, Computes-one, Computes-two}
use ucas_cplab.Rv64.Isel.Binary.Words32.{sext-mod}
use ucas_cplab.Rv64.Isel.RegReg.{Selects}
use ucas_cplab.Rv64.Isel.Loaded.{loaded_op}

-- A word that is a sign-extended `int32_t`.
abbrev pub Narrow : ℕ → Type 0
Narrow imm = sext 32 imm ≡ imm

pub low-sext : (imm : ℕ) → imm < 2 ^ 64 → fits_i12 imm ≡ true → sext 32 (low_word imm) ≡ imm
unfolding fits_i12
low-sext imm h f = ground arith

pub addiw-addw : (a imm : ℕ) → sext 32 (a + low_word imm) ≡ alu_r OpR.addw a imm
unfolding alu_r
addiw-addw a imm = sext-mod (a + low_word imm) (a + imm) (omega arith)

pub sub-add_neg :
    (w : Bool) (a imm : ℕ)
    → imm < 2 ^ 64
    → alu_w OpR.add OpR.addw w a (neg64 imm) ≡ alu_w OpR.sub OpR.subw w a imm
unfolding alu_r
sub-add_neg true a imm h =
    sext-mod (a + neg64 imm) (a % 2 ^ 32 + 2 ^ 32 - imm % 2 ^ 32) (omega arith)
sub-add_neg false a imm h = omega arith

pub sext-low_word : (imm : ℕ) → sext 32 (low_word imm) ≡ sext 32 imm
sext-low_word imm = sext-mod (low_word imm) imm (omega arith)

-- `a < c + 1` where the successor of `c` is a 12-bit immediate.
pub next-sext : (imm : ℕ) → fits_i12 (next_imm imm) ≡ true → sext 32 (next_word imm) ≡ next_imm imm
unfolding fits_i12
next-sext imm f = ground arith

pub slt-next :
    (a c : ℕ)
    → a < 2 ^ 64
    → c < 2 ^ 64
    → fits_i12 (add64 c 1) ≡ true
    → slt64 a (add64 c 1) ≡ not (slt64 c a)
unfolding fits_i12
slt-next a c ha hc f = ground arith

pub not_twice : (b : Bool) → not (not b) ≡ b
not_twice true = refl
not_twice false = refl

pub slli-sll :
    (w : Bool) (a imm : ℕ)
    → (if w then sext 32 (a * 2 ^ (low_word imm % 32)) else sll64 a (low_word imm % 64))
      ≡ alu_w OpR.sll OpR.sllw w a imm
unfolding alu_r
slli-sll true a imm = ap (λ z. sext 32 (a * 2 ^ z)) (omega arith)
slli-sll false a imm = ap (sll64 a) (omega arith)

pub srli-srl :
    (w : Bool) (a imm : ℕ)
    → (if w then sext 32 (a % 2 ^ 32 / 2 ^ (low_word imm % 32)) else srl64 a (low_word imm % 64))
      ≡ alu_w OpR.srl OpR.srlw w a imm
unfolding alu_r
srli-srl true a imm = ap (λ z. sext 32 (a % 2 ^ 32 / 2 ^ z)) (omega arith)
srli-srl false a imm = ap (srl64 a) (omega arith)

pub srai-sra :
    (w : Bool) (a imm : ℕ)
    → (if w then sext 32 (sra64 (sext 32 a) (low_word imm % 32)) else sra64 a (low_word imm % 64))
      ≡ alu_w OpR.sra OpR.sraw w a imm
unfolding alu_r
srai-sra true a imm = ap (λ z. sext 32 (sra64 (sext 32 a) z)) (omega arith)
srai-sra false a imm = ap (sra64 a) (omega arith)

pub addi-add :
    (w : Bool) (a imm : ℕ)
    → sext 32 (low_word imm) ≡ imm
    → (if w then sext 32 (a + low_word imm) else add64 a (sext 32 (low_word imm)))
      ≡ alu_w OpR.add OpR.addw w a imm
unfolding alu_r
addi-add true a imm h = addiw-addw a imm
addi-add false a imm h = ap (add64 a) h

module _ (host : Host) (call : String → Machine → Result Machine) (s : Machine) (rd a : ℕ) where
  -- One instruction on the operand, and another on its result.
  pub immediate_op :
      (i : Inst) (f : ℕ → ℕ) (v : ℕ)
      → Sets host call i rd (λ g. f (g a))
      → f (s.regs a) ≡ v
      → Selects host call (some (i ∷ [])) s rd v
  immediate_op i f v p e = (i ∷ [], refl, Computes-one host call i s rd v (λ g. f (g a)) p e)

  pub immediate_then :
      (i j : Inst) (f k : ℕ → ℕ) (v : ℕ)
      → Sets host call i rd (λ g. f (g a))
      → Sets host call j rd (λ g. k (g rd))
      → k (f (s.regs a)) ≡ v
      → Selects host call (some (i ∷ j ∷ [])) s rd v
  immediate_then i j f k v p q e = (
    i ∷ j ∷ [],
    refl,
    Computes-two host call i j s rd rd v (λ g. f (g a)) (λ g. k (g rd)) p q (inl refl)
        (ap k (update_same s.regs rd (f (s.regs a))) ∙ e),
  )

  pub add_reg_imm-Selects :
      (w : Bool) (imm v : ℕ)
      → imm < 2 ^ 64
      → (a == reg_t0) ≡ false
      → alu_w OpR.add OpR.addw w (s.regs a) imm ≡ v
      → Selects host call (some (add_reg_imm rd a imm w)) s rd v
  unfolding add_reg_imm
  add_reg_imm-Selects w imm v h n e = elim (Bool-cases (fits_i12 imm)) [
    | inl f ↦ rw f (
        immediate_op (inst_i (if w then OpI.addiw else OpI.addi) rd a (low_word imm))
          (λ x. if w then sext 32 (x + low_word imm) else add64 x (sext 32 (low_word imm))) v
          (addi-Sets host call w rd a (low_word imm))
          (addi-add w (s.regs a) imm (low-sext imm h f) ∙ e))
    | inr f ↦ rw f (
        loaded_op host call s a reg_t0 rd imm v (inr refl) n
          (int_reg_op OpR.add OpR.addw w rd a reg_t0) (alu_w OpR.add OpR.addw w)
          (inst_r-Sets host call (if w then OpR.addw else OpR.add) rd a reg_t0) e)
  ]
