-- ===== src/Rv64/Isel/RegConst.antt =====
-- The code of src/backend/rv64/isel.hpp for an integer operator on a register and a constant leaves the word of the operator.
use Prim.Native.Nat.{bit_and, bit_or, bit_xor}
use Prim.Native.String.{String}
use ucas_cplab.Common.{
  ℕ, ◌*◌, ◌/◌, ◌%◌, ◌^◌, ◌<◌, ◌≡◌, inl, inr, refl, sym, ap, ◌∙◌, Bool, true, false, not, some, [],
  ◌∷◌, ◌++◌, ◌==◌, arith, Bool-cases, if◌then◌else◌,
}
use ucas_cplab.Ir.Inst.{InstOp}
use ucas_cplab.Rv64.Op.{OpR, OpI}
use ucas_cplab.Rv64.Inst.{Inst, inst_r, inst_i, pseudo_li}
use ucas_cplab.Rv64.Words.{bool_word, sext, sub64, neg64, slt64, sll64, srl64, sra64}
use ucas_cplab.Rv64.Memory.{Result}
use ucas_cplab.Rv64.Vm.{Host, Machine}
use ucas_cplab.Rv64.Vm.Exec.{alu_r}
use ucas_cplab.Rv64.Isel.{reg_t0, fits_i12, low_word}
use ucas_cplab.Rv64.Isel.Binary.{
  flip, is_zero, is_nonzero, int_reg_const, less_imm, next_imm, next_word, scratch,
}
use ucas_cplab.Rv64.Isel.OpWord.{op_word, alu_w}
use ucas_cplab.Rv64.Isel.Runs.{
  Sets, inst_r-Sets, flip-Sets, is_zero-Sets, is_nonzero-Sets, slti-Sets, slli-Sets, srli-Sets,
  srai-Sets,
}
use ucas_cplab.Rv64.Isel.RegReg.{Selects, some-injective, flip_word}
use ucas_cplab.Rv64.Isel.Loaded.{scratch_choice, scratch_other, loaded_op, loaded_then}
use ucas_cplab.Rv64.Isel.Immediate.{
  Narrow, immediate_op, immediate_then, add_reg_imm-Selects, sub-add_neg, sext-low_word, next-sext,
  slt-next, not_twice, slli-sll, srli-srl, srai-sra,
}
use ucas_cplab.Rv64.Isel.Binary.Words32.{sext-IsWord}

pub slt-word : (a b : ℕ) → alu_r OpR.slt a b ≡ bool_word (slt64 a b)
unfolding alu_r
slt-word a b = refl

pub and-word : (a b : ℕ) → alu_r OpR.and a b ≡ bit_and a b
unfolding alu_r
and-word a b = refl

pub or-word : (a b : ℕ) → alu_r OpR.or a b ≡ bit_or a b
unfolding alu_r
or-word a b = refl

module _ (host : Host) (call : String → Machine → Result Machine) (s : Machine) (rd a imm v : ℕ)
    (other : (a == reg_t0) ≡ false) (word : s.regs a < 2 ^ 64) where
  -- The constant that the source holds in an `int32_t`.
  abbrev c : ℕ
  c = sext 32 imm

  less_imm-Selects :
      imm ≡ c
      → bool_word (slt64 (s.regs a) c) ≡ v
      → Selects host call (some (less_imm rd a imm)) s rd v
  less_imm-Selects nar e = elim (Bool-cases (fits_i12 c)) [
    | inl f ↦ rw f (
        immediate_op host call s rd a (inst_i OpI.slti rd a (low_word imm))
          (λ x. bool_word (slt64 x (sext 32 (low_word imm)))) v
          (slti-Sets host call rd a (low_word imm))
          (ap (λ z. bool_word (slt64 (s.regs a) z)) (sext-low_word imm) ∙ e))
    | inr f ↦ rw f (
        loaded_op host call s a reg_t0 rd imm v (inr refl) other (inst_r OpR.slt rd a reg_t0)
          (alu_r OpR.slt) (inst_r-Sets host call OpR.slt rd a reg_t0)
          (slt-word (s.regs a) imm ∙ ap (λ z. bool_word (slt64 (s.regs a) z)) nar ∙ e))
  ]

  not_less-Selects :
      imm ≡ c
      → bool_word (not (slt64 (s.regs a) c)) ≡ v
      → Selects host call (some (less_imm rd a imm ++ flip rd ∷ [])) s rd v
  not_less-Selects nar e = elim (Bool-cases (fits_i12 c)) [
    | inl f ↦ rw f (
        immediate_then host call s rd a (inst_i OpI.slti rd a (low_word imm)) (flip rd)
          (λ x. bool_word (slt64 x (sext 32 (low_word imm)))) (λ z. bit_xor z 1) v
          (slti-Sets host call rd a (low_word imm)) (flip-Sets host call rd)
          (flip_word (slt64 (s.regs a) (sext 32 (low_word imm)))
            ∙ ap (λ z. bool_word (not (slt64 (s.regs a) z))) (sext-low_word imm)
            ∙ e))
    | inr f ↦ rw f (
        loaded_then host call s a reg_t0 rd imm v (inr refl) other (inst_r OpR.slt rd a reg_t0)
          (flip rd) (alu_r OpR.slt) (λ z. bit_xor z 1) (inst_r-Sets host call OpR.slt rd a reg_t0)
          (flip-Sets host call rd)
          (ap (λ z. bit_xor z 1) (slt-word (s.regs a) imm)
            ∙ flip_word (slt64 (s.regs a) imm)
            ∙ ap (λ z. bool_word (not (slt64 (s.regs a) z))) nar
            ∙ e))
  ]

  -- `c < x`, as `!(x < c + 1)` where the successor is a 12-bit immediate.
  slti_next :
      fits_i12 (next_imm imm) ≡ true
      → slt64 (s.regs a) (sext 32 (next_word imm)) ≡ not (slt64 c (s.regs a))
  slti_next f =
      ap (slt64 (s.regs a)) (next-sext imm f) ∙ slt-next (s.regs a) c word (sext-IsWord imm) f

  greater-Selects :
      bool_word (slt64 c (s.regs a)) ≡ v
      → Selects host call (int_reg_const InstOp.gt_op true rd a imm) s rd v
  unfolding int_reg_const
  greater-Selects e = elim (Bool-cases (fits_i12 (next_imm imm))) [
    | inl f ↦ rw f (
        immediate_then host call s rd a (inst_i OpI.slti rd a (next_word imm)) (flip rd)
          (λ x. bool_word (slt64 x (sext 32 (next_word imm)))) (λ z. bit_xor z 1) v
          (slti-Sets host call rd a (next_word imm)) (flip-Sets host call rd)
          (flip_word (slt64 (s.regs a) (sext 32 (next_word imm)))
            ∙ ap (λ b. bool_word (not b)) (slti_next f)
            ∙ ap bool_word (not_twice (slt64 c (s.regs a)))
            ∙ e))
    | inr f ↦ rw f (
        loaded_op host call s a reg_t0 rd c v (inr refl) other (inst_r OpR.slt rd reg_t0 a)
          (λ x y. alu_r OpR.slt y x) (inst_r-Sets host call OpR.slt rd reg_t0 a)
          (slt-word c (s.regs a) ∙ e))
  ]

  not_greater-Selects :
      bool_word (not (slt64 c (s.regs a))) ≡ v
      → Selects host call (int_reg_const InstOp.leq_op true rd a imm) s rd v
  unfolding int_reg_const
  not_greater-Selects e = elim (Bool-cases (fits_i12 (next_imm imm))) [
    | inl f ↦ rw f (
        immediate_op host call s rd a (inst_i OpI.slti rd a (next_word imm))
          (λ x. bool_word (slt64 x (sext 32 (next_word imm)))) v
          (slti-Sets host call rd a (next_word imm)) (ap bool_word (slti_next f) ∙ e))
    | inr f ↦ rw f (
        loaded_then host call s a reg_t0 rd c v (inr refl) other (inst_r OpR.slt rd reg_t0 a)
          (flip rd) (λ x y. alu_r OpR.slt y x) (λ z. bit_xor z 1)
          (inst_r-Sets host call OpR.slt rd reg_t0 a) (flip-Sets host call rd)
          (ap (λ z. bit_xor z 1) (slt-word c (s.regs a)) ∙ flip_word (slt64 c (s.regs a)) ∙ e))
  ]

  scratch_op :
      (op : OpR)
      → alu_r op (s.regs a) c ≡ v
      → Selects host call
          (some (pseudo_li (scratch rd a) c ∷ inst_r op rd a (scratch rd a) ∷ []))
          s
          rd
          v
  scratch_op op e =
      loaded_op host call s a (scratch rd a) rd c v (scratch_choice rd a) (scratch_other rd a other)
        (inst_r op rd a (scratch rd a)) (alu_r op) (inst_r-Sets host call op rd a (scratch rd a)) e

  compared :
      (i : Inst) (k : ℕ → ℕ)
      → Sets host call i rd (λ g. k (g rd))
      → k (sub64 (s.regs a) c) ≡ v
      → Selects host call (some (pseudo_li reg_t0 c ∷ inst_r OpR.sub rd a reg_t0 ∷ i ∷ [])) s rd v
  unfolding alu_r
  compared i k p e =
      loaded_then host call s a reg_t0 rd c v (inr refl) other (inst_r OpR.sub rd a reg_t0) i
        (alu_r OpR.sub) k (inst_r-Sets host call OpR.sub rd a reg_t0) p e

  -- Every integer operator has code for a constant that is a sign-extended `int32_t`; it leaves the word of
  -- the operator in `rd`.
  pub int_reg_const-Selects :
      (op : InstOp) (w : Bool)
      → imm < 2 ^ 64
      → Narrow imm
      → op_word op w (s.regs a) imm ≡ some v
      → Selects host call (int_reg_const op w rd a imm) s rd v
  unfolding op_word int_reg_const
  int_reg_const-Selects InstOp.add_op w lt nar h =
      add_reg_imm-Selects host call s rd a w imm v lt other (some-injective _ v h)
  int_reg_const-Selects InstOp.sub_op w lt nar h =
      add_reg_imm-Selects host call s rd a w (neg64 imm) v (omega arith) other
        (sub-add_neg w (s.regs a) imm lt ∙ some-injective _ v h)
  int_reg_const-Selects InstOp.lt_op w lt nar h =
      less_imm-Selects (sym nar)
        (ap (λ z. bool_word (slt64 (s.regs a) z)) nar ∙ some-injective _ v h)
  int_reg_const-Selects InstOp.geq_op w lt nar h =
      not_less-Selects (sym nar)
        (ap (λ z. bool_word (not (slt64 (s.regs a) z))) nar ∙ some-injective _ v h)
  int_reg_const-Selects InstOp.gt_op w lt nar h =
      greater-Selects (ap (λ z. bool_word (slt64 z (s.regs a))) nar ∙ some-injective _ v h)
  int_reg_const-Selects InstOp.leq_op w lt nar h =
      not_greater-Selects
        (ap (λ z. bool_word (not (slt64 z (s.regs a)))) nar ∙ some-injective _ v h)
  int_reg_const-Selects InstOp.eq_op w lt nar h =
      compared (is_zero rd) (λ z. bool_word (z == 0)) (is_zero-Sets host call rd)
        (ap (λ z. bool_word (sub64 (s.regs a) z == 0)) nar ∙ some-injective _ v h)
  int_reg_const-Selects InstOp.neq_op w lt nar h =
      compared (is_nonzero rd) (λ z. bool_word (not (z == 0))) (is_nonzero-Sets host call rd)
        (ap (λ z. bool_word (not (sub64 (s.regs a) z == 0))) nar ∙ some-injective _ v h)
  int_reg_const-Selects InstOp.shl_op w lt nar h =
      immediate_op host call s rd a (inst_i (if w then OpI.slliw else OpI.slli) rd a (low_word imm))
        (λ x. if w then sext 32 (x * 2 ^ (low_word imm % 32)) else sll64 x (low_word imm % 64)) v
        (slli-Sets host call w rd a (low_word imm))
        (slli-sll w (s.regs a) imm ∙ some-injective _ v h)
  int_reg_const-Selects InstOp.shrl_op w lt nar h =
      immediate_op host call s rd a (inst_i (if w then OpI.srliw else OpI.srli) rd a (low_word imm))
        (λ x.
          if w then sext 32 (x % 2 ^ 32 / 2 ^ (low_word imm % 32)) else srl64 x (low_word imm % 64))
        v (srli-Sets host call w rd a (low_word imm))
        (srli-srl w (s.regs a) imm ∙ some-injective _ v h)
  int_reg_const-Selects InstOp.shra_op w lt nar h =
      immediate_op host call s rd a (inst_i (if w then OpI.sraiw else OpI.srai) rd a (low_word imm))
        (λ x.
          if w
          then sext 32 (sra64 (sext 32 x) (low_word imm % 32))
          else sra64 x (low_word imm % 64))
        v (srai-Sets host call w rd a (low_word imm))
        (srai-sra w (s.regs a) imm ∙ some-injective _ v h)
  int_reg_const-Selects InstOp.mul_op w lt nar h =
      scratch_op (if w then OpR.mulw else OpR.mul)
        (ap (alu_w OpR.mul OpR.mulw w (s.regs a)) nar ∙ some-injective _ v h)
  int_reg_const-Selects InstOp.div_op w lt nar h =
      scratch_op (if w then OpR.divw else OpR.div)
        (ap (alu_w OpR.div OpR.divw w (s.regs a)) nar ∙ some-injective _ v h)
  int_reg_const-Selects InstOp.mod_op w lt nar h =
      scratch_op (if w then OpR.remw else OpR.rem)
        (ap (alu_w OpR.rem OpR.remw w (s.regs a)) nar ∙ some-injective _ v h)
  int_reg_const-Selects InstOp.and_op w lt nar h =
      scratch_op OpR.and
        (and-word (s.regs a) c ∙ ap (bit_and (s.regs a)) nar ∙ some-injective _ v h)
  int_reg_const-Selects InstOp.or_op w lt nar h =
      scratch_op OpR.or (or-word (s.regs a) c ∙ ap (bit_or (s.regs a)) nar ∙ some-injective _ v h)
  int_reg_const-Selects op w lt nar h = absurd (cc)
