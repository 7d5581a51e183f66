-- ===== src/Rv64/Isel/ConstReg.antt =====
-- The code of src/backend/rv64/isel.hpp for an integer operator on a constant and a register leaves the word of the operator,
-- but for two forms that compare the wrong way round.
use Prim.Native.Nat.{bit_and, bit_or, bit_xor}
use Prim.Native.String.{String}
use ucas_cplab.Common.{
  ℕ, ◌%◌, ◌^◌, ◌<◌, ◌≡◌, ◌≢◌, inr, refl, sym, ap, ◌∙◌, Bool, true, false, not, some, [], ◌∷◌, ◌==◌,
  arith, if◌then◌else◌,
}
use ucas_cplab.Ir.Inst.{InstOp}
use ucas_cplab.Rv64.Op.{OpR, OpI}
use ucas_cplab.Rv64.Inst.{Inst, inst_r, inst_i, pseudo_li}
use ucas_cplab.Rv64.Words.{bool_word, sext, sub64, slt64}
use ucas_cplab.Rv64.Memory.{Result}
use ucas_cplab.Rv64.Vm.{Host, Machine}
use ucas_cplab.Rv64.Vm.Exec.{alu_r}
use ucas_cplab.Rv64.Isel.{reg_t0, fits_i12, low_word}
use ucas_cplab.Rv64.Isel.Binary.{flip, is_zero, is_nonzero, int_const_reg, scratch}
use ucas_cplab.Rv64.Isel.OpWord.{op_word, alu_w}
use ucas_cplab.Rv64.Isel.Runs.{
  Sets, inst_r-Sets, flip-Sets, is_zero-Sets, is_nonzero-Sets, slti-Sets,
}
use native.Mathlib.Nat.{add_comm, mul_comm}
use ucas_cplab.Rv64.Isel.RegReg.{Selects, some-injective, flip_word}
use ucas_cplab.Rv64.Isel.Loaded.{scratch_choice, scratch_other, loaded_op, loaded_then}
use ucas_cplab.Rv64.Isel.Immediate.{low-sext, immediate_op, immediate_then, add_reg_imm-Selects}
use ucas_cplab.Rv64.Isel.RegConst.{slt-word, and-word, or-word}

-- Where the code is right: the two wrong forms load the constant, and a shift of a constant has no code.
abbrev pub Supported : InstOp → ℕ → Type 0
Supported InstOp.gt_op cv = fits_i12 cv ≡ true
Supported InstOp.leq_op cv = fits_i12 cv ≡ true
Supported InstOp.shl_op cv = ⊥
Supported InstOp.shrl_op cv = ⊥
Supported InstOp.shra_op cv = ⊥
Supported op cv = Unit {0}

add-swap : (w : Bool) (a b : ℕ) → alu_w OpR.add OpR.addw w a b ≡ alu_w OpR.add OpR.addw w b a
unfolding alu_r
add-swap true a b = ap (sext 32) (add_comm a b)
add-swap false a b = ap (λ z. z % 2 ^ 64) (add_comm a b)

mul-swap : (w : Bool) (a b : ℕ) → alu_w OpR.mul OpR.mulw w a b ≡ alu_w OpR.mul OpR.mulw w b a
unfolding alu_r
mul-swap true a b = ap (sext 32) (mul_comm a b)
mul-swap false a b = ap (λ z. z % 2 ^ 64) (mul_comm a b)

sub64-swap : (a b : ℕ) → a < 2 ^ 64 → b < 2 ^ 64 → (sub64 a b == 0) ≡ (sub64 b a == 0)
sub64-swap a b ha hb = ground arith

-- The bitwise operators stand for those on `bool`.
abbrev pub BitsSwap : InstOp → ℕ → ℕ → Type 0
BitsSwap InstOp.and_op a b = bit_and b a ≡ bit_and a b
BitsSwap InstOp.or_op a b = bit_or b a ≡ bit_or a b
BitsSwap op a b = Unit {0}

module _ (host : Host) (call : String → Machine → Result Machine) (s : Machine) (rd a cv v : ℕ)
    (other : (a == reg_t0) ≡ false) (word : s.regs a < 2 ^ 64) (lt : cv < 2 ^ 64) where
  swapped :
      (op : OpR)
      → alu_r op (s.regs a) cv ≡ v
      → Selects host call
          (some (pseudo_li (scratch rd a) cv ∷ inst_r op rd a (scratch rd a) ∷ []))
          s
          rd
          v
  swapped op e =
      loaded_op host call s a (scratch rd a) rd cv v (scratch_choice rd a)
        (scratch_other rd a other) (inst_r op rd a (scratch rd a)) (alu_r op)
        (inst_r-Sets host call op rd a (scratch rd a)) e

  in_order :
      (op : OpR)
      → alu_r op cv (s.regs a) ≡ v
      → Selects host call
          (some (pseudo_li (scratch rd a) cv ∷ inst_r op rd (scratch rd a) a ∷ []))
          s
          rd
          v
  in_order op e =
      loaded_op host call s a (scratch rd a) rd cv v (scratch_choice rd a)
        (scratch_other rd a other) (inst_r op rd (scratch rd a) a) (λ x y. alu_r op y x)
        (inst_r-Sets host call op rd (scratch rd a) a) e

  compared :
      (i : Inst) (k : ℕ → ℕ)
      → Sets host call i rd (λ g. k (g rd))
      → k (sub64 (s.regs a) cv) ≡ v
      → Selects host call
          (some (pseudo_li (scratch rd a) cv ∷ inst_r OpR.sub rd a (scratch rd a) ∷ i ∷ []))
          s
          rd
          v
  unfolding alu_r
  compared i k p e =
      loaded_then host call s a (scratch rd a) rd cv v (scratch_choice rd a)
        (scratch_other rd a other) (inst_r OpR.sub rd a (scratch rd a)) i (alu_r OpR.sub) k
        (inst_r-Sets host call OpR.sub rd a (scratch rd a)) p e

  -- `cv < x` and its negation.
  constant_less :
      bool_word (slt64 cv (s.regs a)) ≡ v
      → Selects host call (some (pseudo_li reg_t0 cv ∷ inst_r OpR.slt rd reg_t0 a ∷ [])) s rd v
  constant_less e =
      loaded_op host call s a reg_t0 rd cv v (inr refl) other (inst_r OpR.slt rd reg_t0 a)
        (λ x y. alu_r OpR.slt y x) (inst_r-Sets host call OpR.slt rd reg_t0 a)
        (slt-word cv (s.regs a) ∙ e)

  constant_not_less :
      bool_word (not (slt64 cv (s.regs a))) ≡ v
      → Selects host call
          (some (pseudo_li reg_t0 cv ∷ inst_r OpR.slt rd reg_t0 a ∷ flip rd ∷ []))
          s
          rd
          v
  constant_not_less e =
      loaded_then host call s a reg_t0 rd cv v (inr refl) other (inst_r OpR.slt rd reg_t0 a)
        (flip rd) (λ x y. alu_r OpR.slt y x) (λ z. bit_xor z 1)
        (inst_r-Sets host call OpR.slt rd reg_t0 a) (flip-Sets host call rd)
        (ap (λ z. bit_xor z 1) (slt-word cv (s.regs a)) ∙ flip_word (slt64 cv (s.regs a)) ∙ e)

  -- Every integer operator but the shifts has code; for `>` and `<=` with a constant that fits 12 bits, and for
  -- the others with every constant, it leaves the word of the operator in `rd`.
  pub int_const_reg-Selects :
      (op : InstOp) (w : Bool)
      → Supported op cv
      → BitsSwap op cv (s.regs a)
      → op_word op w cv (s.regs a) ≡ some v
      → Selects host call (int_const_reg op w rd a cv) s rd v
  unfolding op_word int_const_reg
  int_const_reg-Selects InstOp.add_op w k bits h =
      add_reg_imm-Selects host call s rd a w cv v lt other
        (add-swap w (s.regs a) cv ∙ some-injective _ v h)
  int_const_reg-Selects InstOp.mul_op w k bits h =
      swapped (if w then OpR.mulw else OpR.mul) (mul-swap w (s.regs a) cv ∙ some-injective _ v h)
  int_const_reg-Selects InstOp.and_op w k bits h =
      swapped OpR.and (and-word (s.regs a) cv ∙ bits ∙ some-injective _ v h)
  int_const_reg-Selects InstOp.or_op w k bits h =
      swapped OpR.or (or-word (s.regs a) cv ∙ bits ∙ some-injective _ v h)
  int_const_reg-Selects InstOp.eq_op w k bits h =
      compared (is_zero rd) (λ z. bool_word (z == 0)) (is_zero-Sets host call rd)
        (ap bool_word (sub64-swap (s.regs a) cv word lt) ∙ some-injective _ v h)
  int_const_reg-Selects InstOp.neq_op w k bits h =
      compared (is_nonzero rd) (λ z. bool_word (not (z == 0))) (is_nonzero-Sets host call rd)
        (ap (λ b. bool_word (not b)) (sub64-swap (s.regs a) cv word lt) ∙ some-injective _ v h)
  int_const_reg-Selects InstOp.sub_op w k bits h =
      in_order (if w then OpR.subw else OpR.sub) (some-injective _ v h)
  int_const_reg-Selects InstOp.div_op w k bits h =
      in_order (if w then OpR.divw else OpR.div) (some-injective _ v h)
  int_const_reg-Selects InstOp.mod_op w k bits h =
      in_order (if w then OpR.remw else OpR.rem) (some-injective _ v h)
  int_const_reg-Selects InstOp.gt_op w k bits h = rw k (
      immediate_op host call s rd a (inst_i OpI.slti rd a (low_word cv))
        (λ x. bool_word (slt64 x (sext 32 (low_word cv)))) v
        (slti-Sets host call rd a (low_word cv))
        (ap (λ z. bool_word (slt64 (s.regs a) z)) (low-sext cv lt k) ∙ some-injective _ v h))
  int_const_reg-Selects InstOp.leq_op w k bits h = rw k (
      immediate_then host call s rd a (inst_i OpI.slti rd a (low_word cv)) (flip rd)
        (λ x. bool_word (slt64 x (sext 32 (low_word cv)))) (λ z. bit_xor z 1) v
        (slti-Sets host call rd a (low_word cv)) (flip-Sets host call rd)
        (flip_word (slt64 (s.regs a) (sext 32 (low_word cv)))
          ∙ ap (λ z. bool_word (not (slt64 (s.regs a) z))) (low-sext cv lt k)
          ∙ some-injective _ v h))
  int_const_reg-Selects InstOp.lt_op w k bits h = constant_less (some-injective _ v h)
  int_const_reg-Selects InstOp.geq_op w k bits h = constant_not_less (some-injective _ v h)
  int_const_reg-Selects InstOp.shl_op w k bits h = absurd k
  int_const_reg-Selects InstOp.shrl_op w k bits h = absurd k
  int_const_reg-Selects InstOp.shra_op w k bits h = absurd k
  int_const_reg-Selects op w k bits h = absurd (cc)

  -- With a constant `c` that does not fit 12 bits, the code for `c > x` leaves the word of `c < x`.
  pub int_const_reg-gt :
      (w : Bool)
      → fits_i12 cv ≡ false
      → bool_word (slt64 cv (s.regs a)) ≡ v
      → Selects host call (int_const_reg InstOp.gt_op w rd a cv) s rd v
  unfolding int_const_reg
  int_const_reg-gt w f e = rw f (constant_less e)

slt64-swap :
    (a b : ℕ) → a < 2 ^ 64 → b < 2 ^ 64 → a ≢ b → bool_word (slt64 a b) ≢ bool_word (slt64 b a)
slt64-swap a b ha hb n = ground arith

-- With a constant that does not fit 12 bits on the left of `>`, and on the right a register other than
-- `t0` with another word, there is code, and what it leaves in `rd` is not the word of the operator.
pub int_const_reg-gt_wrong :
    (host : Host) (call : String → Machine → Result Machine) (s : Machine) (w : Bool)
    (rd a cv v : ℕ)
    → (a == reg_t0) ≡ false
    → s.regs a < 2 ^ 64
    → cv < 2 ^ 64
    → fits_i12 cv ≡ false
    → cv ≢ s.regs a
    → op_word InstOp.gt_op w cv (s.regs a) ≡ some v
    → (u : ℕ) × Selects host call (int_const_reg InstOp.gt_op w rd a cv) s rd u × (u ≢ v)
unfolding op_word
int_const_reg-gt_wrong host call s w rd a cv v other word lt f n h =
    let u = bool_word (slt64 cv (s.regs a)) in
    (
      u,
      int_const_reg-gt host call s rd a cv u other word lt w f refl,
      λ e. slt64-swap cv (s.regs a) lt word n (e ∙ sym (some-injective _ v h)),
    )
