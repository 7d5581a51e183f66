-- ===== src/Rv64/Isel/RegReg.antt =====
-- The code of src/backend/rv64/isel.hpp for an integer operator on two registers leaves the word of the operator.
use Prim.Native.Nat.{bit_xor}
use Prim.Native.String.{String}
use ucas_cplab.Common.{
  ℕ, ◌≡◌, inl, refl, ap, ◌∙◌, Bool, true, false, not, Option, some, List, [], ◌∷◌, ◌==◌, update,
  update_same, if◌then◌else◌,
}
use ucas_cplab.Ir.Inst.{InstOp}
use ucas_cplab.Rv64.Op.{OpR}
use ucas_cplab.Rv64.Inst.{Inst, inst_r}
use ucas_cplab.Rv64.Words.{bool_word, slt64}
use ucas_cplab.Rv64.Memory.{Result}
use ucas_cplab.Rv64.Vm.{Host, Machine}
use ucas_cplab.Rv64.Vm.Exec.{alu_r}
use ucas_cplab.Rv64.Isel.Binary.{flip, is_zero, is_nonzero, int_reg_reg}
use ucas_cplab.Rv64.Isel.OpWord.{op_word}
use ucas_cplab.Rv64.Isel.Runs.{
  Regs, Computes, Sets, inst_r-Sets, flip-Sets, is_zero-Sets, is_nonzero-Sets, Computes-one,
  Computes-two,
}

pub flip_word : (b : Bool) → bit_xor (bool_word b) 1 ≡ bool_word (not b)
flip_word true = refl
flip_word false = refl

pub some-injective : (a b : ℕ) → some a ≡ some b → a ≡ b
some-injective a b h = cc

module _ (host : Host) (call : String → Machine → Result Machine) where
  -- The code, and what it leaves in `rd`.
  abbrev pub Selects : Option (List Inst) → Machine → ℕ → ℕ → Type 0
  Selects code s rd v = (is : List Inst) × (code ≡ some is) × Computes host call is s rd v

  register_op :
      (op : OpR) (rd a b v : ℕ) (s : Machine)
      → alu_r op (s.regs a) (s.regs b) ≡ v
      → Selects (some (inst_r op rd a b ∷ [])) s rd v
  register_op op rd a b v s e = (
    inst_r op rd a b ∷ [],
    refl,
    Computes-one host call (inst_r op rd a b) s rd v (λ g. alu_r op (g a) (g b))
        (inst_r-Sets host call op rd a b) e,
  )

  -- An operator, and an instruction that reads and sets `rd`.
  register_then :
      (op : OpR) (rd a b v : ℕ) (i : Inst) (k : ℕ → ℕ) (s : Machine)
      → Sets host call i rd (λ g. k (g rd))
      → k (alu_r op (s.regs a) (s.regs b)) ≡ v
      → Selects (some (inst_r op rd a b ∷ i ∷ [])) s rd v
  register_then op rd a b v i k s p e =
      let set : Regs = update s.regs rd (alu_r op (s.regs a) (s.regs b)) in
      (
        inst_r op rd a b ∷ i ∷ [],
        refl,
        Computes-two host call (inst_r op rd a b) i s rd rd v (λ g. alu_r op (g a) (g b))
            (λ g. k (g rd)) (inst_r-Sets host call op rd a b) p (inl refl)
            (ap k (update_same s.regs rd (alu_r op (s.regs a) (s.regs b))) ∙ e),
      )

  -- Every integer operator has code, which leaves the word of the operator in `rd`.
  pub int_reg_reg-Selects :
      (op : InstOp) (w : Bool) (rd a b v : ℕ) (s : Machine)
      → op_word op w (s.regs a) (s.regs b) ≡ some v
      → Selects (int_reg_reg op w rd a b) s rd v
  unfolding op_word int_reg_reg alu_r
  int_reg_reg-Selects InstOp.add_op w rd a b v s h =
      register_op (if w then OpR.addw else OpR.add) rd a b v s (some-injective _ v h)
  int_reg_reg-Selects InstOp.sub_op w rd a b v s h =
      register_op (if w then OpR.subw else OpR.sub) rd a b v s (some-injective _ v h)
  int_reg_reg-Selects InstOp.mul_op w rd a b v s h =
      register_op (if w then OpR.mulw else OpR.mul) rd a b v s (some-injective _ v h)
  int_reg_reg-Selects InstOp.div_op w rd a b v s h =
      register_op (if w then OpR.divw else OpR.div) rd a b v s (some-injective _ v h)
  int_reg_reg-Selects InstOp.mod_op w rd a b v s h =
      register_op (if w then OpR.remw else OpR.rem) rd a b v s (some-injective _ v h)
  int_reg_reg-Selects InstOp.shl_op w rd a b v s h =
      register_op (if w then OpR.sllw else OpR.sll) rd a b v s (some-injective _ v h)
  int_reg_reg-Selects InstOp.shrl_op w rd a b v s h =
      register_op (if w then OpR.srlw else OpR.srl) rd a b v s (some-injective _ v h)
  int_reg_reg-Selects InstOp.shra_op w rd a b v s h =
      register_op (if w then OpR.sraw else OpR.sra) rd a b v s (some-injective _ v h)
  int_reg_reg-Selects InstOp.and_op w rd a b v s h =
      register_op OpR.and rd a b v s (some-injective _ v h)
  int_reg_reg-Selects InstOp.or_op w rd a b v s h =
      register_op OpR.or rd a b v s (some-injective _ v h)
  int_reg_reg-Selects InstOp.lt_op w rd a b v s h =
      register_op OpR.slt rd a b v s (some-injective _ v h)
  int_reg_reg-Selects InstOp.gt_op w rd a b v s h =
      register_op OpR.slt rd b a v s (some-injective _ v h)
  int_reg_reg-Selects InstOp.leq_op w rd a b v s h =
      register_then OpR.slt rd b a v (flip rd) (λ z. bit_xor z 1) s (flip-Sets host call rd)
        (flip_word (slt64 (s.regs b) (s.regs a)) ∙ some-injective _ v h)
  int_reg_reg-Selects InstOp.geq_op w rd a b v s h =
      register_then OpR.slt rd a b v (flip rd) (λ z. bit_xor z 1) s (flip-Sets host call rd)
        (flip_word (slt64 (s.regs a) (s.regs b)) ∙ some-injective _ v h)
  int_reg_reg-Selects InstOp.eq_op w rd a b v s h =
      register_then OpR.sub rd a b v (is_zero rd) (λ z. bool_word (z == 0)) s
        (is_zero-Sets host call rd) (some-injective _ v h)
  int_reg_reg-Selects InstOp.neq_op w rd a b v s h =
      register_then OpR.sub rd a b v (is_nonzero rd) (λ z. bool_word (not (z == 0))) s
        (is_nonzero-Sets host call rd) (some-injective _ v h)
  int_reg_reg-Selects op w rd a b v s h = absurd (cc)
