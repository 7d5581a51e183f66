-- ===== src/Rv64/Peephole/Branches.antt =====
-- `BranchCondSimplification` of src/backend/rv64/optim/peephole.hpp: each rule leaves the same branch
-- taken, with the same machine except for the register that held the condition.
use Prim.Native.Nat.{bit_xor}
use Prim.Native.String.{String}
use ucas_cplab.Common.{
  ℕ, Bool, true, false, not, some, List, [], ◌∷◌, ◌≡◌, refl, ap, sym, fun_ext, arith, inl, inr, ltb,
  ◌==◌, if◌then◌else◌, Option-cases,
}
use ucas_cplab.Rv64.Op.{OpR, OpI, OpB}
use ucas_cplab.Rv64.Inst.{Inst, inst_r, inst_i, inst_b, pseudo_r, pseudo_b, PseudoROp, PseudoBOp}
use ucas_cplab.Rv64.Words.{bool_word, slt64, sext}
use ucas_cplab.Rv64.Memory.{Result, ok, update, ◌>>=◌}
use ucas_cplab.Rv64.Vm.{Host, Machine, set_reg}
use ucas_cplab.Rv64.Vm.Exec.{exec, exec_r, exec_i, alu_r, exec_pseudo_r, branch_taken}
use ucas_cplab.Rv64.Peephole.{cmp_rd, opposite, rule1, rule2, rule3, branch_on, branch_zero}
use ucas_cplab.Rv64.Peephole.Run.{
  Outcome, fallthrough, jumped, jumped_register, returned, branch_taken_zero, exec_then, exec_block,
}

-- The outcome, with register `x` forgotten.
abbrev pub forget_reg : ℕ → Machine → Machine
forget_reg x s = set_reg s x 0

abbrev pub forget : ℕ → Outcome → Outcome
forget x (fallthrough s) = fallthrough (forget_reg x s)
forget x (jumped t s) = jumped t (forget_reg x s)
forget x (jumped_register s) = jumped_register (forget_reg x s)
forget x (returned s) = returned (forget_reg x s)

abbrev pub forget_result : ℕ → Result Outcome → Result Outcome
forget_result x r = r >>= λ o. ok (forget x o)

-- A conditional jump at the end of a window.
abbrev jump_or : Bool → String → Machine → Result Outcome
jump_or b t s = if b then ok (jumped t s) else ok (fallthrough s)

forget_reg-set_reg : (s : Machine) (x u : ℕ) → forget_reg x (set_reg s x u) ≡ forget_reg x s
forget_reg-set_reg s x u =
    ap (λ r. record s { regs = r })
      (fun_ext {f = update (update s.regs x u) x 0} (λ j. ground arith))

jump_or-forget :
    (b c : Bool) (t : String) (x : ℕ) (s s' : Machine)
    → b ≡ c
    → forget_reg x s ≡ forget_reg x s'
    → forget_result x (jump_or b t s) ≡ forget_result x (jump_or c t s')
jump_or-forget true true t x s s' e f = ap (λ m. ok (jumped t m)) f
jump_or-forget false false t x s s' e f = ap (λ m. ok (fallthrough m)) f
jump_or-forget true false t x s s' e f = absurd (cc)
jump_or-forget false true t x s s' e f = absurd (cc)

update_same : (f : ℕ → ℕ) (i v : ℕ) → update f i v i ≡ v
update_same f i v = ground arith

eq_self : (n : ℕ) → (n == n) ≡ true
eq_self n = ground arith

taken-flag : (b : Bool) → branch_taken_zero PseudoBOp.bnez (bool_word b) ≡ b
taken-flag true = refl
taken-flag false = refl

not_taken-flag :
    (op : PseudoBOp) (b : Bool)
    → branch_taken_zero (opposite op) (bool_word b) ≡ branch_taken_zero op (bool_word (not b))
not_taken-flag PseudoBOp.beqz true = refl
not_taken-flag PseudoBOp.beqz false = refl
not_taken-flag PseudoBOp.bnez true = refl
not_taken-flag PseudoBOp.bnez false = refl

beqz-flag : (b : Bool) → branch_taken_zero PseudoBOp.beqz (bool_word b) ≡ not b
beqz-flag true = refl
beqz-flag false = refl

-- The flag that `slt` or `sltu` writes and the branch that reads it, as one branch.
branch_on-taken :
    (op : OpR) (br : PseudoBOp) (bop : OpB) (a b : ℕ)
    → branch_on op br ≡ some bop
    → branch_taken_zero br (alu_r op a b) ≡ branch_taken bop a b
unfolding alu_r branch_taken
branch_on-taken OpR.slt PseudoBOp.bnez OpB.blt a b e = taken-flag (slt64 a b)
branch_on-taken OpR.slt PseudoBOp.beqz OpB.bge a b e = beqz-flag (slt64 a b)
branch_on-taken OpR.sltu PseudoBOp.bnez OpB.bltu a b e = taken-flag (ltb a b)
branch_on-taken OpR.sltu PseudoBOp.beqz OpB.bgeu a b e = beqz-flag (ltb a b)
branch_on-taken _ _ _ a b e = absurd (cc)

branch_on-cmp_rd :
    (op : OpR) (br : PseudoBOp) (bop : OpB) (rd a b : ℕ)
    → branch_on op br ≡ some bop
    → cmp_rd (inst_r op rd a b) ≡ some rd
branch_on-cmp_rd OpR.slt br bop rd a b e = refl
branch_on-cmp_rd OpR.sltu br bop rd a b e = refl
branch_on-cmp_rd _ br bop rd a b e = absurd (cc)

beqz-not : (b : Bool) → branch_taken_zero PseudoBOp.beqz (bool_word (not b)) ≡ b
beqz-not true = refl
beqz-not false = refl

-- What `seqz` and `snez` compute, and the branch that reads it, as one branch.
abbrev zero_flag : PseudoROp → ℕ → Bool
zero_flag PseudoROp.snez a = not (a == 0)
zero_flag op a = a == 0

branch_zero-taken :
    (op : PseudoROp) (br new_op : PseudoBOp) (a : ℕ)
    → branch_zero op br ≡ some new_op
    → branch_taken_zero br (bool_word (zero_flag op a)) ≡ branch_taken_zero new_op a
branch_zero-taken PseudoROp.seqz PseudoBOp.beqz PseudoBOp.bnez a e = beqz-flag (a == 0)
branch_zero-taken PseudoROp.seqz PseudoBOp.bnez PseudoBOp.beqz a e = taken-flag (a == 0)
branch_zero-taken PseudoROp.snez PseudoBOp.beqz PseudoBOp.beqz a e = beqz-not (a == 0)
branch_zero-taken PseudoROp.snez PseudoBOp.bnez PseudoBOp.bnez a e = taken-flag (not (a == 0))
branch_zero-taken _ _ _ a e = absurd (cc)

branch_zero-sets :
    (op : PseudoROp) (br new_op : PseudoBOp) (s : Machine) (rd rs : ℕ)
    → branch_zero op br ≡ some new_op
    → exec_pseudo_r s op rd rs ≡ set_reg s rd (bool_word (zero_flag op (s.regs rs)))
unfolding exec_pseudo_r
branch_zero-sets PseudoROp.seqz br new_op s rd rs e = refl
branch_zero-sets PseudoROp.snez br new_op s rd rs e = refl
branch_zero-sets _ br new_op s rd rs e = absurd (cc)

branch_zero-cmp_rd :
    (op : PseudoROp) (br new_op : PseudoBOp) (rd rs : ℕ)
    → branch_zero op br ≡ some new_op
    → cmp_rd (pseudo_r op rd rs) ≡ some rd
branch_zero-cmp_rd PseudoROp.seqz br new_op rd rs e = refl
branch_zero-cmp_rd PseudoROp.snez br new_op rd rs e = refl
branch_zero-cmp_rd _ br new_op rd rs e = absurd (cc)

module _ (h : Host) (call : String → Machine → Result Machine) where
  -- A comparison, whichever it is, writes a flag to the register that `cmp_rd` names.
  cmp_rd-sets :
      (cmp : Inst) (r : ℕ) (s : Machine)
      → cmp_rd cmp ≡ some r
      → (b : Bool) × ((k : Machine → Result Outcome)
          → exec_then h call cmp s k ≡ k (set_reg s r (bool_word b)))
  unfolding exec_then exec exec_r exec_i alu_r exec_pseudo_r
  cmp_rd-sets (inst_r OpR.slt rd a b) r s e = (slt64 (s.regs a) (s.regs b), λ k. cc)
  cmp_rd-sets (inst_r OpR.sltu rd a b) r s e = (ltb (s.regs a) (s.regs b), λ k. cc)
  cmp_rd-sets (inst_i OpI.slti rd a i) r s e = (slt64 (s.regs a) (sext 32 i), λ k. cc)
  cmp_rd-sets (inst_i OpI.sltiu rd a i) r s e = (ltb (s.regs a) (sext 32 i), λ k. cc)
  cmp_rd-sets (pseudo_r PseudoROp.seqz rd a) r s e = (s.regs a == 0, λ k. cc)
  cmp_rd-sets (pseudo_r PseudoROp.snez rd a) r s e = (not (s.regs a == 0), λ k. cc)
  cmp_rd-sets _ r s e = absurd (cc)

  abbrev pub SameExcept : ℕ → List Inst → List Inst → Type 0
  SameExcept x xs ys =
      (s : Machine)
      → forget_result x (exec_block h call xs s) ≡ forget_result x (exec_block h call ys s)

  rule2-cases :
      (op : OpR) (rd a b : ℕ) (br : PseudoBOp) (x : ℕ) (t : String) (repl : List Inst)
      → rule2 (inst_r op rd a b) (pseudo_b br x t) ≡ some repl
      → (bop : OpB) × (branch_on op br ≡ some bop) × (rd ≡ x) × (inst_b bop a b t ∷ [] ≡ repl)
  rule2-cases op rd a b br x t repl e = elim (Option-cases (branch_on op br)) [
    | inl p ↦ absurd (cc)
    | inr (bop, p) ↦ (bop, p, ground arith, ground arith)
  ]

  -- Where rule 2 replaces a pair, the register `x` is the one that the comparison sets, and the
  -- branch that it puts there goes the same way, with the same machine but for `x`.
  pub rule2-same :
      (i j : Inst) (repl : List Inst)
      → rule2 i j ≡ some repl
      → (x : ℕ) × (cmp_rd i ≡ some x) × SameExcept x repl (i ∷ j ∷ [])
  unfolding exec_block exec_then exec exec_r
  rule2-same (inst_r op rd a b) (pseudo_b br x t) repl e =
      let (bop, p, q, r) = rule2-cases op rd a b br x t repl e in
      (
        rd,
        branch_on-cmp_rd op br bop rd a b p,
        rw (sym r, sym q)
            (λ s.
              jump_or-forget _ _ t rd s (set_reg s rd (alu_r op (s.regs a) (s.regs b)))
                (rw (update_same s.regs rd (alu_r op (s.regs a) (s.regs b)))
                  (sym (branch_on-taken op br bop (s.regs a) (s.regs b) p)))
                (sym (forget_reg-set_reg s rd _))),
      )
  rule2-same _ _ repl e = absurd (cc)

  rule3-cases :
      (op : PseudoROp) (rd a : ℕ) (br : PseudoBOp) (x : ℕ) (t : String) (repl : List Inst)
      → rule3 (pseudo_r op rd a) (pseudo_b br x t) ≡ some repl
      → (new_op : PseudoBOp) × (branch_zero op br ≡ some new_op)
        × (rd ≡ x)
        × (pseudo_b new_op a t ∷ [] ≡ repl)
  rule3-cases op rd a br x t repl e = elim (Option-cases (branch_zero op br)) [
    | inl p ↦ absurd (cc)
    | inr (new_op, p) ↦ (new_op, p, ground arith, ground arith)
  ]

  -- Where rule 3 replaces a pair, the register `x` is the one that `seqz` or `snez` sets, and the
  -- branch that it puts there goes the same way, with the same machine but for `x`.
  pub rule3-same :
      (i j : Inst) (repl : List Inst)
      → rule3 i j ≡ some repl
      → (x : ℕ) × (cmp_rd i ≡ some x) × SameExcept x repl (i ∷ j ∷ [])
  unfolding exec_block exec_then exec
  rule3-same (pseudo_r op rd a) (pseudo_b br x t) repl e =
      let (new_op, p, q, r) = rule3-cases op rd a br x t repl e in
      (
        rd,
        branch_zero-cmp_rd op br new_op rd a p,
        rw (sym r, sym q)
            (λ s. rw (branch_zero-sets op br new_op s rd a p) (
              jump_or-forget _ _ t rd s (set_reg s rd (bool_word (zero_flag op (s.regs a))))
                (rw (update_same s.regs rd (bool_word (zero_flag op (s.regs a))))
                  (sym (branch_zero-taken op br new_op (s.regs a) p)))
                (sym (forget_reg-set_reg s rd _)))),
      )
  rule3-same _ _ repl e = absurd (cc)

  rule1-cases :
      (cmp : Inst) (rd rs1 imm : ℕ) (br : PseudoBOp) (x : ℕ) (t : String) (repl : List Inst)
      → rule1 cmp (inst_i OpI.xori rd rs1 imm) (pseudo_b br x t) ≡ some repl
      → (cmp_rd cmp ≡ some rd)
        × (rd ≡ rs1)
        × (imm ≡ 1)
        × (rd ≡ x)
        × (cmp ∷ pseudo_b (opposite br) x t ∷ [] ≡ repl)
  rule1-cases cmp rd rs1 imm br x t repl e = elim (Option-cases (cmp_rd cmp)) [
    | inl p ↦ absurd (ground arith)
    | inr (r, p) ↦ (ground arith, ground arith, ground arith, ground arith, ground arith)
  ]

  xor_flag : (b : Bool) → bit_xor (bool_word b) (sext 32 1) ≡ bool_word (not b)
  xor_flag true = refl
  xor_flag false = refl

  flip-same :
      (br : PseudoBOp) (b : Bool) (t : String) (rd : ℕ) (s : Machine)
      → forget_result rd
          (jump_or (branch_taken_zero (opposite br) (bool_word b)) t (set_reg s rd (bool_word b)))
        ≡ forget_result rd (
            jump_or
              (branch_taken_zero br (bool_word (not b)))
              t
              (set_reg (set_reg s rd (bool_word b)) rd (bool_word (not b))))
  flip-same br b t rd s =
      jump_or-forget _ _ t rd _ _ (not_taken-flag br b)
        (sym (forget_reg-set_reg (set_reg s rd (bool_word b)) rd _))

  -- Where rule 1 replaces a triple, the register `x` is the one that the comparison sets, and what
  -- it puts there, without the negation, goes the same way, with the same machine but for `x`.
  pub rule1-same :
      (i j k : Inst) (repl : List Inst)
      → rule1 i j k ≡ some repl
      → (x : ℕ) × (cmp_rd i ≡ some x) × SameExcept x repl (i ∷ j ∷ k ∷ [])
  unfolding exec_block exec_then exec exec_i
  rule1-same cmp (inst_i OpI.xori rd rs1 imm) (pseudo_b br x t) repl e =
      let (p, q, r, u, v) = rule1-cases cmp rd rs1 imm br x t repl e in
      (
        rd,
        p,
        rw (sym v, sym q, sym u, r)
            (λ s.
              let (b, w) = cmp_rd-sets cmp rd s p in
              rw
                (
                  w (exec_block h call (pseudo_b (opposite br) rd t ∷ [])),
                  w (exec_block h call (inst_i OpI.xori rd rd 1 ∷ pseudo_b br rd t ∷ [])),
                )
                (rw (eq_self rd) (rw (xor_flag b) (flip-same br b t rd s)))),
      )
  rule1-same _ _ _ repl e = absurd (cc)
