-- ===== src/Rv64/Peephole/Run.antt =====
-- What a block does, as the cases of `exec` in src/backend/rv64/vm/exec.cpp do it one after another:
-- the machine is followed to the first jump that is taken. Labels are not resolved, the program
-- counter stays, and a call is what the callee does before it returns.
use Prim.Native.String.{String}
use ucas_cplab.Common.{ℕ, Bool, not, List, [], ◌∷◌, ◌++◌, ◌≡◌, ap, fun_ext, if◌then◌else◌, ◌==◌}
use ucas_cplab.Rv64.Op.{OpI}
use ucas_cplab.Rv64.Inst.{
  Inst, inst_i, inst_b, inst_j, pseudo_b, pseudo_j, pseudo_ret, PseudoBOp, PseudoJOp,
}
use ucas_cplab.Rv64.Memory.{Result, ok, ◌>>=◌}
use ucas_cplab.Rv64.Vm.{Host, Machine, set_reg}
use ucas_cplab.Rv64.Vm.Exec.{exec, exec_i, branch_taken}
use ucas_cplab.Rv64.Vm.Program.{unresolved}

-- How control leaves a block.
pub data Outcome : Type 0 where
  fallthrough : Machine → Outcome
  jumped : String → Machine → Outcome
  jumped_register : Machine → Outcome
  returned : Machine → Outcome

abbrev pub branch_taken_zero : PseudoBOp → ℕ → Bool
branch_taken_zero PseudoBOp.beqz a = a == 0
branch_taken_zero PseudoBOp.bnez a = not (a == 0)

module _ (h : Host) (call : String → Machine → Result Machine) where
  unfoldable pub exec_then : Inst → Machine → (Machine → Result Outcome) → Result Outcome
  exec_then (inst_b op rs1 rs2 target) s k =
      if branch_taken op (s.regs rs1) (s.regs rs2) then ok (jumped target s) else k s
  exec_then (pseudo_b op rs1 target) s k =
      if branch_taken_zero op (s.regs rs1) then ok (jumped target s) else k s
  exec_then (pseudo_j PseudoJOp.j target) s k = ok (jumped target s)
  exec_then (pseudo_j PseudoJOp.call target) s k = call target s >>= k
  exec_then (inst_j op rd target) s k = ok (jumped target (set_reg s rd s.pc))
  exec_then (inst_i OpI.jalr rd rs1 imm) s k =
      exec_i s OpI.jalr rd rs1 imm >>= λ s'. ok (jumped_register s')
  exec_then pseudo_ret s k = ok (returned s)
  exec_then i s k = exec h s (unresolved i) i >>= k

  unfoldable pub exec_block : List Inst → Machine → Result Outcome
  unfolding exec_then
  exec_block [] s = ok (fallthrough s)
  exec_block (i ∷ is) s = exec_then i s (exec_block is)

  -- Blocks that end alike do alike.
  pub exec_block-append :
      (pre xs ys : List Inst)
      → ((s : Machine) → exec_block xs s ≡ exec_block ys s)
      → (s : Machine) → exec_block (pre ++ xs) s ≡ exec_block (pre ++ ys) s
  unfolding exec_block
  exec_block-append [] xs ys h s = h s
  exec_block-append (i ∷ pre) xs ys h s =
      ap (exec_then i s) (fun_ext (λ s'. exec_block-append pre xs ys h s'))
