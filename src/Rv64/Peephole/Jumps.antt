-- ===== src/Rv64/Peephole/Jumps.antt =====
-- `RedundantJumpElimination` of src/backend/rv64/optim/peephole.hpp: a jump to the next block, at the
-- end of a block, is left out.
use Prim.Native.String.{String}
use text.Mathlib.TextEquality.{eq_iff}
use ucas_cplab.Common.{
  Bool, true, false, List, [], ◌∷◌, ◌≡◌, refl, ap, inl, inr, if◌then◌else◌, Bool-cases,
}
use ucas_cplab.Rv64.Inst.{Inst, inst_i, inst_b, inst_j, pseudo_b, pseudo_j, pseudo_ret, PseudoJOp}
use ucas_cplab.Rv64.Op.{OpI}
use ucas_cplab.Rv64.Memory.{Result, ok, err, ◌>>=◌}
use ucas_cplab.Rv64.Vm.{Host, Machine}
use ucas_cplab.Rv64.Vm.Exec.{branch_taken}
use ucas_cplab.Rv64.Peephole.{is_jump_to, drop_last_jump}
use ucas_cplab.Rv64.Peephole.Run.{
  Outcome, fallthrough, jumped, branch_taken_zero, exec_then, exec_block,
}

-- Where control goes on, for a block that the block `label` follows.
abbrev pub go_on : String → Outcome → Outcome
go_on label (fallthrough s) = jumped label s
go_on label o = o

abbrev pub go_on_result : String → Result Outcome → Result Outcome
go_on_result label r = r >>= λ o. ok (go_on label o)

module _ (h : Host) (call : String → Machine → Result Machine) (label : String) where
  bind-go_on :
      (r : Result Machine) (k k' : Machine → Result Outcome)
      → ((s : Machine) → go_on_result label (k s) ≡ go_on_result label (k' s))
      → go_on_result label (r >>= k) ≡ go_on_result label (r >>= k')
  bind-go_on (ok s) k k' f = f s
  bind-go_on (err e) k k' f = refl

  if-go_on :
      (b : Bool) (o : Result Outcome) (k k' : Machine → Result Outcome) (s : Machine)
      → go_on_result label (k s) ≡ go_on_result label (k' s)
      → go_on_result label (if b then o else k s) ≡ go_on_result label (if b then o else k' s)
  if-go_on true o k k' s f = refl
  if-go_on false o k k' s f = f

  exec_then-go_on :
      (i : Inst) (s : Machine) (k k' : Machine → Result Outcome)
      → ((s' : Machine) → go_on_result label (k s') ≡ go_on_result label (k' s'))
      → go_on_result label (exec_then h call i s k) ≡ go_on_result label (exec_then h call i s k')
  unfolding exec_then
  exec_then-go_on (inst_b op a b t) s k k' f =
      if-go_on (branch_taken op (s.regs a) (s.regs b)) (ok (jumped t s)) k k' s (f s)
  exec_then-go_on (pseudo_b op a t) s k k' f =
      if-go_on (branch_taken_zero op (s.regs a)) (ok (jumped t s)) k k' s (f s)
  exec_then-go_on (pseudo_j PseudoJOp.j t) s k k' f = refl
  exec_then-go_on (pseudo_j PseudoJOp.call t) s k k' f = bind-go_on (call t s) k k' f
  exec_then-go_on (inst_j op rd t) s k k' f = refl
  exec_then-go_on (inst_i OpI.jalr rd a i) s k k' f = refl
  exec_then-go_on pseudo_ret s k k' f = refl
  exec_then-go_on _ s k k' f = bind-go_on _ k k' f

  exec_then-jump :
      (i : Inst) (s : Machine) (k : Machine → Result Outcome)
      → is_jump_to label i ≡ true
      → exec_then h call i s k ≡ ok (jumped label s)
  unfolding exec_then
  exec_then-jump (pseudo_j PseudoJOp.j t) s k e = ap (λ t. ok (jumped t s)) ((eq_iff t label).0 e)
  exec_then-jump _ s k e = absurd (cc)

  -- A block without its last jump to the block that follows goes on where it went before, with the
  -- same machine.
  pub drop_last_jump-same :
      (insts : List Inst) (s : Machine)
      → go_on_result label (exec_block h call (drop_last_jump label insts).0 s)
        ≡ go_on_result label (exec_block h call insts s)
  unfolding drop_last_jump exec_block
  drop_last_jump-same [] s = refl
  drop_last_jump-same (i ∷ []) s = elim (Bool-cases (is_jump_to label i)) [
    | inl e ↦ rw (e, exec_then-jump i s (exec_block h call []) e) refl
    | inr e ↦ rw e refl
  ]
  drop_last_jump-same (i ∷ j ∷ is) s = exec_then-go_on i s _ _ (drop_last_jump-same (j ∷ is))
