-- ===== src/Ir/DeadBlock.antt =====
-- `DeadBlockElimination` (src/backend/ir/transform/optim/dead_block.hpp). The worklist's back is the head of a list;
-- the loop is on fuel, and a block that the function does not have is `none`.
use ucas_cplab.Common.{
  ℕ, zero, suc, Bool, true, false, not, ◌&&◌, ◌||◌, Option, none, some, List, [], ◌∷◌, map, length,
  if◌then◌else◌, ◌==◌, ◌>>=◌, nat_eq,
}
use ucas_cplab.Ir.Inst.{
  LeftValue, Value, Inst, phi_inst, unary_inst, binary_inst, call_inst, Block, Func,
}
use ucas_cplab.Ir.Vars.{targets}
use ucas_cplab.Ir.Flow.Set.{count}
use ucas_cplab.Ir.Liveness.{block_at}
pub mod Reach
pub mod Kept

-- The targets that were not yet in `reachable` go to both.
abbrev pub push_targets : List ℕ → List ℕ → List ℕ → List ℕ × List ℕ
push_targets [] worklist reachable = (worklist, reachable)
push_targets (t ∷ ts) worklist reachable =
    if count reachable t
    then push_targets ts worklist reachable
    else push_targets ts (t ∷ worklist) (t ∷ reachable)

-- `while (!worklist.empty())`
unfoldable pub reach_loop : ℕ → List (ℕ × Block) → List ℕ → List ℕ → Option (List ℕ)
unfolding block_at targets
reach_loop zero blocks worklist reachable = none
reach_loop (suc n) blocks [] reachable = some reachable
reach_loop (suc n) blocks (curr ∷ worklist) reachable = do
  blk ← block_at blocks curr
  let (w, r) = push_targets (targets blk.exit) worklist reachable in reach_loop n blocks w r

-- `Func::entrance`: the first block; without blocks there is none.
unfoldable pub entrance : Func → Option ℕ
entrance f = elim f.blocks [ [] ↦ none | b ∷ bs ↦ some b.0 ]

-- One more iteration than there are blocks is enough.
unfoldable pub reachable_blocks : Func → Option (List ℕ)
unfolding reach_loop entrance
reachable_blocks f = do
  entry ← entrance f
  reach_loop (suc (length f.blocks)) f.blocks (entry ∷ []) (entry ∷ [])

-- `refine_phi`
unfoldable pub refine_phi : List ℕ → List (ℕ × Value) → List (ℕ × Value)
refine_phi reachable [] = []
refine_phi reachable (a ∷ args) =
    if count reachable a.0 then a ∷ refine_phi reachable args else refine_phi reachable args

-- The phis at the front of a block.
unfoldable pub refine_phis : List ℕ → List Inst → List Inst
unfolding refine_phi
refine_phis reachable [] = []
refine_phis reachable (phi_inst result args ∷ is) =
    phi_inst result (refine_phi reachable args) ∷ refine_phis reachable is
refine_phis reachable (unary_inst op result operand ∷ is) = unary_inst op result operand ∷ is
refine_phis reachable (binary_inst op result lhs rhs ∷ is) = binary_inst op result lhs rhs ∷ is
refine_phis reachable (call_inst result func args ∷ is) = call_inst result func args ∷ is

unfoldable pub keep_blocks : List ℕ → List (ℕ × Block) → List (ℕ × Block)
unfolding refine_phis
keep_blocks reachable [] = []
keep_blocks reachable (b ∷ bs) =
    if count reachable b.0
    then (b.0, record b.1 { insts = refine_phis reachable b.1.insts }) ∷ keep_blocks reachable bs
    else keep_blocks reachable bs

-- `eliminate`, for one function: whether a block was dead, and the function that is left.
unfoldable pub eliminate : Func → Option (Bool × Func)
unfolding reachable_blocks keep_blocks
eliminate f = do
  reachable ← reachable_blocks f
  some (
    not (length reachable == length f.blocks),
    record { blocks = keep_blocks reachable f.blocks },
  )
