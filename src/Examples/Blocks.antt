-- ===== src/Examples/Blocks.antt =====
-- The passes on blocks (src/backend/ir/transform/optim) on a function with a dead block.
use ucas_cplab.Common.{
  ℕ, ◌≡◌, ◌↔◌, refl, subst, sym, ◌∙◌, all, ==_iff, Bool, true, some, List, [], ◌∷◌, nat_eq, arith,
  ◌==◌, Bool-cases, inl, inr,
}
use ucas_cplab.Ir.Inst.{
  temp_value, const_value, left_value, int_const, phi_inst, return_exit, jump_exit, Block, Func,
  block_ids,
}
use ucas_cplab.Ir.Vars.{targets}
use ucas_cplab.Ir.Flow.Rules.{among, some-injective}
use ucas_cplab.Ir.Flow.Set.{count}
use ucas_cplab.Ir.Liveness.{block_at}
use ucas_cplab.Ir.Liveness.Edge.{block_at_here, block_at_there}
use ucas_cplab.Ir.DeadBlock.{
  entrance, reach_loop, reachable_blocks, refine_phi, refine_phis, keep_blocks, eliminate,
}
use ucas_cplab.Ir.DeadBlock.Reach.{Reachable, Targeted}
use ucas_cplab.Ir.DeadBlock.Kept.{front_sources, eliminate-Reachable}

abbrev pub entry_block : Block
entry_block = record { insts = []; exit = jump_exit 2 }

abbrev pub dead_block : Block
dead_block = record { insts = []; exit = jump_exit 2 }

abbrev pub last_block : Block
last_block = record {
  insts =
      phi_inst (some (temp_value 0 1))
        ((0, const_value (int_const 3)) ∷ (1, const_value (int_const 4)) ∷ [])
      ∷ [];
  exit = return_exit (left_value (temp_value 0 1));
}

abbrev pub with_dead : Func
with_dead = record { blocks = (0, entry_block) ∷ (1, dead_block) ∷ (2, last_block) ∷ [] }

-- The condition on the targets as a test.
abbrev targets_in : List ℕ → Block → Bool
unfolding targets
targets_in ids blk = all (among ids) (targets blk.exit)

block_at-all :
    (p : Block → Bool) (bs : List (ℕ × Block)) (a : ℕ) (blk : Block)
    → all (λ x. p x.1) bs ≡ true
    → block_at bs a ≡ some blk
    → p blk ≡ true
unfolding block_at
block_at-all p [] a blk h e = absurd (cc)
block_at-all p (x ∷ bs) a blk h e = elim (Bool-cases (x.0 == a)) [
  | inl q ↦
      let here = some-injective x.1 blk (sym (block_at_here x bs a q) ∙ e) in
      subst (λ z. p z ≡ true) here (ground (arith, h))
  | inr q ↦ block_at-all p bs a blk (ground (arith, h)) (sym (block_at_there x bs a q) ∙ e)
]

all-count : (p : ℕ → Bool) (xs : List ℕ) (x : ℕ) → all p xs ≡ true → count xs x ≡ true → p x ≡ true
all-count p [] x h k = absurd (cc)
all-count p (y ∷ xs) x h k = elim (Bool-cases (y == x)) [
  | inl e ↦ subst (λ z. p z ≡ true) ((==_iff y x).0 e) (ground (arith, h))
  | inr n ↦ all-count p xs x (ground (arith, h)) (ground (arith, k, n))
]

with_dead_targets : Targeted with_dead
unfolding targets block_ids
with_dead_targets a b blk e k =
    all-count (among (block_ids with_dead)) (targets blk.exit) b
      (block_at-all (targets_in (block_ids with_dead)) with_dead.blocks a blk refl e) k

eliminate-Reachable_example :
    (changed : Bool) × (left : Func) × (eliminate with_dead ≡ some (changed, left))
    × ((x : ℕ) → (among (block_ids left) x ≡ true) ↔ Reachable with_dead x)
    × ((x : ℕ) (blk : Block) (p : ℕ)
        → block_at left.blocks x ≡ some blk
        → count (front_sources blk.insts) p ≡ true
        → among (block_ids left) p ≡ true)
eliminate-Reachable_example =
    eliminate-Reachable with_dead (0, entry_block) ((1, dead_block) ∷ (2, last_block) ∷ []) refl
      with_dead_targets

eliminate-with_dead :
    eliminate with_dead
    ≡ some (
      true,
      record {
        blocks =
            (0, entry_block)
            ∷ (
              2,
              record last_block {
                insts = phi_inst (some (temp_value 0 1)) ((0, const_value (int_const 3)) ∷ []) ∷ [];
              },
            )
            ∷ [];
      },
    )
unfolding eliminate reachable_blocks reach_loop entrance keep_blocks refine_phis refine_phi block_at
    targets
eliminate-with_dead = refl
