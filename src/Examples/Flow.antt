-- ===== src/Examples/Flow.antt =====
-- The data-flow analyses (src/backend/ir/analysis) on a function with a branch, a loop and a dead block.
use ucas_cplab.Common.{ℕ, ◌≡◌, ◌↔◌, refl, true, false, Option, none, some, [], ◌∷◌, nat_eq, arith}
use ucas_cplab.Ir.Inst.{
  LeftValue, temp_value, Value, const_value, left_value, int_const, mov_op, phi_inst, unary_inst,
  return_exit, branch_exit, jump_exit, Func, block_ids, left_eq,
}
use ucas_cplab.Ir.Vars.{exit_used_var, targets}
use ucas_cplab.Ir.Cfg.{cfg, connect_blocks, connect_exit, has_edge, cfg-edges}
use ucas_cplab.Ir.Flow.{Flow, solve, blank, init_blocks, iterate, sweep, visit, new_in}
use ucas_cplab.Ir.Flow.Rules.{among}
use ucas_cplab.Ir.Flow.Termination.{rounds, solve-total}
use ucas_cplab.Ir.Flow.Set.{Set, count, contains, set_eq, insert, intersection_set, elements, size}
use ucas_cplab.Ir.Dominance.{dominance_trait, forward_graph, dominators, Avoids, dominance_laws}
use ucas_cplab.Ir.Dominance.Paths.{dominators-exact}
use ucas_cplab.Ir.Dominance.Order.{Reaches}
use ucas_cplab.Ir.Dominance.Tree.{idom_of, closest}
use ucas_cplab.Ir.Dominance.Tree.Immediate.{Nearest, idom_of-Nearest}
use ucas_cplab.Ir.Liveness.{gen_kill, liveness, Vars}
use ucas_cplab.Ir.Liveness.Local.{uses_first, is_var, defines, gen_kill-local}
use ucas_cplab.Ir.Liveness.Paths.{Live, Closed, liveness-exact}

abbrev pub temp : ℕ → LeftValue
temp i = temp_value 0 i

abbrev pub int : ℕ → Value
int n = const_value (int_const n)

-- Block 0 branches to 1 and 2, which meet in 3; 3 goes back to 1 or returns from 4; 5 is dead.
abbrev pub looping : Func
looping = record {
  blocks =
      (
        0,
        record {
          insts = unary_inst mov_op (some (temp 1)) (int 7) ∷ [];
          exit = branch_exit (left_value (temp 0)) 1 2;
        },
      )
      ∷ (1, record { insts = []; exit = jump_exit 3 })
      ∷ (2, record { insts = []; exit = jump_exit 3 })
      ∷ (
        3,
        record {
          insts = phi_inst (some (temp 2)) ((1, left_value (temp 1)) ∷ (2, int 3) ∷ []) ∷ [];
          exit = branch_exit (left_value (temp 2)) 1 4;
        },
      )
      ∷ (4, record { insts = []; exit = return_exit (left_value (temp 2)) })
      ∷ (5, record { insts = []; exit = jump_exit 3 })
      ∷ [];
}

cfg-edges_example :
    (count ((cfg looping).succ 3) 1 ≡ has_edge looping.blocks 3 1)
    × (count ((cfg looping).pred 1) 3 ≡ has_edge looping.blocks 3 1)
cfg-edges_example = cfg-edges looping 3 1

dominators-exact_example :
    (fuel : ℕ) × (s : Flow (Set ℕ)) × (dominators fuel looping ≡ some s)
    × ((b d : ℕ)
        → among (block_ids looping) b ≡ true
        → (contains (s.flow_out b) d ≡ false) ↔ Avoids looping d b)
dominators-exact_example = dominators-exact looping

solve-total_example :
    (s : Flow (Set ℕ)) × (solve dominance_trait
        (forward_graph looping)
        (rounds dominance_trait (forward_graph looping) (dominance_laws looping))
      ≡ some s)
solve-total_example =
    solve-total dominance_trait (forward_graph looping) (dominance_laws looping)
      (rounds dominance_trait (forward_graph looping) (dominance_laws looping)) (omega arith)

abbrev looping_dominators : Flow (Set ℕ)
unfolding dominators
looping_dominators = elim (dominators 9 looping) [
  | none ↦ blank dominance_trait (forward_graph looping)
  | some s ↦ s
]

idom_of-Nearest_example :
    (fuel : ℕ) × (s : Flow (Set ℕ)) × (dominators fuel looping ≡ some s)
    × ((b : ℕ)
        → Reaches looping b
        → among (block_ids looping) b ≡ true
        → (r : Option ℕ) × (idom_of s.flow_out b ≡ some r) × Nearest looping b r)
idom_of-Nearest_example = idom_of-Nearest looping

idom_3 : idom_of looping_dominators.flow_out 3 ≡ some (some 0)
unfolding idom_of elements closest size dominators solve init_blocks iterate sweep visit new_in
    dominance_trait forward_graph block_ids set_eq insert intersection_set cfg connect_blocks
    connect_exit
idom_3 = refl

gen_kill-local_example :
    (contains
        (gen_kill (record {
          insts = unary_inst mov_op (some (temp 1)) (left_value (temp 1)) ∷ [];
          exit = jump_exit 1;
        })).0
        (temp 1)
      ≡ uses_first
          (unary_inst mov_op (some (temp 1)) (left_value (temp 1)) ∷ [])
          (is_var (exit_used_var (jump_exit 1)) (temp 1))
          (temp 1))
    × (contains
          (gen_kill (record {
            insts = unary_inst mov_op (some (temp 1)) (left_value (temp 1)) ∷ [];
            exit = jump_exit 1;
          })).1
          (temp 1)
        ≡ defines (unary_inst mov_op (some (temp 1)) (left_value (temp 1)) ∷ []) (temp 1))
gen_kill-local_example =
    gen_kill-local
      (record {
        insts = unary_inst mov_op (some (temp 1)) (left_value (temp 1)) ∷ [];
        exit = jump_exit 1;
      })
      (temp 1)

looping-Closed : Closed looping
unfolding has_edge targets block_ids
looping-Closed a b h = ground (arith, (cfg-edges looping a b).0, h)

liveness-exact_example :
    (fuel : ℕ) × (s : Flow (Option Vars)) × (liveness fuel looping ≡ some s)
    × ((b : ℕ)
        → among (block_ids looping) b ≡ true
        → (vars : Vars) × (s.flow_out b ≡ some vars)
          × (vars.is_universe ≡ false)
          × ((x : LeftValue) → (contains vars x ≡ true) ↔ Live looping x b))
liveness-exact_example = liveness-exact looping looping-Closed
