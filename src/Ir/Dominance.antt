-- ===== src/Ir/Dominance.antt =====
-- Dominators (src/backend/ir/analysis/dataflow/dominance.hpp), as the framework computes them.
pub mod Paths
pub mod Order
pub mod Shape
pub mod Tree
use ucas_cplab.Common.{
  ℕ, zero, suc, ◌+◌, ◌≤◌, ◌<◌, ◌≡◌, ◌≢◌, refl, ap, sym, ◌∙◌, ◌↔◌, subst, Bool, true, false, not,
  ◌&&◌, ◌||◌, Option, none, some, List, [], ◌∷◌, ◌⊎◌, inl, inr, if◌then◌else◌, ◌==◌, ==_iff, length,
  Eq, eqb, nat_eq, arith, Bool-cases,
}
use ucas_cplab.Ir.Inst.{Func, block_ids}
use ucas_cplab.Ir.Cfg.{cfg, pred-block}
use ucas_cplab.Ir.Flow.{FlowTrait, FlowGraph, Flow, meet_edges, new_in, solve}
use ucas_cplab.Ir.Flow.Rules.{among, first_out, new_in_boundary, new_in_inner, solve_rule}
use ucas_cplab.Ir.Flow.Solution.{Solves, solve-Solves}
use ucas_cplab.Ir.Flow.Termination.{FlowLaws, rounds, solve-total}
use ucas_cplab.Ir.Flow.Set.{Set, count, set_eq, universe, empty, intersection_set, contains, insert}
use ucas_cplab.Ir.Flow.Set.Member.{
  contains-insert, contains-intersection, contains-set_eq, count-insert_elem,
}
use ucas_cplab.Ir.Flow.Set.Rank.{
  Subset, Subset-refl, Subset-trans, Subset-intersection, Subset-insert,
}
use ucas_cplab.Ir.Flow.Set.Within.{
  Within, empty-Within, intersection-Within, insert-Within, size_within, size_within-lt,
}

unfoldable pub dominance_trait : FlowTrait (Set ℕ)
dominance_trait = record {
  default = empty;
  boundary = empty;
  top = universe;
  meet = intersection_set;
  transfer = λ b d. insert d b;
  edge_transfer = λ p b d. d;
  equal = set_eq;
}

abbrev pub is_front : List ℕ → ℕ → Bool
is_front [] b = false
is_front (x ∷ xs) b = x == b

-- A forward analysis of a function: from the predecessors, with the first block as the boundary.
unfoldable pub forward_graph : Func → FlowGraph
forward_graph f = record {
  blocks = block_ids f;
  pred = (cfg f).pred;
  is_boundary = is_front (block_ids f);
}

unfoldable pub dominators : ℕ → Func → Option (Flow (Set ℕ))
dominators fuel f = solve dominance_trait (forward_graph f) fuel

-- A path from the entrance to the block that does not meet `d`.
pub data Avoids (f : Func) (d : ℕ) : ℕ → Type 0 where
  start : {b : ℕ} → is_front (block_ids f) b ≡ true → (d == b) ≡ false → Avoids f d b
  onward :
      {a b : ℕ} → Avoids f d a → count ((cfg f).pred b) a ≡ true → (d == b) ≡ false → Avoids f d b

everything : (a : Set ℕ) → Subset a universe
unfolding contains
everything a = record { members = λ x m. refl; universes = λ u. refl }

below_empty : (a : Set ℕ) → Subset (intersection_set a empty) empty
unfolding intersection_set contains
below_empty a = record {
  members = λ x m. ground (arith, contains-intersection a empty x, m);
  universes = λ u. ground (arith, u);
}

pub dominance_laws : (f : Func) → FlowLaws dominance_trait (forward_graph f)
unfolding dominance_trait forward_graph
dominance_laws f = record {
  Reached = Within (block_ids f);
  Le = Subset;
  rank = size_within (block_ids f);
  default-Reached = empty-Within (block_ids f);
  boundary-Reached = empty-Within (block_ids f);
  top-Reached = inl refl;
  meet-Reached = intersection-Within (block_ids f);
  transfer-Reached = λ b a m r. insert-Within (block_ids f) a b m r;
  edge-Reached = λ p b a r. r;
  le_refl = λ a r. Subset-refl a;
  below_top = λ a r. everything a;
  below_boundary = λ a r. below_empty a;
  le_trans = Subset-trans;
  meet_mono = Subset-intersection;
  transfer_mono = λ b a a' m h. Subset-insert a a' b h;
  edge_mono = λ p b a a' h. h;
  rank_lt = size_within-lt (block_ids f);
}
