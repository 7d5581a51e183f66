-- ===== src/Ir/Liveness.antt =====
-- Live variables (src/backend/ir/analysis/dataflow/liveness.hpp). The exception that `difference` or a missing
-- block would throw is `none`, and every operation passes it on.
use ucas_cplab.Common.{
  ℕ, Bool, true, false, not, ◌&&◌, ◌||◌, Option, none, some, List, [], ◌∷◌, if◌then◌else◌, ◌==◌,
  ◌>>=◌, nat_eq, any, Eq, eqb,
}
use ucas_cplab.Ir.Inst.{
  LeftValue, Value, Inst, phi_inst, unary_inst, binary_inst, call_inst, Exit, return_exit,
  branch_exit, jump_exit, Block, Func, block_ids, left_eq,
}
use ucas_cplab.Ir.Vars.{as_var, defined_var, used_vars, exit_used_var}
use ucas_cplab.Ir.Cfg.{cfg}
use ucas_cplab.Ir.Flow.{FlowTrait, FlowGraph, Flow, solve}
use ucas_cplab.Ir.Flow.Set.{Set, set_eq, empty, union_set, difference, contains, insert}
pub mod Local
pub mod Edge
pub mod Step
pub mod Laws
pub mod Paths

abbrev pub Vars : Type 0
Vars = Set LeftValue

unfoldable pub block_at : List (ℕ × Block) → ℕ → Option Block
block_at [] b = none
block_at (x ∷ xs) b = if x.0 == b then some x.1 else block_at xs b

-- `if (!kill.contains(*u)) gen.insert(*u)`
abbrev pub gen_var : Vars → Vars → LeftValue → Vars
gen_var kill gen u = if contains kill u then gen else insert gen u

abbrev pub gen_vars : Vars → Vars → List LeftValue → Vars
gen_vars kill gen [] = gen
gen_vars kill gen (u ∷ us) = gen_vars kill (gen_var kill gen u) us

abbrev pub kill_def : Vars → Option LeftValue → Vars
kill_def kill none = kill
kill_def kill (some d) = insert kill d

abbrev pub is_phi : Inst → Bool
is_phi (phi_inst result args) = true
is_phi (unary_inst op result operand) = false
is_phi (binary_inst op result lhs rhs) = false
is_phi (call_inst result func args) = false

-- The loop over the instructions, for `gen` and `kill`.
unfoldable pub scan_insts : Vars → Vars → List Inst → Vars × Vars
scan_insts gen kill [] = (gen, kill)
scan_insts gen kill (i ∷ is) =
    scan_insts (if is_phi i then gen else gen_vars kill gen (used_vars i))
      (kill_def kill (defined_var i)) is

unfoldable pub gen_kill : Block → Vars × Vars
unfolding scan_insts
gen_kill b =
    let (gen, kill) = scan_insts empty empty b.insts in
    elim (exit_used_var b.exit) [ none ↦ (gen, kill) | some u ↦ (gen_var kill gen u, kill) ]

-- `ctx.phi_uses[block][pred].insert(*var)`: there is no entry before the first insertion.
abbrev pub insert_use : Option Vars → Option LeftValue → Option Vars
insert_use uses none = uses
insert_use none (some v) = some (insert empty v)
insert_use (some uses) (some v) = some (insert uses v)

abbrev pub phi_arg_uses : ℕ → Option Vars → List (ℕ × Value) → Option Vars
phi_arg_uses pred uses [] = uses
phi_arg_uses pred uses (a ∷ args) =
    phi_arg_uses pred (if a.0 == pred then insert_use uses (as_var a.1) else uses) args

unfoldable pub phi_uses : ℕ → Option Vars → List Inst → Option Vars
phi_uses pred uses [] = uses
phi_uses pred uses (phi_inst result args ∷ is) = phi_uses pred (phi_arg_uses pred uses args) is
phi_uses pred uses (unary_inst op result operand ∷ is) = phi_uses pred uses is
phi_uses pred uses (binary_inst op result lhs rhs ∷ is) = phi_uses pred uses is
phi_uses pred uses (call_inst result func args ∷ is) = phi_uses pred uses is

unfoldable pub transfer : Func → ℕ → Vars → Option Vars
unfolding block_at gen_kill
transfer f b out = do
  blk ← block_at f.blocks b
  let (gen, kill) = gen_kill blk in do d ← difference out kill; some (union_set d gen)

-- From `dst` back into `src`; a block that is not there has no uses.
unfoldable pub edge_transfer : Func → ℕ → ℕ → Vars → Vars
unfolding block_at phi_uses
edge_transfer f src dst dst_in = elim (block_at f.blocks dst) [
  | none ↦ dst_in
  | some blk ↦ elim (phi_uses src none blk.insts) [
    | none ↦ dst_in
    | some uses ↦ union_set dst_in uses
  ]
]

abbrev pub meet : Option Vars → Option Vars → Option Vars
meet a b = do x ← a; y ← b; some (union_set x y)

abbrev pub equal : Option Vars → Option Vars → Bool
equal none none = true
equal (some a) (some b) = set_eq a b
equal none (some b) = false
equal (some a) none = false

unfoldable pub liveness_trait : Func → FlowTrait (Option Vars)
unfolding transfer edge_transfer
liveness_trait f = record {
  default = some empty;
  boundary = some empty;
  top = some empty;
  meet = meet;
  transfer = λ b out. out >>= transfer f b;
  edge_transfer = λ dst src out. out >>= (λ x. some (edge_transfer f src dst x));
  equal = equal;
}

abbrev pub is_return : Exit → Bool
is_return (return_exit exp) = true
is_return (branch_exit cond true_target false_target) = false
is_return (jump_exit target) = false

-- A backward analysis of a function: from the successors, with the returning blocks as the boundary.
unfoldable pub backward_graph : Func → FlowGraph
unfolding block_at
backward_graph f = record {
  blocks = block_ids f;
  pred = (cfg f).succ;
  is_boundary = λ b. elim (block_at f.blocks b) [ none ↦ false | some blk ↦ is_return blk.exit ];
}

-- `flow_out` is what is live at the start of a block.
unfoldable pub liveness : ℕ → Func → Option (Flow (Option Vars))
unfolding liveness_trait backward_graph
liveness fuel f = solve (liveness_trait f) (backward_graph f) fuel
