-- ===== src/Ir/Cfg.antt =====
-- `ControlFlowGraph` (src/backend/ir/analysis/cfg.hpp).
use ucas_cplab.Common.{
  ℕ, ◌≡◌, refl, sym, ◌∙◌, Bool, true, ◌||◌, ◌&&◌, List, [], ◌∷◌, any, map, update, ◌==◌, arith,
  nat_eq,
}
use ucas_cplab.Ir.Inst.{Exit, return_exit, branch_exit, jump_exit, Block, Func, block_ids}
use ucas_cplab.Ir.Vars.{targets}
use ucas_cplab.Ir.Flow.Set.{count, insert_elem}
use ucas_cplab.Ir.Flow.Set.Member.{count-insert_elem}

pub record ControlFlowGraph : Type 0 where
  pub succ : ℕ → List ℕ
  pub pred : ℕ → List ℕ

abbrev pub connect : ControlFlowGraph → ℕ → ℕ → ControlFlowGraph
connect g from to =
    let s = insert_elem (g.succ from) to in
    let p = insert_elem (g.pred to) from in
    record { succ = update g.succ from s; pred = update g.pred to p }

-- One iteration of the constructor's loop.
unfoldable pub connect_exit : ControlFlowGraph → ℕ → Exit → ControlFlowGraph
connect_exit g b (return_exit exp) = g
connect_exit g b (jump_exit target) = connect g b target
connect_exit g b (branch_exit cond true_target false_target) =
    connect (connect g b true_target) b false_target

unfoldable pub connect_blocks : ControlFlowGraph → List (ℕ × Block) → ControlFlowGraph
unfolding connect_exit
connect_blocks g [] = g
connect_blocks g (b ∷ bs) = connect_blocks (connect_exit g b.0 b.1.exit) bs

unfoldable pub cfg : Func → ControlFlowGraph
unfolding connect_blocks
cfg f = connect_blocks (record { succ = λ b. []; pred = λ b. [] }) f.blocks

-- An exit of one of the blocks leads from `a` to `b`.
unfoldable pub has_edge : List (ℕ × Block) → ℕ → ℕ → Bool
unfolding targets
has_edge bs a b = any (λ x. x.0 == a && any (λ c. c == b) (targets x.1.exit)) bs

count-connect-succ :
    (g : ControlFlowGraph) (from to a b : ℕ)
    → count ((connect g from to).succ a) b ≡ ((from == a && to == b) || count (g.succ a) b)
count-connect-succ g from to a b = ground (arith, count-insert_elem (g.succ from) to b)

count-connect-pred :
    (g : ControlFlowGraph) (from to a b : ℕ)
    → count ((connect g from to).pred b) a ≡ ((from == a && to == b) || count (g.pred b) a)
count-connect-pred g from to a b = ground (arith, count-insert_elem (g.pred to) from a)

connect_exit-succ :
    (g : ControlFlowGraph) (x : ℕ) (e : Exit) (a b : ℕ)
    → count ((connect_exit g x e).succ a) b
      ≡ ((x == a && any (λ c. c == b) (targets e)) || count (g.succ a) b)
unfolding connect_exit targets
connect_exit-succ g x (return_exit exp) a b = ground arith
connect_exit-succ g x (jump_exit t) a b = ground (arith, count-connect-succ g x t a b)
connect_exit-succ g x (branch_exit cond t u) a b =
    ground (arith, count-connect-succ (connect g x t) x u a b, count-connect-succ g x t a b)

connect_exit-pred :
    (g : ControlFlowGraph) (x : ℕ) (e : Exit) (a b : ℕ)
    → count ((connect_exit g x e).pred b) a
      ≡ ((x == a && any (λ c. c == b) (targets e)) || count (g.pred b) a)
unfolding connect_exit targets
connect_exit-pred g x (return_exit exp) a b = ground arith
connect_exit-pred g x (jump_exit t) a b = ground (arith, count-connect-pred g x t a b)
connect_exit-pred g x (branch_exit cond t u) a b =
    ground (arith, count-connect-pred (connect g x t) x u a b, count-connect-pred g x t a b)

connect_blocks-succ :
    (g : ControlFlowGraph) (bs : List (ℕ × Block)) (a b : ℕ)
    → count ((connect_blocks g bs).succ a) b ≡ (has_edge bs a b || count (g.succ a) b)
unfolding connect_blocks has_edge
connect_blocks-succ g [] a b = refl
connect_blocks-succ g (x ∷ bs) a b = ground (
  arith,
  connect_blocks-succ (connect_exit g x.0 x.1.exit) bs a b,
  connect_exit-succ g x.0 x.1.exit a b,
)

connect_blocks-pred :
    (g : ControlFlowGraph) (bs : List (ℕ × Block)) (a b : ℕ)
    → count ((connect_blocks g bs).pred b) a ≡ (has_edge bs a b || count (g.pred b) a)
unfolding connect_blocks has_edge
connect_blocks-pred g [] a b = refl
connect_blocks-pred g (x ∷ bs) a b = ground (
  arith,
  connect_blocks-pred (connect_exit g x.0 x.1.exit) bs a b,
  connect_exit-pred g x.0 x.1.exit a b,
)

-- The graph has the edges of the exits, in both directions: `b` is a successor of `a`, and `a` a
-- predecessor of `b`, exactly if the exit of a block `a` names `b` as a target.
pub cfg-edges :
    (f : Func) (a b : ℕ)
    → (count ((cfg f).succ a) b ≡ has_edge f.blocks a b)
      × (count ((cfg f).pred b) a ≡ has_edge f.blocks a b)
unfolding cfg
cfg-edges f a b = (
  ground (arith, connect_blocks-succ (record { succ = λ b. []; pred = λ b. [] }) f.blocks a b),
  ground (arith, connect_blocks-pred (record { succ = λ b. []; pred = λ b. [] }) f.blocks a b),
)

has_edge-from :
    (bs : List (ℕ × Block)) (a b : ℕ) → has_edge bs a b ≡ true → count (map (λ x. x.0) bs) a ≡ true
unfolding has_edge
has_edge-from [] a b h = absurd (cc)
has_edge-from (x ∷ bs) a b h = ground (arith, has_edge-from bs a b)

-- A predecessor is a block of the function.
pub pred-block :
    (f : Func) (a b : ℕ) → count ((cfg f).pred b) a ≡ true → count (block_ids f) a ≡ true
unfolding block_ids
pred-block f a b h = has_edge-from f.blocks a b (sym (cfg-edges f a b).1 ∙ h)
