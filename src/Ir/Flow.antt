-- ===== src/Ir/Flow.antt =====
-- The data-flow framework (src/backend/ir/analysis/dataflow): the solver `DataFlow::solve` of
-- framework.hpp. A block is its number in the function. The graph and the trait are arguments: `pred`
-- is `cfg.pred` for a forward analysis and `cfg.succ` for a backward one.
use ucas_cplab.Common.{
  ℕ, zero, suc, Bool, true, false, Option, none, some, List, [], ◌∷◌, if◌then◌else◌, update,
}
pub mod Set
pub mod Rules
pub mod Solution
pub mod Termination

-- `FlowTrait`. `default` is `Data{}`, what a map holds at a missing key; `edge_transfer p b` is applied
-- to what comes from `p` into `b`, and is the identity for a trait without one.
pub record FlowTrait (D : Type 0) : Type 0 where
  pub default : D
  pub boundary : D
  pub top : D
  pub meet : D → D → D
  pub transfer : ℕ → D → D
  pub edge_transfer : ℕ → ℕ → D → D
  pub equal : D → D → Bool

pub record FlowGraph : Type 0 where
  pub blocks : List ℕ
  pub pred : ℕ → List ℕ
  pub is_boundary : ℕ → Bool

-- The maps `flow_in` and `flow_out`.
pub record Flow (D : Type 0) : Type 0 where
  pub flow_in : ℕ → D
  pub flow_out : ℕ → D

module _ {D : Type 0} (t : FlowTrait D) (g : FlowGraph) where
  abbrev pub blank : Flow D
  blank = record { flow_in = λ b. t.default; flow_out = λ b. t.default }

  abbrev pub set_block : Flow D → ℕ → D → D → Flow D
  set_block s b i o = record { flow_in = update s.flow_in b i; flow_out = update s.flow_out b o }

  unfoldable pub init_blocks : List ℕ → Flow D → Flow D
  init_blocks [] s = s
  init_blocks (b ∷ bs) s = init_blocks bs (
      if g.is_boundary b
      then set_block s b t.boundary (t.transfer b t.boundary)
      else set_block s b t.top t.top)

  -- The loop over the predecessors.
  abbrev pub meet_edges : (ℕ → D) → ℕ → List ℕ → D → D
  meet_edges out b [] d = d
  meet_edges out b (p ∷ ps) d = meet_edges out b ps (t.meet d (t.edge_transfer p b (out p)))

  unfoldable pub new_in : (ℕ → D) → ℕ → D
  new_in out b =
      let m = meet_edges out b (g.pred b) t.top in
      if g.is_boundary b then t.meet m t.boundary else m

  -- One block of a round: the new state, and whether `flow_out` changed.
  unfoldable pub visit : Flow D → ℕ → Flow D × Bool
  unfolding new_in
  visit s b =
      let i = new_in s.flow_out b in
      let o = t.transfer b i in
      if t.equal o (s.flow_out b)
      then (record s { flow_in = update s.flow_in b i }, false)
      else (set_block s b i o, true)

  unfoldable pub sweep : List ℕ → Flow D → Bool → Flow D × Bool
  unfolding visit
  sweep [] s changed = (s, changed)
  sweep (b ∷ bs) s changed = let (s', c) = visit s b in sweep bs s' (if c then true else changed)

  -- `while (changed)`, on fuel: `none` when it runs out.
  unfoldable pub iterate : ℕ → Flow D → Option (Flow D)
  unfolding sweep
  iterate zero s = none
  iterate (suc n) s =
      let (s', changed) = sweep g.blocks s false in
      elim changed [ true ↦ iterate n s' | false ↦ some s' ]

  unfoldable pub solve : ℕ → Option (Flow D)
  unfolding iterate init_blocks
  solve fuel = iterate fuel (init_blocks g.blocks blank)
