-- ===== src/Ir/Liveness/Paths.antt =====
-- Live variables (src/backend/ir/analysis/dataflow/liveness.hpp) as what is read on some path.
use ucas_cplab.Common.{
  ℕ, ◌≡◌, refl, ap, sym, ◌∙◌, ◌↔◌, subst, Bool, true, false, not, ◌&&◌, ◌||◌, Option, none, some,
  List, [], ◌∷◌, ◌⊎◌, inl, inr, ◌==◌, ==_iff, any, nat_eq, arith, Bool-cases, ◌>>=◌,
}
use ucas_cplab.Ir.Inst.{Func, Block, LeftValue, block_ids, left_eq}
use ucas_cplab.Ir.Vars.{exit_used_var}
use ucas_cplab.Ir.Cfg.{cfg}
use ucas_cplab.Ir.Flow.{Flow, meet_edges, new_in}
use ucas_cplab.Ir.Flow.Rules.{
  among, first_out, first_out_boundary, first_out_inner, new_in_boundary, new_in_inner, solve_rule,
}
use ucas_cplab.Ir.Flow.Solution.{solve-Solves}
use ucas_cplab.Ir.Flow.Termination.{rounds, solve-total}
use ucas_cplab.Ir.Flow.Set.{count, contains, empty}
use ucas_cplab.Ir.Flow.Set.Member.{contains-set_eq}
use ucas_cplab.Ir.Liveness.{
  Vars, block_at, transfer, edge_transfer, meet, equal, liveness_trait, backward_graph, liveness,
}
use ucas_cplab.Ir.Liveness.Local.{is_var, uses_first, defines}
use ucas_cplab.Ir.Liveness.Edge.{has, block_at-some}
use ucas_cplab.Ir.Liveness.Step.{
  Known, empty-Known, has-Known, meet-Known, has-meet, transfer-Known, has-transfer, edge-Known,
  has-edge, block_live, edge_reads,
}
use ucas_cplab.Ir.Liveness.Laws.{liveness_laws}

-- From the start of the block a path leads to a read of `x`, in a block or by a phi on the edge into one,
-- without an assignment to `x` before.
pub data Live (f : Func) (x : LeftValue) : ℕ → Type 0 where
  here :
      {b : ℕ} {blk : Block}
      → block_at f.blocks b ≡ some blk
      → uses_first blk.insts (is_var (exit_used_var blk.exit) x) x ≡ true
      → Live f x b
  into_phi :
      {b : ℕ} {blk : Block} (c : ℕ)
      → block_at f.blocks b ≡ some blk
      → defines blk.insts x ≡ false
      → count ((cfg f).succ b) c ≡ true
      → edge_reads f b c x ≡ true
      → Live f x b
  onward :
      {b : ℕ} {blk : Block} (c : ℕ)
      → block_at f.blocks b ≡ some blk
      → defines blk.insts x ≡ false
      → count ((cfg f).succ b) c ≡ true
      → Live f x c
      → Live f x b

-- The exits of a function lead to its blocks.
abbrev pub Closed : Func → Type 0
Closed f = (a b : ℕ) → count ((cfg f).succ a) b ≡ true → among (block_ids f) b ≡ true

module _ (f : Func) where
  -- What comes in from a list of successors.
  abbrev incoming : (ℕ → Option Vars) → ℕ → List ℕ → LeftValue → Bool
  incoming out b cs x = any (λ c. has (out c) x || edge_reads f b c x) cs

  met_edges :
      (out : ℕ → Option Vars) (b : ℕ) (cs : List ℕ) (o : Option Vars)
      → ((c : ℕ) → count cs c ≡ true → Known f (out c))
      → Known f o
      → Known f (meet_edges (liveness_trait f) (backward_graph f) out b cs o)
        × ((x : LeftValue)
            → has (meet_edges (liveness_trait f) (backward_graph f) out b cs o) x
              ≡ (has o x || incoming out b cs x))
  unfolding liveness_trait
  met_edges out b [] o h k = (k, λ x. ground arith)
  met_edges out b (c ∷ cs) o h k =
      let kc = h c (ground arith) in
      let edge : Option Vars = out c >>= (λ y. some (edge_transfer f b c y)) in
      let ke : Known f edge = edge-Known f b c (out c) kc in
      let (kr, hr) =
        met_edges out b cs (meet o edge) (λ d m. h d (ground arith)) (meet-Known f o edge k ke) in
      (kr, λ x. ground (arith, hr x, has-meet f o edge k ke x, has-edge f b c (out c) kc x))

  new_in-has :
      (out : ℕ → Option Vars) (b : ℕ)
      → ((c : ℕ) → count ((cfg f).succ b) c ≡ true → Known f (out c))
      → Known f (new_in (liveness_trait f) (backward_graph f) out b)
        × ((x : LeftValue)
            → has (new_in (liveness_trait f) (backward_graph f) out b) x
              ≡ incoming out b ((cfg f).succ b) x)
  unfolding liveness_trait backward_graph contains
  new_in-has out b h =
      let (k, m) = met_edges out b ((cfg f).succ b) (some empty) h (empty-Known f) in
      let met =
        meet_edges (liveness_trait f) (backward_graph f) out b ((cfg f).succ b) (some empty) in
      elim (Bool-cases ((backward_graph f).is_boundary b)) [
        | inl q ↦
            let e = new_in_boundary (liveness_trait f) (backward_graph f) out b q in
            (
              subst (Known f) (sym e) (meet-Known f met (some empty) k (empty-Known f)),
              λ x.
                  ap (λ o. has o x) e
                  ∙ ground (arith, m x, has-meet f met (some empty) k (empty-Known f) x),
            )
        | inr q ↦
            let e = new_in_inner (liveness_trait f) (backward_graph f) out b q in
            (subst (Known f) (sym e) k, λ x. ap (λ o. has o x) e ∙ ground (arith, m x))
      ]

  some_edge :
      (out : ℕ → Option Vars) (b : ℕ) (cs : List ℕ) (x : LeftValue)
      → incoming out b cs x ≡ true
      → (c : ℕ) × (count cs c ≡ true) × ((has (out c) x ≡ true) ⊎ (edge_reads f b c x ≡ true))
  some_edge out b [] x h = absurd (cc)
  some_edge out b (c ∷ cs) x h = elim (Bool-cases (has (out c) x)) [
    | inl y ↦ (c, ground arith, inl y)
    | inr n ↦ elim (Bool-cases (edge_reads f b c x)) [
      | inl y ↦ (c, ground arith, inr y)
      | inr m ↦ let (d, k, r) = some_edge out b cs x (ground arith) in (d, ground (arith, k), r)
    ]
  ]

  edge_comes :
      (out : ℕ → Option Vars) (b : ℕ) (cs : List ℕ) (c : ℕ) (x : LeftValue)
      → count cs c ≡ true
      → (has (out c) x || edge_reads f b c x) ≡ true
      → incoming out b cs x ≡ true
  edge_comes out b [] c x k h = absurd (cc)
  edge_comes out b (d ∷ cs) c x k h = elim (Bool-cases (d == c)) [
    | inl e ↦
        let same =
          subst (λ z. (has (out z) x || edge_reads f b z x) ≡ true) (sym ((==_iff d c).0 e)) h in
        ground (arith, same)
    | inr n ↦ ground (arith, edge_comes out b cs c x (ground arith) h)
  ]

  -- What an output is to be: a known set with only live variables.
  record Sound (b : ℕ) (o : Option Vars) : Type 0 where
    known : Known f o
    live : (x : LeftValue) → has o x ≡ true → Live f x b

  block_live-Live :
      (b : ℕ) (blk : Block) (out : ℕ → Option Vars) (x : LeftValue)
      → block_at f.blocks b ≡ some blk
      → ((c : ℕ) → count ((cfg f).succ b) c ≡ true → Sound c (out c))
      → block_live f blk (incoming out b ((cfg f).succ b)) x ≡ true
      → Live f x b
  block_live-Live b blk out x e h n =
      elim (Bool-cases (uses_first blk.insts (is_var (exit_used_var blk.exit) x) x)) [
        | inl u ↦ here e u
        | inr v ↦
            let away : defines blk.insts x ≡ false = ground (arith, n, v) in
            let (c, k, r) = some_edge out b ((cfg f).succ b) x (ground (arith, n, v)) in
            elim r [ inl y ↦ onward c e away k ((h c k).live x y) | inr y ↦ into_phi c e away k y ]
      ]

  keeps-Sound :
      Closed f
      → (out : ℕ → Option Vars) → ((b : ℕ) → among (block_ids f) b ≡ true → Sound b (out b))
      → (b : ℕ) → among (block_ids f) b ≡ true
      → Sound b (new_in (liveness_trait f) (backward_graph f) out b >>= transfer f b)
  unfolding block_ids
  keeps-Sound closed out h b m =
      let (blk, e) = block_at-some f.blocks b m in
      let next : (c : ℕ) → count ((cfg f).succ b) c ≡ true → Sound c (out c) =
        λ c k. h c (closed b c k) in
      let coming = new_in (liveness_trait f) (backward_graph f) out b in
      let (kn, hn) = new_in-has out b (λ c k. (next c k).known) in
      record {
        known = transfer-Known f b blk e coming kn;
        live = λ x n.
            block_live-Live b blk out x e next
              (ground (arith, n, hn x, has-transfer f b blk e coming kn x));
      }

  first-Sound :
      (b : ℕ)
      → among (block_ids f) b ≡ true
      → Sound b (first_out (liveness_trait f) (backward_graph f) b)
  unfolding block_ids liveness_trait contains
  first-Sound b m =
      let (blk, e) = block_at-some f.blocks b m in
      let k = transfer-Known f b blk e (some empty) (empty-Known f) in
      elim (Bool-cases ((backward_graph f).is_boundary b)) [
        | inl q ↦ rw (first_out_boundary (liveness_trait f) (backward_graph f) b q) (record {
          known = k;
          live = λ x n.
              here e (ground (arith, n, has-transfer f b blk e (some empty) (empty-Known f) x));
        })
        | inr q ↦
            rw (first_out_inner (liveness_trait f) (backward_graph f) b q)
              (record { known = empty-Known f; live = λ x n. absurd (cc) })
      ]

  module _ (fuel : ℕ) (s : Flow (Option Vars)) (done : liveness fuel f ≡ some s)
      (closed : Closed f) where
    flow_out-Sound : (b : ℕ) → among (block_ids f) b ≡ true → Sound b (s.flow_out b)
    unfolding liveness backward_graph liveness_trait
    flow_out-Sound =
        solve_rule (liveness_trait f) (backward_graph f) Sound first-Sound (keeps-Sound closed) fuel
          s done

    equal-has : (a b : Option Vars) (x : LeftValue) → equal a b ≡ true → has a x ≡ has b x
    equal-has none none x h = refl
    equal-has (some a) (some b) x h = contains-set_eq a b x h
    equal-has none (some b) x h = absurd (cc)
    equal-has (some a) none x h = absurd (cc)

    flow_out-has :
        (b : ℕ) (blk : Block) (x : LeftValue)
        → among (block_ids f) b ≡ true
        → block_at f.blocks b ≡ some blk
        → has (s.flow_out b) x ≡ block_live f blk (incoming s.flow_out b ((cfg f).succ b)) x
    unfolding liveness backward_graph liveness_trait
    flow_out-has b blk x m e =
        let (i, o) = solve-Solves (liveness_trait f) (backward_graph f) fuel s b done m in
        let (kn, hn) = new_in-has s.flow_out b (λ c k. (flow_out-Sound c (closed b c k)).known) in
        let coming = new_in (liveness_trait f) (backward_graph f) s.flow_out b in
        sym (equal-has (s.flow_in b >>= transfer f b) (s.flow_out b) x o)
        ∙ ap (λ a. has (a >>= transfer f b) x) i
        ∙ has-transfer f b blk e coming kn x
        ∙ ap
            (λ y.
              uses_first blk.insts (is_var (exit_used_var blk.exit) x) x
              || (not (defines blk.insts x) && y))
            (hn x)

    Live-has :
        (x : LeftValue) {b : ℕ}
        → Live f x b
        → among (block_ids f) b ≡ true
        → has (s.flow_out b) x ≡ true
    Live-has x {b} (here {blk} e u) m = ground (arith, flow_out-has b blk x m e, u)
    Live-has x {b} (into_phi {blk} c e n k r) m = ground (
      arith,
      flow_out-has b blk x m e,
      n,
      edge_comes s.flow_out b ((cfg f).succ b) c x k (ground (arith, r)),
    )
    Live-has x {b} (onward {blk} c e n k l) m =
        let h = Live-has x l (closed b c k) in
        ground (
          arith,
          flow_out-has b blk x m e,
          n,
          edge_comes s.flow_out b ((cfg f).succ b) c x k (ground (arith, h)),
        )

-- If the exits of a function lead to its blocks, then with enough fuel the analysis ends without an
-- exception, and what it finds at the start of a block of the function is exactly the set of its live
-- variables: a finite set that has a variable if and only if a path from the start of the block leads to
-- a read of it, in a block or by a phi on an edge, without an assignment to it before.
pub liveness-exact :
    (f : Func)
    → Closed f
    → (fuel : ℕ) × (s : Flow (Option Vars)) × (liveness fuel f ≡ some s)
      × ((b : ℕ)
          → among (block_ids f) b ≡ true
          → (vars : Vars) × (s.flow_out b ≡ some vars)
            × (vars.is_universe ≡ false)
            × ((x : LeftValue) → (contains vars x ≡ true) ↔ Live f x b))
unfolding liveness
liveness-exact f closed =
    let fuel = rounds (liveness_trait f) (backward_graph f) (liveness_laws f) in
    let (s, e) =
      solve-total (liveness_trait f) (backward_graph f) (liveness_laws f) fuel (omega arith) in
    (
      fuel,
      s,
      e,
      λ b m.
          let h = flow_out-Sound f fuel s e closed b m in
          (
            h.known.vars,
            h.known.is_some,
            h.known.finite_vars,
            λ x. (
              λ n. h.live x (has-Known f h.known x ∙ n),
              λ l. sym (has-Known f h.known x) ∙ Live-has f fuel s e closed x l m,
            ),
          ),
    )
