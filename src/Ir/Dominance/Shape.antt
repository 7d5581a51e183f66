-- ===== src/Ir/Dominance/Shape.antt =====
-- The sets that the dominance analysis (src/backend/ir/analysis/dataflow/dominance.hpp) ends with: lists
-- without repetitions, and finite at the blocks that the entrance reaches.
use ucas_cplab.Common.{
  ℕ, ◌≡◌, refl, ap, sym, ◌∙◌, subst, ◌⊎◌, inl, inr, true, false, some, List, [], ◌∷◌, ◌==◌, ==_iff,
  nat_eq, arith, Bool-cases,
}
use ucas_cplab.Ir.Inst.{Func, block_ids}
use ucas_cplab.Ir.Cfg.{cfg, pred-block}
use ucas_cplab.Ir.Flow.{Flow, meet_edges, new_in}
use ucas_cplab.Ir.Flow.Rules.{among, first_out, new_in_boundary, new_in_inner, solve_rule}
use ucas_cplab.Ir.Flow.Solution.{solve-Solves}
use ucas_cplab.Ir.Flow.Set.{Set, count, set_eq, insert, intersection_set, empty, universe}
use ucas_cplab.Ir.Flow.Set.Distinct.{distinct, distinct-intersection, distinct-insert}
use ucas_cplab.Ir.Dominance.{dominance_trait, forward_graph, dominators}
use ucas_cplab.Ir.Dominance.Order.{Reaches, entrance, next}

module _ (f : Func) where
  distinct-meet_edges :
      (out : ℕ → Set ℕ) (b : ℕ) (ps : List ℕ) (a : Set ℕ)
      → ((p : ℕ) → count ps p ≡ true → distinct (out p).elems ≡ true)
      → distinct a.elems ≡ true
      → distinct (meet_edges dominance_trait (forward_graph f) out b ps a).elems ≡ true
  unfolding dominance_trait
  distinct-meet_edges out b [] a h d = d
  distinct-meet_edges out b (p ∷ ps) a h d =
      distinct-meet_edges out b ps _ (λ q m. h q (ground arith))
        (distinct-intersection a (out p) d (h p (ground arith)))

  first-distinct : (b : ℕ) → distinct (first_out dominance_trait (forward_graph f) b).elems ≡ true
  unfolding dominance_trait
  first-distinct b = elim (Bool-cases ((forward_graph f).is_boundary b)) [
    | inl q ↦ rw q (distinct-insert empty b refl)
    | inr q ↦ rw q refl
  ]

  keeps-distinct :
      (out : ℕ → Set ℕ)
      → ((b : ℕ) → among (block_ids f) b ≡ true → distinct (out b).elems ≡ true)
      → (b : ℕ)
      → distinct (dominance_trait.transfer b (new_in dominance_trait (forward_graph f) out b)).elems
        ≡ true
  unfolding dominance_trait forward_graph
  keeps-distinct out h b =
      let met =
        distinct-meet_edges out b ((cfg f).pred b) universe (λ p k. h p (pred-block f p b k))
          refl in
      distinct-insert _ b (elim (Bool-cases ((forward_graph f).is_boundary b)) [
        | inl q ↦
            subst (λ a. distinct a.elems ≡ true)
              (sym (new_in_boundary dominance_trait (forward_graph f) out b q))
              (distinct-intersection _ empty met refl)
        | inr q ↦
            subst (λ a. distinct a.elems ≡ true)
              (sym (new_in_inner dominance_trait (forward_graph f) out b q)) met
      ])

  finite_meet :
      (out : ℕ → Set ℕ) (b : ℕ) (ps : List ℕ) (a : Set ℕ) (p : ℕ)
      → (a.is_universe ≡ false) ⊎ ((count ps p ≡ true) × ((out p).is_universe ≡ false))
      → (meet_edges dominance_trait (forward_graph f) out b ps a).is_universe ≡ false
  unfolding dominance_trait intersection_set
  finite_meet out b [] a p (inl h) = h
  finite_meet out b [] a p (inr h) = absurd (ground (arith, h.0))
  finite_meet out b (q ∷ ps) a p (inl h) = finite_meet out b ps _ p (inl (ground arith))
  finite_meet out b (q ∷ ps) a p (inr (k, h)) = elim (Bool-cases (q == p)) [
    | inl e ↦
        let fin = subst (λ r. (out r).is_universe ≡ false) (sym ((==_iff q p).0 e)) h in
        finite_meet out b ps _ p (inl (ground (arith, fin)))
    | inr e ↦ finite_meet out b ps _ p (inr (ground arith, h))
  ]

  empty_finite : (a : Set ℕ) → (intersection_set a empty).is_universe ≡ false
  unfolding intersection_set
  empty_finite a = ground arith

  boundary_finite :
      (out : ℕ → Set ℕ) (b : ℕ)
      → (forward_graph f).is_boundary b ≡ true
      → (new_in dominance_trait (forward_graph f) out b).is_universe ≡ false
  unfolding dominance_trait
  boundary_finite out b q =
      ap (λ a. a.is_universe) (new_in_boundary dominance_trait (forward_graph f) out b q)
      ∙ empty_finite _

  pred_finite :
      (out : ℕ → Set ℕ) (b p : ℕ)
      → count ((cfg f).pred b) p ≡ true
      → (out p).is_universe ≡ false
      → (new_in dominance_trait (forward_graph f) out b).is_universe ≡ false
  unfolding forward_graph
  pred_finite out b p k h = elim (Bool-cases ((forward_graph f).is_boundary b)) [
    | inl q ↦ boundary_finite out b q
    | inr q ↦
        ap (λ a. a.is_universe) (new_in_inner dominance_trait (forward_graph f) out b q)
        ∙ finite_meet out b ((cfg f).pred b) dominance_trait.top p (inr (k, h))
  ]

  module _ (fuel : ℕ) (s : Flow (Set ℕ)) (e : dominators fuel f ≡ some s) where
    pub flow_out-distinct :
        (b : ℕ) → among (block_ids f) b ≡ true → distinct (s.flow_out b).elems ≡ true
    unfolding dominators forward_graph
    flow_out-distinct =
        solve_rule dominance_trait (forward_graph f) (λ b a. distinct a.elems ≡ true)
          (λ b m. first-distinct b) (λ out h b m. keeps-distinct out h b) fuel s e

    finite_flow :
        (b : ℕ)
        → among (block_ids f) b ≡ true
        → (new_in dominance_trait (forward_graph f) s.flow_out b).is_universe ≡ false
        → (s.flow_out b).is_universe ≡ false
    unfolding dominators forward_graph dominance_trait set_eq insert
    finite_flow b m h =
        let (i, o) = solve-Solves dominance_trait (forward_graph f) fuel s b e m in
        let flowed = ap (λ a. a.is_universe) i ∙ h in ground (arith, flowed, o)

    pub flow_out-finite :
        {b : ℕ} → Reaches f b → among (block_ids f) b ≡ true → (s.flow_out b).is_universe ≡ false
    unfolding forward_graph
    flow_out-finite {b} (entrance q) m = finite_flow b m (boundary_finite s.flow_out b q)
    flow_out-finite {b} (next {a} r k) m =
        let fin = flow_out-finite r (pred-block f a b k) in
        finite_flow b m (pred_finite s.flow_out b a k fin)
