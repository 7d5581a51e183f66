-- ===== src/Ir/Dominance/Paths.antt =====
-- Dominators (src/backend/ir/analysis/dataflow/dominance.hpp) as what is on every path.
use ucas_cplab.Common.{
  ℕ, ◌≡◌, ◌≢◌, ap, sym, ◌∙◌, ◌↔◌, subst, true, false, ◌&&◌, ◌||◌, some, List, [], ◌∷◌, inl, inr,
  ◌==◌, all, nat_eq, ==_iff, arith, Bool-cases,
}
use ucas_cplab.Ir.Inst.{Func, block_ids}
use ucas_cplab.Ir.Cfg.{cfg, pred-block}
use ucas_cplab.Ir.Flow.{Flow, meet_edges, new_in}
use ucas_cplab.Ir.Flow.Rules.{
  among, first_out, first_out_boundary, first_out_inner, new_in_boundary, new_in_inner, solve_rule,
}
use ucas_cplab.Ir.Flow.Solution.{Solves, solve-Solves}
use ucas_cplab.Ir.Flow.Termination.{rounds, solve-total}
use ucas_cplab.Ir.Flow.Set.{Set, count, universe, empty, contains, insert}
use ucas_cplab.Ir.Flow.Set.Member.{contains-insert, contains-intersection, contains-set_eq}
use ucas_cplab.Ir.Dominance.{
  dominance_trait, forward_graph, dominators, Avoids, start, onward, dominance_laws,
}

module _ (f : Func) (d : ℕ) where
  contains-meet_edges :
      (out : ℕ → Set ℕ) (b : ℕ) (ps : List ℕ) (a : Set ℕ)
      → contains (meet_edges dominance_trait (forward_graph f) out b ps a) d
        ≡ (contains a d && all (λ p. contains (out p) d) ps)
  unfolding dominance_trait
  contains-meet_edges out b [] a = ground arith
  contains-meet_edges out b (p ∷ ps) a = ground (
    arith,
    contains-intersection a (out p) d,
    contains-meet_edges out b ps (dominance_trait.meet a (out p)),
  )

  in_top : contains dominance_trait.top d ≢ false
  unfolding dominance_trait contains
  in_top h = absurd (cc)

  met :
      (out : ℕ → Set ℕ) (b : ℕ) (ps : List ℕ)
      → contains (meet_edges dominance_trait (forward_graph f) out b ps dominance_trait.top) d
        ≡ false
      → all (λ p. contains (out p) d) ps ≡ false
  unfolding dominance_trait contains
  met out b ps h = ground (arith, contains-meet_edges out b ps dominance_trait.top)

  -- The flow of a block has `d` if it is the block or is in what flows in.
  contains-transfer :
      (b : ℕ) (a : Set ℕ) → contains (dominance_trait.transfer b a) d ≡ (b == d || contains a d)
  unfolding dominance_trait
  contains-transfer b a = contains-insert a b d

  absent :
      (out : ℕ → Set ℕ) (ps : List ℕ)
      → all (λ p. contains (out p) d) ps ≡ false
      → (p : ℕ) × (count ps p ≡ true) × (contains (out p) d ≡ false)
  absent out [] h = absurd (cc)
  absent out (p ∷ ps) h = elim (Bool-cases (contains (out p) d)) [
    | inr n ↦ (p, ground arith, n)
    | inl y ↦ let (q, m, n) = absent out ps (ground arith) in (q, ground (arith, m), n)
  ]

  one_lacks :
      (out : ℕ → Set ℕ) (ps : List ℕ) (p : ℕ)
      → count ps p ≡ true
      → contains (out p) d ≡ false
      → all (λ q. contains (out q) d) ps ≡ false
  one_lacks out [] p k h = absurd (cc)
  one_lacks out (q ∷ ps) p k h = elim (Bool-cases (q == p)) [
    | inl e ↦ ground (arith, h, subst (λ r. contains (out r) d ≡ false) (sym ((==_iff q p).0 e)) h)
    | inr e ↦ ground (arith, one_lacks out ps p (ground arith) h)
  ]

  lacks :
      (b : ℕ) (a : Set ℕ)
      → contains (dominance_trait.transfer b a) d ≡ false
      → ((d == b) ≡ false) × (contains a d ≡ false)
  lacks b a h = ground (arith, contains-transfer b a)

  -- Where `d` is missing from the start, there is such a path.
  first-Avoids :
      (b : ℕ) → contains (first_out dominance_trait (forward_graph f) b) d ≡ false → Avoids f d b
  unfolding forward_graph
  first-Avoids b h = elim (Bool-cases ((forward_graph f).is_boundary b)) [
    | inl q ↦
        let e = first_out_boundary dominance_trait (forward_graph f) b q in
        start q (lacks b dominance_trait.boundary (sym (ap (λ a. contains a d) e) ∙ h)).0
    | inr q ↦ absurd (
        in_top (
          sym (ap (λ a. contains a d) (first_out_inner dominance_trait (forward_graph f) b q)) ∙ h))
  ]

  keeps-Avoids :
      (out : ℕ → Set ℕ)
      → ((b : ℕ) → among (block_ids f) b ≡ true → contains (out b) d ≡ false → Avoids f d b)
      → (b : ℕ)
      → contains (dominance_trait.transfer b (new_in dominance_trait (forward_graph f) out b)) d
        ≡ false
      → Avoids f d b
  unfolding forward_graph
  keeps-Avoids out h b n =
      let (ne, m) = lacks b _ n in
      elim (Bool-cases ((forward_graph f).is_boundary b)) [
        | inl q ↦ start q ne
        | inr q ↦
            let e = new_in_inner dominance_trait (forward_graph f) out b q in
            let (p, k, l) =
              absent out ((cfg f).pred b) (met out b _ (sym (ap (λ a. contains a d) e) ∙ m)) in
            onward (h p (pred-block f p b k) l) k ne
      ]

  -- A block without `d` in its flow is at the end of a path without `d`.
  pub missing-Avoids :
      (fuel : ℕ) (s : Flow (Set ℕ))
      → dominators fuel f ≡ some s
      → (b : ℕ) → among (block_ids f) b ≡ true
      → contains (s.flow_out b) d ≡ false
      → Avoids f d b
  unfolding dominators forward_graph
  missing-Avoids fuel s e =
      solve_rule dominance_trait (forward_graph f) (λ b a. contains a d ≡ false → Avoids f d b)
        (λ b m. first-Avoids b) (λ out h b m. keeps-Avoids out h b) fuel s e

  module _ (s : Flow (Set ℕ)) (b : ℕ) (sol : Solves dominance_trait (forward_graph f) s b) where
    flow_lacks :
        (d == b) ≡ false
        → contains (new_in dominance_trait (forward_graph f) s.flow_out b) d ≡ false
        → contains (s.flow_out b) d ≡ false
    unfolding dominance_trait
    flow_lacks ne h =
        let (i, o) = sol in
        let flowed = ap (λ a. contains a d) i ∙ h in
        let same = contains-set_eq (insert (s.flow_in b) b) (s.flow_out b) d o in
        ground (arith, contains-insert (s.flow_in b) b d, same)

    boundary_lacks :
        (forward_graph f).is_boundary b ≡ true
        → contains (new_in dominance_trait (forward_graph f) s.flow_out b) d ≡ false
    unfolding dominance_trait contains
    boundary_lacks q =
        let m =
          meet_edges dominance_trait (forward_graph f) s.flow_out b ((forward_graph f).pred b)
            universe in
        ap (λ a. contains a d) (new_in_boundary dominance_trait (forward_graph f) s.flow_out b q)
        ∙ ground (arith, contains-intersection m empty d)

    pred_lacks :
        (a : ℕ)
        → count ((cfg f).pred b) a ≡ true
        → contains (s.flow_out a) d ≡ false
        → contains (new_in dominance_trait (forward_graph f) s.flow_out b) d ≡ false
    unfolding forward_graph
    pred_lacks a k h = elim (Bool-cases ((forward_graph f).is_boundary b)) [
      | inl q ↦ boundary_lacks q
      | inr q ↦
          ap (λ a. contains a d) (new_in_inner dominance_trait (forward_graph f) s.flow_out b q)
          ∙ ground (
            arith,
            contains-meet_edges s.flow_out b ((cfg f).pred b) dominance_trait.top,
            one_lacks s.flow_out ((cfg f).pred b) a k h,
          )
    ]

  -- And along such a path, no block has it.
  pub Avoids-missing :
      (fuel : ℕ) (s : Flow (Set ℕ))
      → dominators fuel f ≡ some s
      → {b : ℕ} → Avoids f d b
      → among (block_ids f) b ≡ true
      → contains (s.flow_out b) d ≡ false
  unfolding dominators forward_graph
  Avoids-missing fuel s e {b} (start q ne) m =
      let sol = solve-Solves dominance_trait (forward_graph f) fuel s b e m in
      flow_lacks s b sol ne (boundary_lacks s b sol q)
  Avoids-missing fuel s e {b} (onward {a} path k ne) m =
      let sol = solve-Solves dominance_trait (forward_graph f) fuel s b e m in
      flow_lacks s b sol ne
        (pred_lacks s b sol a k (Avoids-missing fuel s e path (pred-block f a b k)))

-- With enough fuel for the rounds that a function can take, the analysis ends, and what it finds for a
-- block of the function is exactly its dominators: a block `d` is missing from the set of `b` if and only
-- if a path from the entrance leads to `b` without meeting `d`.
pub dominators-exact :
    (f : Func)
    → (fuel : ℕ) × (s : Flow (Set ℕ)) × (dominators fuel f ≡ some s)
      × ((b d : ℕ)
          → among (block_ids f) b ≡ true
          → (contains (s.flow_out b) d ≡ false) ↔ Avoids f d b)
unfolding dominators forward_graph
dominators-exact f =
    let fuel = rounds dominance_trait (forward_graph f) (dominance_laws f) in
    let (s, e) =
      solve-total dominance_trait (forward_graph f) (dominance_laws f) fuel (omega arith) in
    (fuel, s, e, λ b d m. (missing-Avoids f d fuel s e b m, λ p. Avoids-missing f d fuel s e p m))
