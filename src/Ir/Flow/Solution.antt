-- ===== src/Ir/Flow/Solution.antt =====
-- What `solve` of src/backend/ir/analysis/dataflow/framework.hpp returns solves the equations.
use ucas_cplab.Common.{
  ℕ, zero, suc, ◌≡◌, refl, ap, sym, ◌∙◌, subst, ◌≢◌, true, false, some, List, [], ◌∷◌, ◌⊎◌, inl,
  inr, update, update_same, update_other, ◌==◌, arith, Bool-cases, ==_iff,
}
use ucas_cplab.Ir.Flow.{FlowTrait, FlowGraph, Flow, new_in, visit, sweep, iterate, solve}
use ucas_cplab.Ir.Flow.Rules.{
  among, iterate-zero, some-injective, iterate_on, iterate_done, visit_kept, visit_changed,
}

true-ne-false : true ≢ false
true-ne-false e = absurd (cc)

module _ {D : Type 0} (t : FlowTrait D) (g : FlowGraph) where
  -- The two equations of a block: its input is the meet of what comes in, and its output is what the
  -- transfer function makes of the input.
  abbrev pub Solves : Flow D → ℕ → Type 0
  Solves s b =
      (s.flow_in b ≡ new_in t g s.flow_out b)
      × (t.equal (t.transfer b (s.flow_in b)) (s.flow_out b) ≡ true)

  pub sweep-true : (bs : List ℕ) (s : Flow D) → (sweep t g bs s true).1 ≡ true
  unfolding sweep
  sweep-true [] s = refl
  sweep-true (b ∷ bs) s = elim (Bool-cases (visit t g s b).1) [
    | inl c ↦ rw (c, sweep) (sweep-true bs (visit t g s b).0)
    | inr c ↦ rw (c, sweep) (sweep-true bs (visit t g s b).0)
  ]

  Solves-update_here :
      (s : Flow D) (x b : ℕ)
      → t.equal (t.transfer x (new_in t g s.flow_out x)) (s.flow_out x) ≡ true
      → b ≡ x
      → Solves (record s { flow_in = update s.flow_in x (new_in t g s.flow_out x) }) b
  Solves-update_here s x b q e =
      let here = update_same s.flow_in x (new_in t g s.flow_out x) in rw e (here, rw here q)

  Solves-update :
      (s : Flow D) (x b : ℕ)
      → t.equal (t.transfer x (new_in t g s.flow_out x)) (s.flow_out x) ≡ true
      → (b ≡ x) ⊎ Solves s b
      → Solves (record s { flow_in = update s.flow_in x (new_in t g s.flow_out x) }) b
  Solves-update s x b q (inl e) = Solves-update_here s x b q e
  Solves-update s x b q (inr (i, o)) = elim (Bool-cases (b == x)) [
    | inl e ↦ Solves-update_here s x b q ((==_iff b x).0 e)
    | inr e ↦
        let there = update_other s.flow_in x b (new_in t g s.flow_out x) e in
        (there ∙ i, rw there o)
  ]

  sweep_changed :
      (x : ℕ) (bs : List ℕ) (s : Flow D)
      → t.equal (t.transfer x (new_in t g s.flow_out x)) (s.flow_out x) ≡ false
      → (sweep t g (x ∷ bs) s false).1 ≡ true
  unfolding sweep
  sweep_changed x bs s q = rw (visit_changed t g s x q, sweep) (sweep-true bs _)

  sweep_kept :
      (x : ℕ) (bs : List ℕ) (s : Flow D)
      → t.equal (t.transfer x (new_in t g s.flow_out x)) (s.flow_out x) ≡ true
      → sweep t g (x ∷ bs) s false
        ≡ sweep t g bs (record s { flow_in = update s.flow_in x (new_in t g s.flow_out x) }) false
  unfolding sweep
  sweep_kept x bs s q = rw (visit_kept t g s x q, sweep) refl

  visited :
      (x : ℕ) (bs : List ℕ) (s : Flow D) (b : ℕ)
      → t.equal (t.transfer x (new_in t g s.flow_out x)) (s.flow_out x) ≡ true
      → (among (x ∷ bs) b ≡ true) ⊎ Solves s b
      → (among bs b ≡ true)
        ⊎ Solves (record s { flow_in = update s.flow_in x (new_in t g s.flow_out x) }) b
  visited x bs s b q (inr h) = inr (Solves-update s x b q (inr h))
  visited x bs s b q (inl m) = elim (Bool-cases (x == b)) [
    | inl e ↦ inr (Solves-update s x b q (inl (sym ((==_iff x b).0 e))))
    | inr e ↦ inl (ground arith)
  ]

  -- A round without a change leaves the outputs, and then every block that it visits is solved.
  sweep_same :
      (bs : List ℕ) (s : Flow D)
      → (sweep t g bs s false).1 ≡ false
      → (b : ℕ) → (among bs b ≡ true) ⊎ Solves s b
      → Solves (sweep t g bs s false).0 b
  sweep_same [] s c b (inl m) = absurd (cc)
  sweep_same [] s c b (inr h) = unfold sweep in h
  sweep_same (x ∷ bs) s c b h =
      elim (Bool-cases (t.equal (t.transfer x (new_in t g s.flow_out x)) (s.flow_out x))) [
        | inr q ↦ absurd (true-ne-false (sym (sweep_changed x bs s q) ∙ c))
        | inl q ↦
            subst (λ r. Solves r.0 b) (sym (sweep_kept x bs s q))
              (sweep_same bs _ (sym (ap (λ r. r.1) (sweep_kept x bs s q)) ∙ c) b
                (visited x bs s b q h))
      ]

  -- When `solve` returns, the equations of every block hold.
  pub iterate-Solves :
      (n : ℕ) (s s' : Flow D) (b : ℕ)
      → iterate t g n s ≡ some s'
      → among g.blocks b ≡ true
      → Solves s' b
  iterate-Solves zero s s' b e m = absurd (iterate-zero t g s s' e)
  iterate-Solves (suc n) s s' b e m = elim (Bool-cases (sweep t g g.blocks s false).1) [
    | inl c ↦
        iterate-Solves n (sweep t g g.blocks s false).0 s' b (sym (iterate_on t g n s c) ∙ e) m
    | inr c ↦
        subst (λ r. Solves r b) (some-injective _ _ (sym (iterate_done t g n s c) ∙ e))
          (sweep_same g.blocks s c b (inl m))
  ]

  pub solve-Solves :
      (n : ℕ) (s : Flow D) (b : ℕ) → solve t g n ≡ some s → among g.blocks b ≡ true → Solves s b
  unfolding solve
  solve-Solves n s b e m = iterate-Solves n _ s b e m
