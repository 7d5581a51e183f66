-- ===== src/Ir/Flow/Rules.antt =====
-- The loops of `solve` (src/backend/ir/analysis/dataflow/framework.hpp): how they unfold, and the rules
-- for what every visit keeps.
use ucas_cplab.Common.{
  ℕ, zero, suc, ◌≡◌, refl, sym, ◌∙◌, subst, ◌≢◌, Bool, true, false, some, List, [], ◌∷◌, ◌⊎◌, inl,
  inr, if◌then◌else◌, update, update_same, update_other, ◌==◌, any, arith, Bool-cases, ==_iff,
}
use ucas_cplab.Ir.Flow.{
  FlowTrait, FlowGraph, Flow, set_block, new_in, meet_edges, visit, sweep, iterate, init_blocks,
  solve, blank,
}

abbrev pub among : List ℕ → ℕ → Bool
among bs b = any (λ c. c == b) bs

pub some-injective {ℓ} : {A : Type ℓ} (a b : A) → some a ≡ some b → a ≡ b
some-injective a b e = cc

-- Assignment, for what is true of the new value at the key and of the others elsewhere.
pub update_rule :
    {D : Type 0} (R : ℕ → D → Type 0) (f : ℕ → D) (x : ℕ) (v : D) (b : ℕ)
    → R x v
    → ((b == x) ≡ false → R b (f b))
    → R b (update f x v b)
update_rule R f x v b here there = elim (Bool-cases (b == x)) [
  | inl e ↦
      let same = (==_iff b x).0 e in
      subst (λ c. R c (update f x v c)) (sym same) (subst (R x) (sym (update_same f x v)) here)
  | inr e ↦ subst (R b) (sym (update_other f x b v e)) (there e)
]

module _ {D : Type 0} (t : FlowTrait D) (g : FlowGraph) where
  pub iterate-zero : (s s' : Flow D) → iterate t g 0 s ≢ some s'
  unfolding iterate
  iterate-zero s s' e = absurd (cc)

  pub iterate_on :
      (n : ℕ) (s : Flow D)
      → (sweep t g g.blocks s false).1 ≡ true
      → iterate t g (suc n) s ≡ iterate t g n (sweep t g g.blocks s false).0
  unfolding iterate
  iterate_on n s c = rw (c, iterate) refl

  pub iterate_done :
      (n : ℕ) (s : Flow D)
      → (sweep t g g.blocks s false).1 ≡ false
      → iterate t g (suc n) s ≡ some (sweep t g g.blocks s false).0
  unfolding iterate
  iterate_done n s c = rw (c, iterate) refl

  -- A rule for invariants: what every visit keeps, the loop keeps.
  module _ (P : Flow D → Type 0)
      (keeps : (s : Flow D) (b : ℕ) → among g.blocks b ≡ true → P s → P (visit t g s b).0) where
    pub sweep_rule :
        (bs : List ℕ) (s : Flow D) (changed : Bool)
        → ((b : ℕ) → among bs b ≡ true → among g.blocks b ≡ true)
        → P s
        → P (sweep t g bs s changed).0
    unfolding sweep
    sweep_rule [] s changed sub h = h
    sweep_rule (b ∷ bs) s changed sub h =
        sweep_rule bs (visit t g s b).0 _ (λ c m. sub c (ground arith))
          (keeps s b (sub b (ground arith)) h)

    pub iterate_rule : (n : ℕ) (s s' : Flow D) → P s → iterate t g n s ≡ some s' → P s'
    iterate_rule zero s s' h e = absurd (iterate-zero s s' e)
    iterate_rule (suc n) s s' h e =
        let s1 = (sweep t g g.blocks s false).0 in
        let h1 = sweep_rule g.blocks s false (λ b m. m) h in
        elim (Bool-cases (sweep t g g.blocks s false).1) [
          | inl c ↦ iterate_rule n s1 s' h1 (sym (iterate_on n s c) ∙ e)
          | inr c ↦ subst P (some-injective _ _ (sym (iterate_done n s c) ∙ e)) h1
        ]

  -- The two ways in which a visit ends.
  pub visit_kept :
      (s : Flow D) (b : ℕ)
      → t.equal (t.transfer b (new_in t g s.flow_out b)) (s.flow_out b) ≡ true
      → visit t g s b ≡ (record s { flow_in = update s.flow_in b (new_in t g s.flow_out b) }, false)
  unfolding visit
  visit_kept s b q = rw (q, visit) refl

  pub visit_changed :
      (s : Flow D) (b : ℕ)
      → t.equal (t.transfer b (new_in t g s.flow_out b)) (s.flow_out b) ≡ false
      → visit t g s b ≡ (
        set_block t g s b (new_in t g s.flow_out b) (t.transfer b (new_in t g s.flow_out b)),
        true,
      )
  unfolding visit
  visit_changed s b q = rw (q, visit) refl

  -- What a visit makes of the outputs.
  pub visit_out :
      (R : ℕ → D → Type 0) (s : Flow D) (x b : ℕ)
      → R b (s.flow_out b)
      → R x (t.transfer x (new_in t g s.flow_out x))
      → R b ((visit t g s x).0.flow_out b)
  visit_out R s x b old new =
      elim (Bool-cases (t.equal (t.transfer x (new_in t g s.flow_out x)) (s.flow_out x))) [
        | inl q ↦ subst (λ r. R b (r.0.flow_out b)) (sym (visit_kept s x q)) old
        | inr q ↦
            subst (λ r. R b (r.0.flow_out b)) (sym (visit_changed s x q))
              (update_rule R s.flow_out x _ b new (λ e. old))
      ]

  pub new_in_boundary :
      (out : ℕ → D) (b : ℕ)
      → g.is_boundary b ≡ true
      → new_in t g out b ≡ t.meet (meet_edges t g out b (g.pred b) t.top) t.boundary
  unfolding new_in
  new_in_boundary out b q = rw q refl

  pub new_in_inner :
      (out : ℕ → D) (b : ℕ)
      → g.is_boundary b ≡ false
      → new_in t g out b ≡ meet_edges t g out b (g.pred b) t.top
  unfolding new_in
  new_in_inner out b q = rw q refl

  -- What a boundary and a block that is none begin with.
  abbrev pub first_out : ℕ → D
  first_out b = if g.is_boundary b then t.transfer b t.boundary else t.top

  pub first_out_boundary : (b : ℕ) → g.is_boundary b ≡ true → first_out b ≡ t.transfer b t.boundary
  first_out_boundary b q = rw q refl

  pub first_out_inner : (b : ℕ) → g.is_boundary b ≡ false → first_out b ≡ t.top
  first_out_inner b q = rw q refl

  init_blocks-cons :
      (x : ℕ) (bs : List ℕ) (s : Flow D)
      → (u : Flow D) × (init_blocks t g (x ∷ bs) s ≡ init_blocks t g bs u)
        × (u.flow_out ≡ update s.flow_out x (first_out x))
  unfolding init_blocks
  init_blocks-cons x bs s = elim (Bool-cases (g.is_boundary x)) [
    | inl q ↦ rw (q, init_blocks) (_, refl, refl)
    | inr q ↦ rw (q, init_blocks) (_, refl, refl)
  ]

  listed :
      {R : Type 0} (x : ℕ) (bs : List ℕ) (b : ℕ)
      → among bs b ≡ false
      → (b == x) ≡ false
      → (among (x ∷ bs) b ≡ true) ⊎ R
      → R
  listed x bs b n q (inl m) = absurd (ground arith)
  listed x bs b n q (inr r) = r

  pub init_blocks_rule :
      (R : ℕ → D → Type 0)
      → ((b : ℕ) → among g.blocks b ≡ true → R b (first_out b))
      → (bs : List ℕ) → ((b : ℕ) → among bs b ≡ true → among g.blocks b ≡ true)
      → (s : Flow D) (b : ℕ) → (among bs b ≡ true) ⊎ R b (s.flow_out b)
      → R b ((init_blocks t g bs s).flow_out b)
  init_blocks_rule R first [] sub s b (inl m) = absurd (cc)
  init_blocks_rule R first [] sub s b (inr h) = unfold init_blocks in h
  init_blocks_rule R first (x ∷ bs) sub s b h =
      let (u, e, o) = init_blocks-cons x bs s in
      subst (λ s'. R b (s'.flow_out b)) (sym e)
        (init_blocks_rule R first bs (λ c m. sub c (ground arith)) u b
          (elim (Bool-cases (among bs b)) [
            | inl m ↦ inl m
            | inr n ↦ inr (
                subst (λ f. R b (f b)) (sym o)
                  (update_rule R s.flow_out x (first_out x) b (first x (sub x (ground arith)))
                    (λ q. listed x bs b n q h)))
          ]))

  -- What every block begins with, and what a visit gives a block when every block has it, is true of
  -- every output at the end.
  pub solve_rule :
      (R : ℕ → D → Type 0)
      → ((b : ℕ) → among g.blocks b ≡ true → R b (first_out b))
      → ((out : ℕ → D)
          → ((b : ℕ) → among g.blocks b ≡ true → R b (out b))
          → (b : ℕ) → among g.blocks b ≡ true
          → R b (t.transfer b (new_in t g out b)))
      → (n : ℕ) (s : Flow D) → solve t g n ≡ some s
      → (b : ℕ) → among g.blocks b ≡ true
      → R b (s.flow_out b)
  unfolding solve
  solve_rule R first keeps n s e =
      iterate_rule (λ u. (b : ℕ) → among g.blocks b ≡ true → R b (u.flow_out b))
        (λ u x mx h b m. visit_out R u x b (h b m) (keeps u.flow_out h x mx)) n _ s
        (λ b m. init_blocks_rule R first g.blocks (λ c m'. m') (blank t g) b (inl m)) e
