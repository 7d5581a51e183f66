-- ===== src/Ir/Flow/Termination.antt =====
-- `while (changed)` of `solve` (src/backend/ir/analysis/dataflow/framework.hpp) ends, by what a trait
-- has to promise: a changed output goes down in the order of the data, and its rank with it.
use ucas_cplab.Common.{
  ℕ, zero, suc, ◌+◌, ◌≤◌, ◌<◌, ◌≡◌, refl, ap, sym, ◌∙◌, subst, Bool, true, false, some, List, [],
  ◌∷◌, ◌⊎◌, inl, inr, if◌then◌else◌, update, update_same, ◌==◌, arith, Bool-cases, ==_iff,
}
use ucas_cplab.Ir.Flow.{
  FlowTrait, FlowGraph, Flow, new_in, meet_edges, visit, sweep, iterate, init_blocks, solve, blank,
}
use ucas_cplab.Ir.Flow.Rules.{
  among, new_in_boundary, update_rule, visit_kept, visit_changed, first_out, init_blocks_rule,
  iterate_on, iterate_done,
}

-- The laws of a trait, for the data that an analysis can reach.
pub record FlowLaws {D : Type 0} (t : FlowTrait D) (g : FlowGraph) : Type 1 where
  pub Reached : D → Type 0
  pub Le : D → D → Type 0
  pub rank : D → ℕ
  pub default-Reached : Reached t.default
  pub boundary-Reached : Reached t.boundary
  pub top-Reached : Reached t.top
  pub meet-Reached : (a b : D) → Reached a → Reached b → Reached (t.meet a b)
  pub transfer-Reached :
      (b : ℕ) (a : D) → among g.blocks b ≡ true → Reached a → Reached (t.transfer b a)
  pub edge-Reached : (p b : ℕ) (a : D) → Reached a → Reached (t.edge_transfer p b a)
  pub le_refl : (a : D) → Reached a → Le a a
  pub below_top : (a : D) → Reached a → Le a t.top
  pub below_boundary : (a : D) → Reached a → Le (t.meet a t.boundary) t.boundary
  pub le_trans : (a b c : D) → Le a b → Le b c → Le a c
  pub meet_mono : (a a' b b' : D) → Le a a' → Le b b' → Le (t.meet a b) (t.meet a' b')
  pub transfer_mono :
      (b : ℕ) (a a' : D) → among g.blocks b ≡ true → Le a a' → Le (t.transfer b a) (t.transfer b a')
  pub edge_mono :
      (p b : ℕ) (a a' : D) → Le a a' → Le (t.edge_transfer p b a) (t.edge_transfer p b a')
  pub rank_lt : (a b : D) → Reached a → Reached b → Le a b → t.equal a b ≡ false → rank a < rank b

module _ {D : Type 0} (t : FlowTrait D) (g : FlowGraph) (l : FlowLaws t g) where
  meet_edges-Reached :
      (out : ℕ → D)
      → ((b : ℕ) → l.Reached (out b))
      → (b : ℕ) (ps : List ℕ) (d : D) → l.Reached d
      → l.Reached (meet_edges t g out b ps d)
  meet_edges-Reached out h b [] d r = r
  meet_edges-Reached out h b (p ∷ ps) d r =
      meet_edges-Reached out h b ps _ (l.meet-Reached d _ r (l.edge-Reached p b _ (h p)))

  new_in-Reached :
      (out : ℕ → D) → ((b : ℕ) → l.Reached (out b)) → (b : ℕ) → l.Reached (new_in t g out b)
  unfolding new_in
  new_in-Reached out h b =
      let m = meet_edges-Reached out h b (g.pred b) t.top l.top-Reached in
      elim (Bool-cases (g.is_boundary b)) [
        | inl q ↦ rw (q, new_in) (l.meet-Reached _ _ m l.boundary-Reached)
        | inr q ↦ rw (q, new_in) m
      ]

  meet_edges_mono :
      (out out' : ℕ → D)
      → ((b : ℕ) → l.Le (out b) (out' b))
      → (b : ℕ) (ps : List ℕ) (d d' : D) → l.Le d d'
      → l.Le (meet_edges t g out b ps d) (meet_edges t g out' b ps d')
  meet_edges_mono out out' h b [] d d' r = r
  meet_edges_mono out out' h b (p ∷ ps) d d' r =
      meet_edges_mono out out' h b ps _ _ (l.meet_mono d d' _ _ r (l.edge_mono p b _ _ (h p)))

  new_in_mono :
      (out out' : ℕ → D)
      → ((b : ℕ) → l.Le (out b) (out' b))
      → (b : ℕ) → l.Le (new_in t g out b) (new_in t g out' b)
  unfolding new_in
  new_in_mono out out' h b =
      let m = meet_edges_mono out out' h b (g.pred b) t.top t.top (l.le_refl t.top l.top-Reached) in
      elim (Bool-cases (g.is_boundary b)) [
        | inl q ↦ rw (q, new_in) (l.meet_mono _ _ _ _ m (l.le_refl t.boundary l.boundary-Reached))
        | inr q ↦ rw (q, new_in) m
      ]

  -- What the equations make of the outputs at a block.
  abbrev next_out : (ℕ → D) → ℕ → D
  next_out out b = t.transfer b (new_in t g out b)

  next_out-first :
      (out : ℕ → D)
      → ((b : ℕ) → l.Reached (out b))
      → (b : ℕ) → among g.blocks b ≡ true
      → l.Le (next_out out b) (first_out t g b)
  next_out-first out h b bm =
      let m = meet_edges-Reached out h b (g.pred b) t.top l.top-Reached in
      let r = new_in-Reached out h b in
      elim (Bool-cases (g.is_boundary b)) [
        | inl q ↦ rw q (
            subst (λ i. l.Le (t.transfer b i) (t.transfer b t.boundary))
              (sym (new_in_boundary t g out b q)) (l.transfer_mono b _ _ bm (l.below_boundary _ m)))
        | inr q ↦ rw q (l.below_top _ (l.transfer-Reached b _ bm r))
      ]

  first_out-Reached : (b : ℕ) → among g.blocks b ≡ true → l.Reached (first_out t g b)
  first_out-Reached b bm = elim (Bool-cases (g.is_boundary b)) [
    | inl q ↦ rw q (l.transfer-Reached b _ bm l.boundary-Reached)
    | inr q ↦ rw q l.top-Reached
  ]

  -- The invariant of the loop: the equations never put an output above where it is.
  record Descends (s : Flow D) : Type 0 where
    reached : (b : ℕ) → l.Reached (s.flow_out b)
    next_le : (b : ℕ) → among g.blocks b ≡ true → l.Le (next_out s.flow_out b) (s.flow_out b)

  module _ (s : Flow D) (b : ℕ) (m : among g.blocks b ≡ true) (h : Descends s) where
    abbrev changed_out : ℕ → D
    changed_out = update s.flow_out b (next_out s.flow_out b)

    changed_out-le : (c : ℕ) → l.Le (changed_out c) (s.flow_out c)
    changed_out-le c =
        update_rule (λ c d. l.Le d (s.flow_out c)) s.flow_out b _ c (h.next_le b m)
          (λ e. l.le_refl _ (h.reached c))

    changed_out-next_le :
        (c : ℕ) → among g.blocks c ≡ true → l.Le (next_out changed_out c) (changed_out c)
    changed_out-next_le c mc =
        let lower : (d : ℕ)
            → among g.blocks d ≡ true
            → l.Le (next_out changed_out d) (next_out s.flow_out d) =
          λ d md. l.transfer_mono d _ _ md (new_in_mono changed_out s.flow_out changed_out-le d) in
        update_rule (λ d o. l.Le (next_out changed_out d) o) s.flow_out b _ c (lower b m)
          (λ e. l.le_trans _ _ _ (lower c mc) (h.next_le c mc))

    changed_out-Descends : (i : ℕ → D) → Descends (record { flow_in = i; flow_out = changed_out })
    changed_out-Descends i = record {
      reached = λ c.
          update_rule (λ d o. l.Reached o) s.flow_out b _ c
            (l.transfer-Reached b _ m (new_in-Reached s.flow_out h.reached b)) (λ e. h.reached c);
      next_le = changed_out-next_le;
    }

    visit-Descends : Descends (visit t g s b).0
    visit-Descends = elim (Bool-cases (t.equal (next_out s.flow_out b) (s.flow_out b))) [
      | inl q ↦
          subst (λ r. Descends r.0) (sym (visit_kept t g s b q))
            (record { reached = h.reached; next_le = h.next_le })
      | inr q ↦ subst (λ r. Descends r.0) (sym (visit_changed t g s b q)) (changed_out-Descends _)
    ]

  abbrev total : List ℕ → (ℕ → D) → ℕ
  total [] out = 0
  total (b ∷ bs) out = l.rank (out b) + total bs out

  total_le :
      (bs : List ℕ) (out out' : ℕ → D)
      → ((c : ℕ) → l.rank (out' c) ≤ l.rank (out c))
      → total bs out' ≤ total bs out
  total_le [] out out' h = omega arith
  total_le (b ∷ bs) out out' h = omega (arith, h b, total_le bs out out' h)

  total_lt :
      (bs : List ℕ) (out out' : ℕ → D) (b : ℕ)
      → ((c : ℕ) → l.rank (out' c) ≤ l.rank (out c))
      → among bs b ≡ true
      → l.rank (out' b) < l.rank (out b)
      → total bs out' < total bs out
  total_lt [] out out' b h m r = absurd (cc)
  total_lt (c ∷ bs) out out' b h m r = elim (Bool-cases (c == b)) [
    | inl e ↦ omega (
      arith,
      subst (λ d. l.rank (out' d) < l.rank (out d)) (sym ((==_iff c b).0 e)) r,
      total_le bs out out' h,
    )
    | inr e ↦ omega (arith, h c, total_lt bs out out' b h (ground arith) r)
  ]

  -- A visit that changes its output makes the sum of the ranks smaller.
  visit-total :
      (s : Flow D) (b : ℕ)
      → among g.blocks b ≡ true
      → Descends s
      → (((visit t g s b).1 ≡ false)
          × (total g.blocks (visit t g s b).0.flow_out ≡ total g.blocks s.flow_out))
        ⊎ (total g.blocks (visit t g s b).0.flow_out < total g.blocks s.flow_out)
  visit-total s b m h = elim (Bool-cases (t.equal (next_out s.flow_out b) (s.flow_out b))) [
    | inl q ↦ let e = visit_kept t g s b q in inl (rw e refl, rw e refl)
    | inr q ↦
        let down =
          l.rank_lt _ _ (l.transfer-Reached b _ m (new_in-Reached s.flow_out h.reached b))
            (h.reached b) (h.next_le b m) q in
        inr (
          rw (visit_changed t g s b q) (
            total_lt g.blocks s.flow_out _ b
              (λ c.
                update_rule (λ c d. l.rank d ≤ l.rank (s.flow_out c)) s.flow_out b _ c
                  (omega (arith, down)) (λ e. omega arith))
              m (rw (update_same s.flow_out b (next_out s.flow_out b)) down)))
  ]

  -- So does a round with a change.
  sweep-total :
      (bs : List ℕ) (s : Flow D) (changed : Bool)
      → ((b : ℕ) → among bs b ≡ true → among g.blocks b ≡ true)
      → Descends s
      → Descends (sweep t g bs s changed).0
        × ((((sweep t g bs s changed).1 ≡ changed)
              × (total g.blocks (sweep t g bs s changed).0.flow_out ≤ total g.blocks s.flow_out))
            ⊎ (total g.blocks (sweep t g bs s changed).0.flow_out < total g.blocks s.flow_out))
  unfolding sweep
  sweep-total [] s changed sub h = (h, inl (refl, omega arith))
  sweep-total (b ∷ bs) s changed sub h =
      let m = sub b (ground arith) in
      let (d, rest) =
        sweep-total bs (visit t g s b).0 (if (visit t g s b).1 then true else changed)
          (λ c q. sub c (ground arith)) (visit-Descends s b m h) in
      (
        d,
        elim (visit-total s b m h) [
          | inr lt ↦ elim rest [ inl e ↦ inr (omega (arith, e.1)) | inr lt' ↦ inr (omega arith) ]
          | inl k ↦ elim rest [
            | inl e ↦ inl (e.0 ∙ ap (λ c. if c then true else changed) k.0, omega (arith, e.1, k.1))
            | inr lt' ↦ inr (omega (arith, k.1))
          ]
        ],
      )

  -- Fuel for one round more than the sum of the ranks is enough.
  iterate-total :
      (n : ℕ) (s : Flow D)
      → Descends s
      → total g.blocks s.flow_out < n
      → (s' : Flow D) × (iterate t g n s ≡ some s')
  iterate-total zero s h lt = absurd (omega arith)
  iterate-total (suc n) s h lt =
      let (d, rest) = sweep-total g.blocks s false (λ b m. m) h in
      elim (Bool-cases (sweep t g g.blocks s false).1) [
        | inr c ↦ (_, iterate_done t g n s c)
        | inl c ↦ elim rest [
          | inl e ↦ absurd (cc)
          | inr less ↦
              let (s', q) = iterate-total n (sweep t g g.blocks s false).0 d (omega arith) in
              (s', iterate_on t g n s c ∙ q)
        ]
      ]

  init_blocks-Descends : Descends (init_blocks t g g.blocks (blank t g))
  init_blocks-Descends =
      let outs : (b : ℕ) → l.Reached ((init_blocks t g g.blocks (blank t g)).flow_out b) = λ b.
        init_blocks_rule t g (λ c d. l.Reached d) first_out-Reached g.blocks (λ c m. m) (blank t g)
          b (inr l.default-Reached) in
      record {
        reached = outs;
        next_le = λ b m.
            init_blocks_rule t g
              (λ c d. l.Le (next_out (init_blocks t g g.blocks (blank t g)).flow_out c) d)
              (next_out-first _ outs) g.blocks (λ c m'. m') (blank t g) b (inl m);
      }

  -- The sum of the ranks that the blocks begin with.
  abbrev pub rounds : ℕ
  rounds = suc (total g.blocks (init_blocks t g g.blocks (blank t g)).flow_out)

  -- For a trait with the laws, `solve` ends with a result as soon as it has fuel for one round more than the
  -- sum of the ranks that the blocks begin with.
  pub solve-total : (n : ℕ) → rounds ≤ n → (s : Flow D) × (solve t g n ≡ some s)
  unfolding solve
  solve-total n le = iterate-total n _ init_blocks-Descends (omega (arith, le))
