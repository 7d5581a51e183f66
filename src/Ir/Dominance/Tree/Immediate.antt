-- ===== src/Ir/Dominance/Tree/Immediate.antt =====
-- The block that `DominanceTree` (src/backend/ir/analysis/dominance.hpp) takes as the immediate dominator
-- is the nearest one.
use ucas_cplab.Common.{
  ℕ, ◌≤◌, ◌<◌, ◌≡◌, ◌≢◌, sym, ◌∙◌, ◌⊎◌, inl, inr, true, false, Option, none, some, ◌==◌, ==_iff,
  nat_eq, arith, Bool-cases,
}
use ucas_cplab.Ir.Inst.{Func, block_ids}
use ucas_cplab.Ir.Cfg.{pred-block}
use ucas_cplab.Ir.Flow.{Flow}
use ucas_cplab.Ir.Flow.Rules.{among}
use ucas_cplab.Ir.Flow.Set.{Set, count, contains}
use ucas_cplab.Ir.Flow.Set.Distinct.{distinct-length_lt}
use ucas_cplab.Ir.Dominance.{dominators, Avoids, start, onward}
use ucas_cplab.Ir.Dominance.Shape.{flow_out-distinct, flow_out-finite}
use ucas_cplab.Ir.Dominance.Paths.{missing-Avoids, Avoids-missing, dominators-exact}
use ucas_cplab.Ir.Dominance.Order.{
  Reaches, entrance, next, Dominates, Avoids-ne, Dominates-chain, Dominates-trans,
  Dominates-antisym,
}
use ucas_cplab.Ir.Dominance.Tree.{idom_of}
use ucas_cplab.Ir.Dominance.Tree.Idom.{Chosen, alone, heaviest, idom_of-Chosen, weight}

true-ne-false : true ≢ false
true-ne-false e = absurd (cc)

module _ (f : Func) where
  -- A path to `w` meets `x`, or is one without `x`.
  meets :
      (x : ℕ) {w : ℕ}
      → Reaches f w
      → among (block_ids f) w ≡ true
      → (Reaches f x × (among (block_ids f) x ≡ true)) ⊎ Avoids f x w
  meets x {w} (entrance q) m = elim (Bool-cases (x == w)) [
    | inl e ↦ inl (rw ((==_iff x w).0 e) (entrance q, m))
    | inr n ↦ inr (start q n)
  ]
  meets x {w} (next {a} r k) m = elim (Bool-cases (x == w)) [
    | inl e ↦ inl (rw ((==_iff x w).0 e) (next r k, m))
    | inr n ↦ elim (meets x r (pred-block f a w k)) [ inl h ↦ inl h | inr p ↦ inr (onward p k n) ]
  ]

  dominator-Reaches :
      (x w : ℕ)
      → Reaches f w
      → among (block_ids f) w ≡ true
      → Dominates f x w
      → Reaches f x × (among (block_ids f) x ≡ true)
  dominator-Reaches x w r m h = elim (meets x r m) [ inl q ↦ q | inr p ↦ absurd (h p) ]

  module _ (fuel : ℕ) (s : Flow (Set ℕ)) (e : dominators fuel f ≡ some s) where
    member-Dominates :
        (d b : ℕ)
        → among (block_ids f) b ≡ true
        → contains (s.flow_out b) d ≡ true
        → Dominates f d b
    member-Dominates d b m h p = true-ne-false (sym h ∙ Avoids-missing f d fuel s e p m)

    Dominates-member :
        (d b : ℕ)
        → among (block_ids f) b ≡ true
        → Dominates f d b
        → contains (s.flow_out b) d ≡ true
    Dominates-member d b m h = elim (Bool-cases (contains (s.flow_out b) d)) [
      | inl y ↦ y
      | inr n ↦ absurd (h (missing-Avoids f d fuel s e b m n))
    ]

    Dominates-self : (b : ℕ) → Dominates f b b
    Dominates-self b p = true-ne-false (sym (ground (arith, Avoids-ne f p)))

    listed-Dominates :
        (d b : ℕ)
        → among (block_ids f) b ≡ true
        → count (s.flow_out b).elems d ≡ true
        → Dominates f d b
    unfolding contains
    listed-Dominates d b m k = member-Dominates d b m (ground (arith, k))

    Dominates-listed :
        (d b : ℕ)
        → Reaches f b
        → among (block_ids f) b ≡ true
        → Dominates f d b
        → count (s.flow_out b).elems d ≡ true
    unfolding contains
    Dominates-listed d b r m h =
        ground (arith, Dominates-member d b m h, flow_out-finite f fuel s e r m)

    -- A block that dominates another one has fewer dominators.
    fewer :
        (u v : ℕ)
        → (u == v) ≡ false
        → Reaches f v
        → among (block_ids f) v ≡ true
        → Dominates f u v
        → weight s.flow_out v u < weight s.flow_out v v
    fewer u v ne r m h =
        let (ru, mu) = dominator-Reaches u v r m h in
        distinct-length_lt (s.flow_out u).elems (s.flow_out v).elems v
          (flow_out-distinct f fuel s e u mu)
          (λ x k. Dominates-listed x v r m (Dominates-trans f x u v (listed-Dominates x u mu k) h))
          (elim (Bool-cases (count (s.flow_out u).elems v)) [
            | inl y ↦ absurd (Dominates-antisym f u v ne r (listed-Dominates v u mu y) h)
            | inr n ↦ n
          ])
          (Dominates-listed v v r m (Dominates-self v))

    -- The heaviest dominator but the block itself is below all the others.
    heaviest-below :
        (b i : ℕ)
        → Reaches f b
        → among (block_ids f) b ≡ true
        → Dominates f i b
        → ((x : ℕ)
            → count (s.flow_out b).elems x ≡ true
            → (x == b) ≡ false
            → weight s.flow_out b x ≤ weight s.flow_out b i)
        → (d : ℕ) → Dominates f d b
        → (d == b) ≡ false
        → Dominates f d i
    heaviest-below b i r m hi top d hd n =
        let (ri, mi) = dominator-Reaches i b r m hi in
        let (rd, md) = dominator-Reaches d b r m hd in
        elim (Bool-cases (contains (s.flow_out i) d)) [
          | inl y ↦ member-Dominates d i mi y
          | inr k ↦
              let away = missing-Avoids f d fuel s e i mi k in
              let ne = Avoids-ne f away in
              elim (Bool-cases (contains (s.flow_out d) i)) [
                | inl y ↦
                    let less = fewer i d (ground arith) rd md (member-Dominates i d md y) in
                    let most = top d (Dominates-listed d b r m hd) n in
                    absurd (omega (arith, less, most))
                | inr l ↦ absurd (
                    Dominates-chain f i d b (ground arith) r hi hd away
                      (missing-Avoids f i fuel s e d md l))
              ]
        ]

  -- No dominator but the block itself; or the dominator that all the others dominate.
  pub data Nearest (b : ℕ) : Option ℕ → Type 0 where
    root : ((d : ℕ) → Dominates f d b → (d == b) ≡ true) → Nearest b none
    nearest :
        {i : ℕ}
        → (i == b) ≡ false
        → Dominates f i b
        → ((d : ℕ) → Dominates f d b → (d == b) ≡ false → Dominates f d i)
        → Nearest b (some i)

Nearest-Chosen :
    (f : Func) (fuel : ℕ) (s : Flow (Set ℕ)) (e : dominators fuel f ≡ some s) (b : ℕ)
    → Reaches f b
    → among (block_ids f) b ≡ true
    → {o : Option ℕ} → Chosen s.flow_out b (s.flow_out b).elems o
    → Nearest f b o
Nearest-Chosen f fuel s e b r m (alone h) =
    root (λ d k. h d (Dominates-listed f fuel s e d b r m k))
Nearest-Chosen f fuel s e b r m (heaviest {i} k n top) =
    let hi = listed-Dominates f fuel s e i b m k in
    nearest n hi (heaviest-below f fuel s e b i r m hi top)

flow_idom_of-Nearest :
    (f : Func) (fuel : ℕ) (s : Flow (Set ℕ))
    → dominators fuel f ≡ some s
    → (b : ℕ) → Reaches f b
    → among (block_ids f) b ≡ true
    → (r : Option ℕ) × (idom_of s.flow_out b ≡ some r) × Nearest f b r
flow_idom_of-Nearest f fuel s e b r m =
    let finite_doms : (x : ℕ)
        → count (s.flow_out b).elems x ≡ true
        → (s.flow_out x).is_universe ≡ false =
      λ x k.
        let (rx, mx) = dominator-Reaches f x b r m (listed-Dominates f fuel s e x b m k) in
        flow_out-finite f fuel s e rx mx in
    let (o, q, c) = idom_of-Chosen s.flow_out b (flow_out-finite f fuel s e r m) finite_doms in
    (o, q, Nearest-Chosen f fuel s e b r m c)

-- With enough fuel the dominance analysis ends, and for every block of the function that a path from the
-- entrance leads to, `DominanceTree` finds the immediate dominator without an exception: a dominator other
-- than the block that every other such dominator dominates, and null if the block has no dominator but
-- itself.
pub idom_of-Nearest :
    (f : Func)
    → (fuel : ℕ) × (s : Flow (Set ℕ)) × (dominators fuel f ≡ some s)
      × ((b : ℕ)
          → Reaches f b
          → among (block_ids f) b ≡ true
          → (r : Option ℕ) × (idom_of s.flow_out b ≡ some r) × Nearest f b r)
idom_of-Nearest f =
    let (fuel, s, e, exact) = dominators-exact f in (fuel, s, e, flow_idom_of-Nearest f fuel s e)
