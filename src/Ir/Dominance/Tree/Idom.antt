-- ===== src/Ir/Dominance/Tree/Idom.antt =====
-- The immediate dominator that `DominanceTree` (src/backend/ir/analysis/dominance.hpp) takes.
use ucas_cplab.Common.{
  ℕ, ◌≤◌, ◌≡◌, refl, ◌∙◌, subst, ◌⊎◌, inl, inr, true, false, Option, none, some, List, [], ◌∷◌, ltb,
  ◌==◌, length, ==_iff, if◌then◌else◌, nat_eq, arith, Bool-cases,
}
use ucas_cplab.Ir.Flow.Set.{Set, size, elements, count}
use ucas_cplab.Ir.Dominance.Tree.{closest, idom_of}

module _ (dom : ℕ → Set ℕ) (block : ℕ) where
  abbrev pub weight : ℕ → ℕ
  weight x = length (dom x).elems

  size-weight : (x : ℕ) → (dom x).is_universe ≡ false → size (dom x) ≡ some (weight x)
  unfolding size
  size-weight x h = rw h refl

  closest-take :
      (x : ℕ) (xs : List ℕ) (c : ℕ)
      → (dom x).is_universe ≡ false
      → (dom c).is_universe ≡ false
      → (x == block) ≡ false
      → closest dom block (x ∷ xs) (some c) ≡ (
          if ltb (weight c) (weight x)
          then closest dom block xs (some x)
          else closest dom block xs (some c))
  unfolding closest
  closest-take x xs c h k n = rw (n, size-weight x h, size-weight c k) refl

  closest-skip :
      (x : ℕ) (xs : List ℕ) (c : Option ℕ)
      → (x == block) ≡ true
      → closest dom block (x ∷ xs) c ≡ closest dom block xs c
  unfolding closest
  closest-skip x xs none e = rw e refl
  closest-skip x xs (some c) e = rw e refl

  closest-first :
      (x : ℕ) (xs : List ℕ)
      → (x == block) ≡ false
      → closest dom block (x ∷ xs) none ≡ closest dom block xs (some x)
  unfolding closest
  closest-first x xs e = rw e refl

  -- `i` is one of the candidates, and none of them is heavier.
  record Heaviest (xs : List ℕ) (c i : ℕ) : Type 0 where
    source : (i ≡ c) ⊎ ((count xs i ≡ true) × ((i == block) ≡ false))
    start_le : weight c ≤ weight i
    all_le : (x : ℕ) → count xs x ≡ true → (x == block) ≡ false → weight x ≤ weight i

  closest-Heaviest :
      (xs : List ℕ) (c : ℕ)
      → ((x : ℕ) → count xs x ≡ true → (dom x).is_universe ≡ false)
      → (dom c).is_universe ≡ false
      → (i : ℕ) × (closest dom block xs (some c) ≡ some (some i)) × Heaviest xs c i
  unfolding closest
  closest-Heaviest [] c fin f =
      (c, refl, record { source = inl refl; start_le = omega arith; all_le = λ x m n. absurd (cc) })
  closest-Heaviest (x ∷ xs) c fin f =
      let rest_fin : (y : ℕ) → count xs y ≡ true → (dom y).is_universe ≡ false =
        λ y m. fin y (ground arith) in
      let fx = fin x (ground arith) in
      elim (Bool-cases (x == block)) [
        | inl e ↦
            let (i, q, h) = closest-Heaviest xs c rest_fin f in
            (
              i,
              closest-skip x xs (some c) e ∙ q,
              record {
                source = ground (arith, h.source);
                start_le = h.start_le;
                all_le = λ y m n. ground (arith, h.all_le y);
              },
            )
        | inr n ↦ elim (Bool-cases (ltb (weight c) (weight x))) [
          | inl lt ↦
              let (i, q, h) = closest-Heaviest xs x rest_fin fx in
              (
                i,
                closest-take x xs c fx f n ∙ rw lt q,
                record {
                  source = elim h.source [
                    | inl e ↦ inr (rw e (ground (arith, n)), rw e n)
                    | inr e ↦ inr (ground (arith, e.0), e.1)
                  ];
                  start_le = ground (arith, h.start_le);
                  all_le = λ y m k. elim (Bool-cases (x == y)) [
                    | inl e ↦ subst (λ z. weight z ≤ weight i) ((==_iff x y).0 e) h.start_le
                    | inr e ↦ h.all_le y (ground arith) k
                  ];
                },
              )
          | inr ge ↦
              let (i, q, h) = closest-Heaviest xs c rest_fin f in
              (
                i,
                closest-take x xs c fx f n ∙ rw ge q,
                record {
                  source = elim h.source [ inl e ↦ inl e | inr e ↦ inr (ground (arith, e.0), e.1) ];
                  start_le = h.start_le;
                  all_le = λ y m k. elim (Bool-cases (x == y)) [
                    | inl e ↦
                        subst (λ z. weight z ≤ weight i) ((==_iff x y).0 e)
                          (ground (arith, h.start_le))
                    | inr e ↦ h.all_le y (ground arith) k
                  ];
                },
              )
        ]
      ]

  -- What is chosen from the dominators: nothing if there is only the block itself, and otherwise one
  -- with the most dominators.
  pub data Chosen (xs : List ℕ) : Option ℕ → Type 0 where
    alone : ((x : ℕ) → count xs x ≡ true → (x == block) ≡ true) → Chosen xs none
    heaviest :
        {i : ℕ}
        → count xs i ≡ true
        → (i == block) ≡ false
        → ((x : ℕ) → count xs x ≡ true → (x == block) ≡ false → weight x ≤ weight i)
        → Chosen xs (some i)

  Chosen-skip :
      {x : ℕ} {xs : List ℕ} {r : Option ℕ} → (x == block) ≡ true → Chosen xs r → Chosen (x ∷ xs) r
  Chosen-skip {x} e (alone h) = alone (λ y m. elim (Bool-cases (x == y)) [
    | inl q ↦ subst (λ z. (z == block) ≡ true) ((==_iff x y).0 q) e
    | inr q ↦ h y (ground arith)
  ])
  Chosen-skip {x} e (heaviest {i} m n h) =
      heaviest (ground (arith, m)) n (λ y k l. h y (ground arith) l)

  Chosen-take :
      {x : ℕ} {xs : List ℕ} {i : ℕ}
      → (x == block) ≡ false
      → Heaviest xs x i
      → Chosen (x ∷ xs) (some i)
  Chosen-take {x} {xs} {i} n h =
      heaviest (elim h.source [ inl e ↦ rw e (ground arith) | inr e ↦ ground (arith, e.0) ])
        (elim h.source [ inl e ↦ rw e n | inr e ↦ e.1 ])
        (λ y m k. elim (Bool-cases (x == y)) [
          | inl e ↦ subst (λ z. weight z ≤ weight i) ((==_iff x y).0 e) h.start_le
          | inr e ↦ h.all_le y (ground arith) k
        ])

  closest-Chosen :
      (xs : List ℕ)
      → ((x : ℕ) → count xs x ≡ true → (dom x).is_universe ≡ false)
      → (r : Option ℕ) × (closest dom block xs none ≡ some r) × Chosen xs r
  unfolding closest
  closest-Chosen [] fin = (none, refl, alone (λ x m. absurd (cc)))
  closest-Chosen (x ∷ xs) fin =
      let rest_fin : (y : ℕ) → count xs y ≡ true → (dom y).is_universe ≡ false =
        λ y m. fin y (ground arith) in
      elim (Bool-cases (x == block)) [
        | inl e ↦
            let (r, q, c) = closest-Chosen xs rest_fin in
            (r, closest-skip x xs none e ∙ q, Chosen-skip e c)
        | inr n ↦
            let (i, q, h) = closest-Heaviest xs x rest_fin (fin x (ground arith)) in
            (some i, closest-first x xs n ∙ q, Chosen-take n h)
      ]

  pub idom_of-Chosen :
      (dom block).is_universe ≡ false
      → ((x : ℕ) → count (dom block).elems x ≡ true → (dom x).is_universe ≡ false)
      → (r : Option ℕ) × (idom_of dom block ≡ some r) × Chosen (dom block).elems r
  unfolding idom_of elements
  idom_of-Chosen h fin = let (r, q, c) = closest-Chosen (dom block).elems fin in (r, rw h q, c)
