-- ===== src/Ir/Dominance/Order.antt =====
-- Domination (src/backend/ir/analysis/dominance.hpp) as an order: the dominators of a block that the
-- entrance reaches are a chain.
use ucas_cplab.Common.{
  ℕ, ◌≡◌, sym, subst, ◌⊎◌, inl, inr, true, false, ◌==◌, ==_iff, nat_eq, arith, Bool-cases,
}
use ucas_cplab.Ir.Inst.{Func, block_ids}
use ucas_cplab.Ir.Cfg.{cfg}
use ucas_cplab.Ir.Flow.Set.{count}
use ucas_cplab.Ir.Dominance.{is_front, Avoids, start, onward}

-- A path from the entrance leads to the block.
pub data Reaches (f : Func) : ℕ → Type 0 where
  entrance : {b : ℕ} → is_front (block_ids f) b ≡ true → Reaches f b
  next : {a b : ℕ} → Reaches f a → count ((cfg f).pred b) a ≡ true → Reaches f b

abbrev pub Dominates : Func → ℕ → ℕ → Type 0
Dominates f d b = Avoids f d b → ⊥

module _ (f : Func) where
  pub Avoids-ne : {d b : ℕ} → Avoids f d b → (d == b) ≡ false
  Avoids-ne (start q ne) = ne
  Avoids-ne (onward p k ne) = ne

  -- On the way to a reachable block one misses `u` or `v`, if each of them can be reached without the
  -- other.
  misses_one :
      {u v w : ℕ}
      → (u == v) ≡ false
      → Avoids f v u
      → Avoids f u v
      → Reaches f w
      → Avoids f u w ⊎ Avoids f v w
  misses_one {u} {v} {w} ne p q (entrance r) = elim (Bool-cases (u == w)) [
    | inl e ↦ inr (start r (ground arith))
    | inr n ↦ inl (start r n)
  ]
  misses_one {u} {v} {w} ne p q (next {a} r k) = elim (misses_one ne p q r) [
    | inl h ↦ elim (Bool-cases (u == w)) [
      | inl e ↦ inr (subst (Avoids f v) ((==_iff u w).0 e) p)
      | inr n ↦ inl (onward h k n)
    ]
    | inr h ↦ elim (Bool-cases (v == w)) [
      | inl e ↦ inl (subst (Avoids f u) ((==_iff v w).0 e) q)
      | inr n ↦ inr (onward h k n)
    ]
  ]

  -- Two dominators of a reachable block: one of them dominates the other.
  pub Dominates-chain :
      (u v w : ℕ)
      → (u == v) ≡ false
      → Reaches f w
      → Dominates f u w
      → Dominates f v w
      → Avoids f v u
      → Avoids f u v
      → ⊥
  Dominates-chain u v w ne r h k p q = elim (misses_one ne p q r) [ inl a ↦ h a | inr a ↦ k a ]

  avoids_further : {d u w : ℕ} → Dominates f d u → Avoids f d w → Avoids f u w
  avoids_further {d} {u} {w} h (start q ne) = elim (Bool-cases (u == w)) [
    | inl e ↦ absurd (h (subst (Avoids f d) (sym ((==_iff u w).0 e)) (start q ne)))
    | inr n ↦ start q n
  ]
  avoids_further {d} {u} {w} h (onward p k ne) = elim (Bool-cases (u == w)) [
    | inl e ↦ absurd (h (subst (Avoids f d) (sym ((==_iff u w).0 e)) (onward p k ne)))
    | inr n ↦ onward (avoids_further h p) k n
  ]

  pub Dominates-trans : (d u w : ℕ) → Dominates f d u → Dominates f u w → Dominates f d w
  Dominates-trans d u w h k a = k (avoids_further h a)

  -- If each of two blocks dominated the other, a path could reach neither.
  avoids_both :
      (u v : ℕ) {w : ℕ}
      → (u == v) ≡ false
      → Dominates f v u
      → Dominates f u v
      → Reaches f w
      → Avoids f u w × Avoids f v w
  avoids_both u v {w} ne h k (entrance r) = elim (Bool-cases (u == w)) [
    | inl e ↦ absurd (h (subst (Avoids f v) (sym ((==_iff u w).0 e)) (start r (ground arith))))
    | inr m ↦ elim (Bool-cases (v == w)) [
      | inl e ↦ absurd (k (subst (Avoids f u) (sym ((==_iff v w).0 e)) (start r m)))
      | inr n ↦ (start r m, start r n)
    ]
  ]
  avoids_both u v {w} ne h k (next {a} r e) =
      let (p, q) = avoids_both u v ne h k r in
      elim (Bool-cases (u == w)) [
        | inl i ↦
            absurd (h (subst (Avoids f v) (sym ((==_iff u w).0 i)) (onward q e (ground arith))))
        | inr m ↦ elim (Bool-cases (v == w)) [
          | inl i ↦ absurd (k (subst (Avoids f u) (sym ((==_iff v w).0 i)) (onward p e m)))
          | inr n ↦ (onward p e m, onward q e n)
        ]
      ]

  pub Dominates-antisym :
      (u v : ℕ) → (u == v) ≡ false → Reaches f v → Dominates f v u → Dominates f u v → ⊥
  Dominates-antisym u v ne r h k = k (avoids_both u v ne h k r).0
