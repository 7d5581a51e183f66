-- ===== src/Ir/Flow/Set/Within.antt =====
-- `Set`s (src/backend/ir/analysis/dataflow/framework.hpp) with elements from a given list, and how far
-- such a set can grow or shrink.
use ucas_cplab.Common.{
  ℕ, ◌+◌, ◌<◌, ◌≡◌, sym, ◌∙◌, true, false, not, List, ◌⊎◌, inl, inr, Eq, eqb, if◌then◌else◌, arith,
  Bool-cases,
}
use ucas_cplab.Ir.Flow.Set.{
  Set, count, set_eq, empty, intersection_set, union_set, contains, insert,
}
use ucas_cplab.Ir.Flow.Set.Member.{
  contains-union, contains-intersection, contains-insert, test_congr,
}
use ucas_cplab.Ir.Flow.Set.Rank.{Subset, tally, tally_lt, tally_le, strict}

module _ {A : Type 0} ⦃e : Eq A⦄ (us : List A) where
  -- A finite set of elements of `us`, or everything.
  abbrev pub Within : Set A → Type 0
  Within a = (a.is_universe ≡ true) ⊎ ((x : A) → contains a x ≡ true → count us x ≡ true)

  pub empty-Within : Within empty
  unfolding contains
  empty-Within = inr (λ x h. absurd (cc))

  pub intersection-Within : (a b : Set A) → Within a → Within b → Within (intersection_set a b)
  unfolding intersection_set
  intersection-Within a b (inl u) (inl v) = inl (ground arith)
  intersection-Within a b (inr h) w = inr (λ x m. h x (ground (arith, contains-intersection a b x)))
  intersection-Within a b (inl u) (inr h) =
      inr (λ x m. h x (ground (arith, contains-intersection a b x)))

  pub insert-Within : (a : Set A) (y : A) → count us y ≡ true → Within a → Within (insert a y)
  unfolding insert
  insert-Within a y m (inl u) = inl (ground arith)
  insert-Within a y m (inr h) = inr (λ x n. elim (Bool-cases (eqb y x)) [
    | inl q ↦ sym (test_congr (count us) y x q) ∙ m
    | inr q ↦ h x (ground (arith, contains-insert a y x))
  ])

  -- How many elements of `us` a set has; the set of everything has one more.
  abbrev pub size_within : Set A → ℕ
  size_within a = (if a.is_universe then 1 else 0) + tally (contains a) us

  listed :
      (b : Set A) (x : A)
      → Within b
      → b.is_universe ≡ false
      → contains b x ≡ true
      → count us x ≡ true
  listed b x (inl u) v m = absurd (cc)
  listed b x (inr h) v m = h x m

  pub size_within-lt :
      (a b : Set A)
      → Within a
      → Within b
      → Subset a b
      → set_eq a b ≡ false
      → size_within a < size_within b
  unfolding set_eq
  size_within-lt a b z w h ne = elim (Bool-cases b.is_universe) [
    | inl v ↦ ground (arith, tally_le (contains a) (contains b) h.members us)
    | inr v ↦
        let (x, n, m) = strict a b h v ne in
        ground (
          arith,
          h.universes,
          tally_lt (contains a) (contains b) h.members us x (listed b x w v m) n m,
        )
  ]

  -- How many elements of `us` a set lacks.
  abbrev pub missing_within : Set A → ℕ
  missing_within a = tally (λ x. not (contains a x)) us

  pub missing_within-lt :
      (a b : Set A)
      → Within b
      → b.is_universe ≡ false
      → Subset a b
      → set_eq a b ≡ false
      → missing_within b < missing_within a
  missing_within-lt a b w v h ne =
      let (x, n, m) = strict a b h v ne in
      tally_lt (λ y. not (contains b y)) (λ y. not (contains a y))
        (λ y k. ground (arith, h.members y)) us x (listed b x w v m) (ground arith) (ground arith)

  pub union-Within : (a b : Set A) → Within a → Within b → Within (union_set a b)
  unfolding union_set
  union-Within a b (inl u) w = inl (ground arith)
  union-Within a b (inr h) (inl v) = inl (ground arith)
  union-Within a b (inr h) (inr k) = inr (λ x m. ground (arith, contains-union a b x, h x, k x, m))
