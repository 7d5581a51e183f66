-- ===== src/Ir/Flow/Set/Rank.antt =====
-- Inclusion of `Set`s (src/backend/ir/analysis/dataflow/framework.hpp), and how many elements of a given
-- list they have.
use ucas_cplab.Common.{
  ℕ, ◌+◌, ◌≤◌, ◌<◌, ◌≡◌, ◌≢◌, refl, sym, ◌∙◌, Bool, true, false, List, [], ◌∷◌, inl, inr, all, Eq,
  eqb, if◌then◌else◌, arith, Bool-cases,
}
use ucas_cplab.Ir.Flow.Set.{Set, count, set_eq, intersection_set, union_set, contains, insert}
use ucas_cplab.Ir.Flow.Set.Member.{
  contains-union, contains-intersection, contains-insert, eqb_self, test_congr,
}

true-ne-false : true ≢ false
true-ne-false e = absurd (cc)

module _ {A : Type 0} ⦃e : Eq A⦄ where
  -- Nothing finite includes the set of everything.
  pub record Subset (a b : Set A) : Type 0 where
    pub members : (x : A) → contains a x ≡ true → contains b x ≡ true
    pub universes : a.is_universe ≡ true → b.is_universe ≡ true

  abbrev pub tally : (A → Bool) → List A → ℕ
  tally p [] = 0
  tally p (u ∷ us) = (if p u then 1 else 0) + tally p us

  pub tally_le :
      (p q : A → Bool)
      → ((x : A) → p x ≡ true → q x ≡ true)
      → (us : List A) → tally p us ≤ tally q us
  tally_le p q h [] = omega arith
  tally_le p q h (u ∷ us) = ground (arith, tally_le p q h us, h u)

  pub tally_lt :
      (p q : A → Bool)
      → ((x : A) → p x ≡ true → q x ≡ true)
      → (us : List A) (x : A) → count us x ≡ true
      → p x ≡ false
      → q x ≡ true
      → tally p us < tally q us
  tally_lt p q h [] x m n y = absurd (cc)
  tally_lt p q h (u ∷ us) x m n y = elim (Bool-cases (eqb u x)) [
    | inl s ↦ ground (arith, tally_le p q h us, test_congr p u x s, test_congr q u x s)
    | inr s ↦ ground (arith, tally_lt p q h us x, h u)
  ]

  not_all :
      (p : A → Bool) (xs : List A)
      → all p xs ≡ false
      → (x : A) × (count xs x ≡ true) × (p x ≡ false)
  not_all p [] h = absurd (cc)
  not_all p (x ∷ xs) h = elim (Bool-cases (p x)) [
    | inr n ↦ (x, ground (arith, eqb_self x), n)
    | inl y ↦ let (z, m, n) = not_all p xs (ground arith) in (z, ground (arith, m), n)
  ]

  all_lem :
      (p : A → Bool) (xs : List A) → ((x : A) → count xs x ≡ true → p x ≡ true) → all p xs ≡ true
  all_lem p [] h = refl
  all_lem p (x ∷ xs) h =
      let here = h x (ground (arith, eqb_self x)) in
      let rest = all_lem p xs (λ y m. h y (ground (arith, m))) in ground arith

  finite_member :
      (b : Set A) (x : A) → b.is_universe ≡ false → contains b x ≡ true → count b.elems x ≡ true
  unfolding contains
  finite_member b x fin h = ground (arith, fin, h)

  -- Between different sets one of which includes the other there is an element.
  pub strict :
      (a b : Set A)
      → Subset a b
      → b.is_universe ≡ false
      → set_eq a b ≡ false
      → (x : A) × (contains a x ≡ false) × (contains b x ≡ true)
  unfolding set_eq contains
  strict a b h fin ne = elim (Bool-cases a.is_universe) [
    | inl u ↦ absurd (true-ne-false (sym (h.universes u) ∙ fin))
    | inr v ↦
        let sub =
          all_lem (count b.elems) a.elems
            (λ x m. finite_member b x fin (h.members x (ground (arith, m)))) in
        let (x, m, n) = not_all (count a.elems) b.elems (ground arith) in
        (x, ground (arith, v, n), ground (arith, m))
  ]

  pub Subset-refl : (a : Set A) → Subset a a
  Subset-refl a = record { members = λ x h. h; universes = λ h. h }

  pub Subset-trans : (a b c : Set A) → Subset a b → Subset b c → Subset a c
  Subset-trans a b c h k = record {
    members = λ x m. k.members x (h.members x m);
    universes = λ u. k.universes (h.universes u);
  }

  pub Subset-intersection :
      (a a' b b' : Set A)
      → Subset a a'
      → Subset b b'
      → Subset (intersection_set a b) (intersection_set a' b')
  unfolding intersection_set
  Subset-intersection a a' b b' h k = record {
    members = λ x m. ground (
      arith,
      contains-intersection a b x,
      contains-intersection a' b' x,
      h.members x,
      k.members x,
      m,
    );
    universes = λ u. ground (arith, h.universes, k.universes, u);
  }

  pub Subset-union :
      (a a' b b' : Set A) → Subset a a' → Subset b b' → Subset (union_set a b) (union_set a' b')
  unfolding union_set
  Subset-union a a' b b' h k = record {
    members = λ x m.
        ground (arith, contains-union a b x, contains-union a' b' x, h.members x, k.members x, m);
    universes = λ u. ground (arith, h.universes, k.universes, u);
  }

  pub Subset-insert : (a b : Set A) (y : A) → Subset a b → Subset (insert a y) (insert b y)
  unfolding insert
  Subset-insert a b y h = record {
    members = λ x m. ground (arith, contains-insert a y x, contains-insert b y x, h.members x, m);
    universes = λ u. ground (arith, h.universes, u);
  }
