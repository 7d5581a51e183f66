-- ===== src/Ir/Flow/Set/Member.antt =====
-- The operations of `Set` (src/backend/ir/analysis/dataflow/framework.hpp), by what is a member.
use ucas_cplab.Common.{
  ◌≡◌, refl, ap, sym, ◌∙◌, Bool, true, false, not, ◌&&◌, ◌||◌, some, List, [], ◌∷◌, all, Eq, eqb,
  arith, Bool-cases, inl, inr,
}
use ucas_cplab.Ir.Flow.Set.{
  Set, is_nil, count, insert_elem, insert_range, keep, set_eq, intersection_set, union_set,
  difference, contains, insert, erase,
}

module _ {A : Type 0} ⦃e : Eq A⦄ where
  pub eqb_self : (x : A) → eqb x x ≡ true
  eqb_self x = (e.eqb_iff x x).1 refl

  -- A test that does not tell equal elements apart.
  pub test_congr : (p : A → Bool) (x y : A) → eqb x y ≡ true → p x ≡ p y
  test_congr p x y h = ap p ((e.eqb_iff x y).0 h)

  pub count-insert_elem :
      (xs : List A) (x y : A) → count (insert_elem xs x) y ≡ (eqb x y || count xs y)
  count-insert_elem xs x y = elim (Bool-cases (count xs x)) [
    | inl h ↦ elim (Bool-cases (eqb x y)) [
      | inl q ↦ rw (h, q) (sym (test_congr (count xs) x y q) ∙ h)
      | inr q ↦ rw (h, q) refl
    ]
    | inr h ↦ rw h refl
  ]

  count-insert_range :
      (xs ys : List A) (y : A) → count (insert_range xs ys) y ≡ (count xs y || count ys y)
  count-insert_range xs [] y = ground arith
  count-insert_range xs (x ∷ ys) y =
      ground (arith, count-insert_range (insert_elem xs x) ys y, count-insert_elem xs x y)

  pub count-keep : (p : A → Bool) (xs : List A) (y : A) → count (keep p xs) y ≡ (p y && count xs y)
  count-keep p [] y = ground arith
  count-keep p (x ∷ xs) y = ground (arith, count-keep p xs y, test_congr p x y)

  pub contains-union :
      (a b : Set A) (x : A) → contains (union_set a b) x ≡ (contains a x || contains b x)
  unfolding union_set contains
  contains-union a b x = ground (arith, count-insert_range a.elems b.elems x)

  pub contains-intersection :
      (a b : Set A) (x : A) → contains (intersection_set a b) x ≡ (contains a x && contains b x)
  unfolding intersection_set contains
  contains-intersection a b x =
      ground (arith, count-keep (count b.elems) a.elems x, count-keep (count a.elems) b.elems x)

  pub contains-insert : (a : Set A) (x y : A) → contains (insert a x) y ≡ (eqb x y || contains a y)
  unfolding insert contains
  contains-insert a x y = ground (arith, count-insert_elem a.elems x y)

  pub contains-erase :
      (a : Set A) (x y : A)
      → a.is_universe ≡ false
      → contains (erase a x) y ≡ (not (eqb y x) && contains a y)
  unfolding erase contains
  contains-erase a x y h = ground (arith, count-keep (λ z. not (eqb z x)) a.elems y)

  count-is_nil : (xs : List A) (x : A) → is_nil xs ≡ true → count xs x ≡ false
  count-is_nil [] x h = refl
  count-is_nil (y ∷ xs) x h = absurd (cc)

  pub contains-difference :
      (a b d : Set A) (x : A)
      → difference a b ≡ some d
      → contains d x ≡ (contains a x && not (contains b x))
  unfolding difference contains
  contains-difference a b d x h =
      ground (arith, count-keep (λ z. not (count b.elems z)) a.elems x, count-is_nil b.elems x)

  all-count :
      (xs ys : List A) (x : A) → all (count ys) xs ≡ true → count xs x ≡ true → count ys x ≡ true
  all-count [] ys x h m = absurd (cc)
  all-count (y ∷ xs) ys x h m = ground (arith, all-count xs ys x, test_congr (count ys) y x)

  pub contains-set_eq : (a b : Set A) (x : A) → set_eq a b ≡ true → contains a x ≡ contains b x
  unfolding set_eq contains
  contains-set_eq a b x h = ground (arith, all-count a.elems b.elems x, all-count b.elems a.elems x)
