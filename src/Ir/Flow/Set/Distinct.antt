-- ===== src/Ir/Flow/Set/Distinct.antt =====
-- The lists of `Set`s (src/backend/ir/analysis/dataflow/framework.hpp) hold no element twice, so that their
-- lengths are the sizes of the sets.
use ucas_cplab.Common.{
  ◌≤◌, ◌<◌, ◌≡◌, refl, Bool, true, false, not, ◌&&◌, List, [], ◌∷◌, length, Eq, eqb, arith,
  Bool-cases, inl, inr,
}
use ucas_cplab.Ir.Flow.Set.{Set, count, keep, insert_elem, intersection_set, insert}
use ucas_cplab.Ir.Flow.Set.Member.{count-keep, eqb_self, test_congr}

module _ {A : Type 0} ⦃e : Eq A⦄ where
  abbrev pub distinct : List A → Bool
  distinct [] = true
  distinct (x ∷ xs) = not (count xs x) && distinct xs

  distinct-insert_elem :
      (xs : List A) (x : A) → distinct xs ≡ true → distinct (insert_elem xs x) ≡ true
  distinct-insert_elem xs x h = ground arith

  distinct-keep : (p : A → Bool) (xs : List A) → distinct xs ≡ true → distinct (keep p xs) ≡ true
  distinct-keep p [] h = refl
  distinct-keep p (x ∷ xs) h = ground (arith, distinct-keep p xs, count-keep p xs x)

  pub distinct-intersection :
      (a b : Set A)
      → distinct a.elems ≡ true
      → distinct b.elems ≡ true
      → distinct (intersection_set a b).elems ≡ true
  unfolding intersection_set
  distinct-intersection a b h k =
      ground (arith, distinct-keep (count b.elems) a.elems, distinct-keep (count a.elems) b.elems)

  pub distinct-insert :
      (a : Set A) (x : A) → distinct a.elems ≡ true → distinct (insert a x).elems ≡ true
  unfolding insert
  distinct-insert a x h = ground (arith, distinct-insert_elem a.elems x h)

  length-keep : (p : A → Bool) (xs : List A) → length (keep p xs) ≤ length xs
  length-keep p [] = omega arith
  length-keep p (x ∷ xs) = ground (arith, length-keep p xs)

  length-keep_lt :
      (p : A → Bool) (xs : List A) (x : A)
      → count xs x ≡ true
      → p x ≡ false
      → length (keep p xs) < length xs
  length-keep_lt p [] x m n = absurd (cc)
  length-keep_lt p (y ∷ xs) x m n = elim (Bool-cases (eqb y x)) [
    | inl q ↦ ground (arith, length-keep p xs, test_congr p y x q)
    | inr q ↦ ground (arith, length-keep_lt p xs x)
  ]

  -- A list without repetitions is shorter than one that has its elements and another one.
  pub distinct-length_lt :
      (xs ys : List A) (y : A)
      → distinct xs ≡ true
      → ((x : A) → count xs x ≡ true → count ys x ≡ true)
      → count xs y ≡ false
      → count ys y ≡ true
      → length xs < length ys
  distinct-length_lt [] [] y d h n m = absurd (cc)
  distinct-length_lt [] (z ∷ ys) y d h n m = omega arith
  distinct-length_lt (x ∷ xs) ys y d h n m =
      let p : A → Bool = λ z. not (eqb x z) in
      let less =
        length-keep_lt p ys x (h x (ground (arith, eqb_self x))) (ground (arith, eqb_self x)) in
      let rest =
        distinct-length_lt xs (keep p ys) y (ground arith)
          (λ z k. ground (arith, count-keep p ys z, h z, k, test_congr (count xs) x z))
          (ground arith) (ground (arith, count-keep p ys y)) in
      omega (arith, less, rest)
