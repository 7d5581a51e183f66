-- ===== src/Ir/Flow/Set.antt =====
-- `Set` of src/backend/ir/analysis/dataflow/framework.hpp: a finite set or the set of everything. An
-- `unordered_set` is a list whose order is never looked at; an exception is `none`.
use ucas_cplab.Common.{
  ℕ, Bool, true, false, not, ◌&&◌, ◌||◌, Option, none, some, List, [], ◌∷◌, length, all, any, ltb,
  Eq, eqb, if◌then◌else◌,
}
pub mod Member
pub mod Rank
pub mod Within
pub mod Distinct

pub record Set (A : Type 0) : Type 0 where
  pub is_universe : Bool
  pub elems : List A

abbrev pub is_nil : {A : Type 0} → List A → Bool
is_nil [] = true
is_nil (x ∷ xs) = false

module _ {A : Type 0} ⦃e : Eq A⦄ where
  -- `unordered_set`: `count`, `insert`, `erase`, and the comparison.
  abbrev pub count : List A → A → Bool
  count xs x = any (λ y. eqb y x) xs

  abbrev pub insert_elem : List A → A → List A
  insert_elem xs x = if count xs x then xs else x ∷ xs

  abbrev pub insert_range : List A → List A → List A
  insert_range xs [] = xs
  insert_range xs (y ∷ ys) = insert_range (insert_elem xs y) ys

  abbrev pub keep : (A → Bool) → List A → List A
  keep p [] = []
  keep p (x ∷ xs) = if p x then x ∷ keep p xs else keep p xs

  abbrev pub same_elems : List A → List A → Bool
  same_elems xs ys = all (count ys) xs && all (count xs) ys

  unfoldable pub set_eq : Set A → Set A → Bool
  set_eq a b =
      if a.is_universe then b.is_universe else not b.is_universe && same_elems a.elems b.elems

  abbrev pub universe : Set A
  universe = record { is_universe = true; elems = [] }

  abbrev pub finite : List A → Set A
  finite xs = record { is_universe = false; elems = xs }

  abbrev pub empty : Set A
  empty = finite []

  unfoldable pub intersection_set : Set A → Set A → Set A
  intersection_set a b =
      if a.is_universe
      then b
      else if b.is_universe
      then a
      else if ltb (length a.elems) (length b.elems)
      then finite (keep (count b.elems) a.elems)
      else finite (keep (count a.elems) b.elems)

  unfoldable pub union_set : Set A → Set A → Set A
  union_set a b =
      if a.is_universe || b.is_universe then universe else finite (insert_range a.elems b.elems)

  unfoldable pub difference : Set A → Set A → Option (Set A)
  difference a b =
      if a.is_universe && b.is_universe
      then some empty
      else if a.is_universe
      then (if is_nil b.elems then some a else none)
      else if b.is_universe
      then some empty
      else some (finite (keep (λ x. not (count b.elems x)) a.elems))

  unfoldable pub contains : Set A → A → Bool
  contains a x = a.is_universe || count a.elems x

  unfoldable pub insert : Set A → A → Set A
  insert a x = if a.is_universe then a else finite (insert_elem a.elems x)

  unfoldable pub erase : Set A → A → Set A
  erase a x = if a.is_universe then a else finite (keep (λ y. not (eqb y x)) a.elems)

  -- `size`, and `begin` and `end`.
  unfoldable pub size : Set A → Option ℕ
  size a = if a.is_universe then none else some (length a.elems)

  unfoldable pub elements : Set A → Option (List A)
  elements a = if a.is_universe then none else some a.elems

  unfoldable pub divide : (A → Bool) → Set A → Option (Set A × Set A)
  divide p a =
      if a.is_universe
      then none
      else some (finite (keep p a.elems), finite (keep (λ x. not (p x)) a.elems))
