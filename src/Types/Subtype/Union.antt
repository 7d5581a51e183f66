-- ===== src/Types/Subtype/Union.antt =====
-- The join of two types, `operator|` of src/backend/ir/type.hpp, and the search `Sum::index_of`.
use ucas_cplab.Common.{
  ◌≡◌, refl, sym, ◌∙◌, if◌then◌else◌, true, false, not, arith, some, List, [], ◌∷◌, ◌++◌,
  Bool-cases, inl, inr, ◌⊎◌, all, any,
}
use mathlib.Core.Path.{subst}
use ucas_cplab.Types.{IrType, sum, bottom}
use ucas_cplab.Types.Subtype.{
  subtype, type_eq, is_bottom, to_items, append_item, append_items, sum_of_items, make_sum, unique,
  le_step,
}
use ucas_cplab.Types.Subtype.Items.{InItems, here, there}
use ucas_cplab.Types.Subtype.Order.{subtype_of_step, subtype_refl, le-sum_of_le-item}

-- Some item of the list is above the type.
abbrev pub Covers : IrType → List IrType → Type 0
Covers x [] = ⊥
Covers x (i ∷ is) = (subtype x i ≡ true) ⊎ Covers x is

Covers-append_left : (x : IrType) (is js : List IrType) → Covers x is → Covers x (is ++ js)
Covers-append_left x [] js h = elim h [ ]
Covers-append_left x (i ∷ is) js (inl h) = inl h
Covers-append_left x (i ∷ is) js (inr h) = inr (Covers-append_left x is js h)

Covers-append_right : (x : IrType) (is js : List IrType) → Covers x js → Covers x (is ++ js)
Covers-append_right x [] js h = h
Covers-append_right x (i ∷ is) js h = inr (Covers-append_right x is js h)

Covers-of_any : (x : IrType) (is : List IrType) → any (λ i. type_eq i x) is ≡ true → Covers x is
unfolding type_eq
Covers-of_any x [] h = absurd (cc)
Covers-of_any x (i ∷ is) h = elim (Bool-cases (type_eq i x)) [
  | inl e ↦ inl (ground arith)
  | inr e ↦ inr (Covers-of_any x is (ground arith))
]

Covers-of_not_all :
    (x : IrType) (is : List IrType) → all (λ u. not (type_eq x u)) is ≡ false → Covers x is
unfolding type_eq
Covers-of_not_all x [] h = absurd (cc)
Covers-of_not_all x (i ∷ is) h = elim (Bool-cases (type_eq x i)) [
  | inl e ↦ inl (ground arith)
  | inr e ↦ inr (Covers-of_not_all x is (ground arith))
]

-- Removing duplicates keeps every type covered.
Covers-unique_seen :
    (x : IrType) (seen ts : List IrType) → Covers x seen → Covers x (unique seen ts)
unfolding unique
Covers-unique_seen x seen [] h = h
Covers-unique_seen x seen (t ∷ ts) h = elim (Bool-cases (all (λ u. not (type_eq t u)) seen)) [
  | inl new ↦ rw new (Covers-unique_seen x (seen ++ t ∷ []) ts (Covers-append_left x seen _ h))
  | inr old ↦ rw old (Covers-unique_seen x seen ts h)
]

abbrev pub InList : IrType → List IrType → Type 0
InList x [] = ⊥
InList x (i ∷ is) = (x ≡ i) ⊎ InList x is

pub Covers-unique : (x : IrType) (seen ts : List IrType) → InList x ts → Covers x (unique seen ts)
unfolding unique
Covers-unique x seen [] m = elim m [ ]
Covers-unique x seen (t ∷ ts) (inr m) =
    Covers-unique x (if all (λ u. not (type_eq t u)) seen then seen ++ t ∷ [] else seen) ts m
Covers-unique x seen (t ∷ ts) (inl e) =
    rw e (elim (Bool-cases (all (λ u. not (type_eq t u)) seen)) [
      | inl new ↦ rw new (
          Covers-unique_seen t (seen ++ t ∷ []) ts
            (Covers-append_right t seen (t ∷ []) (inl (subtype_refl t))))
      | inr old ↦ rw old (Covers-unique_seen t seen ts (Covers-of_not_all t seen old))
    ])

-- The constructor of `Sum` drops `⊥` and the types that it has, and keeps the rest covered.
Covers-append_item : (x t : IrType) (is : List IrType) → Covers x is → Covers x (append_item is t)
unfolding append_item
Covers-append_item x t is h = elim (Bool-cases (is_bottom t)) [
  | inl b ↦ rw b h
  | inr b ↦ rw b (elim (Bool-cases (any (λ i. type_eq i t) is)) [
    | inl old ↦ rw old h
    | inr new ↦ rw new (Covers-append_left x is (t ∷ []) h)
  ])
]

Covers-append_items_seen :
    (x : IrType) (is ts : List IrType) → Covers x is → Covers x (append_items is ts)
unfolding append_items
Covers-append_items_seen x is [] h = h
Covers-append_items_seen x is (t ∷ ts) h =
    Covers-append_items_seen x (append_item is t) ts (Covers-append_item x t is h)

Covers-append_item_self :
    (t : IrType) (is : List IrType) → is_bottom t ≡ false → Covers t (append_item is t)
unfolding append_item
Covers-append_item_self t is b = rw b (elim (Bool-cases (any (λ i. type_eq i t) is)) [
  | inl old ↦ rw old (Covers-of_any t is old)
  | inr new ↦ rw new (Covers-append_right t is (t ∷ []) (inl (subtype_refl t)))
])

Covers-append_items :
    (x y : IrType) (is ts : List IrType)
    → is_bottom y ≡ false
    → InList y ts
    → y ≡ x
    → Covers x (append_items is ts)
unfolding append_items
Covers-append_items x y is [] b m e = elim m [ ]
Covers-append_items x y is (t ∷ ts) b (inr m) e =
    Covers-append_items x y (append_item is t) ts b m e
Covers-append_items x y is (t ∷ ts) b (inl p) e = Covers-append_items_seen x (append_item is t) ts (
    subst (λ z. Covers z (append_item is t)) (sym p ∙ e) (Covers-append_item_self t is (rw p at b)))

-- What a list covers is below the sum of the list.
item_of_Covers :
    (x : IrType) (is : List IrType)
    → Covers x is
    → (y : IrType) × InItems y (to_items is) × (subtype x y ≡ true)
item_of_Covers x [] h = elim h [ ]
item_of_Covers x (i ∷ is) (inl h) = (i, here, h)
item_of_Covers x (i ∷ is) (inr h) = let (y, m, e) = item_of_Covers x is h in (y, there m, e)

pub subtype-sum_of_items :
    (x : IrType) (is : List IrType) (v : IrType)
    → Covers x is
    → sum_of_items is ≡ some v
    → subtype x v ≡ true
unfolding sum_of_items
subtype-sum_of_items x [] v c h = absurd (cc)
subtype-sum_of_items x (i ∷ []) v c h = absurd (cc)
subtype-sum_of_items x (i ∷ j ∷ is) v c h =
    let (y, m, below) = item_of_Covers x (i ∷ j ∷ is) c in
    let e : sum (to_items (i ∷ j ∷ is)) ≡ v = cc in
    subst (λ w. subtype x w ≡ true) e (le-sum_of_le-item x (to_items (i ∷ j ∷ is)) y m below)

pub is_bottom-le : (x v : IrType) → is_bottom x ≡ true → subtype x v ≡ true
unfolding is_bottom le_step
is_bottom-le bottom v h = subtype_of_step bottom v refl
is_bottom-le (sum ts) v h = absurd (cc)
is_bottom-le x v h = absurd (cc)

-- Every type given to the constructor of `Sum` is a subtype of the sum that it makes.
pub subtype-make_sum :
    (x : IrType) (ts : List IrType) (v : IrType)
    → InList x ts
    → make_sum ts ≡ some v
    → subtype x v ≡ true
unfolding make_sum
subtype-make_sum x ts v m h = elim (Bool-cases (is_bottom x)) [
  | inl b ↦ is_bottom-le x v b
  | inr b ↦ subtype-sum_of_items x (append_items [] ts) v (Covers-append_items x x [] ts b m refl) h
]
