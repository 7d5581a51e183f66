-- ===== src/Types/Subtype/Join.antt =====
-- `operator|` of src/backend/ir/type.hpp returns a type above both of its arguments.
use ucas_cplab.Common.{
  ◌≡◌, refl, sym, ◌∙◌, Bool, true, false, not, arith, none, some, List, [], ◌∷◌, ◌++◌, Bool-cases,
  inl, inr, ◌↔◌, all, any,
}
use mathlib.Core.List.{append_assoc, append-nil}
use ucas_cplab.Types.{IrType, IrTypes, primitive, sum, top, bottom, nil, cons}
use ucas_cplab.Types.Subtype.{
  subtype, type_eq, is_bottom, to_items, of_items, append_item, append_items, sum_of_items,
  make_sum, index_of, collect, unique, sum_of_unique, union, le_step,
}
use ucas_cplab.Types.Subtype.Items.{InItems, here, there, all_items-intro}
use ucas_cplab.Types.Subtype.Order.{subtype_of_step, subtype_refl}
use ucas_cplab.Types.Subtype.Union.{
  Covers, InList, Covers-unique, subtype-sum_of_items, is_bottom-le,
}

-- Appending these types to `seen` drops none: each is new, and not `⊥`.
abbrev Fresh : List IrType → List IrType → Type 0
Fresh seen [] = Unit {0}
Fresh seen (t ∷ ts) =
    (any (λ i. type_eq i t) seen ≡ false) × (is_bottom t ≡ false) × Fresh (seen ++ t ∷ []) ts

append_items_of_Fresh : (seen ts : List IrType) → Fresh seen ts → append_items seen ts ≡ seen ++ ts
unfolding append_items append_item
append_items_of_Fresh seen [] f = sym (append-nil seen)
append_items_of_Fresh seen (t ∷ ts) (new, real, f) =
    rw (real, new) (append_items_of_Fresh (seen ++ t ∷ []) ts f ∙ append_assoc seen (t ∷ []) ts)

Fresh-concat :
    (seen ts : List IrType) (t : IrType)
    → Fresh seen ts
    → any (λ i. type_eq i t) (seen ++ ts) ≡ false
    → is_bottom t ≡ false
    → Fresh seen (ts ++ t ∷ [])
Fresh-concat seen [] t f new real = (rw append-nil at new, real, tt)
Fresh-concat seen (u ∷ us) t (a, b, f) new real =
    (a, b, Fresh-concat (seen ++ u ∷ []) us t f (rw append_assoc new) real)

type_eq_comm : (t u : IrType) → type_eq t u ≡ type_eq u t
unfolding type_eq
type_eq_comm t u = ground arith

new_of_all :
    (t : IrType) (seen : List IrType)
    → all (λ u. not (type_eq t u)) seen ≡ true
    → any (λ i. type_eq i t) seen ≡ false
new_of_all t [] h = refl
new_of_all t (i ∷ is) h = ground (arith, type_eq_comm t i, new_of_all t is)

abbrev pub no_bottom : List IrType → Bool
no_bottom ts = all (λ t. not (is_bottom t)) ts

Fresh-unique :
    (seen ts : List IrType) → Fresh [] seen → no_bottom ts ≡ true → Fresh [] (unique seen ts)
unfolding unique
Fresh-unique seen [] f b = f
Fresh-unique seen (t ∷ ts) f b = elim (Bool-cases (all (λ u. not (type_eq t u)) seen)) [
  | inl new ↦ rw new (
      Fresh-unique (seen ++ t ∷ []) ts
        (Fresh-concat [] seen t f (new_of_all t seen new) (ground arith)) (ground arith))
  | inr old ↦ rw old (Fresh-unique seen ts f (ground arith))
]

-- A list with no duplicates and no `⊥` is its own sum, or its own single item.
sum_of_Fresh :
    (us : List IrType) (x : IrType)
    → Fresh [] us
    → Covers x us
    → (v : IrType) × (sum_of_unique us ≡ some v) × ((y : IrType) → Covers y us → subtype y v ≡ true)
unfolding sum_of_unique
sum_of_Fresh [] x f c = elim c [ ]
sum_of_Fresh (i ∷ []) x f c = (i, refl, single i)
  where
    single : (i y : IrType) → Covers y (i ∷ []) → subtype y i ≡ true
    single i y (inl h) = h
    single i y (inr h) = elim h [ ]
sum_of_Fresh (i ∷ j ∷ is) x f c =
    let us = i ∷ j ∷ is in
    let made : make_sum us ≡ some (sum (to_items us)) =
      unfold make_sum sum_of_items in rw (append_items_of_Fresh [] us f) refl in
    (
      sum (to_items us),
      made,
      λ y d. subtype-sum_of_items y us (sum (to_items us)) d (unfold sum_of_items in refl),
    )

-- What the constructor of `Sum` guarantees of a sum's items: there are some, and none is `⊥`.
abbrev pub is_proper : IrType → Bool
is_proper (sum nil) = false
is_proper (sum (cons t ts)) = no_bottom (t ∷ of_items ts)
is_proper t = true

no_bottom-append :
    (ts us : List IrType) → no_bottom ts ≡ true → no_bottom us ≡ true → no_bottom (ts ++ us) ≡ true
no_bottom-append [] us h k = k
no_bottom-append (t ∷ ts) us h k = ground (arith, no_bottom-append ts us)

no_bottom-collect :
    (t : IrType) → is_proper t ≡ true → is_bottom t ≡ false → no_bottom (collect t) ≡ true
unfolding is_bottom
no_bottom-collect (sum nil) p b = refl
no_bottom-collect (sum (cons t ts)) p b = p
no_bottom-collect bottom p b = absurd (cc)
no_bottom-collect t p b = refl

collect-nonempty : (t : IrType) → is_proper t ≡ true → (x : IrType) × InList x (collect t)
collect-nonempty (sum nil) p = absurd (cc)
collect-nonempty (sum (cons t ts)) p = (t, inl refl)
collect-nonempty (primitive q) p = (primitive q, inl refl)
collect-nonempty t p = (t, inl refl)

InList-append_left : (x : IrType) (ts us : List IrType) → InList x ts → InList x (ts ++ us)
InList-append_left x [] us m = elim m [ ]
InList-append_left x (t ∷ ts) us (inl e) = inl e
InList-append_left x (t ∷ ts) us (inr m) = inr (InList-append_left x ts us m)

InList-append_right : (x : IrType) (ts us : List IrType) → InList x us → InList x (ts ++ us)
InList-append_right x [] us m = m
InList-append_right x (t ∷ ts) us m = inr (InList-append_right x ts us m)

InList_of_item : {x : IrType} {ts : IrTypes} → InItems x ts → InList x (of_items ts)
InList_of_item here = inl refl
InList_of_item (there m) = inr (InList_of_item m)

-- A type is below another if all that it collects is.
subtype_of_collect :
    (t v : IrType) → ((x : IrType) → InList x (collect t) → subtype x v ≡ true) → subtype t v ≡ true
unfolding le_step
subtype_of_collect (sum ts) top h = subtype_of_step (sum ts) top refl
subtype_of_collect (sum ts) v h =
    subtype_of_step (sum ts) v
      (all_items-intro (λ t. subtype t v) ts (λ x m. h x (InList_of_item m)))
subtype_of_collect t v h = h t (inl refl)

abbrev IsJoin : IrType → IrType → IrType → Type 0
IsJoin t u v = (subtype t v ≡ true) × (subtype u v ≡ true)

join_of_collected :
    (t u : IrType)
    → is_proper t ≡ true
    → is_proper u ≡ true
    → is_bottom t ≡ false
    → is_bottom u ≡ false
    → (v : IrType) × (sum_of_unique (unique [] (collect t ++ collect u)) ≡ some v) × IsJoin t u v
join_of_collected t u p q b c =
    let both = collect t ++ collect u in
    let real =
      no_bottom-append (collect t) (collect u) (no_bottom-collect t p b)
        (no_bottom-collect u q c) in
    let (x, m) = collect-nonempty t p in
    let (v, e, above) =
      sum_of_Fresh (unique [] both) x (Fresh-unique [] both tt real)
        (Covers-unique x [] both (InList-append_left x (collect t) (collect u) m)) in
    (
      v,
      e,
      (
        subtype_of_collect t v (λ y m.
            above y (Covers-unique y [] both (InList-append_left y (collect t) (collect u) m))),
        subtype_of_collect u v (λ y m.
            above y (Covers-unique y [] both (InList-append_right y (collect t) (collect u) m))),
      ),
    )

le_of_type_eq : (t u : IrType) → type_eq t u ≡ true → subtype u t ≡ true
unfolding type_eq
le_of_type_eq t u e = ground arith

-- `operator|` returns on all types that C++ can construct (a sum has items, none of them `⊥`), and
-- what it returns is a supertype of both arguments.
pub union_upper :
    (t u : IrType)
    → is_proper t ≡ true
    → is_proper u ≡ true
    → (v : IrType) × (union t u ≡ some v) × (subtype t v ≡ true) × (subtype u v ≡ true)
unfolding union
union_upper t u p q = elim (Bool-cases (is_bottom t)) [
  | inl b ↦ (u, rw b refl, is_bottom-le t u b, subtype_refl u)
  | inr b ↦ elim (Bool-cases (is_bottom u)) [
    | inl c ↦ (t, rw (b, c) refl, subtype_refl t, is_bottom-le u t c)
    | inr c ↦ elim (Bool-cases (type_eq t u)) [
      | inl e ↦ (t, rw (b, c, e) refl, subtype_refl t, le_of_type_eq t u e)
      | inr e ↦
          let (v, made, (below, below')) = join_of_collected t u p q b c in
          (v, rw (b, c, e) made, below, below')
    ]
  ]
]

-- `Sum::index_of` fails exactly when no item equals the type.
pub index_of_missing :
    (is : List IrType) (t : IrType) → (index_of is t ≡ none) ↔ (any (λ j. type_eq j t) is ≡ false)
unfolding index_of
index_of_missing [] t = (λ _. refl, λ _. refl)
index_of_missing (i ∷ is) t = ground (arith, index_of_missing is t)
