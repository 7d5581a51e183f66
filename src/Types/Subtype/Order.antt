-- ===== src/Types/Subtype/Order.antt =====
-- `operator<=` of src/backend/ir/type.hpp as an order: reflexive, with a least and a greatest type,
-- and what it lacks of transitivity.
use ucas_cplab.Common.{◌≡◌, refl, sym, ◌∙◌, true, arith, ==_iff}
use ucas_cplab.Types.{
  Primitive, IrType, IrTypes, primitive, sum, product, func, array, reference, top, bottom, nil,
  cons,
}
use ucas_cplab.Types.Subtype.{all_items, pairwise, le_step, subtype, primitive_le}
use ucas_cplab.Types.Subtype.Depth.{subtype_step}
use ucas_cplab.Types.Subtype.Items.{
  InItems, here, there, all_items-at, all_items-intro, any_item-intro,
}

-- A type is above another as soon as one step says so, and the other way round.
pub subtype_of_step : (t u : IrType) → le_step subtype t u ≡ true → subtype t u ≡ true
subtype_of_step t u h = subtype_step t u ∙ h

pub step_of_subtype : (t u : IrType) → subtype t u ≡ true → le_step subtype t u ≡ true
step_of_subtype t u h = sym (subtype_step t u) ∙ h

-- A sum is below a type only if its items are.
pub item-le-of_sum-le :
    (ts : IrTypes) (u : IrType) {x : IrType}
    → InItems x ts
    → subtype (sum ts) u ≡ true
    → subtype x u ≡ true
unfolding le_step
item-le-of_sum-le ts top {x = bottom} m h = subtype_of_step bottom top refl
item-le-of_sum-le ts top {x} m h = subtype_of_step x top refl
item-le-of_sum-le ts u m h = all_items-at (λ t. subtype t u) m (step_of_subtype (sum ts) u h)

-- What is below an item is below the sum.
mutual
  unfolding le_step

  pub le-sum_of_le-item :
      (t : IrType) (us : IrTypes) (u : IrType)
      → InItems u us
      → subtype t u ≡ true
      → subtype t (sum us) ≡ true
  le-sum_of_le-item bottom us u m h = subtype_of_step bottom (sum us) refl
  le-sum_of_le-item (sum ts) us u m h =
      subtype_of_step (sum ts) (sum us) (all_le-sum ts us u m (λ x mx. item-le-of_sum-le ts u mx h))
  le-sum_of_le-item t us u m h = subtype_of_step t (sum us) (any_item-intro (λ v. subtype t v) m h)

  all_le-sum :
      (ts us : IrTypes) (u : IrType)
      → InItems u us
      → ((x : IrType) → InItems x ts → subtype x u ≡ true)
      → all_items (λ x. subtype x (sum us)) ts ≡ true
  all_le-sum nil us u m h = refl
  all_le-sum (cons t ts) us u m h =
      rw (le-sum_of_le-item t us u m (h t here)) (all_le-sum ts us u m (λ x mx. h x (there mx)))

-- Every type is a subtype of itself.
mutual
  unfolding le_step primitive_le

  refl_at : (t : IrType) → subtype t t ≡ true
  refl_at (primitive p) =
      subtype_of_step (primitive p) (primitive p) (elim p as (λ p. primitive_le p p ≡ true) [
        | Primitive.int1 ↦ refl
        | Primitive.int32 ↦ refl
        | Primitive.float32 ↦ refl
        | Primitive.float64 ↦ refl
        | Primitive.int ↦ refl
        | Primitive.float ↦ refl
      ])
  refl_at (sum ts) = subtype_of_step (sum ts) (sum ts) (
      all_items-intro (λ x. subtype x (sum ts)) ts
        (λ x m. le-sum_of_le-item x ts x m (all_items-at (λ x. subtype x x) m (refl_items ts))))
  refl_at (product ts) = subtype_of_step (product ts) (product ts) (refl_pairs ts)
  refl_at (func a b) = subtype_of_step (func a b) (func a b) (ground (arith, refl_at a, refl_at b))
  refl_at (array a n) =
      subtype_of_step (array a n) (array a n) (ground (arith, refl_at a, (==_iff n n).1 refl))
  refl_at (reference a ro is_slice) =
      subtype_of_step (reference a ro is_slice) (reference a ro is_slice)
        (ground (arith, refl_at a))
  refl_at top = subtype_of_step top top refl
  refl_at bottom = subtype_of_step bottom bottom refl

  refl_items : (ts : IrTypes) → all_items (λ x. subtype x x) ts ≡ true
  refl_items nil = refl
  refl_items (cons t ts) = rw (refl_at t) (refl_items ts)

  refl_pairs : (ts : IrTypes) → pairwise subtype ts ts ≡ true
  refl_pairs nil = refl
  refl_pairs (cons t ts) = rw (refl_at t) (refl_pairs ts)

-- Every type is a subtype of itself, and so `operator==` holds between a type and itself.
pub subtype_refl : (t : IrType) → subtype t t ≡ true
subtype_refl t = refl_at t
