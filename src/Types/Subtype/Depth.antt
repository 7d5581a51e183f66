-- ===== src/Types/Subtype/Depth.antt =====
-- The fuel of `subtype` (src/backend/ir/type.hpp, `operator<=`) is enough: `subtype` satisfies the
-- recursion that the overloads write down.
use ucas_cplab.Common.{ℕ, zero, suc, ◌+◌, ◌≤◌, ◌<◌, ◌≡◌, refl, sym, ◌∙◌, Bool, ◌&&◌, ◌||◌, arith}
use ucas_cplab.Types.{IrType, IrTypes, sum, product, func, array, reference, top, bottom, nil, cons}
use ucas_cplab.Types.Subtype.{
  all_items, any_item, pairwise, le_step, le, depth, depth_items, subtype,
}
use mathlib.Core.Path.{ap₂}

-- Two relations that agree below a depth agree on the items of a list, ...
module _ (p q : IrType → Bool) where
  all_items_congr :
      (ts : IrTypes)
      → ((t : IrType) → depth t ≤ depth_items ts → p t ≡ q t)
      → all_items p ts ≡ all_items q ts
  unfolding depth
  all_items_congr nil h = refl
  all_items_congr (cons t ts) h =
      ap₂ ◌&&◌ (h t (omega arith)) (all_items_congr ts (λ x d. h x (omega arith)))

  any_item_congr :
      (ts : IrTypes)
      → ((t : IrType) → depth t ≤ depth_items ts → p t ≡ q t)
      → any_item p ts ≡ any_item q ts
  unfolding depth
  any_item_congr nil h = refl
  any_item_congr (cons t ts) h =
      ap₂ ◌||◌ (h t (omega arith)) (any_item_congr ts (λ x d. h x (omega arith)))

module _ (r s : IrType → IrType → Bool) where
  pairwise_congr :
      (ts us : IrTypes)
      → ((t u : IrType) → depth t ≤ depth_items ts → depth u ≤ depth_items us → r t u ≡ s t u)
      → pairwise r ts us ≡ pairwise s ts us
  unfolding depth
  pairwise_congr nil nil h = refl
  pairwise_congr (cons t ts) (cons u us) h =
      ap₂ ◌&&◌ (h t u (omega arith) (omega arith))
        (pairwise_congr ts us (λ x y d e. h x y (omega arith) (omega arith)))
  pairwise_congr nil (cons u us) h = refl
  pairwise_congr (cons t ts) nil h = refl

  -- ... and so does one step over them.
  le_step_congr :
      (t u : IrType)
      → ((x y : IrType) → depth x + depth y < depth t + depth u → r x y ≡ s x y)
      → le_step r t u ≡ le_step s t u
  unfolding le_step depth
  le_step_congr bottom u h = refl
  le_step_congr (sum ts) top h = refl
  le_step_congr t top h = refl
  le_step_congr (sum ts) u h =
      all_items_congr (λ t. r t u) (λ t. s t u) ts (λ t d. h t u (omega arith))
  le_step_congr t (sum us) h =
      any_item_congr (λ u. r t u) (λ u. s t u) us (λ u d. h t u (omega arith))
  le_step_congr (product ts) (product us) h = pairwise_congr ts us (λ t u d e. h t u (omega arith))
  le_step_congr (func a b) (func c d) h = ground (arith, h c a, h b d)
  le_step_congr (array a n) (array b m) h = ground (arith, h a b, h b a)
  le_step_congr (reference a x y) (reference b z w) h = ground (arith, h a b, h b a)
  le_step_congr (array a n) (reference b z w) h = ground (arith, h a b, h b a)
  le_step_congr (reference a x y) (array b m) h = ground (arith, h a b, h b a)
  le_step_congr t u h = refl

depth_pos : (t : IrType) → 1 ≤ depth t
unfolding depth
depth_pos (sum ts) = omega arith
depth_pos t = omega arith

-- Any two amounts of fuel that cover the depths give the same answer.
le_fuel :
    (f g : ℕ) (t u : IrType) → depth t + depth u ≤ f → depth t + depth u ≤ g → le f t u ≡ le g t u
unfolding le
le_fuel zero g t u p q = absurd (omega (arith, depth_pos t))
le_fuel (suc f) zero t u p q = absurd (omega (arith, depth_pos t))
le_fuel (suc f) (suc g) t u p q =
    le_step_congr (le f) (le g) t u (λ x y d. le_fuel f g x y (omega arith) (omega arith))

le-eq-subtype : (f : ℕ) (t u : IrType) → depth t + depth u ≤ f → le f t u ≡ subtype t u
unfolding subtype
le-eq-subtype f t u h = le_fuel f (depth t + depth u) t u h (omega arith)

-- The comparison is the recursion of the source: no fuel is seen from outside, and every pair of
-- types gets the answer of its overload.
pub subtype_step : (t u : IrType) → subtype t u ≡ le_step subtype t u
subtype_step t u =
    sym (le-eq-subtype (suc (depth t + depth u)) t u (omega arith))
    ∙ unfold le in
      le_step_congr (le (depth t + depth u)) subtype t u
        (λ x y d. le-eq-subtype (depth t + depth u) x y (omega arith))
