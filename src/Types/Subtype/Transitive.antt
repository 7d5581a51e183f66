-- ===== src/Types/Subtype/Transitive.antt =====
-- Transitivity of `operator<=` (src/backend/ir/type.hpp): it holds through every type in the middle
-- that holds no reference, and fails through a reference, which forgets the size of an array.
use ucas_cplab.Common.{
  ℕ, zero, suc, ◌+◌, ◌≤◌, ◌<◌, ◌≡◌, refl, ◌∙◌, Bool, true, false, ◌&&◌, arith, ==_iff, ◌≢◌,
}
use ucas_cplab.Types.{
  Primitive, IrType, IrTypes, primitive, sum, product, func, array, reference, top, bottom, nil,
  cons, slice,
}
use ucas_cplab.Types.Subtype.Depth.{subtype_step}
use ucas_cplab.Types.Subtype.{
  all_items, any_item, pairwise, le_step, depth, depth_items, subtype, primitive_le,
}
use ucas_cplab.Types.Subtype.Items.{
  InItems, here, there, InItems-depth, all_items-intro, any_item-elim,
}
use ucas_cplab.Types.Subtype.Order.{
  subtype_of_step, step_of_subtype, item-le-of_sum-le, le-sum_of_le-item, subtype_refl,
}

-- No reference occurs in the type.
abbrev mutual
  pub has_no_reference : IrType → Bool
  has_no_reference (primitive p) = true
  has_no_reference (sum ts) = no_reference_items ts
  has_no_reference (product ts) = no_reference_items ts
  has_no_reference (func a b) = has_no_reference a && has_no_reference b
  has_no_reference (array a n) = has_no_reference a
  has_no_reference (reference a ro is_slice) = false
  has_no_reference top = true
  has_no_reference bottom = true

  pub no_reference_items : IrTypes → Bool
  no_reference_items nil = true
  no_reference_items (cons t ts) = has_no_reference t && no_reference_items ts

no_reference-at :
    {x : IrType} {ts : IrTypes}
    → InItems x ts
    → no_reference_items ts ≡ true
    → has_no_reference x ≡ true
no_reference-at here h = ground arith
no_reference-at (there m) h = no_reference-at m (ground arith)

primitive_le_trans :
    (p q r : Primitive)
    → primitive_le p q ≡ true
    → primitive_le q r ≡ true
    → primitive_le p r ≡ true
unfolding primitive_le
primitive_le_trans Primitive.int1 q r h k = ground arith
primitive_le_trans _ q r h k = ground arith

-- What is left to prove at one depth, from transitivity at all smaller ones.
abbrev TransAt : IrType → IrType → IrType → Type 0
TransAt t u v =
    has_no_reference u ≡ true → subtype t u ≡ true → subtype u v ≡ true → subtype t v ≡ true

abbrev TransBelow : ℕ → Type 0
TransBelow n = (t u v : IrType) → depth t + depth u + depth v < n → TransAt t u v

pairwise_trans :
    (n : ℕ) (rec : TransBelow n) (ts us vs : IrTypes)
    → depth_items ts + depth_items us + depth_items vs < n
    → no_reference_items us ≡ true
    → pairwise subtype ts us ≡ true
    → pairwise subtype us vs ≡ true
    → pairwise subtype ts vs ≡ true
unfolding depth
pairwise_trans n rec nil nil nil d f h k = refl
pairwise_trans n rec (cons t ts) (cons u us) (cons v vs) d f h k = ground (
  arith,
  rec t u v (omega arith) (ground arith) (ground arith) (ground arith),
  pairwise_trans n rec ts us vs (omega arith) (ground arith) (ground arith) (ground arith),
)
pairwise_trans n rec nil (cons u us) vs d f h k = absurd (cc)
pairwise_trans n rec (cons t ts) nil vs d f h k = absurd (cc)
pairwise_trans n rec nil nil (cons v vs) d f h k = absurd (cc)
pairwise_trans n rec (cons t ts) (cons u us) nil d f h k = absurd (cc)

module _ (n : ℕ) (rec : TransBelow n) where
  -- A sum in the middle: the type below it is below one of its items.
  trans_sum :
      (t v : IrType) (us : IrTypes)
      → depth t + depth (sum us) + depth v ≤ n
      → no_reference_items us ≡ true
      → any_item (λ u. subtype t u) us ≡ true
      → subtype (sum us) v ≡ true
      → subtype t v ≡ true
  unfolding depth
  trans_sum t v us d f h k =
      let (u, m, e) = any_item-elim (λ u. subtype t u) us h in
      rec t u v (omega (arith, InItems-depth m)) (no_reference-at m f) e
        (item-le-of_sum-le us v m k)

  -- A sum above: what the middle is below, the lower type is below too.
  trans-le_sum :
      (t u : IrType) (vs : IrTypes)
      → depth t + depth u + depth (sum vs) ≤ n
      → has_no_reference u ≡ true
      → subtype t u ≡ true
      → any_item (λ v. subtype u v) vs ≡ true
      → subtype t (sum vs) ≡ true
  unfolding depth
  trans-le_sum t u vs d f h k =
      let (v, m, e) = any_item-elim (λ v. subtype u v) vs k in
      le-sum_of_le-item t vs v m (rec t u v (omega (arith, InItems-depth m)) f h e)

  -- A sum below: each of its items is below the middle.
  trans_sum-le :
      (ts : IrTypes) (u v : IrType)
      → depth (sum ts) + depth u + depth v ≤ n
      → has_no_reference u ≡ true
      → subtype (sum ts) u ≡ true
      → subtype u v ≡ true
      → all_items (λ t. subtype t v) ts ≡ true
  unfolding depth
  trans_sum-le ts u v d f h k =
      all_items-intro (λ t. subtype t v) ts
        (λ t m. rec t u v (omega (arith, InItems-depth m)) f (item-le-of_sum-le ts u m h) k)

  trans_step :
      (t u v : IrType)
      → depth t + depth u + depth v ≤ n
      → has_no_reference u ≡ true
      → subtype t u ≡ true
      → subtype u v ≡ true
      → le_step subtype t u ≡ true
      → le_step subtype u v ≡ true
      → le_step subtype t v ≡ true
  unfolding le_step depth
  trans_step bottom u v d f h k h' k' = refl
  trans_step (sum ts) u top d f h k h' k' = refl
  trans_step t u top d f h k h' k' = refl
  trans_step (sum ts) u v d f h k h' k' = trans_sum-le ts u v d f h k
  trans_step t bottom v d f h k h' k' = absurd (cc)
  trans_step t (sum us) v d f h k h' k' = step_of_subtype t v (trans_sum t v us d f h' k)
  trans_step t u (sum vs) d f h k h' k' = step_of_subtype t (sum vs) (trans-le_sum t u vs d f h k')
  trans_step (primitive p) (primitive q) (primitive r) d f h k h' k' =
      primitive_le_trans p q r h' k'
  trans_step (product ts) (product us) (product vs) d f h k h' k' =
      pairwise_trans n rec ts us vs (omega arith) f h' k'
  trans_step (func a b) (func a' b') (func a'' b'') d f h k h' k' = ground (
    arith,
    rec a'' a' a (omega arith) (ground arith) (ground arith) (ground arith),
    rec b b' b'' (omega arith) (ground arith) (ground arith) (ground arith),
  )
  trans_step (array a m) (array b p) (array c q) d f h k h' k' = ground (
    arith,
    rec a b c (omega arith) f (ground arith) (ground arith),
    rec c b a (omega arith) f (ground arith) (ground arith),
  )
  trans_step (array a m) (array b p) (reference c ro q) d f h k h' k' =
      ground (arith, rec a b c (omega arith) f, rec c b a (omega arith) f)
  trans_step (reference a ro m) (array b p) (array c q) d f h k h' k' =
      ground (arith, rec a b c (omega arith) f, rec c b a (omega arith) f)
  trans_step (reference a ro m) (array b p) (reference c ro' q) d f h k h' k' =
      ground (arith, rec a b c (omega arith) f, rec c b a (omega arith) f)
  trans_step t u v d f h k h' k' = absurd (cc)

trans_at : (n : ℕ) (t u v : IrType) → depth t + depth u + depth v ≤ n → TransAt t u v
trans_at zero t u v d f h k = subtype_of_step t v (
    trans_step zero (λ x y z e. absurd (omega arith)) t u v d f h k (step_of_subtype t u h)
      (step_of_subtype u v k))
trans_at (suc n) t u v d f h k = subtype_of_step t v (
    trans_step (suc n) (λ x y z e. trans_at n x y z (omega arith)) t u v d f h k
      (step_of_subtype t u h) (step_of_subtype u v k))

-- If `t` is a subtype of `u` and `u` of `v`, and no reference occurs in `u`, then `t` is a subtype
-- of `v`.
pub subtype_trans :
    (t u v : IrType)
    → has_no_reference u ≡ true
    → subtype t u ≡ true
    → subtype u v ≡ true
    → subtype t v ≡ true
subtype_trans t u v f h k = trans_at (depth t + depth u + depth v) t u v (omega arith) f h k

-- An array of `n` elements converts to a mutable slice of them, which converts to an array of any
-- number `m` of them; the arrays are comparable only if the sizes agree. So `operator<=` is not
-- transitive through a reference, for every element type and all sizes that differ.
pub subtype_resizes_array :
    (elem : IrType) (n m : ℕ)
    → n ≢ m
    → (subtype (array elem n) (slice elem false) ≡ true)
      × (subtype (slice elem false) (array elem m) ≡ true)
      × (subtype (array elem n) (array elem m) ≡ false)
unfolding le_step
subtype_resizes_array elem n m ne = (
  subtype_of_step _ _ (ground (arith, subtype_refl elem)),
  subtype_of_step _ _ (ground (arith, subtype_refl elem)),
  subtype_step _ _ ∙ ground (arith, subtype_refl elem, (==_iff n m).0),
)
