-- ===== src/Types/Subtype/Items.antt =====
-- Membership in a list of items, for the loops of src/backend/ir/type.hpp over `items()`.
use ucas_cplab.Common.{◌≤◌, ◌≡◌, refl, Bool, true, arith, Bool-cases, inl, inr}
use ucas_cplab.Types.{IrType, IrTypes, nil, cons}
use ucas_cplab.Types.Subtype.{all_items, any_item, depth, depth_items}

pub data InItems (x : IrType) : IrTypes → Type 0 where
  here : {ts : IrTypes} → InItems x (cons x ts)
  there : {t : IrType} {ts : IrTypes} → InItems x ts → InItems x (cons t ts)

pub InItems-depth : {x : IrType} {ts : IrTypes} → InItems x ts → depth x ≤ depth_items ts
unfolding depth
InItems-depth here = omega arith
InItems-depth (there m) = omega (arith, InItems-depth m)

pub all_items-at :
    (p : IrType → Bool) {x : IrType} {ts : IrTypes}
    → InItems x ts
    → all_items p ts ≡ true
    → p x ≡ true
all_items-at p here h = ground arith
all_items-at p (there m) h = all_items-at p m (ground arith)

pub all_items-intro :
    (p : IrType → Bool) (ts : IrTypes)
    → ((x : IrType) → InItems x ts → p x ≡ true)
    → all_items p ts ≡ true
all_items-intro p nil h = refl
all_items-intro p (cons t ts) h = rw (h t here) (all_items-intro p ts (λ x m. h x (there m)))

pub any_item-intro :
    (p : IrType → Bool) {x : IrType} {ts : IrTypes}
    → InItems x ts
    → p x ≡ true
    → any_item p ts ≡ true
any_item-intro p here h = rw h
any_item-intro p (there m) h = ground (arith, any_item-intro p m h)

pub any_item-elim :
    (p : IrType → Bool) (ts : IrTypes)
    → any_item p ts ≡ true
    → (x : IrType) × InItems x ts × (p x ≡ true)
any_item-elim p nil h = absurd (cc)
any_item-elim p (cons t ts) h = elim (Bool-cases (p t)) [
  | inl yes_t ↦ (t, here, yes_t)
  | inr no_t ↦ let (x, m, e) = any_item-elim p ts (rw no_t at h) in (x, there m, e)
]
