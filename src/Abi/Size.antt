-- ===== src/Abi/Size.antt =====
-- The sizes of src/backend/rv64/abi.hpp against those of src/backend/ir/type.hpp.
use ucas_cplab.Common.{ℕ, ◌≡◌, refl, ◌∙◌, ap, Bool, true, false, some}
use native.Mathlib.Nat.{mul_comm}
use ucas_cplab.Types.{
  Primitive, IrType, primitive, product, array, reference, nil, cons, unit, size_of, wrap64,
  size_of_primitive,
}
use ucas_cplab.Types.Subtype.{subtype, type_eq, le_step}
use ucas_cplab.Types.Subtype.Order.{subtype_refl}
use ucas_cplab.Types.Subtype.Depth.{subtype_step}
use ucas_cplab.Abi.{abi_size, primitive_size}

unit_eq_self : type_eq unit unit ≡ true
unfolding type_eq
unit_eq_self = rw (subtype_refl unit) refl

-- What can lie in memory: primitives, references, the unit type, and arrays of these.
abbrev pub is_storable : IrType → Bool
is_storable (primitive p) = true
is_storable (reference elem ro is_slice) = true
is_storable (product nil) = true
is_storable (array elem n) = is_storable elem
is_storable t = false

not_unit : (t : IrType) → le_step subtype t unit ≡ false → type_eq t unit ≡ false
unfolding type_eq
not_unit t h = rw (subtype_step t unit ∙ h) refl

type_eq-unit_array : (elem : IrType) (n : ℕ) → type_eq (array elem n) unit ≡ false
unfolding le_step
type_eq-unit_array elem n = not_unit (array elem n) refl

type_eq-unit_reference : (elem : IrType) (ro k : Bool) → type_eq (reference elem ro k) unit ≡ false
unfolding le_step
type_eq-unit_reference elem ro k = not_unit (reference elem ro k) refl

primitive_size-eq : (p : Primitive) → primitive_size p ≡ size_of_primitive p
unfolding primitive_size size_of_primitive
primitive_size-eq Primitive.int1 = refl
primitive_size-eq _ = refl

-- The back end and the IR agree on the size of what is a primitive, a reference, the unit type or
-- an array of these: `abi::size` returns, and returns `size_of`, wrapped to 64 bits on both sides.
pub abi_size-eq-size_of : (t : IrType) → is_storable t ≡ true → abi_size t ≡ some (size_of t)
unfolding abi_size size_of
abi_size-eq-size_of (primitive p) h = ap some (primitive_size-eq p)
abi_size-eq-size_of (reference elem ro k) h = rw (type_eq-unit_reference elem ro k) refl
abi_size-eq-size_of (product nil) h = rw (unit_eq_self) refl
abi_size-eq-size_of (product (cons t ts)) h = absurd (cc)
abi_size-eq-size_of (array elem n) h =
    rw (type_eq-unit_array elem n, abi_size-eq-size_of elem h)
      (ap (λ k. some (wrap64 k)) (mul_comm (size_of elem) n))
abi_size-eq-size_of t h = absurd (cc)
