-- ===== src/Types/Size.antt =====
-- What `flatten`, `decay` and `borrow` of src/backend/ir/type.hpp do to sizes and dimensions.
use ucas_cplab.Common.{ℕ, ◌*◌, ◌^◌, ◌<◌, ◌≡◌, refl, ◌∙◌, arith, mul_mod_assoc}
use ucas_cplab.Types.{
  IrType, IrTypes, primitive, sum, product, func, array, reference, top, bottom, nil, cons, wrap64,
  flatten_array, flatten, size_of, total_size, dim_array, size_of_primitive, Primitive,
}

size_of-flatten_array :
    (elem : IrType) (size : ℕ) → size_of (flatten_array elem size) ≡ wrap64 (size * size_of elem)
unfolding flatten_array size_of
size_of-flatten_array (array inner m) n =
    size_of-flatten_array inner (wrap64 (n * m)) ∙ mul_mod_assoc n m (size_of inner)
size_of-flatten_array t n = refl

-- Flattening a type keeps its size in bytes, wrap-around included.
pub size_of-flatten : (t : IrType) → size_of (flatten t) ≡ size_of t
unfolding flatten size_of
size_of-flatten (array elem size) = size_of-flatten_array elem size
size_of-flatten t = refl

flatten_array_elem :
    (elem : IrType) (size : ℕ)
    → (e : IrType) × (n : ℕ) × (flatten_array elem size ≡ array e n)
      × (dim_array e ≡ 1)
      × (flatten_array e n ≡ array e n)
unfolding flatten_array dim_array
flatten_array_elem (array inner m) n = flatten_array_elem inner (wrap64 (n * m))
flatten_array_elem (primitive p) n = (primitive p, n, refl, refl, refl)
flatten_array_elem t n = (t, n, refl, refl, refl)

-- Flattening a type that is already flattened changes nothing.
pub flatten_idem : (t : IrType) → flatten (flatten t) ≡ flatten t
unfolding flatten
flatten_idem (array elem size) =
    let (e, n, p, d, q) = flatten_array_elem elem size in rw (p, flatten) (q)
flatten_idem t = refl

mutual
  unfolding size_of size_of_primitive

  size_lt : (t : IrType) → size_of t < 2 ^ 64
  size_lt (primitive p) = elim p as (λ p. size_of_primitive p < 2 ^ 64) [
    | Primitive.int1 ↦ omega arith
    | Primitive.int32 ↦ omega arith
    | Primitive.float32 ↦ omega arith
    | Primitive.float64 ↦ omega arith
    | Primitive.int ↦ omega arith
    | Primitive.float ↦ omega arith
  ]
  size_lt (sum ts) = omega arith
  size_lt (product ts) = total_lt ts
  size_lt (array e n) = omega arith
  size_lt (func a b) = omega arith
  size_lt (reference e ro s) = omega arith
  size_lt top = omega arith
  size_lt bottom = omega arith

  total_lt : (ts : IrTypes) → total_size ts < 2 ^ 64
  total_lt nil = omega arith
  total_lt (cons t ts) = omega arith

-- Every size fits a `size_t`.
pub size_of-lt : (t : IrType) → size_of t < 2 ^ 64
size_of-lt t = size_lt t
