-- ===== src/Types.antt =====
-- The IR's type algebra (src/backend/ir/type.hpp): the types themselves, their views (flatten,
-- decay, borrow), their sizes and dimensions. Subtyping and what is built on it are in the
-- children. `size_t` products and sums wrap at 2 ^ 64.
use ucas_cplab.Common.{
  ℕ, zero, suc, ◌+◌, ◌*◌, ◌%◌, ◌^◌, Bool, true, false, not, ◌&&◌, if◌then◌else◌,
}
use Prim.Native.Nat.{max}
pub mod Subtype
pub mod Size

-- `Primitive`: the alternatives in the order of the variant.
pub data Primitive : Type 0 where
  int1 int32 float32 float64 int float : Primitive

-- `Type` and `TypeBox`: a reference holds its element, `readonly` and `is_slice`. The vectors of
-- items are a list type of the same block.
mutual
  pub data IrType : Type 0 where
    primitive : Primitive → IrType
    sum : IrTypes → IrType
    product : IrTypes → IrType
    func : IrType → IrType → IrType
    array : IrType → ℕ → IrType
    reference : IrType → Bool → Bool → IrType
    top : IrType
    bottom : IrType

  pub data IrTypes : Type 0 where
    nil : IrTypes
    cons : IrType → IrTypes → IrTypes

abbrev pub slice : IrType → Bool → IrType
slice elem readonly = reference elem readonly true

abbrev pub pointer : IrType → Bool → IrType
pointer elem readonly = reference elem readonly false

abbrev pub unit : IrType
unit = product nil

-- `Array::decay` on arrays, `TypeBox::decay` elsewhere.
unfoldable pub decay : IrType → Bool → IrType
decay (array elem size) readonly = slice elem readonly
decay t readonly = t

unfoldable pub borrow : IrType → Bool → IrType
borrow (array elem size) readonly = slice elem readonly
borrow t readonly = pointer t readonly

unfoldable pub is_pointer : IrType → Bool
is_pointer (reference elem readonly is_slice) = not is_slice
is_pointer t = false

unfoldable pub is_slice_type : IrType → Bool
is_slice_type (reference elem readonly is_slice) = is_slice
is_slice_type t = false

abbrev pub wrap64 : ℕ → ℕ
wrap64 n = n % 2 ^ 64

-- `Array::flatten`: the element type is the one below all array layers.
unfoldable pub flatten_array : IrType → ℕ → IrType
flatten_array (array inner inner_size) size = flatten_array inner (wrap64 (size * inner_size))
flatten_array elem size = array elem size

unfoldable pub flatten : IrType → IrType
unfolding flatten_array
flatten (array elem size) = flatten_array elem size
flatten t = t

unfoldable pub size_of_primitive : Primitive → ℕ
size_of_primitive Primitive.int1 = 1
size_of_primitive Primitive.int32 = 4
size_of_primitive Primitive.int = 8
size_of_primitive Primitive.float32 = 4
size_of_primitive Primitive.float64 = 8
size_of_primitive Primitive.float = 8

-- `size_of`: a sum is its largest item and an `int` tag.
unfoldable mutual
  unfolding size_of_primitive

  pub size_of : IrType → ℕ
  size_of (primitive p) = size_of_primitive p
  size_of (sum items) = wrap64 (max_size items + 4)
  size_of (product items) = total_size items
  size_of (func params ret) = 8
  size_of (array elem size) = wrap64 (size * size_of elem)
  size_of (reference elem readonly is_slice) = 8
  size_of top = 0
  size_of bottom = 0

  pub total_size : IrTypes → ℕ
  total_size nil = 0
  total_size (cons t ts) = wrap64 (size_of t + total_size ts)

  pub max_size : IrTypes → ℕ
  max_size nil = 0
  max_size (cons t ts) = max (size_of t) (max_size ts)

-- `dim` of an array with this element.
unfoldable pub dim_array : IrType → ℕ
dim_array (array inner size) = 1 + dim_array inner
dim_array elem = 1
