-- ===== src/Examples/TypesAbi.antt =====
-- The type algebra (src/backend/ir/type.hpp) and the calling convention
-- (src/backend/ir/lowering/abi.hpp, src/backend/rv64/abi.hpp) at concrete types.
use ucas_cplab.Common.{
  ℕ, ◌≡◌, refl, true, false, Option, some, List, [], ◌∷◌, arith, inl, inr, get_elem?,
}
use ucas_cplab.Types.{Primitive, IrType, primitive, sum, array, slice, nil, cons, size_of, flatten}
use ucas_cplab.Types.Size.{size_of-flatten}
use ucas_cplab.Types.Subtype.{
  subtype, union, make_sum, sum_of_items, append_items, is_bottom, type_eq,
}
use ucas_cplab.Types.Subtype.Transitive.{subtype_trans, subtype_resizes_array}
use ucas_cplab.Types.Subtype.Union.{subtype-make_sum}
use ucas_cplab.Types.Subtype.Join.{is_proper, union_upper}
use ucas_cplab.Abi.{is_fp, assign_call_regs, rv64_abi, abi_size}
use ucas_cplab.Abi.CallRegs.{assign_call_regs_primitive, assign_call_regs_collision, expected_from}
use ucas_cplab.Abi.Size.{abi_size-eq-size_of}

abbrev i32 : IrType
i32 = primitive Primitive.int32

abbrev f32 : IrType
f32 = primitive Primitive.float32

abbrev i1 : IrType
i1 = primitive Primitive.int1

-- `int[3][4]`, and the sum of `int` and `float`
abbrev matrix : IrType
matrix = array (array i32 4) 3

abbrev int_or_float : IrType
int_or_float = sum (cons i32 (cons f32 nil))

abbrev three_types : List IrType
three_types = i32 ∷ f32 ∷ i32 ∷ []

abbrev three_items : IrType
three_items = sum (cons i1 (cons i32 (cons f32 nil)))

i32_le_sum : subtype i32 int_or_float ≡ true
unfolding subtype
i32_le_sum = refl

sum_le_sum : subtype int_or_float three_items ≡ true
unfolding subtype
sum_le_sum = refl

subtype_trans_example : subtype i32 three_items ≡ true
subtype_trans_example = subtype_trans i32 int_or_float three_items refl i32_le_sum sum_le_sum

made_sum : make_sum three_types ≡ some int_or_float
unfolding make_sum sum_of_items append_items is_bottom type_eq subtype
made_sum = refl

subtype-make_sum_example : subtype f32 int_or_float ≡ true
subtype-make_sum_example = subtype-make_sum f32 three_types int_or_float (inr (inl refl)) made_sum

sum_is_proper : is_proper int_or_float ≡ true
unfolding is_bottom
sum_is_proper = refl

union_upper_example :
    (v : IrType) × (union int_or_float i1 ≡ some v)
    × (subtype int_or_float v ≡ true)
    × (subtype i1 v ≡ true)
union_upper_example = union_upper int_or_float i1 sum_is_proper refl

subtype_resizes_array_example :
    (subtype (array i32 3) (slice i32 false) ≡ true)
    × (subtype (slice i32 false) (array i32 5) ≡ true)
    × (subtype (array i32 3) (array i32 5) ≡ false)
subtype_resizes_array_example = subtype_resizes_array i32 3 5 (omega arith)

size_of-flatten_example : size_of (flatten matrix) ≡ size_of matrix
size_of-flatten_example = size_of-flatten matrix

assign_call_regs_primitive_example :
    assign_call_regs three_types rv64_abi ≡ some (expected_from rv64_abi 0 0 three_types)
assign_call_regs_primitive_example = assign_call_regs_primitive rv64_abi three_types refl

fp_f32 : is_fp f32 ≡ true
unfolding is_fp
fp_f32 = refl

fp_i32 : is_fp i32 ≡ false
unfolding is_fp
fp_i32 = refl

assign_call_regs_collision_example :
    (rs : List (Option ℕ)) × (assign_call_regs (slice i32 false ∷ f32 ∷ i32 ∷ []) rv64_abi
      ≡ some rs)
    × (get_elem? rs 0 ≡ some (some 10))
    × (get_elem? rs 2 ≡ some (some 10))
assign_call_regs_collision_example =
    assign_call_regs_collision i32 false true Primitive.float32 Primitive.int32 [] fp_f32 fp_i32
      refl

abi_size-eq-size_of_example : abi_size matrix ≡ some (size_of matrix)
abi_size-eq-size_of_example = abi_size-eq-size_of matrix refl
