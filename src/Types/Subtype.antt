-- ===== src/Types/Subtype.antt =====
-- Subtyping, the comparison `operator<=` of src/backend/ir/type.hpp, with what is built on it:
-- `operator==`, the sums `Sum::append`, `Sum::index_of` and `operator|`, and `constructable`.
-- The overloads call one another on smaller types, so they are one function on fuel, `le`, and
-- `subtype` gives it the two depths, which is enough.
use Prim.Native.Nat.{max}
use ucas_cplab.Common.{
  ℕ, zero, suc, ◌+◌, Bool, true, false, not, ◌&&◌, ◌||◌, Option, none, some, List, [], ◌∷◌, ◌++◌,
  leb, ltb, ◌==◌, if◌then◌else◌, all, any,
}
use ucas_cplab.Types.{
  Primitive, IrType, IrTypes, primitive, sum, product, func, array, reference, top, bottom, nil,
  cons, flatten_array, dim_array,
}
pub mod Depth
pub mod Items
pub mod Order
pub mod Transitive
pub mod Union
pub mod Join

unfoldable pub primitive_le : Primitive → Primitive → Bool
primitive_le Primitive.int1 Primitive.int1 = true
primitive_le Primitive.int32 Primitive.int32 = true
primitive_le Primitive.float32 Primitive.float32 = true
primitive_le Primitive.float64 Primitive.float64 = true
primitive_le Primitive.int Primitive.int = true
primitive_le Primitive.float Primitive.float = true
primitive_le _ _ = false

-- The loops over items, with the comparison of two items as an argument.
abbrev pub all_items : (IrType → Bool) → IrTypes → Bool
all_items p nil = true
all_items p (cons t ts) = p t && all_items p ts

abbrev pub any_item : (IrType → Bool) → IrTypes → Bool
any_item p nil = false
any_item p (cons t ts) = p t || any_item p ts

abbrev pub pairwise : (IrType → IrType → Bool) → IrTypes → IrTypes → Bool
pairwise r nil nil = true
pairwise r (cons t ts) (cons u us) = r t u && pairwise r ts us
pairwise r _ _ = false

abbrev pub reference_le : (IrType → IrType → Bool) → IrType → Bool → IrType → Bool → Bool
reference_le r elem readonly elem' readonly' =
    r elem elem' && not (readonly && not readonly') && (readonly' || r elem' elem)

-- One step of the dispatch. First `Bottom` on the left and `Top` on the right, then the overload
-- for the two alternatives; any other pair is the generic overload, which is false.
unfoldable pub le_step : (IrType → IrType → Bool) → IrType → IrType → Bool
unfolding primitive_le
le_step r bottom u = true
le_step r t top = true
le_step r (sum ts) u = all_items (λ t. r t u) ts
le_step r t (sum us) = any_item (λ u. r t u) us
le_step r (primitive p) (primitive q) = primitive_le p q
le_step r (product ts) (product us) = pairwise r ts us
le_step r (func params ret) (func params' ret') = r params' params && r ret ret'
le_step r (array elem size) (array elem' size') = r elem elem' && r elem' elem && size == size'
le_step r (reference elem ro is_slice) (reference elem' ro' is_slice') =
    reference_le r elem ro elem' ro'
le_step r (array elem size) (reference elem' ro' is_slice') = reference_le r elem false elem' ro'
le_step r (reference elem ro is_slice) (array elem' size') = reference_le r elem ro elem' false
le_step r t u = false

unfoldable pub le : ℕ → IrType → IrType → Bool
unfolding le_step
le zero t u = false
le (suc fuel) t u = le_step (le fuel) t u

-- How deep a type is nested: each step of `le` enters one of its two arguments.
unfoldable mutual
  pub depth : IrType → ℕ
  depth (sum ts) = suc (depth_items ts)
  depth (product ts) = suc (depth_items ts)
  depth (func params ret) = suc (max (depth params) (depth ret))
  depth (array elem size) = suc (depth elem)
  depth (reference elem ro is_slice) = suc (depth elem)
  depth (primitive p) = 1
  depth top = 1
  depth bottom = 1

  pub depth_items : IrTypes → ℕ
  depth_items nil = 0
  depth_items (cons t ts) = max (depth t) (depth_items ts)

unfoldable pub subtype : IrType → IrType → Bool
unfolding le depth
subtype t u = le (depth t + depth u) t u

-- `operator==`
unfoldable pub type_eq : IrType → IrType → Bool
type_eq t u = subtype t u && subtype u t

unfoldable pub is_bottom : IrType → Bool
is_bottom bottom = true
is_bottom t = false

abbrev pub to_items : List IrType → IrTypes
to_items [] = nil
to_items (t ∷ ts) = cons t (to_items ts)

abbrev pub of_items : IrTypes → List IrType
of_items nil = []
of_items (cons t ts) = t ∷ of_items ts

-- `Sum::append`
unfoldable pub append_item : List IrType → IrType → List IrType
append_item items t =
    if is_bottom t then items else if any (λ i. type_eq i t) items then items else items ++ t ∷ []

unfoldable pub append_items : List IrType → List IrType → List IrType
unfolding append_item
append_items items [] = items
append_items items (t ∷ ts) = append_items (append_item items t) ts

-- The constructor of `Sum`: it throws on fewer than two items.
unfoldable pub sum_of_items : List IrType → Option IrType
sum_of_items [] = none
sum_of_items (i ∷ []) = none
sum_of_items (i ∷ j ∷ is) = some (sum (to_items (i ∷ j ∷ is)))

unfoldable pub make_sum : List IrType → Option IrType
make_sum ts = sum_of_items (append_items [] ts)

-- `Sum::index_of`: it throws on a type that is no item.
unfoldable pub index_of : List IrType → IrType → Option ℕ
index_of [] t = none
index_of (i ∷ is) t =
    let rest = index_of is t in
    if type_eq i t then some 0 else elim rest [ none ↦ none | some n ↦ some (suc n) ]

-- `operator|`: its items (a sum gives its own), each kept once, and a sum of what is left.
abbrev pub collect : IrType → List IrType
collect (sum items) = of_items items
collect t = t ∷ []

unfoldable pub unique : List IrType → List IrType → List IrType
unique seen [] = seen
unique seen (t ∷ ts) =
    unique (if all (λ u. not (type_eq t u)) seen then seen ++ t ∷ [] else seen) ts

unfoldable pub sum_of_unique : List IrType → Option IrType
sum_of_unique (t ∷ []) = some t
sum_of_unique ts = make_sum ts

unfoldable pub union : IrType → IrType → Option IrType
union t u =
    if is_bottom t
    then some u
    else if is_bottom u
    then some t
    else if type_eq t u
    then some t
    else sum_of_unique (unique [] (collect t ++ collect u))

-- `constructable`: arrays and references look at their elements, the rest is subtyping. The
-- recursion enters the element of `from`.
unfoldable pub constructable : IrType → IrType → Bool
constructable (array elem size) (array elem' size') =
    let flat = flatten_array elem' size' in
    let same = constructable elem elem' in
    let below = constructable elem (elim flat [ array e n ↦ e | _ ↦ elem' ]) in
    let room : ℕ = elim flat [ array e n ↦ n | _ ↦ size' ] in
    if ltb 1 (dim_array elem) && not (dim_array elem' == dim_array elem)
    then false
    else if dim_array elem == 1 && ltb 1 (dim_array elem')
    then below && leb size room
    else same && leb size size'
constructable (reference elem ro is_slice) (reference elem' ro' is_slice') =
    constructable elem elem'
constructable (array elem size) (reference elem' ro' is_slice') = false
constructable (reference elem ro is_slice) (array elem' size') = false
constructable t u = subtype t u
