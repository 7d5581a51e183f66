-- ===== src/Abi.antt =====
-- The calling convention: src/backend/ir/lowering/abi.hpp (register and memory ABI, the registers
-- of call arguments) and its RV64 instance src/backend/rv64/abi.hpp. A register is its number; a
-- source exception is `none`. The function that prints a register's name is left out.
use ucas_cplab.Common.{
  ℕ, zero, suc, ◌+◌, ◌*◌, Bool, true, false, ◌||◌, Option, none, some, List, [], ◌∷◌, ◌++◌,
  if◌then◌else◌, length, get_elem?, ltb,
}
use mathlib.Core.Option
use ucas_cplab.Types.{Primitive, IrType, primitive, array, reference, unit, wrap64}
use ucas_cplab.Types.Subtype.{type_eq}
pub mod CallRegs
pub mod Size

pub record RegisterAbi : Type 0 where
  pub size : ℕ
  pub caller_saved : List ℕ
  pub callee_saved : List ℕ
  pub reserved : List ℕ
  pub parameters : List ℕ
  pub return_value : ℕ

pub record MemoryAbi : Type 0 where
  pub stack_alignment : ℕ
  pub size : IrType → Option ℕ
  pub align : IrType → Option ℕ

pub record TargetAbi : Type 0 where
  pub generals : RegisterAbi
  pub floats : RegisterAbi
  pub return_addr : ℕ
  pub mem : MemoryAbi

unfoldable pub is_fp : IrType → Bool
is_fp (primitive Primitive.float32) = true
is_fp (primitive Primitive.float64) = true
is_fp (primitive Primitive.float) = true
is_fp t = false

unfoldable pub reg_of : TargetAbi → IrType → RegisterAbi
unfolding is_fp
reg_of abi t = if is_fp t then abi.floats else abi.generals

-- The two counters of `assign_call_regs` and the registers given so far.
pub record Assigned : Type 0 where
  pub num_general : ℕ
  pub num_float : ℕ
  pub param_regs : List (Option ℕ)

-- The lambda `assign` on each counter: the next parameter register, or none when they run out.
unfoldable pub assign_general : TargetAbi → Assigned → Assigned
assign_general abi s =
    if ltb s.num_general (length abi.generals.parameters)
    then record s {
      num_general = s.num_general + 1;
      param_regs = s.param_regs ++ get_elem? abi.generals.parameters s.num_general ∷ [];
    }
    else record s { param_regs = s.param_regs ++ none ∷ [] }

unfoldable pub assign_float : TargetAbi → Assigned → Assigned
assign_float abi s =
    if ltb s.num_float (length abi.floats.parameters)
    then record s {
      num_float = s.num_float + 1;
      param_regs = s.param_regs ++ get_elem? abi.floats.parameters s.num_float ∷ [];
    }
    else record s { param_regs = s.param_regs ++ none ∷ [] }

-- The second test of the loop body, which follows the first in every case that does not throw.
unfoldable pub assign_class : TargetAbi → IrType → Assigned → Assigned
unfolding assign_general assign_float is_fp
assign_class abi t s = if is_fp t then assign_float abi s else assign_general abi s

-- The loop body: what is neither a primitive nor a reference throws.
unfoldable pub assign_type : TargetAbi → IrType → Assigned → Option Assigned
unfolding assign_class
assign_type abi (primitive p) s = some (assign_class abi (primitive p) s)
assign_type abi (reference elem ro is_slice) s =
    some (assign_class abi (reference elem ro is_slice) (assign_general abi s))
assign_type abi t s = none

unfoldable pub assign_loop : TargetAbi → List IrType → Assigned → Option Assigned
unfolding assign_type
assign_loop abi [] s = some s
assign_loop abi (t ∷ ts) s = elim (assign_type abi t s) [
  | none ↦ none
  | some s' ↦ assign_loop abi ts s'
]

abbrev pub unassigned : Assigned
unassigned = record { num_general = 0; num_float = 0; param_regs = [] }

unfoldable pub assign_call_regs : List IrType → TargetAbi → Option (List (Option ℕ))
assign_call_regs types abi = Option.map (λ s. s.param_regs) (assign_loop abi types unassigned)

-- src/backend/rv64/abi.hpp
abbrev pub gpr : RegisterAbi
gpr = record {
  size = 32;
  caller_saved = 6 ∷ 7 ∷ 10 ∷ 11 ∷ 12 ∷ 13 ∷ 14 ∷ 15 ∷ 16 ∷ 17 ∷ 28 ∷ 29 ∷ 30 ∷ 31 ∷ [];
  callee_saved = 1 ∷ 8 ∷ 9 ∷ 18 ∷ 19 ∷ 20 ∷ 21 ∷ 22 ∷ 23 ∷ 24 ∷ 25 ∷ 26 ∷ 27 ∷ [];
  reserved = 0 ∷ 2 ∷ 3 ∷ 4 ∷ 5 ∷ [];
  parameters = 10 ∷ 11 ∷ 12 ∷ 13 ∷ 14 ∷ 15 ∷ 16 ∷ 17 ∷ [];
  return_value = 10;
}

abbrev pub fpr : RegisterAbi
fpr = record {
  size = 32;
  caller_saved =
      0 ∷ 1 ∷ 2 ∷ 3 ∷ 4 ∷ 5 ∷ 6 ∷ 7 ∷ 10 ∷ 11 ∷ 12 ∷ 13 ∷ 14 ∷ 15 ∷ 16 ∷ 17 ∷ 28 ∷ 29 ∷ 30 ∷ 31
      ∷ [];
  callee_saved = 8 ∷ 9 ∷ 18 ∷ 19 ∷ 20 ∷ 21 ∷ 22 ∷ 23 ∷ 24 ∷ 25 ∷ 26 ∷ 27 ∷ [];
  reserved = 5 ∷ [];
  parameters = 10 ∷ 11 ∷ 12 ∷ 13 ∷ 14 ∷ 15 ∷ 16 ∷ 17 ∷ [];
  return_value = 10;
}

unfoldable pub primitive_size : Primitive → ℕ
primitive_size Primitive.int = 8
primitive_size Primitive.float = 8
primitive_size Primitive.int32 = 4
primitive_size Primitive.int1 = 1
primitive_size Primitive.float32 = 4
primitive_size Primitive.float64 = 8

-- `abi::size`: the tests in order. The unit type is recognised by `operator==`.
unfoldable pub abi_size : IrType → Option ℕ
unfolding primitive_size
abi_size (primitive p) = some (primitive_size p)
abi_size (reference elem ro is_slice) =
    if type_eq (reference elem ro is_slice) unit then some 0 else some 8
abi_size (array elem n) =
    let inner = abi_size elem in
    if type_eq (array elem n) unit
    then some 0
    else elim inner [ none ↦ none | some s ↦ some (wrap64 (s * n)) ]
abi_size t = if type_eq t unit then some 0 else none

abbrev pub rv64_abi : TargetAbi
rv64_abi = record {
  generals = gpr;
  floats = fpr;
  return_addr = 1;
  mem = record { stack_alignment = 16; size = abi_size; align = abi_size };
}
