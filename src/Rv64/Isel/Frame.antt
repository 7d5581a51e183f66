-- ===== src/Rv64/Isel/Frame.antt =====
-- `compute_frame` (src/backend/rv64/isel.hpp). Locals and parameters are the numbers of their `Alloc`s; `spill_offsets` is a
-- list in the order of the assignments, whose keys are different. `size_t` sums wrap.
use Prim.Native.Nat.{bit_and, max}
use ucas_cplab.Common.{
  ℕ, ◌+◌, ◌-◌, ◌*◌, Bool, true, false, Option, none, some, List, [], ◌∷◌, ◌++◌, if◌then◌else◌, ltb,
  ◌==◌, length, ◌>>=◌,
}
use mathlib.Core.Option
use ucas_cplab.Types.{wrap64}
use ucas_cplab.Abi.{abi_size, rv64_abi}
use ucas_cplab.Ir.Inst.{Inst, call_inst, phi_inst, unary_inst, binary_inst, Block, Func}
use ucas_cplab.Rv64.Isel.{Alloc}
pub mod Layout

-- Without `ra_offset` and the saved registers, which nothing sets.
pub record FrameLayout : Type 0 where
  pub total_size : ℕ
  pub spill_offsets : List (ℕ × ℕ)

abbrev pub call_area : Inst → ℕ
call_area (call_inst result func args) = wrap64 (length args * 8)
call_area (phi_inst result args) = 0
call_area (unary_inst op result operand) = 0
call_area (binary_inst op result lhs rhs) = 0

abbrev pub max_call_area : List Inst → ℕ → ℕ
max_call_area [] area = area
max_call_area (i ∷ is) area =
    max_call_area is (if ltb area (call_area i) then call_area i else area)

abbrev pub blocks_call_area : List (ℕ × Block) → ℕ → ℕ
blocks_call_area [] area = area
blocks_call_area (b ∷ bs) area = blocks_call_area bs (max_call_area b.1.insts area)

unfoldable pub outgoing_arg_area : Func → ℕ
outgoing_arg_area f = blocks_call_area f.blocks 0

-- `(offset + align - 1) & ~(align - 1)`
unfoldable pub round_up : ℕ → ℕ → ℕ
round_up align offset = let sum = wrap64 (offset + align - 1) in sum - bit_and sum (align - 1)

unfoldable pub align_to : ℕ → ℕ → ℕ
unfolding round_up
align_to align offset = if ltb 1 align then round_up align offset else offset

-- The slots of the locals, and the offset after them. Size and alignment are the same function.
unfoldable pub place_locals : (ℕ → Alloc) → List ℕ → ℕ → Option (List (ℕ × ℕ) × ℕ)
unfolding align_to abi_size
place_locals alloc [] offset = some ([], offset)
place_locals alloc (a ∷ rest) offset = elim (alloc a).reference [
  | false ↦ place_locals alloc rest offset
  | true ↦ elim (abi_size (alloc a).alloc_type) [
    | none ↦ none
    | some size ↦
        Option.map (λ p. ((a, align_to size offset) ∷ p.0, p.1))
          (place_locals alloc rest (wrap64 (align_to size offset + size)))
  ]
]

-- The slots of the parameters that lie in the caller's frame.
unfoldable pub place_params : (ℕ → Alloc) → List ℕ → ℕ → List (ℕ × ℕ)
unfolding round_up
place_params alloc [] offset = []
place_params alloc (a ∷ rest) offset = elim (alloc a).reference [
  | false ↦ place_params alloc rest offset
  | true ↦ (a, round_up 8 offset) ∷ place_params alloc rest (wrap64 (round_up 8 offset + 8))
]

-- With the slots of the locals and the offset after them.
abbrev pub frame_of : (ℕ → Alloc) → List ℕ → List (ℕ × ℕ) × ℕ → Option FrameLayout
unfolding place_params align_to
frame_of alloc params (slots, offset) =
    let total = align_to rv64_abi.mem.stack_alignment offset in
    some (record { total_size = total; spill_offsets = slots ++ place_params alloc params total })

unfoldable pub compute_frame : (ℕ → Alloc) → Func → List ℕ → List ℕ → Option FrameLayout
unfolding place_locals place_params align_to outgoing_arg_area
compute_frame alloc f locals params =
    place_locals alloc locals (outgoing_arg_area f) >>= frame_of alloc params
