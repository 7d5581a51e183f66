-- ===== src/Rv64/Isel/Frame/Layout.antt =====
-- The slots of a frame (src/backend/rv64/isel.hpp) do not overlap.
use Prim.Native.Nat.{bit_and}
use native.Mathlib.Nat.{mod-eq_of_lt}
use mathlib.Core.Option
use ucas_cplab.Common.{
  ℕ, zero, suc, ◌+◌, ◌-◌, ◌*◌, ◌/◌, ◌%◌, ◌^◌, ◌≤◌, ◌<◌, ◌≡◌, ◌⊎◌, refl, ap, ◌∙◌, Bool, true, false,
  Option, none, some, length, List, [], ◌∷◌, ◌++◌, map, arith, ◌>>=◌, Bool-cases, inl, inr,
}
use ucas_cplab.Common.Bits.{bit_and_halves, bit_and_low}
use ucas_cplab.Types.{wrap64}
use ucas_cplab.Abi.{abi_size}
use ucas_cplab.Ir.Inst.{Func}
use ucas_cplab.Rv64.Isel.{Alloc}
use ucas_cplab.Rv64.Isel.Frame.{
  frame_of, outgoing_arg_area, round_up, align_to, place_locals, place_params, compute_frame,
}

bit_and-le_fuel : (k a b : ℕ) → b < k → bit_and a b ≤ b
bit_and-le_fuel zero a b h = absurd (omega arith)
bit_and-le_fuel (suc k) a zero h = omega (arith, bit_and_low 0 a)
bit_and-le_fuel (suc k) a (suc b) h =
    omega (arith, bit_and_halves a (suc b), bit_and-le_fuel k (a / 2) (suc b / 2) (omega arith))

bit_and-le : (a b : ℕ) → bit_and a b ≤ b
bit_and-le a b = bit_and-le_fuel (suc b) a b (omega arith)

round_up_lem :
    (align offset : ℕ)
    → 0 < align
    → offset + align < 2 ^ 64
    → round_up align offset ≡ offset + align - 1 - bit_and (offset + align - 1) (align - 1)
unfolding round_up
round_up_lem align offset pos h =
    ap (λ sum. sum - bit_and sum (align - 1)) (mod-eq_of_lt (omega arith))

-- Rounding up never goes below the offset, and adds less than the alignment.
round_up_bounds :
    (align offset : ℕ)
    → 0 < align
    → offset + align < 2 ^ 64
    → (offset ≤ round_up align offset) × (round_up align offset < offset + align)
round_up_bounds align offset pos h =
    omega (arith, round_up_lem align offset pos h, bit_and-le (offset + align - 1) (align - 1))

align_to_bounds :
    (align offset : ℕ)
    → offset + align < 2 ^ 64
    → (offset ≤ align_to align offset) × (align_to align offset ≤ offset + align)
unfolding align_to
align_to_bounds align offset h = ground (arith, round_up_bounds align offset)

round_up_pow2 :
    (k offset : ℕ)
    → 0 < 2 ^ k
    → offset + 2 ^ k < 2 ^ 64
    → round_up (2 ^ k) offset ≡ offset + 2 ^ k - 1 - (offset + 2 ^ k - 1) % 2 ^ k
round_up_pow2 k offset pos h =
    round_up_lem (2 ^ k) offset pos h
    ∙ ap (λ z. offset + 2 ^ k - 1 - z) (bit_and_low k (offset + 2 ^ k - 1))

align_to_16 : (offset : ℕ) → offset + 16 < 2 ^ 64 → align_to 16 offset % 16 ≡ 0
unfolding align_to
align_to_16 offset h = omega (arith, round_up_pow2 4 offset (omega arith) h)

round_up_8 : (offset : ℕ) → offset % 8 ≡ 0 → offset + 8 < 2 ^ 64 → round_up 8 offset ≡ offset
round_up_8 offset m h = omega (arith, round_up_pow2 3 offset (omega arith) h)

-- The slots lie one after another between the two offsets, each with the size of its type.
abbrev pub Consecutive : (ℕ → Alloc) → ℕ → List (ℕ × ℕ) → ℕ → Type 0
Consecutive alloc low [] high = low ≤ high
Consecutive alloc low ((a, offset) ∷ slots) high =
    (size : ℕ) × (abi_size (alloc a).alloc_type ≡ some size)
    × (low ≤ offset)
    × Consecutive alloc (offset + size) slots high

-- The `Alloc`s that have no register, in order: those that need a slot.
abbrev pub in_memory : (ℕ → Alloc) → List ℕ → List ℕ
in_memory alloc [] = []
in_memory alloc (a ∷ rest) = elim (alloc a).reference [
  | false ↦ in_memory alloc rest
  | true ↦ a ∷ in_memory alloc rest
]

-- A bound on what the locals take: those with a slot count twice, for the size and for the alignment.
abbrev pub add_needed : Bool → Option ℕ → Option ℕ → Option ℕ
add_needed false size n = n
add_needed true none n = none
add_needed true (some size) none = none
add_needed true (some size) (some n) = some (size + size + n)

abbrev pub needed : (ℕ → Alloc) → List ℕ → Option ℕ
needed alloc [] = some 0
needed alloc (a ∷ rest) =
    add_needed (alloc a).reference (abi_size (alloc a).alloc_type) (needed alloc rest)

add_needed_cases :
    (r : Bool) (o m : Option ℕ) (n : ℕ)
    → add_needed r o m ≡ some n
    → ((r ≡ false) × (m ≡ some n))
      ⊎ ((size : ℕ) × (k : ℕ) × (r ≡ true) × (o ≡ some size) × (m ≡ some k) × (size + size + k ≡ n))
add_needed_cases false o m n h = inl (refl, h)
add_needed_cases true none m n h = absurd (cc)
add_needed_cases true (some size) none n h = absurd (cc)
add_needed_cases true (some size) (some k) n h = inr (size, k, refl, refl, refl, cc)

abbrev Placed : (ℕ → Alloc) → List ℕ → ℕ → ℕ → Type 0
Placed alloc locals offset n =
    (slots : List (ℕ × ℕ)) × (end : ℕ) × (place_locals alloc locals offset ≡ some (slots, end))
    × (map (λ p. p.0) slots ≡ in_memory alloc locals)
    × Consecutive alloc offset slots end
    × (end ≤ offset + n)

place_locals-slot :
    (alloc : ℕ → Alloc) (a : ℕ) (rest : List ℕ) (offset size end : ℕ) (slots : List (ℕ × ℕ))
    → (alloc a).reference ≡ true
    → abi_size (alloc a).alloc_type ≡ some size
    → wrap64 (align_to size offset + size) ≡ align_to size offset + size
    → place_locals alloc rest (align_to size offset + size) ≡ some (slots, end)
    → place_locals alloc (a ∷ rest) offset ≡ some ((a, align_to size offset) ∷ slots, end)
unfolding place_locals
place_locals-slot alloc a rest offset size end slots r o whole placed =
    rw (r, place_locals, o)
      (ap
          (λ z.
            Option.map (λ p. ((a, align_to size offset) ∷ p.0, p.1)) (place_locals alloc rest z))
          whole
        ∙ ap (Option.map (λ p. ((a, align_to size offset) ∷ p.0, p.1))) placed)

place_locals-Consecutive :
    (alloc : ℕ → Alloc) (locals : List ℕ) (offset n : ℕ)
    → needed alloc locals ≡ some n
    → offset + n < 2 ^ 64
    → Placed alloc locals offset n
unfolding place_locals
place_locals-Consecutive alloc [] offset n e h = ([], offset, refl, refl, omega arith, omega arith)
place_locals-Consecutive alloc (a ∷ rest) offset n e h =
    elim (add_needed_cases (alloc a).reference (abi_size (alloc a).alloc_type) (needed alloc rest) n
      e) [
        | inl (r, m) ↦
            rw (r, place_locals, in_memory) (place_locals-Consecutive alloc rest offset n m h)
        | inr (size, k, r, o, m, sum) ↦
            let here = align_to_bounds size offset (omega (arith, sum, h)) in
            let next = align_to size offset + size in
            let whole : wrap64 next ≡ next = mod-eq_of_lt (omega (arith, sum, h, here)) in
            let (slots, end, placed, all, apart, below) =
              place_locals-Consecutive alloc rest next k m (omega (arith, sum, h, here)) in
            (
              (a, align_to size offset) ∷ slots,
              end,
              place_locals-slot alloc a rest offset size end slots r o whole placed,
              rw (r, in_memory) (ap (λ later. a ∷ later) all),
              (size, o, here.0, apart),
              omega (arith, sum, below, here),
            )
      ]

Consecutive-weaken :
    (alloc : ℕ → Alloc) (slots : List (ℕ × ℕ)) (low mid high : ℕ)
    → mid ≤ high
    → Consecutive alloc low slots mid
    → Consecutive alloc low slots high
Consecutive-weaken alloc [] low mid high h c = omega arith
Consecutive-weaken alloc ((a, offset) ∷ slots) low mid high h (size, e, le, c) =
    (size, e, le, Consecutive-weaken alloc slots (offset + size) mid high h c)

-- Slots of eight bytes, from an offset on, for the parameters without a register.
abbrev pub incoming : (ℕ → Alloc) → List ℕ → ℕ → List (ℕ × ℕ)
incoming alloc [] offset = []
incoming alloc (a ∷ rest) offset = elim (alloc a).reference [
  | false ↦ incoming alloc rest offset
  | true ↦ (a, offset) ∷ incoming alloc rest (offset + 8)
]

place_params-incoming :
    (alloc : ℕ → Alloc) (params : List ℕ) (offset : ℕ)
    → offset % 8 ≡ 0
    → offset + 8 * length params + 8 < 2 ^ 64
    → place_params alloc params offset ≡ incoming alloc params offset
unfolding place_params
place_params-incoming alloc [] offset m h = refl
place_params-incoming alloc (a ∷ rest) offset m h = elim (Bool-cases (alloc a).reference) [
  | inl r ↦
      let here = round_up_8 offset m (omega (arith, h)) in
      let next : wrap64 (offset + 8) ≡ offset + 8 = mod-eq_of_lt (omega (arith, h)) in
      rw (r, place_params, incoming, here)
        (ap (λ z. (a, offset) ∷ place_params alloc rest z) next
          ∙ ap (λ z. (a, offset) ∷ z)
              (place_params-incoming alloc rest (offset + 8) (omega arith) (omega (arith, h))))
  | inr r ↦
      rw (r, place_params, incoming) (place_params-incoming alloc rest offset m (omega (arith, h)))
]

-- Every local without a register has a size, and these sizes, counted twice, with the area for the
-- arguments of calls, eight bytes for each parameter and 32 more stay below 2 ^ 64. Then there is a
-- layout, with a slot for each of these locals. From that area to the total size, their slots lie one after another, each with the size of its type,
-- so that none overlaps another, that area or the caller's frame. The total size is a multiple of 16, and
-- the parameters without a register have the slots of eight bytes that follow it.
pub compute_frame-Consecutive :
    (alloc : ℕ → Alloc) (f : Func) (locals params : List ℕ) (n : ℕ)
    → needed alloc locals ≡ some n
    → outgoing_arg_area f + n + 8 * length params + 32 < 2 ^ 64
    → (slots : List (ℕ × ℕ)) × (total : ℕ) × (compute_frame alloc f locals params
        ≡ some
            (record { total_size = total; spill_offsets = slots ++ incoming alloc params total }))
      × (map (λ p. p.0) slots ≡ in_memory alloc locals)
      × Consecutive alloc (outgoing_arg_area f) slots total
      × (total % 16 ≡ 0)
unfolding compute_frame
compute_frame-Consecutive alloc f locals params n e h =
    let (slots, end, placed, all, apart, below) =
      place_locals-Consecutive alloc locals (outgoing_arg_area f) n e (omega (arith, h)) in
    let bounds = align_to_bounds 16 end (omega (arith, h, below)) in
    let total = align_to 16 end in
    let aligned = align_to_16 end (omega (arith, h, below)) in
    let params_eq =
      place_params-incoming alloc params total (omega (arith, aligned))
        (omega (arith, h, below, bounds)) in
    (
      slots,
      total,
      ap (λ o. o >>= frame_of alloc params) placed
          ∙ ap (λ ps. some (record { total_size = total; spill_offsets = slots ++ ps })) params_eq,
      all,
      Consecutive-weaken alloc slots (outgoing_arg_area f) end total bounds.0 apart,
      aligned,
    )
