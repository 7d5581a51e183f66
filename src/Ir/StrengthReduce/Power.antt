-- ===== src/Ir/StrengthReduce/Power.antt =====
-- `log2_pow2` (src/backend/ir/transform/optim/strength_reduce.hpp) finds the exponents of the powers of two.
use Prim.Native.Nat.{bit_and}
use native.Mathlib.Nat.{pow-succ', one-le-pow, pow-le-pow_right, mod_self}
use ucas_cplab.Common.{
  ℕ, zero, suc, ◌+◌, ◌-◌, ◌*◌, ◌/◌, ◌%◌, ◌^◌, ◌≤◌, ◌<◌, ◌≡◌, ◌↔◌, refl, sym, ◌∙◌, subst, some, ltb,
  ◌==◌, arith, Bool-cases, inl, inr,
}
use ucas_cplab.Common.Bits.{bit_and_halves, bit_and_low}
use ucas_cplab.Ir.StrengthReduce.{log2_loop, log2_pow2_impl}

bit_and_self : (n a : ℕ) → a ≤ n → bit_and a a ≡ a
bit_and_self zero a h = let e : a ≡ 0 = omega arith in subst (λ z. bit_and z z ≡ z) (sym e) refl
bit_and_self (suc n) a h = omega (arith, bit_and_halves a a, bit_and_self n (a / 2) (omega arith))

log2_loop-add : (fuel uv n : ℕ) → log2_loop fuel uv n ≡ log2_loop fuel uv 0 + n
unfolding log2_loop
log2_loop-add zero uv n = omega arith
log2_loop-add (suc fuel) uv n =
    ground (arith, log2_loop-add fuel (uv / 2) (n + 1), log2_loop-add fuel (uv / 2) 1)

-- With the lowest set bit gone nothing is left only if there was one bit: half of it has one bit too.
half_bit :
    (v : ℕ) → 1 < v → bit_and v (v - 1) ≡ 0 → (v ≡ 2 * (v / 2)) × (bit_and (v / 2) (v / 2 - 1) ≡ 0)
half_bit v p e =
    let step = bit_and_halves v (v - 1) in
    let even : v % 2 ≡ 0 = elim (Bool-cases (v % 2 == 0)) [
      | inl q ↦ ground (arith, q)
      | inr q ↦
          let low : (v - 1) / 2 ≡ v / 2 = ground (arith, q) in
          let same =
            subst (λ z. bit_and (v / 2) z ≡ v / 2) (sym low)
              (bit_and_self (v / 2) (v / 2) (omega arith)) in
          absurd (omega (arith, step, e, same, p))
    ] in
    let low : (v - 1) / 2 ≡ v / 2 - 1 = omega (arith, even, p) in
    (omega (arith, even), subst (λ z. bit_and (v / 2) z ≡ 0) low (omega (arith, step, e)))

log2_loop-step :
    (fuel v n : ℕ) → 1 < v → log2_loop (suc fuel) v n ≡ log2_loop fuel (v / 2) 0 + (n + 1)
unfolding log2_loop
log2_loop-step fuel v n p = ground (arith, p, log2_loop-add fuel (v / 2) (n + 1))

log2_loop-done : (fuel v : ℕ) → v ≤ 1 → log2_loop fuel v 0 ≡ 0
unfolding log2_loop
log2_loop-done zero v p = refl
log2_loop-done (suc fuel) v p = ground (arith, p)

log2_loop-pow : (fuel v : ℕ) → 0 < v → v ≤ fuel → bit_and v (v - 1) ≡ 0 → 2 ^ log2_loop fuel v 0 ≡ v
log2_loop-pow zero v p h e = absurd (omega arith)
log2_loop-pow (suc fuel) v p h e = elim (Bool-cases (ltb 1 v)) [
  | inr q ↦ rw (log2_loop-done (suc fuel) v (ground (arith, q))) (ground (arith, q, p))
  | inl q ↦
      let (even, bit) = half_bit v (ground (arith, q)) e in
      let ih = log2_loop-pow fuel (v / 2) (omega (arith, even, p)) (omega (arith, h, p)) bit in
      let next : log2_loop (suc fuel) v 0 ≡ suc (log2_loop fuel (v / 2) 0) =
        omega (arith, log2_loop-step fuel v 0 (ground (arith, q))) in
      rw next (omega (arith, pow-succ' 2 (log2_loop fuel (v / 2) 0), ih, even))
]

log2_loop-of_pow : (n fuel : ℕ) → 2 ^ n ≤ fuel → log2_loop fuel (2 ^ n) 0 ≡ n
log2_loop-of_pow zero fuel h = log2_loop-done fuel 1 (omega arith)
log2_loop-of_pow (suc n) zero h = absurd (omega (arith, one-le-pow (suc n) 2))
log2_loop-of_pow (suc n) (suc fuel) h =
    let one = one-le-pow n 2 in
    let twice = pow-succ' 2 n in
    let half : 2 ^ suc n / 2 ≡ 2 ^ n = omega (arith, twice) in
    let ih = log2_loop-of_pow n fuel (omega (arith, h, twice, one)) in
    log2_loop-step fuel (2 ^ suc n) 0 (omega (arith, twice, one)) ∙ rw half (omega (arith, ih))

power_bit : (n : ℕ) → bit_and (2 ^ n) (2 ^ n - 1) ≡ 0
power_bit n = bit_and_low n (2 ^ n) ∙ mod_self (2 ^ n)

small_exponent : (w n : ℕ) → 2 ^ n < 2 ^ w → n < w
small_exponent w n h = elim (Bool-cases (ltb n w)) [
  | inl q ↦ ground (arith, q)
  | inr q ↦
      let le = pow-le-pow_right {n = 2} (omega arith) {i = w} {j = n} (ground (arith, q)) in
      absurd (omega (arith, le, h))
]

log2_found : (w v n : ℕ) → log2_pow2_impl w v ≡ some n → (n < w - 1) × (v ≡ 2 ^ n)
unfolding log2_pow2_impl
log2_found w v n h =
    let positive : 0 < v = ground (arith, h) in
    let small : v < 2 ^ (w - 1) = ground (arith, h) in
    let bit : bit_and v (v - 1) ≡ 0 = ground (arith, h) in
    let exponent : log2_loop v v 0 ≡ n = ground (arith, h) in
    let power : 2 ^ n ≡ v =
      subst (λ k. 2 ^ k ≡ v) exponent (log2_loop-pow v v positive (omega arith) bit) in
    (small_exponent (w - 1) n (omega (arith, power, small)), sym power)

-- A constant is a power of two that a positive number of `w` bits can have if and only if the exponent is
-- found, and it is then less than `w - 1`.
pub log2_pow2_impl_iff : (w v n : ℕ) → (log2_pow2_impl w v ≡ some n) ↔ ((n < w - 1) × (v ≡ 2 ^ n))
unfolding log2_pow2_impl
log2_pow2_impl_iff w v n = (
  log2_found w v n,
  λ h.
      let positive = one-le-pow n 2 in
      let small =
        pow-le-pow_right {n = 2} (omega arith) {i = suc n} {j = w - 1} (omega (arith, h.0)) in
      let below : 2 ^ n < 2 ^ (w - 1) = omega (arith, small, pow-succ' 2 n, positive) in
      rw h.1
        (ground (arith, positive, below, power_bit n, log2_loop-of_pow n (2 ^ n) (omega arith))),
)
