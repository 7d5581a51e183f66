-- ===== src/Common/Bits.antt =====
-- The native bit operation `and`: by halves, and with the lowest bits.
use Prim.Native.Nat.{
  ℕ, zero, suc, ◌+◌, ◌-◌, ◌*◌, ◌/◌, ◌%◌, ◌^◌, ◌≤◌, min, bit_and, digits, bit_and-bitwise,
}
use mathlib.Core.Path.{◌≡◌, refl}
use native.Mathlib.Nat.{pow-succ', one-le-pow}
use native.Mathlib.Omega.{arith}
use ucas_cplab.Common.Words.{mod-split}

-- Any fuel that covers the left operand gives the same digits.
more_fuel :
    (z : ℕ → ℕ) (f : ℕ → ℕ → ℕ) (a b s t : ℕ) → a ≤ s → a ≤ t → digits z f s a b ≡ digits z f t a b
more_fuel z f zero b (suc s) (suc t) h k = refl
more_fuel z f zero b (suc s) zero h k = refl
more_fuel z f zero b zero (suc t) h k = refl
more_fuel z f zero b zero zero h k = refl
more_fuel z f (suc a) b (suc s) (suc t) h k =
    let half = more_fuel z f (suc a / 2) (b / 2) s t (omega arith) (omega arith) in
    omega (arith, half)
more_fuel z f (suc a) b zero t h k = absurd (omega arith)
more_fuel z f (suc a) b (suc s) zero h k = absurd (omega arith)

pub bit_and_halves : (a b : ℕ) → bit_and a b ≡ bit_and (a / 2) (b / 2) * 2 + min (a % 2) (b % 2)
bit_and_halves zero b = omega (arith, bit_and-bitwise 0 b, bit_and-bitwise 0 (b / 2))
bit_and_halves (suc a) b = omega (
  arith,
  bit_and-bitwise (suc a) b,
  bit_and-bitwise (suc a / 2) (b / 2),
  more_fuel (λ y. 0) min (suc a / 2) (b / 2) a (suc a / 2) (omega arith) (omega arith),
)

bit_and_digits-zero : (n a : ℕ) → digits (λ y. 0) min n a 0 ≡ 0
bit_and_digits-zero zero a = refl
bit_and_digits-zero (suc n) zero = refl
bit_and_digits-zero (suc n) (suc a) = omega (arith, bit_and_digits-zero n (suc a / 2))

-- `a & (2 ^ k - 1)` is the remainder by `2 ^ k`.
pub bit_and_low : (k a : ℕ) → bit_and a (2 ^ k - 1) ≡ a % 2 ^ k
bit_and_low zero a = omega (arith, bit_and-bitwise a 0, bit_and_digits-zero a a)
bit_and_low (suc k) a =
    let half : (2 ^ suc k - 1) / 2 ≡ 2 ^ k - 1 = omega (arith, pow-succ' 2 k, one-le-pow k 2) in
    let odd : (2 ^ suc k - 1) % 2 ≡ 1 = omega (arith, pow-succ' 2 k, one-le-pow k 2) in
    let step = bit_and_halves a (2 ^ suc k - 1) in
    let ih = bit_and_low k (a / 2) in
    let split = mod-split a 2 (2 ^ k) (omega arith) in
    rw (step, half, odd, ih, pow-succ' 2 k, split) (omega arith)
