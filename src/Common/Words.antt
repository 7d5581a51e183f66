-- ===== src/Common/Words.antt =====
-- Products modulo 2 ^ 64 and 2 ^ 32.
use Prim.Native.Nat.{ℕ, zero, suc, ◌<◌, ◌+◌, ◌*◌, ◌/◌, ◌%◌, ◌^◌}
use mathlib.Core.Path.{◌≡◌, ap, sym, ◌∙◌}
use native.Mathlib.Nat.{
  div-add-mod, mul-zero, mod-zero, mul_assoc, mod-lt, mod-eq_of_lt, add-mul-mod_self_left,
}
use native.Mathlib.Omega.{arith}

pub mod-mul_mod : (x y : ℕ) → (x % 2 ^ 64 * y) % 2 ^ 64 ≡ (x * y) % 2 ^ 64
mod-mul_mod x y = omega (arith, ap (λ (t : ℕ). t * y) (div-add-mod x (2 ^ 64)))

pub mul-mod_mod : (x y : ℕ) → (x * (y % 2 ^ 64)) % 2 ^ 64 ≡ (x * y) % 2 ^ 64
mul-mod_mod x y = omega (arith, ap (λ (t : ℕ). x * t) (div-add-mod y (2 ^ 64)))

pub mul_mod_assoc : (x y z : ℕ) → (x * y % 2 ^ 64 * z) % 2 ^ 64 ≡ (x * (y * z % 2 ^ 64)) % 2 ^ 64
mul_mod_assoc x y z =
    mod-mul_mod (x * y) z ∙ ap (λ t. t % 2 ^ 64) (mul_assoc x y z) ∙ sym (mul-mod_mod x (y * z))

-- The remainder by a product, from the remainder by a factor and that of the quotient.
pub mod-split : (v c p : ℕ) → 0 < c → v % (c * p) ≡ v % c + c * (v / c % p)
mod-split v c zero pos =
    rw (mul-zero c, mod-zero v, mod-zero (v / c)) (omega (arith, div-add-mod v c))
mod-split v c (suc p) pos =
    let w = v / c in
    let q = w / suc p in
    let r = v % c + c * (w % suc p) in
    let small : r < c * suc p =
      grind (arith, mod-lt v {m = c} pos, mod-lt w {m = suc p} (omega arith)) in
    let whole : v ≡ r + c * suc p * q =
      omega (arith, div-add-mod v c, ap (λ (t : ℕ). c * t) (div-add-mod w (suc p))) in
    ap (λ t. t % (c * suc p)) whole ∙ add-mul-mod_self_left r (c * suc p) q ∙ mod-eq_of_lt small
