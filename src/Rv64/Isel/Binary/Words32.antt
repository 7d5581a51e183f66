-- ===== src/Rv64/Isel/Binary/Words32.antt =====
-- The 32-bit operations of the RV64 machine (src/backend/rv64/vm/exec.cpp), on registers that hold sign-extended `int`s,
-- against the folding of `int` constants (src/backend/ir/transform/optim/constant_fold.hpp).
use native.Mathlib.Nat.{div-le_self, div-add-mod, mod-lt}
use ucas_cplab.Common.{
  ℕ, ◌+◌, ◌-◌, ◌*◌, ◌/◌, ◌%◌, ◌^◌, ◌≤◌, ◌<◌, ◌≡◌, refl, sym, ◌∙◌, ap, Bool, true, false, not, ◌&&◌,
  ◌||◌, arith, ◌==◌, if◌then◌else◌,
}
use ucas_cplab.Ir.ConstantFold.{
  signed_lt, signed_div, signed_mod, signed_shift, overflows, absolute, below_zero, signed_neg,
}
use ucas_cplab.Rv64.Op.{OpR}
use ucas_cplab.Rv64.Words.{
  sext, sub64, slt64, divw, remw, sdiv64, srem64, sra64, magnitude, is_negative, neg64,
}
use ucas_cplab.Rv64.Vm.Exec.{alu_r}

abbrev pub IsInt : ℕ → Type 0
IsInt a = a < 2 ^ 32

pub sext-low : (a : ℕ) → IsInt a → sext 32 a % 2 ^ 32 ≡ a
sext-low a h = ground arith

pub sext-mod : (x y : ℕ) → x % 2 ^ 32 ≡ y % 2 ^ 32 → sext 32 x ≡ sext 32 y
sext-mod x y h = rw h refl

pub sext-IsWord : (a : ℕ) → sext 32 a < 2 ^ 64
sext-IsWord a = ground arith

pub addw-fold :
    (a b : ℕ)
    → IsInt a
    → IsInt b
    → alu_r OpR.addw (sext 32 a) (sext 32 b) ≡ sext 32 ((a + b) % 2 ^ 32)
unfolding alu_r
addw-fold a b ha hb =
    sext-mod (sext 32 a + sext 32 b) ((a + b) % 2 ^ 32)
      (omega (arith, sext-low a ha, sext-low b hb))

pub subw-fold :
    (a b : ℕ)
    → IsInt a
    → IsInt b
    → alu_r OpR.subw (sext 32 a) (sext 32 b) ≡ sext 32 ((a + 2 ^ 32 - b) % 2 ^ 32)
unfolding alu_r
subw-fold a b ha hb = rw (sext-low a ha, sext-low b hb) (sext-mod _ _ (omega arith))

mul_low : (x y : ℕ) → (x % 2 ^ 32 * y) % 2 ^ 32 ≡ (x * y) % 2 ^ 32
mul_low x y = omega (arith, ap (λ (t : ℕ). t * y) (div-add-mod x (2 ^ 32)))

low_mul : (x y : ℕ) → (x * (y % 2 ^ 32)) % 2 ^ 32 ≡ (x * y) % 2 ^ 32
low_mul x y = omega (arith, ap (λ (t : ℕ). x * t) (div-add-mod y (2 ^ 32)))

mul_congruent :
    (x y a b : ℕ) → x % 2 ^ 32 ≡ a → y % 2 ^ 32 ≡ b → (x * y) % 2 ^ 32 ≡ (a * b) % 2 ^ 32
mul_congruent x y a b p q =
    sym (mul_low x y)
    ∙ ap (λ t. (t * y) % 2 ^ 32) p
    ∙ sym (low_mul a y)
    ∙ ap (λ t. (a * t) % 2 ^ 32) q

mod_again : (x : ℕ) → x % 2 ^ 32 ≡ (x % 2 ^ 32) % 2 ^ 32
mod_again x = omega arith

shift_count : (b : ℕ) → b < 32 → sext 32 b % 32 ≡ b
shift_count b h = ground arith

pub mulw-fold :
    (a b : ℕ)
    → IsInt a
    → IsInt b
    → alu_r OpR.mulw (sext 32 a) (sext 32 b) ≡ sext 32 (a * b % 2 ^ 32)
unfolding alu_r
mulw-fold a b ha hb =
    sext-mod (sext 32 a * sext 32 b) (a * b % 2 ^ 32) (
      mul_congruent (sext 32 a) (sext 32 b) a b (sext-low a ha) (sext-low b hb) ∙ mod_again (a * b))

pub sllw-fold :
    (a b : ℕ)
    → IsInt a
    → b < 32
    → alu_r OpR.sllw (sext 32 a) (sext 32 b) ≡ sext 32 (a * 2 ^ b % 2 ^ 32)
unfolding alu_r
sllw-fold a b ha hb = rw (shift_count b hb) (
    sext-mod (sext 32 a * 2 ^ b) (a * 2 ^ b % 2 ^ 32) (
      mul_congruent (sext 32 a) (2 ^ b) a (2 ^ b % 2 ^ 32) (sext-low a ha) refl
      ∙ low_mul a (2 ^ b)
      ∙ mod_again (a * 2 ^ b)))

pub srlw-fold :
    (a b : ℕ) → IsInt a → b < 32 → alu_r OpR.srlw (sext 32 a) (sext 32 b) ≡ sext 32 (a / 2 ^ b)
unfolding alu_r
srlw-fold a b ha hb = rw (sext-low a ha, shift_count b hb) refl

sext-again : (a : ℕ) → sext 32 (sext 32 a) ≡ sext 32 a
sext-again a = ground arith

sra64-sext : (a s : ℕ) → IsInt a → sext 32 (sra64 (sext 32 a) s) ≡ sext 32 (signed_shift 32 a s)
unfolding signed_shift
sra64-sext a s h = ground (arith, div-le_self a (2 ^ s), div-le_self (2 ^ 32 - 1 - a) (2 ^ s))

pub sraw-fold :
    (a b : ℕ)
    → IsInt a
    → b < 32
    → alu_r OpR.sraw (sext 32 a) (sext 32 b) ≡ sext 32 (signed_shift 32 a b)
unfolding alu_r signed_shift
sraw-fold a b ha hb = rw (shift_count b hb, sext-again a) (sra64-sext a b ha)

pub slt-signed_lt : (a b : ℕ) → IsInt a → IsInt b → slt64 (sext 32 a) (sext 32 b) ≡ signed_lt 32 a b
slt-signed_lt a b ha hb = ground arith

pub sub64-sext : (a b : ℕ) → IsInt a → IsInt b → (sub64 (sext 32 a) (sext 32 b) == 0) ≡ (a == b)
sub64-sext a b ha hb = ground arith

magnitude-sext : (a : ℕ) → IsInt a → magnitude (sext 32 a) ≡ absolute 32 a
magnitude-sext a h = ground arith

is_negative-sext : (a : ℕ) → IsInt a → is_negative (sext 32 a) ≡ below_zero 32 a
is_negative-sext a h = ground arith

div-half : (x y : ℕ) → 2 ≤ y → x / y * 2 ≤ x
div-half x y h = grind (arith, div-add-mod x y)

-- A quotient that is not negated fits an `int`, since the smallest `int` is not divided by -1.
quotient_fits :
    (a b : ℕ)
    → IsInt a
    → IsInt b
    → (b == 0) ≡ false
    → overflows 32 a b ≡ false
    → below_zero 32 a ≡ below_zero 32 b
    → absolute 32 a / absolute 32 b < 2 ^ 31
quotient_fits a b ha hb z o e = ground (
  arith,
  e,
  div-le_self (absolute 32 a) (absolute 32 b),
  div-half (absolute 32 a) (absolute 32 b),
)

abbrev differ : Bool → Bool → Bool
differ p q = p && not q || q && not p

neg64-sext : (x : ℕ) → x ≤ 2 ^ 31 → neg64 x ≡ sext 32 (signed_neg 32 x)
neg64-sext x h = ground arith

small-sext : (x : ℕ) → x < 2 ^ 31 → x ≡ sext 32 x
small-sext x h = ground arith

signed-sext :
    (negative : Bool) (x : ℕ)
    → x ≤ 2 ^ 31
    → (negative ≡ false → x < 2 ^ 31)
    → (if negative then neg64 x else x) ≡ sext 32 (if negative then signed_neg 32 x else x)
signed-sext true x h k = neg64-sext x h
signed-sext false x h k = small-sext x (k refl)

differ_same : (p q : Bool) → differ p q ≡ false → p ≡ q
differ_same p q e = ground arith

absolute-le : (a : ℕ) → IsInt a → absolute 32 a ≤ 2 ^ 31
absolute-le a h = ground arith

sdiv64-sext :
    (a b : ℕ)
    → IsInt a
    → IsInt b
    → (b == 0) ≡ false
    → overflows 32 a b ≡ false
    → sdiv64 (sext 32 a) (sext 32 b) ≡ sext 32 (signed_div 32 a b)
unfolding signed_div
sdiv64-sext a b ha hb z o =
    let fits = quotient_fits a b ha hb z o in
    let small = div-le_self (absolute 32 a) (absolute 32 b) in
    let bound = absolute-le a ha in
    rw (magnitude-sext a ha, magnitude-sext b hb, is_negative-sext a ha, is_negative-sext b hb)
      (signed-sext (differ (below_zero 32 a) (below_zero 32 b)) (absolute 32 a / absolute 32 b)
        (omega (arith, small, bound))
        (λ e. fits (differ_same (below_zero 32 a) (below_zero 32 b) e)))

overflow-sext :
    (a b : ℕ)
    → IsInt a
    → IsInt b
    → overflows 32 a b ≡ false
    → (sext 32 a == 2 ^ 64 - 2 ^ 31 && sext 32 b == 2 ^ 64 - 1) ≡ false
overflow-sext a b ha hb o = ground arith

sext-nonzero : (b : ℕ) → IsInt b → (b == 0) ≡ false → (sext 32 b == 0) ≡ false
sext-nonzero b hb z = ground arith

srem64-sext :
    (a b : ℕ)
    → IsInt a
    → IsInt b
    → (b == 0) ≡ false
    → srem64 (sext 32 a) (sext 32 b) ≡ sext 32 (signed_mod 32 a b)
unfolding signed_mod
srem64-sext a b ha hb z =
    let lt = mod-lt (absolute 32 a) {m = absolute 32 b} (ground arith) in
    let bound = absolute-le b hb in
    rw (magnitude-sext a ha, magnitude-sext b hb, is_negative-sext a ha)
      (signed-sext (below_zero 32 a) (absolute 32 a % absolute 32 b) (omega (arith, lt, bound))
        (λ e. omega (arith, lt, bound)))

pub divw-fold :
    (a b : ℕ)
    → IsInt a
    → IsInt b
    → (b == 0) ≡ false
    → overflows 32 a b ≡ false
    → alu_r OpR.divw (sext 32 a) (sext 32 b) ≡ sext 32 (signed_div 32 a b)
unfolding alu_r divw signed_div
divw-fold a b ha hb z o =
    rw (sext-again a, sext-again b, sext-nonzero b hb z, overflow-sext a b ha hb o)
      (sdiv64-sext a b ha hb z o)

pub remw-fold :
    (a b : ℕ)
    → IsInt a
    → IsInt b
    → (b == 0) ≡ false
    → overflows 32 a b ≡ false
    → alu_r OpR.remw (sext 32 a) (sext 32 b) ≡ sext 32 (signed_mod 32 a b)
unfolding alu_r remw signed_mod
remw-fold a b ha hb z o =
    rw (sext-again a, sext-again b, sext-nonzero b hb z, overflow-sext a b ha hb o)
      (srem64-sext a b ha hb z)
