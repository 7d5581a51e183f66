-- ===== src/Rv64/Words/Signed.antt =====
-- The signed integers that two's complement stands for, and the guarded division of src/backend/rv64/vm/exec.cpp.
use ucas_cplab.Common.{
  ℕ, ◌+◌, ◌-◌, ◌*◌, ◌/◌, ◌%◌, ◌^◌, ◌≤◌, ◌<◌, ◌≡◌, ◌≢◌, ◌⊎◌, inl, inr, refl, sym, subst, ◌∙◌, Bool,
  true, false, not, ◌&&◌, ◌||◌, if◌then◌else◌, ◌==◌, arith, Bool-cases,
}
use native.Mathlib.Nat.{div-add-mod, div-le_self, mod-le, mod-lt}
use ucas_cplab.Rv64.Words.{is_negative, neg64, magnitude, sdiv64, srem64, guarded_div, guarded_rem}
use ucas_cplab.Rv64.Words.Bounds.{IsWord}

-- The order of the signed integers that two words stand for, without subtraction: a negative word
-- `a` stands for `a - 2 ^ 64`.
abbrev pub SignedLt : ℕ → ℕ → Type 0
SignedLt a b = a + (if is_negative b then 2 ^ 64 else 0) < b + (if is_negative a then 2 ^ 64 else 0)

abbrev pub SignedLe : ℕ → ℕ → Type 0
SignedLe a b = a + (if is_negative b then 2 ^ 64 else 0) ≤ b + (if is_negative a then 2 ^ 64 else 0)

-- The word with a magnitude and a sign.
abbrev pub signed : Bool → ℕ → ℕ
signed negative m = if negative then neg64 m else m

abbrev pub differ : ℕ → ℕ → Bool
differ a b = is_negative a && not (is_negative b) || is_negative b && not (is_negative a)

-- `q` and `r` are quotient and remainder of `a` and `b`, rounded towards zero: the magnitudes divide with a
-- remainder that is smaller than the divisor, the quotient is negative if the signs differ, and the
-- remainder has the sign of the dividend.
abbrev pub Truncated : ℕ → ℕ → ℕ → ℕ → Type 0
Truncated a b q r =
    (magnitude q * magnitude b + magnitude r ≡ magnitude a)
    × (magnitude r < magnitude b)
    × (q ≡ signed (differ a b) (magnitude q))
    × (r ≡ signed (is_negative a) (magnitude r))

-- C++ defines `/` and `%`: the divisor is not zero, and the quotient is in range.
abbrev pub is_defined : ℕ → ℕ → ℕ → Bool
is_defined smallest a b = not (b == 0) && not (a == smallest && b == 2 ^ 64 - 1)

-- What the instruction set says: the quotient by zero has all bits set, and the remainder is the dividend; the smallest
-- integer by -1 has itself as quotient, and no remainder.
abbrev pub DivRem : ℕ → ℕ → ℕ → ℕ → ℕ → Type 0
DivRem smallest a b q r =
    ((b ≡ 0) × (q ≡ 2 ^ 64 - 1) × (r ≡ a))
    ⊎ ((a ≡ smallest) × (b ≡ 2 ^ 64 - 1) × (q ≡ smallest) × (r ≡ 0))
    ⊎ ((is_defined smallest a b ≡ true) × Truncated a b q r)

magnitude-le : (a : ℕ) → IsWord a → magnitude a ≤ 2 ^ 63
magnitude-le a h = ground arith

magnitude-pos : (b : ℕ) → IsWord b → b ≢ 0 → 0 < magnitude b
magnitude-pos b h n = ground arith

magnitude-signed : (n : Bool) (m : ℕ) → m ≤ 2 ^ 63 → magnitude (signed n m) ≡ m
magnitude-signed n m h = ground arith

sdiv-Truncated : (a b : ℕ) → IsWord a → IsWord b → b ≢ 0 → Truncated a b (sdiv64 a b) (srem64 a b)
sdiv-Truncated a b ha hb n =
    let q = magnitude a / magnitude b in
    let r = magnitude a % magnitude b in
    let le = magnitude-le a ha in
    let mq =
      magnitude-signed (differ a b) q
        (omega (arith, le, div-le_self (magnitude a) (magnitude b))) in
    let whole : q * magnitude b + r ≡ magnitude a =
      omega (arith, div-add-mod (magnitude a) (magnitude b)) in
    let mr =
      magnitude-signed (is_negative a) r (omega (arith, le, mod-le (magnitude a) (magnitude b))) in
    rw (mq, mr) (whole, mod-lt (magnitude a) (magnitude-pos b hb n), refl, refl)

guarded_div-defined :
    (smallest a b : ℕ) (quot : ℕ → ℕ → ℕ)
    → is_defined smallest a b ≡ true
    → guarded_div smallest quot a b ≡ quot a b
guarded_div-defined smallest a b quot d = ground arith

guarded_rem-defined :
    (smallest a b : ℕ) (rem : ℕ → ℕ → ℕ)
    → is_defined smallest a b ≡ true
    → guarded_rem smallest rem a b ≡ rem a b
guarded_rem-defined smallest a b rem d = ground arith

undefined_cases :
    (smallest a b : ℕ)
    → is_defined smallest a b ≡ false
    → (b ≡ 0) ⊎ ((a ≡ smallest) × (b ≡ 2 ^ 64 - 1))
undefined_cases smallest a b d = ground arith

nonzero_divisor : (smallest a b : ℕ) → is_defined smallest a b ≡ true → b ≢ 0
nonzero_divisor smallest a b d = ground arith

-- The operators of a width are those of C++ where C++ defines them.
abbrev pub Agrees : ℕ → (ℕ → ℕ → ℕ) → (ℕ → ℕ → ℕ) → Type 0
Agrees smallest quot rem =
    (a b : ℕ) → is_defined smallest a b ≡ true → (quot a b ≡ sdiv64 a b) × (rem a b ≡ srem64 a b)

-- The guards leave only what C++ defines to the operators.
pub guarded-agree :
    (smallest a b : ℕ) (quot rem : ℕ → ℕ → ℕ)
    → Agrees smallest quot rem
    → (guarded_div smallest sdiv64 a b ≡ guarded_div smallest quot a b)
      × (guarded_rem smallest srem64 a b ≡ guarded_rem smallest rem a b)
guarded-agree smallest a b quot rem agrees = elim (Bool-cases (is_defined smallest a b)) [
  | inl d ↦ (
    guarded_div-defined smallest a b sdiv64 d
        ∙ sym (guarded_div-defined smallest a b quot d ∙ (agrees a b d).0),
    guarded_rem-defined smallest a b srem64 d
        ∙ sym (guarded_rem-defined smallest a b rem d ∙ (agrees a b d).1),
  )
  | inr d ↦ (ground arith, ground arith)
]

pub guarded-DivRem :
    (smallest a b : ℕ)
    → IsWord a
    → IsWord b
    → DivRem smallest a b (guarded_div smallest sdiv64 a b) (guarded_rem smallest srem64 a b)
guarded-DivRem smallest a b ha hb = elim (Bool-cases (is_defined smallest a b)) [
  | inl d ↦
      let q = guarded_div-defined smallest a b sdiv64 d in
      let r = guarded_rem-defined smallest a b srem64 d in
      inr (
        inr (
          d,
          subst (λ z. Truncated a b z (guarded_rem smallest srem64 a b)) (sym q)
              (subst (Truncated a b (sdiv64 a b)) (sym r)
                (sdiv-Truncated a b ha hb (nonzero_divisor smallest a b d))),
        ))
  | inr d ↦ elim (undefined_cases smallest a b d) [
    | inl z ↦ inl (z, ground arith, ground arith)
    | inr (x, y) ↦ inr (inl (x, y, ground arith, ground arith))
  ]
]
