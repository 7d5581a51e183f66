-- ===== src/Rv64/Words.antt =====
-- The arithmetic of src/backend/rv64/vm/exec.cpp on 64-bit patterns: a register holds a number below
-- 2 ^ 64, signed operators read it in two's complement, and every result wraps: the overflow
-- of a signed sum, difference or product, which C++ leaves undefined, as well.
use Prim.Native.Nat.{bit_and, bit_or, bit_xor}
use ucas_cplab.Common.{
  ℕ, ◌+◌, ◌-◌, ◌*◌, ◌/◌, ◌%◌, ◌^◌, Bool, true, false, ltb, ◌==◌, if◌then◌else◌, ◌&&◌, not, ◌||◌,
}
pub mod Bounds
pub mod Signed

abbrev pub bool_word : Bool → ℕ
bool_word b = if b then 1 else 0

-- `(int64_t)(intW_t)x` for a width `w` of 8, 16 or 32.
abbrev pub sext : ℕ → ℕ → ℕ
sext w x = if ltb (x % 2 ^ w) (2 ^ (w - 1)) then x % 2 ^ w else x % 2 ^ w + (2 ^ 64 - 2 ^ w)

abbrev pub is_negative : ℕ → Bool
is_negative a = not (ltb a (2 ^ 63))

abbrev pub add64 : ℕ → ℕ → ℕ
add64 a b = (a + b) % 2 ^ 64

abbrev pub sub64 : ℕ → ℕ → ℕ
sub64 a b = (a + 2 ^ 64 - b) % 2 ^ 64

abbrev pub neg64 : ℕ → ℕ
neg64 a = (2 ^ 64 - a) % 2 ^ 64

abbrev pub slt64 : ℕ → ℕ → Bool
slt64 a b = ltb ((a + 2 ^ 63) % 2 ^ 64) ((b + 2 ^ 63) % 2 ^ 64)

abbrev pub sll64 : ℕ → ℕ → ℕ
sll64 a s = a * 2 ^ s % 2 ^ 64

abbrev pub srl64 : ℕ → ℕ → ℕ
srl64 a s = a / 2 ^ s

-- `>>` on a negative `int64_t` fills with ones.
abbrev pub sra64 : ℕ → ℕ → ℕ
sra64 a s = if is_negative a then 2 ^ 64 - 1 - (2 ^ 64 - 1 - a) / 2 ^ s else a / 2 ^ s

-- `/` and `%` of C++ on `int64_t`: the quotient is truncated, the remainder has the sign of `a`.
abbrev pub magnitude : ℕ → ℕ
magnitude a = if is_negative a then 2 ^ 64 - a else a

abbrev pub sdiv64 : ℕ → ℕ → ℕ
sdiv64 a b =
    if is_negative a && not (is_negative b) || is_negative b && not (is_negative a)
    then neg64 (magnitude a / magnitude b)
    else magnitude a / magnitude b

abbrev pub srem64 : ℕ → ℕ → ℕ
srem64 a b = if is_negative a then neg64 (magnitude a % magnitude b) else magnitude a % magnitude b

-- The branches of the cases `DIV`, `DIVW`, `REM` and `REMW` of `exec_r` around the operators `quot` and `rem`;
-- `smallest` is the smallest integer of the width.
abbrev pub guarded_div : ℕ → (ℕ → ℕ → ℕ) → ℕ → ℕ → ℕ
guarded_div smallest quot a b =
    if b == 0 then 2 ^ 64 - 1 else if a == smallest && b == 2 ^ 64 - 1 then smallest else quot a b

abbrev pub guarded_rem : ℕ → (ℕ → ℕ → ℕ) → ℕ → ℕ → ℕ
guarded_rem smallest rem a b =
    if b == 0 then a else if a == smallest && b == 2 ^ 64 - 1 then 0 else rem a b

unfoldable pub div64 : ℕ → ℕ → ℕ
div64 a b = guarded_div (2 ^ 63) sdiv64 a b

unfoldable pub rem64 : ℕ → ℕ → ℕ
rem64 a b = guarded_rem (2 ^ 63) srem64 a b

-- On the sign-extended low halves.
unfoldable pub divw : ℕ → ℕ → ℕ
divw a b = guarded_div (2 ^ 64 - 2 ^ 31) sdiv64 (sext 32 a) (sext 32 b)

unfoldable pub remw : ℕ → ℕ → ℕ
remw a b = guarded_rem (2 ^ 64 - 2 ^ 31) srem64 (sext 32 a) (sext 32 b)
