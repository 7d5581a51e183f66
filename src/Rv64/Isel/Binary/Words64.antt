-- ===== src/Rv64/Isel/Binary/Words64.antt =====
-- The 64-bit operations of the RV64 machine (src/backend/rv64/vm/exec.cpp) against the folding of `int64_t` constants
-- (src/backend/ir/transform/optim/constant_fold.hpp).
use native.Mathlib.Nat.{mod-eq_of_lt}
use ucas_cplab.Common.{ℕ, ◌*◌, ◌/◌, ◌%◌, ◌^◌, ◌<◌, ◌≡◌, refl, false, arith, ◌==◌}
use ucas_cplab.Ir.ConstantFold.{signed_div, signed_mod, signed_shift, overflows}
use ucas_cplab.Rv64.Op.{OpR}
use ucas_cplab.Rv64.Words.{sub64, div64, rem64}
use ucas_cplab.Rv64.Vm.Exec.{alu_r}

pub div-signed_div :
    (a b : ℕ) → (b == 0) ≡ false → overflows 64 a b ≡ false → alu_r OpR.div a b ≡ signed_div 64 a b
unfolding alu_r div64 signed_div
div-signed_div a b z o = rw (z, o) refl

pub rem-signed_mod :
    (a b : ℕ) → (b == 0) ≡ false → overflows 64 a b ≡ false → alu_r OpR.rem a b ≡ signed_mod 64 a b
unfolding alu_r rem64 signed_mod
rem-signed_mod a b z o = rw (z, o) refl

pub sll-fold : (a b : ℕ) → b < 64 → alu_r OpR.sll a b ≡ a * 2 ^ b % 2 ^ 64
unfolding alu_r
sll-fold a b h = rw (mod-eq_of_lt h) refl

pub srl-fold : (a b : ℕ) → b < 64 → alu_r OpR.srl a b ≡ a / 2 ^ b
unfolding alu_r
srl-fold a b h = rw (mod-eq_of_lt h) refl

pub sra-fold : (a b : ℕ) → b < 64 → alu_r OpR.sra a b ≡ signed_shift 64 a b
unfolding alu_r signed_shift
sra-fold a b h = rw (mod-eq_of_lt h) refl

pub sub64-zero : (a b : ℕ) → a < 2 ^ 64 → b < 2 ^ 64 → (sub64 a b == 0) ≡ (a == b)
sub64-zero a b ha hb = ground arith
