-- ===== src/Rv64/Vm/Arith.antt =====
-- What `exec_r` and the branches of src/backend/rv64/vm/exec.cpp compute, against signed integers.
use ucas_cplab.Common.{ℕ, ◌-◌, ◌^◌, ◌≤◌, ◌<◌, ◌≡◌, ◌≢◌, ◌↔◌, true, arith}
use ucas_cplab.Rv64.Op.{OpR, OpB}
use ucas_cplab.Rv64.Words.{sext, guarded_div, guarded_rem, div64, rem64, divw, remw}
use ucas_cplab.Rv64.Words.Bounds.{IsWord, sext32-IsWord}
use ucas_cplab.Rv64.Words.Signed.{SignedLt, SignedLe, DivRem, Agrees, guarded-agree, guarded-DivRem}
use ucas_cplab.Rv64.Vm.Exec.{alu_r, branch_taken}

-- On two words: `SLT` and `SLTU` give 1 exactly if the first is the smaller one, as signed and as unsigned numbers, and
-- the six branches are taken exactly if the words compare as their names say, `BLT` and `BGE` as signed
-- numbers, `BLTU` and `BGEU` as unsigned ones.
pub compare_words :
    (a b : ℕ)
    → IsWord a
    → IsWord b
    → ((alu_r OpR.slt a b ≡ 1) ↔ SignedLt a b)
      × ((alu_r OpR.sltu a b ≡ 1) ↔ (a < b))
      × ((branch_taken OpB.blt a b ≡ true) ↔ SignedLt a b)
      × ((branch_taken OpB.bge a b ≡ true) ↔ SignedLe b a)
      × ((branch_taken OpB.bltu a b ≡ true) ↔ (a < b))
      × ((branch_taken OpB.bgeu a b ≡ true) ↔ (b ≤ a))
      × ((branch_taken OpB.beq a b ≡ true) ↔ (a ≡ b))
      × ((branch_taken OpB.bne a b ≡ true) ↔ (a ≢ b))
unfolding alu_r branch_taken
compare_words a b ha hb = (
  ground arith,
  ground arith,
  ground arith,
  ground arith,
  ground arith,
  ground arith,
  ground arith,
  ground arith,
)

-- `DIV` and `REM` on words, and `DIVW` and `REMW` on the sign-extended lower halves, by operators that are those of C++
-- where C++ defines them: the results do not depend on what these operators give for a zero divisor, or
-- for the smallest integer by -1. In these cases they are what the instruction set says, and in the
-- others quotient and remainder are those of the signed integers, rounded towards zero.
pub alu_r-DivRem :
    (quot rem quotw modw : ℕ → ℕ → ℕ) (a b : ℕ)
    → Agrees (2 ^ 63) quot rem
    → Agrees (2 ^ 64 - 2 ^ 31) quotw modw
    → IsWord a
    → IsWord b
    → (alu_r OpR.div a b ≡ guarded_div (2 ^ 63) quot a b)
      × (alu_r OpR.rem a b ≡ guarded_rem (2 ^ 63) rem a b)
      × DivRem (2 ^ 63) a b (alu_r OpR.div a b) (alu_r OpR.rem a b)
      × (alu_r OpR.divw a b ≡ guarded_div (2 ^ 64 - 2 ^ 31) quotw (sext 32 a) (sext 32 b))
      × (alu_r OpR.remw a b ≡ guarded_rem (2 ^ 64 - 2 ^ 31) modw (sext 32 a) (sext 32 b))
      × DivRem (2 ^ 64 - 2 ^ 31) (sext 32 a) (sext 32 b) (alu_r OpR.divw a b) (alu_r OpR.remw a b)
unfolding alu_r div64 rem64 divw remw
alu_r-DivRem quot rem quotw modw a b agrees agreesw ha hb =
    let x = sext 32 a in
    let y = sext 32 b in
    let whole = guarded-agree (2 ^ 63) a b quot rem agrees in
    let half = guarded-agree (2 ^ 64 - 2 ^ 31) x y quotw modw agreesw in
    (
      whole.0,
      whole.1,
      guarded-DivRem (2 ^ 63) a b ha hb,
      half.0,
      half.1,
      guarded-DivRem (2 ^ 64 - 2 ^ 31) x y (sext32-IsWord a) (sext32-IsWord b),
    )
