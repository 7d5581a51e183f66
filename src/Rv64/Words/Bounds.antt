-- ===== src/Rv64/Words/Bounds.antt =====
-- Words of 64 bits.
use ucas_cplab.Common.{ℕ, ◌^◌, ◌<◌, Bool, true, false, arith}
use ucas_cplab.Rv64.Words.{bool_word, sext}

abbrev pub IsWord : ℕ → Type 0
IsWord n = n < 2 ^ 64

pub bool_word-IsWord : (b : Bool) → IsWord (bool_word b)
bool_word-IsWord true = omega arith
bool_word-IsWord false = omega arith

pub sext32-IsWord : (x : ℕ) → IsWord (sext 32 x)
sext32-IsWord x = ground arith
