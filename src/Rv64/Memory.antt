-- ===== src/Rv64/Memory.antt =====
-- The memory of the RV64 virtual machine: `load` and `store` of src/backend/rv64/vm/vm.hpp and the
-- bodies of `builtin_memcpy` and `builtin_memset` of src/backend/rv64/vm/exec.cpp. An exception of
-- the source is an error; so is, under a name of its own, an access that passes the bounds check
-- and still leaves the vector, where C++ promises nothing.
use Prim.Native.String.{String}
use ucas_cplab.Common.{
  ℕ, zero, suc, ◌+◌, ◌-◌, ◌*◌, ◌/◌, ◌%◌, ◌^◌, Bool, true, false, ◌&&◌, ◌||◌, ltb, leb, ◌==◌,
  if◌then◌else◌, ◌≡◌, ◌⊎◌, inl, inr, refl, arith,
}
pub mod Access
pub use ucas_cplab.Common.{update}

pub data VmError : Type 0 where
  segfault : ℕ → VmError
  outside_memory : VmError
  memcpy_bounds memset_bounds : VmError
  undefined_label : String → VmError
  no_main : VmError
  limit_exceeded : VmError
  invalid_register : VmError
  empty_token : VmError

pub data Result {ℓ} (A : Type ℓ) : Type ℓ where
  ok : A → Result A
  err : VmError → Result A

infixl 5 ◌>>=◌
abbrev pub ◌>>=◌ {ℓ κ} : {A : Type ℓ} {B : Type κ} → Result A → (A → Result B) → Result B
ok a >>= f = f a
err e >>= f = err e

pub Result-cases {ℓ} :
    {A : Type ℓ} (r : Result A) → ((a : A) × (r ≡ ok a)) ⊎ ((e : VmError) × (r ≡ err e))
Result-cases (ok a) = inl (a, refl)
Result-cases (err e) = inr (e, refl)

-- `std::vector<uint8_t> memory`
pub record Memory : Type 0 where
  pub bytes : ℕ → ℕ
  pub size : ℕ

-- `memcpy` of a value of `n` bytes, the lowest byte first.
unfoldable pub read_bytes : (ℕ → ℕ) → ℕ → ℕ → ℕ
read_bytes f addr zero = 0
read_bytes f addr (suc n) = f addr + 256 * read_bytes f (addr + 1) n

unfoldable pub write_bytes : (ℕ → ℕ) → ℕ → ℕ → ℕ → ℕ → ℕ
write_bytes f addr zero v = f
write_bytes f addr (suc n) v = write_bytes (update f addr (v % 256)) (addr + 1) n (v / 256)

-- The guard is computed in `uint64_t`, where the sum wraps.
unfoldable pub load : ℕ → Memory → ℕ → Result ℕ
load n m addr =
    if ltb m.size ((addr + n) % 2 ^ 64)
    then err (segfault addr)
    else if ltb m.size (addr + n)
    then err outside_memory
    else ok (read_bytes m.bytes addr n)

unfoldable pub store : ℕ → Memory → ℕ → ℕ → Result Memory
store n m addr v =
    if ltb m.size ((addr + n) % 2 ^ 64)
    then err (segfault addr)
    else if ltb m.size (addr + n)
    then err outside_memory
    else ok (record m { bytes = write_bytes m.bytes addr n v })

abbrev pub in_range : ℕ → ℕ → ℕ → Bool
in_range start n a = leb start a && ltb a (start + n)

unfoldable pub copy_memory : Memory → ℕ → ℕ → ℕ → Result Memory
copy_memory m dest src n =
    if ltb m.size ((dest + n) % 2 ^ 64) || ltb m.size ((src + n) % 2 ^ 64)
    then err memcpy_bounds
    else if ltb m.size (dest + n) || ltb m.size (src + n)
    then err outside_memory
    else ok (record m {
      bytes = λ a. if in_range dest n a then m.bytes (src + (a - dest)) else m.bytes a;
    })

unfoldable pub set_memory : Memory → ℕ → ℕ → ℕ → Result Memory
set_memory m dest value n =
    if ltb m.size ((dest + n) % 2 ^ 64)
    then err memset_bounds
    else if ltb m.size (dest + n)
    then err outside_memory
    else ok (record m { bytes = λ a. if in_range dest n a then value % 256 else m.bytes a })
