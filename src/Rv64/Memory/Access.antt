-- ===== src/Rv64/Memory/Access.antt =====
-- Loads and stores of src/backend/rv64/vm/vm.hpp: what is read back, what stays, what the guard lets
-- through.
use native.Mathlib.Nat.{pow-succ'}
use ucas_cplab.Common.Words.{mod-split}
use ucas_cplab.Common.{
  ℕ, zero, suc, ◌+◌, ◌/◌, ◌%◌, ◌^◌, ◌≤◌, ◌<◌, ◌≡◌, refl, sym, ap, ◌∙◌, leb, if◌then◌else◌, arith,
  ◌⊎◌, inl, inr,
}
use ucas_cplab.Rv64.Memory.{
  Memory, segfault, outside_memory, ok, err, update, read_bytes, write_bytes, load, store,
}

-- Writing below an address leaves the bytes from it on, ...
write_bytes-below : (f : ℕ → ℕ) (addr n v a : ℕ) → a < addr → write_bytes f addr n v a ≡ f a
unfolding write_bytes
write_bytes-below f addr zero v a h = refl
write_bytes-below f addr (suc n) v a h =
    write_bytes-below (update f addr (v % 256)) (addr + 1) n (v / 256) a (omega arith)
    ∙ ground arith

-- ... and so does writing that ends at it.
write_bytes-above : (f : ℕ → ℕ) (addr n v a : ℕ) → addr + n ≤ a → write_bytes f addr n v a ≡ f a
unfolding write_bytes
write_bytes-above f addr zero v a h = refl
write_bytes-above f addr (suc n) v a h =
    write_bytes-above (update f addr (v % 256)) (addr + 1) n (v / 256) a (omega arith)
    ∙ ground arith

read_bytes-congr :
    (f g : ℕ → ℕ) (addr n : ℕ)
    → ((a : ℕ) → addr ≤ a → a < addr + n → f a ≡ g a)
    → read_bytes f addr n ≡ read_bytes g addr n
unfolding read_bytes
read_bytes-congr f g addr zero h = refl
read_bytes-congr f g addr (suc n) h = omega (
  arith,
  h addr (omega arith) (omega arith),
  read_bytes-congr f g (addr + 1) n (λ a p q. h a (omega arith) (omega arith)),
)

-- The first `k` bytes of a value that was written are its low bytes.
pub read-write_bytes :
    (f : ℕ → ℕ) (addr n k v : ℕ) → k ≤ n → read_bytes (write_bytes f addr n v) addr k ≡ v % 256 ^ k
unfolding read_bytes write_bytes
read-write_bytes f addr n zero v h = omega arith
read-write_bytes f addr zero (suc k) v h = absurd (omega arith)
read-write_bytes f addr (suc n) (suc k) v h =
    let first =
      write_bytes-below (update f addr (v % 256)) (addr + 1) n (v / 256) addr (omega arith) in
    let rest = read-write_bytes (update f addr (v % 256)) (addr + 1) n k (v / 256) (omega arith) in
    let low : update f addr (v % 256) addr ≡ v % 256 = ground arith in
    rw (first, rest, pow-succ' 256 k) (rw low (sym (mod-split v 256 (256 ^ k) (omega arith))))

write_bytes-elsewhere :
    (f : ℕ → ℕ) (addr n v a : ℕ) → (a < addr) ⊎ (addr + n ≤ a) → write_bytes f addr n v a ≡ f a
write_bytes-elsewhere f addr n v a (inl h) = write_bytes-below f addr n v a h
write_bytes-elsewhere f addr n v a (inr h) = write_bytes-above f addr n v a h

abbrev stored : ℕ → Memory → ℕ → ℕ → Memory
stored n m addr v = record m { bytes = write_bytes m.bytes addr n v }

store-eq-ok :
    (n : ℕ) (m m' : Memory) (addr v : ℕ)
    → store n m addr v ≡ ok m'
    → (addr + n ≤ m.size) × (m' ≡ stored n m addr v)
unfolding store
store-eq-ok n m m' addr v s = ground arith

load-in_memory :
    (n : ℕ) (m : Memory) (addr : ℕ)
    → addr + n ≤ m.size
    → load n m addr ≡ ok (read_bytes m.bytes addr n)
unfolding load
load-in_memory n m addr h = ground arith

-- A value of `k` bytes loaded from where a value `v` of at least `k` bytes was stored is the low
-- `k` bytes of `v`: the load returns whenever the store did.
pub load-store_same :
    (n k : ℕ) (m m' : Memory) (addr v : ℕ)
    → k ≤ n
    → store n m addr v ≡ ok m'
    → load k m' addr ≡ ok (v % 256 ^ k)
load-store_same n k m m' addr v h s =
    let (fits, e) = store-eq-ok n m m' addr v s in
    rw e (
      load-in_memory k (stored n m addr v) addr (omega arith)
      ∙ ap ok (read-write_bytes m.bytes addr n k v h))

-- A load from bytes that a store did not write returns what it returned before, errors included.
pub load-store_disjoint :
    (n k : ℕ) (m m' : Memory) (addr addr' v : ℕ)
    → (addr + n ≤ addr') ⊎ (addr' + k ≤ addr)
    → store n m addr v ≡ ok m'
    → load k m' addr' ≡ load k m addr'
unfolding load
load-store_disjoint n k m m' addr addr' v h s =
    let (fits, e) = store-eq-ok n m m' addr v s in
    let same =
      read_bytes-congr (write_bytes m.bytes addr n v) m.bytes addr' k
        (λ a p q. write_bytes-elsewhere m.bytes addr n v a (omega arith)) in
    rw (e, same) refl

-- An address whose end does not wrap: the load returns exactly when all its bytes lie in memory,
-- and otherwise the guard throws.
pub load_guard :
    (n : ℕ) (m : Memory) (addr : ℕ)
    → addr + n < 2 ^ 64
    → load n m addr
      ≡ (if leb (addr + n) m.size then ok (read_bytes m.bytes addr n) else err (segfault addr))
unfolding load
load_guard n m addr h = ground arith

-- A load or a store of `n` bytes whose end wraps past 2 ^ 64 passes the guard, if the memory has at
-- least `n` bytes, and then leaves the memory: neither throws the exception of the guard.
pub guard_wraps :
    (n : ℕ) (m : Memory) (addr v : ℕ)
    → addr < 2 ^ 64
    → 2 ^ 64 ≤ addr + n
    → n ≤ m.size
    → m.size < 2 ^ 64
    → (load n m addr ≡ err outside_memory) × (store n m addr v ≡ err outside_memory)
unfolding load store
guard_wraps n m addr v a w s t = ground arith
