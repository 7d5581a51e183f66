-- ===== src/Rv64/Peephole/Loads.antt =====
-- `RedundantLoadElimination` of src/backend/rv64/optim/peephole.hpp: a load from where the
-- instruction before stored is replaced by the extraction of its low bytes.
use Prim.Native.Nat.{bit_and}
use Prim.Native.String.{String}
use ucas_cplab.Common.{
  ℕ, ◌+◌, ◌%◌, ◌^◌, ◌≤◌, some, List, ◌∷◌, ◌++◌, ◌≡◌, ◌≢◌, refl, ap, sym, ◌∙◌, fun_ext, arith, inl,
  inr,
}
use ucas_cplab.Common.Bits.{bit_and_low}
use ucas_cplab.Rv64.Op.{OpI}
use ucas_cplab.Rv64.Inst.{Inst, inst_i}
use ucas_cplab.Rv64.Words.{sext, sll64, srl64, sra64}
use ucas_cplab.Rv64.Memory.{Result-cases, Memory, Result, ok, update, store, ◌>>=◌}
use ucas_cplab.Rv64.Memory.Access.{load-store_same}
use ucas_cplab.Rv64.Vm.{Host, Machine, set_reg}
use ucas_cplab.Rv64.Vm.Exec.{exec, exec_i, offset, load_to, store_from}
use ucas_cplab.Rv64.Peephole.{
  at_pair, forward_store, gen_extract, store_width, load_width, eliminate_loads,
}
use ucas_cplab.Rv64.Peephole.Run.{Outcome, exec_then, exec_block}
use ucas_cplab.Rv64.Peephole.Apply.{Same, peephole_apply-Same, at_pair-Preserves}

-- What a load does with the bytes that it read.
abbrev extend : OpI → ℕ → ℕ
extend OpI.lw v = sext 32 v
extend OpI.lh v = sext 16 v
extend OpI.lb v = sext 8 v
extend op v = v

low_byte : (v : ℕ) → bit_and v 255 ≡ v % 256
low_byte v = bit_and_low 8 v

low_word : (v : ℕ) → sext 32 (v + 0) ≡ sext 32 (v % 256 ^ 4)
low_word v = ground arith

low_word_unsigned : (v : ℕ) → srl64 (sll64 v 32) 32 ≡ v % 256 ^ 4
low_word_unsigned v = omega arith

low_half_unsigned : (v : ℕ) → srl64 (sll64 v 48) 48 ≡ v % 256 ^ 2
low_half_unsigned v = omega arith

low_half_signed : (v : ℕ) → sra64 (sll64 v 48) 48 ≡ sext 16 (v % 256 ^ 2)
low_half_signed v = ground arith

low_byte_signed : (v : ℕ) → sra64 (sll64 v 56) 56 ≡ sext 8 (v % 256 ^ 1)
low_byte_signed v = ground arith

set_twice : (s : Machine) (rd u v w : ℕ) → v ≡ w → set_reg (set_reg s rd u) rd v ≡ set_reg s rd w
set_twice s rd u v w e =
    ap (λ r. record s { regs = r })
      (fun_ext {f = update (update s.regs rd u) rd v} (λ j. ground (arith, e)))

update_same : (f : ℕ → ℕ) (i v : ℕ) → update f i v i ≡ v
update_same f i v = ground arith

module _ (h : Host) (call : String → Machine → Result Machine) (s : Machine) where
  then_store :
      (op : OpI) (x base off : ℕ) (k : Machine → Result Outcome)
      → store_width op ≢ 0
      → exec_then h call (inst_i op x base off) s k
        ≡ (store_from s (store_width op) (offset (s.regs base) off) (s.regs x) >>= k)
  unfolding exec_then exec exec_i
  then_store OpI.sd x base off k n = refl
  then_store OpI.sw x base off k n = refl
  then_store OpI.sh x base off k n = refl
  then_store OpI.sb x base off k n = refl
  then_store _ x base off k n = absurd (n refl)

  then_load :
      (op : OpI) (z base off : ℕ) (k : Machine → Result Outcome)
      → load_width op ≢ 0
      → exec_then h call (inst_i op z base off) s k
        ≡ (load_to s (load_width op) (offset (s.regs base) off) z (extend op) >>= k)
  unfolding exec_then exec exec_i
  then_load OpI.ld z base off k n = refl
  then_load OpI.lw z base off k n = refl
  then_load OpI.lwu z base off k n = refl
  then_load OpI.lh z base off k n = refl
  then_load OpI.lhu z base off k n = refl
  then_load OpI.lb z base off k n = refl
  then_load OpI.lbu z base off k n = refl
  then_load _ z base off k n = absurd (n refl)

  -- The extraction leaves what the load would.
  exec_block-gen_extract :
      (op : OpI) (z x : ℕ) (rest : List Inst)
      → load_width op ≢ 0
      → exec_block h call (gen_extract op z x ++ rest) s
        ≡ exec_block h call rest (set_reg s z (extend op (s.regs x % 256 ^ load_width op)))
  unfolding exec_block exec_then exec exec_i
  exec_block-gen_extract OpI.ld z x rest n =
      ap (λ v. exec_block h call rest (set_reg s z v)) (omega arith)
  exec_block-gen_extract OpI.lw z x rest n =
      ap (λ v. exec_block h call rest (set_reg s z v)) (low_word (s.regs x))
  exec_block-gen_extract OpI.lbu z x rest n =
      ap (λ v. exec_block h call rest (set_reg s z v)) (low_byte (s.regs x))
  exec_block-gen_extract OpI.lwu z x rest n =
      ap (exec_block h call rest)
        (set_twice s z _ _ _ (rw (update_same s.regs z) (low_word_unsigned (s.regs x))))
  exec_block-gen_extract OpI.lh z x rest n =
      ap (exec_block h call rest)
        (set_twice s z _ _ _ (rw (update_same s.regs z) (low_half_signed (s.regs x))))
  exec_block-gen_extract OpI.lhu z x rest n =
      ap (exec_block h call rest)
        (set_twice s z _ _ _ (rw (update_same s.regs z) (low_half_unsigned (s.regs x))))
  exec_block-gen_extract OpI.lb z x rest n =
      ap (exec_block h call rest)
        (set_twice s z _ _ _ (rw (update_same s.regs z) (low_byte_signed (s.regs x))))
  exec_block-gen_extract _ z x rest n = absurd (n refl)

module _ (h : Host) (call : String → Machine → Result Machine) (sop lop : OpI) (x z base off : ℕ)
    (rest : List Inst) (m : store_width sop ≢ 0) (n : load_width lop ≢ 0)
    (l : load_width lop ≤ store_width sop) where
  after_store :
      (s : Machine) (m' : Memory)
      → store (store_width sop) s.memory (offset (s.regs base) off) (s.regs x) ≡ ok m'
      → exec_block h call (gen_extract lop z x ++ rest) (record s { memory = m' })
        ≡ exec_block h call (inst_i lop z base off ∷ rest) (record s { memory = m' })
  unfolding exec_block
  after_store s m' p =
      exec_block-gen_extract h call (record s { memory = m' }) lop z x rest n
      ∙ sym (
          then_load h call (record s { memory = m' }) lop z base off (exec_block h call rest) n
          ∙ rw
              (load-store_same (store_width sop) (load_width lop) s.memory m'
                (offset (s.regs base) off) (s.regs x) l p)
              refl)

  forward_pair :
      (s : Machine)
      → exec_block h call (inst_i sop x base off ∷ gen_extract lop z x ++ rest) s
        ≡ exec_block h call (inst_i sop x base off ∷ inst_i lop z base off ∷ rest) s
  unfolding exec_block
  forward_pair s =
      rw (then_store h call s sop x base off (exec_block h call (gen_extract lop z x ++ rest)) m) (
        rw (then_store h call s sop x base off (exec_block h call (inst_i lop z base off ∷ rest)) m)
          (elim (Result-cases
            (store (store_width sop) s.memory (offset (s.regs base) off) (s.regs x))) [
              | inr (e, p) ↦ rw p refl
              | inl (m', p) ↦ rw p (after_store s m' p)
            ]))

forward_store-cases :
    (sop lop : OpI) (x z base base' off off' : ℕ) (repl : List Inst)
    → forward_store (inst_i sop x base off) (inst_i lop z base' off') ≡ some repl
    → (store_width sop ≢ 0)
      × (load_width lop ≢ 0)
      × (load_width lop ≤ store_width sop)
      × (base ≡ base')
      × (off ≡ off')
      × (inst_i sop x base off ∷ gen_extract lop z x ≡ repl)
forward_store-cases sop lop x z base base' off off' repl e = ground arith

module _ (h : Host) (call : String → Machine → Result Machine) where
  forward_store-Same :
      (x y : Inst) (repl rest : List Inst)
      → forward_store x y ≡ some repl
      → Same h call (repl ++ rest) (x ∷ y ∷ rest)
  forward_store-Same (inst_i sop x base off) (inst_i lop z base' off') repl rest e s =
      let (m, n, l, p, q, r) = forward_store-cases sop lop x z base base' off off' repl e in
      rw (sym p, sym q, sym r) (forward_pair h call sop lop x z base off rest m n l s)
  forward_store-Same _ _ repl rest e s = absurd (cc)

  -- A block after `RedundantLoadElimination` does exactly what it did before, errors included: it
  -- ends in the same way, with the same registers, the same memory and the same output.
  pub eliminate_loads-same :
      (insts : List Inst) (s : Machine)
      → exec_block h call (eliminate_loads insts).0 s ≡ exec_block h call insts s
  unfolding eliminate_loads
  eliminate_loads-same insts s =
      peephole_apply-Same h call 2 (at_pair forward_store)
        (at_pair-Preserves h call forward_store forward_store-Same) insts s
