-- ===== src/Examples/Machine.antt =====
-- The virtual machine (src/backend/rv64/vm) at concrete machines, with a host that computes nothing.
use ucas_cplab.Common.{
  ℕ, ◌+◌, ◌-◌, ◌%◌, ◌^◌, ◌≤◌, ◌<◌, ◌≡◌, ◌≢◌, ◌↔◌, refl, true, false, none, some, List, [], ◌∷◌,
  ◌++◌, map, arith, inl, length, get_elem?, if◌then◌else◌,
}
use ucas_cplab.Rv64.Op.{OpR, OpB}
use ucas_cplab.Rv64.Op.Names.{AnyOp, mnemonic, op_of_mnemonic, op_of_mnemonic-mnemonic}
use ucas_cplab.Rv64.Inst.{pseudo_li, pseudo_j, pseudo_ret, PseudoJOp, Block, Func}
use ucas_cplab.Rv64.Words.{sext, sdiv64, srem64, guarded_div, guarded_rem}
use ucas_cplab.Rv64.Words.Signed.{SignedLt, SignedLe, DivRem, Agrees, is_defined}
use ucas_cplab.Rv64.Memory.{Memory, ok, err, outside_memory, write_bytes, load, store}
use ucas_cplab.Rv64.Memory.Access.{load-store_same, load-store_disjoint, guard_wraps}
use ucas_cplab.Rv64.Vm.{Host, Machine, FlatInst, lookup, assign, set_reg}
use ucas_cplab.Rv64.Vm.Builtin.{find_builtin}
use ucas_cplab.Rv64.Vm.Exec.{alu_r, branch_taken, exec_pseudo_ret}
use ucas_cplab.Rv64.Vm.Arith.{compare_words, alu_r-DivRem}
use ucas_cplab.Rv64.Vm.Run.{step}
use ucas_cplab.Rv64.Vm.Calls.{called, call-ret}
use ucas_cplab.Rv64.Vm.Program.{build_flat_insts, resolve_inst, resolve_branches, unresolved}
use ucas_cplab.Rv64.Vm.Program.Labels.{code, build_flat_insts-label}

abbrev pub host : Host
host = record {
  add_s = λ a b. 0;
  sub_s = λ a b. 0;
  mul_s = λ a b. 0;
  div_s = λ a b. 0;
  sqrt_s = λ a. 0;
  eq_s = λ a b. false;
  lt_s = λ a b. false;
  le_s = λ a b. false;
  add_d = λ a b. 0;
  sub_d = λ a b. 0;
  mul_d = λ a b. 0;
  div_d = λ a b. 0;
  sqrt_d = λ a. 0;
  eq_d = λ a b. false;
  lt_d = λ a b. false;
  le_d = λ a b. false;
  s_to_int32 = λ a. 0;
  s_to_int64 = λ a. 0;
  d_to_int32 = λ a. 0;
  d_to_int64 = λ a. 0;
  int32_to_s = λ a. 0;
  int64_to_s = λ a. 0;
  int32_to_d = λ a. 0;
  int64_to_d = λ a. 0;
  d_to_s = λ a. 0;
  s_to_d = λ a. 0;
  read_int = λ i. (0, i);
  read_double = λ i. (0, i);
  read_token = λ i. ([], i);
  stof = λ t. 0;
}

abbrev pub memory : Memory
memory = record { bytes = λ a. 0; size = 64 }

abbrev pub machine : Machine
machine = record {
  regs = λ r. 8;
  fregs = λ r. 0;
  memory = memory;
  flat_insts = [];
  label_map = [];
  symbol_map = [];
  call_stack = [];
  input = [];
  output = [];
  num_insts = 0;
  pc = 0;
}

op_of_mnemonic-mnemonic_example :
    op_of_mnemonic (mnemonic (AnyOp.r OpR.sraw)) ≡ some (AnyOp.r OpR.sraw)
op_of_mnemonic-mnemonic_example = op_of_mnemonic-mnemonic (AnyOp.r OpR.sraw)

compare_words_example :
    ((alu_r OpR.slt (2 ^ 64 - 3) 5 ≡ 1) ↔ SignedLt (2 ^ 64 - 3) 5)
    × ((alu_r OpR.sltu (2 ^ 64 - 3) 5 ≡ 1) ↔ (2 ^ 64 - 3 < 5))
    × ((branch_taken OpB.blt (2 ^ 64 - 3) 5 ≡ true) ↔ SignedLt (2 ^ 64 - 3) 5)
    × ((branch_taken OpB.bge (2 ^ 64 - 3) 5 ≡ true) ↔ SignedLe 5 (2 ^ 64 - 3))
    × ((branch_taken OpB.bltu (2 ^ 64 - 3) 5 ≡ true) ↔ (2 ^ 64 - 3 < 5))
    × ((branch_taken OpB.bgeu (2 ^ 64 - 3) 5 ≡ true) ↔ (5 ≤ 2 ^ 64 - 3))
    × ((branch_taken OpB.beq (2 ^ 64 - 3) 5 ≡ true) ↔ (2 ^ 64 - 3 ≡ 5))
    × ((branch_taken OpB.bne (2 ^ 64 - 3) 5 ≡ true) ↔ (2 ^ 64 - 3 ≢ 5))
compare_words_example = compare_words (2 ^ 64 - 3) 5 (omega arith) (omega arith)

-- Operators that give 0 where C++ leaves the result undefined.
abbrev partial : ℕ → (ℕ → ℕ → ℕ) → ℕ → ℕ → ℕ
partial smallest op a b = if is_defined smallest a b then op a b else 0

partial-defined :
    (smallest : ℕ) (op : ℕ → ℕ → ℕ) (a b : ℕ)
    → is_defined smallest a b ≡ true
    → partial smallest op a b ≡ op a b
partial-defined smallest op a b d = rw d refl

partial-Agrees :
    (smallest : ℕ) → Agrees smallest (partial smallest sdiv64) (partial smallest srem64)
partial-Agrees smallest a b d =
    (partial-defined smallest sdiv64 a b d, partial-defined smallest srem64 a b d)

-- -7 by 2.
abbrev minus_7 : ℕ
minus_7 = 2 ^ 64 - 7

alu_r-DivRem_example :
    (alu_r OpR.div minus_7 2 ≡ guarded_div (2 ^ 63) (partial (2 ^ 63) sdiv64) minus_7 2)
    × (alu_r OpR.rem minus_7 2 ≡ guarded_rem (2 ^ 63) (partial (2 ^ 63) srem64) minus_7 2)
    × DivRem (2 ^ 63) minus_7 2 (alu_r OpR.div minus_7 2) (alu_r OpR.rem minus_7 2)
    × (alu_r OpR.divw minus_7 2
        ≡ guarded_div
            (2 ^ 64 - 2 ^ 31)
            (partial (2 ^ 64 - 2 ^ 31) sdiv64)
            (sext 32 minus_7)
            (sext 32 2))
    × (alu_r OpR.remw minus_7 2
        ≡ guarded_rem
            (2 ^ 64 - 2 ^ 31)
            (partial (2 ^ 64 - 2 ^ 31) srem64)
            (sext 32 minus_7)
            (sext 32 2))
    × DivRem
        (2 ^ 64 - 2 ^ 31)
        (sext 32 minus_7)
        (sext 32 2)
        (alu_r OpR.divw minus_7 2)
        (alu_r OpR.remw minus_7 2)
alu_r-DivRem_example =
    alu_r-DivRem (partial (2 ^ 63) sdiv64) (partial (2 ^ 63) srem64)
      (partial (2 ^ 64 - 2 ^ 31) sdiv64) (partial (2 ^ 64 - 2 ^ 31) srem64) minus_7 2
      (partial-Agrees (2 ^ 63)) (partial-Agrees (2 ^ 64 - 2 ^ 31)) (omega arith) (omega arith)

abbrev written : Memory
written = record { bytes = write_bytes memory.bytes 8 4 300; size = 64 }

stored : store 4 memory 8 300 ≡ ok written
unfolding store
stored = refl

load-store_same_example : load 1 written 8 ≡ ok (300 % 256 ^ 1)
load-store_same_example = load-store_same 4 1 memory written 8 300 (omega arith) stored

load-store_disjoint_example : load 4 written 12 ≡ load 4 memory 12
load-store_disjoint_example =
    load-store_disjoint 4 4 memory written 8 12 300 (inl (omega arith)) stored

guard_wraps_example :
    (load 8 memory (2 ^ 64 - 4) ≡ err outside_memory)
    × (store 8 memory (2 ^ 64 - 4) 1 ≡ err outside_memory)
guard_wraps_example =
    guard_wraps 8 memory (2 ^ 64 - 4) 1 (omega arith) (omega arith) (omega arith) (omega arith)

-- `main` calls `f`, which loads 7.
abbrev main_block : Block
main_block = record { label = "main"; insts = pseudo_j PseudoJOp.call "f" ∷ pseudo_ret ∷ [] }

abbrev f_block : Block
f_block = record { label = "f"; insts = pseudo_li 10 7 ∷ pseudo_ret ∷ [] }

abbrev calling : List Func
calling =
    record { name = "main"; blocks = main_block ∷ [] }
    ∷ record { name = "f"; blocks = f_block ∷ [] }
    ∷ []

abbrev resolved_call : FlatInst
resolved_call = record (unresolved (pseudo_j PseudoJOp.call "f")) { branch_target = 2 }

abbrev at_call : Machine
at_call = record machine {
  flat_insts =
      resolved_call
      ∷ unresolved pseudo_ret
      ∷ unresolved (pseudo_li 10 7)
      ∷ unresolved pseudo_ret
      ∷ [];
}

-- In `f`, after its first instruction.
abbrev in_f : Machine
in_f = record (set_reg at_call 10 7) { pc = 3; call_stack = 1 ∷ [] }

calling_resolved :
    resolve_branches (build_flat_insts calling).1 (build_flat_insts calling).0
    ≡ ok at_call.flat_insts
unfolding resolve_branches build_flat_insts resolve_inst find_builtin lookup assign
calling_resolved = refl

calling_fetched :
    get_elem? (build_flat_insts calling).0 at_call.pc
    ≡ some (unresolved (pseudo_j PseudoJOp.call f_block.label))
unfolding build_flat_insts assign
calling_fetched = refl

no_builtin : find_builtin f_block.label ≡ none
unfolding find_builtin lookup
no_builtin = refl

call-ret_example :
    (fi fj : FlatInst) × (get_elem? at_call.flat_insts at_call.pc ≡ some fi)
    × (step host at_call fi ≡ ok (called at_call (length (code (main_block ∷ [])))))
    × (get_elem? at_call.flat_insts (length (code (main_block ∷ []))) ≡ some fj)
    × (fj.inst ≡ pseudo_li 10 7)
    × ((exec_pseudo_ret in_f).pc ≡ at_call.pc + 1)
    × ((exec_pseudo_ret in_f).call_stack ≡ at_call.call_stack)
call-ret_example =
    call-ret host at_call in_f calling (main_block ∷ []) f_block [] (pseudo_li 10 7)
      (pseudo_ret ∷ []) refl refl no_builtin refl calling_resolved calling_fetched refl

abbrev entry : Block
entry = record { label = "main"; insts = pseudo_li 10 7 ∷ pseudo_li 11 8 ∷ [] }

abbrev exit : Block
exit = record { label = "exit"; insts = pseudo_ret ∷ [] }

abbrev main : Func
main = record { name = "main"; blocks = entry ∷ exit ∷ [] }

build_flat_insts-label_example :
    ((build_flat_insts (main ∷ [])).0 ≡ code (entry ∷ []) ++ (map unresolved exit.insts ++ code []))
    × (lookup "exit" (build_flat_insts (main ∷ [])).1 ≡ some (length (code (entry ∷ []))))
build_flat_insts-label_example = build_flat_insts-label (main ∷ []) (entry ∷ []) exit [] refl refl
