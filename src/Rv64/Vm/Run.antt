-- ===== src/Rv64/Vm/Run.antt =====
-- The entry point `execute` of src/backend/rv64/vm/exec.cpp. The loop is recursion on the number of
-- instructions that the limit leaves; when none is left and the program goes on, it throws.
use Prim.Native.String.{String}
use ucas_cplab.Common.{
  ℕ, zero, suc, ◌+◌, ◌-◌, ◌*◌, ◌%◌, ◌^◌, none, some, List, [], get_elem?, if◌then◌else◌, ◌==◌,
}
use ucas_cplab.Rv64.Inst.{Func}
use ucas_cplab.Rv64.Memory.{Memory, Result, ok, err, limit_exceeded, no_main, ◌>>=◌}
use ucas_cplab.Rv64.Vm.{Host, Machine, FlatInst, lookup}
use ucas_cplab.Rv64.Vm.Exec.{exec}
use ucas_cplab.Rv64.Vm.Program.{build_flat_insts, resolve_branches}

-- The loop body: the instruction runs with `pc` already at the next one.
unfoldable pub step : Host → Machine → FlatInst → Result Machine
step h s fi = do
  s' ← exec h (record s { pc = s.pc + 1 }) fi fi.inst
  ok (record s' { num_insts = s'.num_insts + 1 })

-- `while (pc < flat_insts.size())` with the limit tested first in the body: `left` is
-- `max_insts - num_insts`.
unfoldable pub run : ℕ → Host → Machine → Result Machine
run zero h s = elim (get_elem? s.flat_insts s.pc) [ none ↦ ok s | some fi ↦ err limit_exceeded ]
run (suc left) h s = elim (get_elem? s.flat_insts s.pc) [
  | none ↦ ok s
  | some fi ↦ elim (step h s fi) [ err e ↦ err e | ok s' ↦ run left h s' ]
]

abbrev pub mem_size : ℕ
mem_size = 64 * 1024 * 1024

abbrev pub stack_init : ℕ
stack_init = mem_size - 512

abbrev pub max_insts : ℕ
max_insts = 1_000_000_000

-- The machine after `resolve_branches`: `sp` and the sentinel in `ra` are set. The memory and the
-- symbols are those that `place_globals` leaves.
abbrev pub initial :
    Memory → List (String × ℕ) → List (String × ℕ) → List FlatInst → List ℕ → ℕ → Machine
initial memory symbols labels flat input start = record {
  regs = λ r. if r == 2 then stack_init else if r == 1 then 2 ^ 64 - 1 else 0;
  fregs = λ r. 0;
  memory = memory;
  flat_insts = flat;
  label_map = labels;
  symbol_map = symbols;
  call_stack = [];
  input = input;
  output = [];
  num_insts = 0;
  pc = start;
}

unfoldable pub execute :
    ℕ → Host → Memory → List (String × ℕ) → List Func → List ℕ → Result (ℕ × Machine)
execute limit h memory symbols funcs input =
    let (flat, labels) = build_flat_insts funcs in
    do
      flat' ← resolve_branches labels flat
      start ← elim (lookup "main" labels) [ none ↦ err no_main | some n ↦ ok n ]
      s ← run limit h (initial memory symbols labels flat' input start)
      ok (s.regs 10 % 256, s)
