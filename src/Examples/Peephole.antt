-- ===== src/Examples/Peephole.antt =====
-- The passes of src/backend/rv64/optim (peephole.hpp, label.hpp) at concrete blocks.
use Prim.Native.String.{String}
use ucas_cplab.Common.{ℕ, ◌≡◌, refl, some, List, [], ◌∷◌}
use ucas_cplab.Rv64.Op.{OpR, OpI, OpB}
use ucas_cplab.Rv64.Inst.{
  Inst, inst_r, inst_i, inst_b, pseudo_b, pseudo_j, pseudo_ret, pseudo_r, PseudoROp, PseudoBOp,
  PseudoJOp, Block, Func,
}
use ucas_cplab.Rv64.Memory.{Result, err, invalid_register}
use ucas_cplab.Rv64.Vm.{Machine}
use ucas_cplab.Rv64.Peephole.{cmp_rd, eliminate_loads, drop_last_jump}
use ucas_cplab.Rv64.DeadLabels.{eliminate_labels, eliminate_labels-code}
use ucas_cplab.Rv64.Vm.Program.{build_flat_insts}
use ucas_cplab.Rv64.Peephole.Run.{exec_block}
use ucas_cplab.Rv64.Peephole.Loads.{eliminate_loads-same}
use ucas_cplab.Rv64.Peephole.Branches.{SameExcept, rule1-same, rule2-same, rule3-same}
use ucas_cplab.Rv64.Peephole.Jumps.{go_on_result, drop_last_jump-same}
use ucas_cplab.Examples.Machine.{host, machine}

abbrev no_call : String → Machine → Result Machine
no_call target s = err invalid_register

-- `sw a0, 4(sp)`, `lbu a1, 4(sp)`, `ret`
abbrev reload : List Inst
reload = inst_i OpI.sw 10 2 4 ∷ inst_i OpI.lbu 11 2 4 ∷ pseudo_ret ∷ []

eliminate_loads-same_example :
    exec_block host no_call (eliminate_loads reload).0 machine
    ≡ exec_block host no_call reload machine
eliminate_loads-same_example = eliminate_loads-same host no_call reload machine

abbrev compare : Inst
compare = inst_r OpR.slt 12 10 11

abbrev flip : Inst
flip = inst_i OpI.xori 12 12 1

abbrev branch : Inst
branch = pseudo_b PseudoBOp.bnez 12 "then"

rule1-same_example :
    (x : ℕ) × (cmp_rd compare ≡ some x)
    × SameExcept host no_call x
        (compare ∷ pseudo_b PseudoBOp.beqz 12 "then" ∷ [])
        (compare ∷ flip ∷ branch ∷ [])
rule1-same_example =
    rule1-same host no_call compare flip branch (compare ∷ pseudo_b PseudoBOp.beqz 12 "then" ∷ [])
      refl

rule2-same_example :
    (x : ℕ) × (cmp_rd compare ≡ some x)
    × SameExcept host no_call x (inst_b OpB.blt 10 11 "then" ∷ []) (compare ∷ branch ∷ [])
rule2-same_example = rule2-same host no_call compare branch (inst_b OpB.blt 10 11 "then" ∷ []) refl

abbrev jumping : List Inst
jumping = branch ∷ pseudo_j PseudoJOp.j "next" ∷ []

drop_last_jump-same_example :
    go_on_result "next" (exec_block host no_call (drop_last_jump "next" jumping).0 machine)
    ≡ go_on_result "next" (exec_block host no_call jumping machine)
drop_last_jump-same_example = drop_last_jump-same host no_call "next" jumping machine

abbrev start : Block
start = record { label = "main"; insts = branch ∷ [] }

abbrev unnamed : Block
unnamed = record { label = "L1"; insts = flip ∷ [] }

abbrev target : Block
target = record { label = "then"; insts = pseudo_ret ∷ [] }

abbrev program : List Func
program = record { name = "main"; blocks = start ∷ unnamed ∷ target ∷ [] } ∷ []

eliminate_labels-code_example :
    (build_flat_insts (eliminate_labels program).0).0 ≡ (build_flat_insts program).0
eliminate_labels-code_example = eliminate_labels-code program

-- `seqz a2, a0`
abbrev zero_test : Inst
zero_test = pseudo_r PseudoROp.seqz 12 10

rule3-same_example :
    (x : ℕ) × (cmp_rd zero_test ≡ some x)
    × SameExcept host no_call x (pseudo_b PseudoBOp.beqz 10 "then" ∷ []) (zero_test ∷ branch ∷ [])
rule3-same_example =
    rule3-same host no_call zero_test branch (pseudo_b PseudoBOp.beqz 10 "then" ∷ []) refl
