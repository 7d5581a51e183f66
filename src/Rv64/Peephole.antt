-- ===== src/Rv64/Peephole.antt =====
-- The peephole passes of src/backend/rv64/optim/peephole.hpp: the window loop `peephole_apply`, and
-- the passes RedundantJumpElimination, BranchCondSimplification and RedundantLoadElimination. A pass
-- is a function on the blocks; its Boolean is `changed`.
use Prim.Native.String.{String}
use text.Mathlib.Text.{◌==◌ as str_eq}
use ucas_cplab.Common.{
  ℕ, zero, suc, ◌+◌, ◌-◌, Bool, true, false, Option, none, some, List, [], ◌∷◌, ◌++◌, length,
  get_elem?, take, drop, ltb, ◌==◌, ◌&&◌, ◌||◌, if◌then◌else◌,
}
use ucas_cplab.Rv64.Op.{OpR, OpI, OpB}
use ucas_cplab.Rv64.Inst.{
  Inst, inst_r, inst_i, inst_b, pseudo_r, pseudo_b, pseudo_j, PseudoROp, PseudoBOp, PseudoJOp,
  Block, Func,
}
pub mod Run
pub mod Apply
pub mod Loads
pub mod Branches
pub mod Jumps

abbrev pub MatchFn : Type 0
MatchFn = List Inst → ℕ → Option (List Inst)

-- The loop with `i` counting down: the first argument is `i + 1`.
unfoldable pub peephole_loop : ℕ → MatchFn → ℕ → List Inst → Bool → List Inst × Bool
peephole_loop window match_fn zero insts changed = (insts, changed)
peephole_loop window match_fn (suc i) insts changed = elim (ltb (length insts) (i + window)) [
  | true ↦ peephole_loop window match_fn i insts changed
  | false ↦ elim (match_fn insts i) [
    | none ↦ peephole_loop window match_fn i insts changed
    | some repl ↦
        peephole_loop window match_fn i (take i insts ++ (repl ++ drop (i + window) insts)) true
  ]
]

unfoldable pub peephole_apply : ℕ → MatchFn → List Inst → List Inst × Bool
unfolding peephole_loop
peephole_apply window match_fn insts =
    peephole_loop window match_fn (suc (length insts) - window) insts false

-- A rule reads `ii[i]`, `ii[i + 1]` (and `ii[i + 2]`), which the loop keeps in range.
unfoldable pub at_pair : (Inst → Inst → Option (List Inst)) → MatchFn
at_pair rule ii i = elim (get_elem? ii i) [
  | none ↦ none
  | some x ↦ elim (get_elem? ii (suc i)) [ none ↦ none | some y ↦ rule x y ]
]

unfoldable pub at_triple : (Inst → Inst → Inst → Option (List Inst)) → MatchFn
unfolding at_pair
at_triple rule ii i = elim (get_elem? ii i) [ none ↦ none | some x ↦ at_pair (rule x) ii (suc i) ]

-- `BranchCondSimplification`
abbrev pub cmp_rd : Inst → Option ℕ
cmp_rd (inst_r OpR.slt rd rs1 rs2) = some rd
cmp_rd (inst_r OpR.sltu rd rs1 rs2) = some rd
cmp_rd (inst_i OpI.slti rd rs1 imm) = some rd
cmp_rd (inst_i OpI.sltiu rd rs1 imm) = some rd
cmp_rd (pseudo_r PseudoROp.seqz rd rs1) = some rd
cmp_rd (pseudo_r PseudoROp.snez rd rs1) = some rd
cmp_rd i = none

abbrev pub opposite : PseudoBOp → PseudoBOp
opposite PseudoBOp.bnez = PseudoBOp.beqz
opposite PseudoBOp.beqz = PseudoBOp.bnez

abbrev pub flip_branch : Inst → ℕ → PseudoBOp → ℕ → String → Option (List Inst)
flip_branch cmp x op rs1 target = elim (cmp_rd cmp) [
  | none ↦ none
  | some r ↦
      if r == x && r == rs1 then some (cmp ∷ pseudo_b (opposite op) rs1 target ∷ []) else none
]

abbrev pub rule1 : Inst → Inst → Inst → Option (List Inst)
rule1 cmp (inst_i OpI.xori rd rs1 imm) (pseudo_b op br target) =
    if imm == 1 && rd == rs1 then flip_branch cmp rd op br target else none
rule1 cmp i j = none

abbrev pub branch_on : OpR → PseudoBOp → Option OpB
branch_on OpR.slt PseudoBOp.bnez = some OpB.blt
branch_on OpR.slt PseudoBOp.beqz = some OpB.bge
branch_on OpR.sltu PseudoBOp.bnez = some OpB.bltu
branch_on OpR.sltu PseudoBOp.beqz = some OpB.bgeu
branch_on op br = none

abbrev pub rule2 : Inst → Inst → Option (List Inst)
rule2 (inst_r op rd rs1 rs2) (pseudo_b br x target) = elim (branch_on op br) [
  | none ↦ none
  | some bop ↦ if rd == x then some (inst_b bop rs1 rs2 target ∷ []) else none
]
rule2 i j = none

abbrev pub branch_zero : PseudoROp → PseudoBOp → Option PseudoBOp
branch_zero PseudoROp.seqz br = some (opposite br)
branch_zero PseudoROp.snez br = some br
branch_zero op br = none

abbrev pub rule3 : Inst → Inst → Option (List Inst)
rule3 (pseudo_r op rd rs1) (pseudo_b br x target) = elim (branch_zero op br) [
  | none ↦ none
  | some new_op ↦ if rd == x then some (pseudo_b new_op rs1 target ∷ []) else none
]
rule3 i j = none

-- The three rules on one block, each on what the one before left.
unfoldable pub simplify_branches : List Inst → List Inst × Bool
unfolding peephole_apply at_pair at_triple
simplify_branches ii =
    let (ii1, changed1) = peephole_apply 3 (at_triple rule1) ii in
    let (ii2, changed2) = peephole_apply 2 (at_pair rule2) ii1 in
    let (ii3, changed3) = peephole_apply 2 (at_pair rule3) ii2 in
    (ii3, changed1 || changed2 || changed3)

-- `RedundantLoadElimination`
abbrev pub store_width : OpI → ℕ
store_width OpI.sd = 8
store_width OpI.sw = 4
store_width OpI.sh = 2
store_width OpI.sb = 1
store_width op = 0

abbrev pub load_width : OpI → ℕ
load_width OpI.ld = 8
load_width OpI.lw = 4
load_width OpI.lwu = 4
load_width OpI.lh = 2
load_width OpI.lhu = 2
load_width OpI.lb = 1
load_width OpI.lbu = 1
load_width op = 0

abbrev pub gen_extract : OpI → ℕ → ℕ → List Inst
gen_extract OpI.ld dst src = inst_i OpI.addi dst src 0 ∷ []
gen_extract OpI.lw dst src = inst_i OpI.addiw dst src 0 ∷ []
gen_extract OpI.lwu dst src = inst_i OpI.slli dst src 32 ∷ inst_i OpI.srli dst dst 32 ∷ []
gen_extract OpI.lh dst src = inst_i OpI.slli dst src 48 ∷ inst_i OpI.srai dst dst 48 ∷ []
gen_extract OpI.lhu dst src = inst_i OpI.slli dst src 48 ∷ inst_i OpI.srli dst dst 48 ∷ []
gen_extract OpI.lb dst src = inst_i OpI.slli dst src 56 ∷ inst_i OpI.srai dst dst 56 ∷ []
gen_extract OpI.lbu dst src = inst_i OpI.andi dst src 255 ∷ []
gen_extract op dst src = []

abbrev pub forward_store : Inst → Inst → Option (List Inst)
forward_store (inst_i store_op x base offset) (inst_i load_op z base' offset') =
    if store_width store_op == 0 || load_width load_op == 0
    then none
    else if ltb (store_width store_op) (load_width load_op)
    then none
    else if base == base' && offset == offset'
    then some (inst_i store_op x base offset ∷ gen_extract load_op z x)
    else none
forward_store i j = none

unfoldable pub eliminate_loads : List Inst → List Inst × Bool
unfolding peephole_apply at_pair
eliminate_loads ii = peephole_apply 2 (at_pair forward_store) ii

-- `RedundantJumpElimination`: `back()` of a block without instructions has no meaning, so such a
-- block stays.
abbrev pub is_jump_to : String → Inst → Bool
is_jump_to label (pseudo_j PseudoJOp.j target) = str_eq target label
is_jump_to label i = false

unfoldable pub drop_last_jump : String → List Inst → List Inst × Bool
drop_last_jump label [] = ([], false)
drop_last_jump label (i ∷ []) = if is_jump_to label i then ([], true) else (i ∷ [], false)
drop_last_jump label (i ∷ j ∷ is) =
    let (is', changed) = drop_last_jump label (j ∷ is) in (i ∷ is', changed)

unfoldable pub eliminate_jumps : List Block → List Block × Bool
unfolding drop_last_jump
eliminate_jumps [] = ([], false)
eliminate_jumps (b ∷ []) = (b ∷ [], false)
eliminate_jumps (b ∷ c ∷ bs) =
    let (insts, changed) = drop_last_jump c.label b.insts in
    let (bs', changed') = eliminate_jumps (c ∷ bs) in
    (record b { insts = insts } ∷ bs', changed || changed')
