-- ===== src/Rv64/Vm/Program.antt =====
-- Preparing a run: `build_flat_insts` and `resolve_branches` of src/backend/rv64/vm/exec.cpp.
pub mod Labels
use Prim.Native.String.{String}
use ucas_cplab.Common.{
  ℕ, zero, suc, ◌+◌, Bool, true, false, Option, none, some, List, [], ◌∷◌, ◌++◌, if◌then◌else◌,
  length,
}
use ucas_cplab.Rv64.Inst.{Inst, inst_b, inst_j, pseudo_b, pseudo_j, PseudoJOp, Block, Func}
use ucas_cplab.Rv64.Memory.{Result, ok, err, undefined_label, ◌>>=◌}
use ucas_cplab.Rv64.Vm.{FlatInst, Machine, lookup, assign}
use ucas_cplab.Rv64.Vm.Builtin.{find_builtin}

abbrev pub unresolved : Inst → FlatInst
unresolved i = record { inst = i; is_call_builtin = false; branch_target = 0 }

abbrev pub append_insts : List FlatInst → List Inst → List FlatInst
append_insts flat [] = flat
append_insts flat (i ∷ is) = append_insts (flat ++ unresolved i ∷ []) is

-- The inner loops: a block's label is the index of its first instruction, and its instructions are
-- appended. A label that occurs again is overwritten.
unfoldable pub flatten_blocks :
    List Block → List FlatInst → List (String × ℕ) → List FlatInst × List (String × ℕ)
flatten_blocks [] flat labels = (flat, labels)
flatten_blocks (b ∷ bs) flat labels =
    flatten_blocks bs (append_insts flat b.insts) (assign b.label (length flat) labels)

unfoldable pub flatten_funcs :
    List Func → List FlatInst → List (String × ℕ) → List FlatInst × List (String × ℕ)
unfolding flatten_blocks
flatten_funcs [] flat labels = (flat, labels)
flatten_funcs (f ∷ fs) flat labels =
    let (flat', labels') = flatten_blocks f.blocks flat labels in flatten_funcs fs flat' labels'

unfoldable pub build_flat_insts : List Func → List FlatInst × List (String × ℕ)
unfolding flatten_funcs
build_flat_insts funcs = flatten_funcs funcs [] []

abbrev pub to_label : List (String × ℕ) → FlatInst → String → Result FlatInst
to_label labels fi target = elim (lookup target labels) [
  | none ↦ err (undefined_label target)
  | some n ↦ ok (record fi { branch_target = n })
]

-- One round of `resolve_branches`: a call of a builtin is marked, every other target is looked up.
unfoldable pub resolve_inst : List (String × ℕ) → FlatInst → Inst → Result FlatInst
resolve_inst labels fi (pseudo_b op rs1 target) = to_label labels fi target
resolve_inst labels fi (inst_b op rs1 rs2 target) = to_label labels fi target
resolve_inst labels fi (pseudo_j PseudoJOp.call target) = elim (find_builtin target) [
  | some b ↦ ok (record fi { is_call_builtin = true })
  | none ↦ to_label labels fi target
]
resolve_inst labels fi (pseudo_j PseudoJOp.j target) = to_label labels fi target
resolve_inst labels fi (inst_j op rd target) = to_label labels fi target
resolve_inst labels fi i = ok fi

unfoldable pub resolve_branches : List (String × ℕ) → List FlatInst → Result (List FlatInst)
unfolding resolve_inst
resolve_branches labels [] = ok []
resolve_branches labels (fi ∷ fis) = do
  fi' ← resolve_inst labels fi fi.inst
  fis' ← resolve_branches labels fis
  ok (fi' ∷ fis')
