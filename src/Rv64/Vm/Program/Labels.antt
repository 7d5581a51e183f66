-- ===== src/Rv64/Vm/Program/Labels.antt =====
-- What `build_flat_insts` of src/backend/rv64/vm/exec.cpp puts into the program and into its labels.
use Prim.Native.String.{String}
use text.Mathlib.Text.{◌==◌ as str_eq}
use text.Mathlib.TextEquality.{eq_iff}
use mathlib.Core.List.{append-nil, append_assoc}
use ucas_cplab.Common.{
  ℕ, ◌≡◌, refl, ap, sym, ◌∙◌, Bool, true, not, some, List, [], ◌∷◌, ◌++◌, map, all, length, arith,
  if◌then◌else◌,
}
use ucas_cplab.Rv64.Inst.{Inst, Block, Func}
use ucas_cplab.Rv64.Vm.{FlatInst, lookup, assign}
use ucas_cplab.Rv64.Vm.Program.{
  unresolved, append_insts, flatten_blocks, flatten_funcs, build_flat_insts,
}

-- Assignment through `operator[]`, then `find`.
lookup-assign :
    {V : Type 0} (k j : String) (v : V) (m : List (String × V))
    → lookup j (assign k v m) ≡ (if str_eq k j then some v else lookup j m)
unfolding lookup assign
lookup-assign k j v [] = refl
lookup-assign k j v ((i, w) ∷ m) =
    ground (arith, eq_iff k j, eq_iff i k, eq_iff i j, lookup-assign k j v m)

-- The instructions of some blocks, and the blocks of some functions, in the order of the source.
abbrev pub code : List Block → List FlatInst
code [] = []
code (b ∷ bs) = map unresolved b.insts ++ code bs

abbrev pub all_blocks : List Func → List Block
all_blocks [] = []
all_blocks (f ∷ fs) = f.blocks ++ all_blocks fs

-- No block of a list has a label.
abbrev pub is_unused : String → List Block → Bool
is_unused k bs = all (λ b. not (str_eq b.label k)) bs

append_insts-eq :
    (flat : List FlatInst) (is : List Inst) → append_insts flat is ≡ flat ++ map unresolved is
append_insts-eq flat [] = sym (append-nil flat)
append_insts-eq flat (i ∷ is) =
    append_insts-eq (flat ++ unresolved i ∷ []) is
    ∙ append_assoc flat (unresolved i ∷ []) (map unresolved is)

flatten_blocks-code :
    (bs : List Block) (flat : List FlatInst) (labels : List (String × ℕ))
    → (flatten_blocks bs flat labels).0 ≡ flat ++ code bs
unfolding flatten_blocks
flatten_blocks-code [] flat labels = sym (append-nil flat)
flatten_blocks-code (b ∷ bs) flat labels =
    flatten_blocks-code bs (append_insts flat b.insts) (assign b.label (length flat) labels)
    ∙ ap (λ xs. xs ++ code bs) (append_insts-eq flat b.insts)
    ∙ append_assoc flat (map unresolved b.insts) (code bs)

flatten_blocks-unused :
    (bs : List Block) (flat : List FlatInst) (labels : List (String × ℕ)) (k : String)
    → is_unused k bs ≡ true
    → lookup k (flatten_blocks bs flat labels).1 ≡ lookup k labels
unfolding flatten_blocks
flatten_blocks-unused [] flat labels k e = refl
flatten_blocks-unused (b ∷ bs) flat labels k e =
    flatten_blocks-unused bs (append_insts flat b.insts) (assign b.label (length flat) labels) k
      (ground arith)
    ∙ lookup-assign b.label k (length flat) labels
    ∙ ground arith

flatten_blocks-label :
    (pre : List Block) (b : Block) (post : List Block) (flat : List FlatInst)
    (labels : List (String × ℕ))
    → is_unused b.label post ≡ true
    → lookup b.label (flatten_blocks (pre ++ b ∷ post) flat labels).1
      ≡ some (length (flat ++ code pre))
unfolding flatten_blocks
flatten_blocks-label [] b post flat labels e =
    flatten_blocks-unused post (append_insts flat b.insts) (assign b.label (length flat) labels)
      b.label e
    ∙ lookup-assign b.label b.label (length flat) labels
    ∙ ground (arith, eq_iff b.label b.label, append-nil flat)
flatten_blocks-label (a ∷ pre) b post flat labels e =
    flatten_blocks-label pre b post (append_insts flat a.insts)
      (assign a.label (length flat) labels) e
    ∙ ap (λ xs. some (length xs))
        (ap (λ xs. xs ++ code pre) (append_insts-eq flat a.insts)
          ∙ append_assoc flat (map unresolved a.insts) (code pre))

flatten_blocks-append :
    (bs cs : List Block) (flat : List FlatInst) (labels : List (String × ℕ))
    → flatten_blocks (bs ++ cs) flat labels
      ≡ flatten_blocks cs (flatten_blocks bs flat labels).0 (flatten_blocks bs flat labels).1
unfolding flatten_blocks
flatten_blocks-append [] cs flat labels = refl
flatten_blocks-append (b ∷ bs) cs flat labels =
    flatten_blocks-append bs cs (append_insts flat b.insts) (assign b.label (length flat) labels)

pub code-append : (bs cs : List Block) → code (bs ++ cs) ≡ code bs ++ code cs
code-append [] cs = refl
code-append (b ∷ bs) cs =
    ap (λ xs. map unresolved b.insts ++ xs) (code-append bs cs)
    ∙ sym (append_assoc (map unresolved b.insts) (code bs) (code cs))

flatten_funcs-eq :
    (fs : List Func) (flat : List FlatInst) (labels : List (String × ℕ))
    → flatten_funcs fs flat labels ≡ flatten_blocks (all_blocks fs) flat labels
unfolding flatten_funcs flatten_blocks
flatten_funcs-eq [] flat labels = refl
flatten_funcs-eq (f ∷ fs) flat labels =
    flatten_funcs-eq fs (flatten_blocks f.blocks flat labels).0
      (flatten_blocks f.blocks flat labels).1
    ∙ sym (flatten_blocks-append f.blocks (all_blocks fs) flat labels)

pub build_flat_insts-code :
    (funcs : List Func) → (build_flat_insts funcs).0 ≡ code (all_blocks funcs)
unfolding build_flat_insts
build_flat_insts-code funcs =
    ap (λ r. r.0) (flatten_funcs-eq funcs [] []) ∙ flatten_blocks-code (all_blocks funcs) [] []

-- The program is the code of all blocks in order. The label of a block that no later block has is
-- the index of its first instruction: the code before it has that length.
pub build_flat_insts-label :
    (funcs : List Func) (pre : List Block) (b : Block) (post : List Block)
    → all_blocks funcs ≡ pre ++ b ∷ post
    → is_unused b.label post ≡ true
    → ((build_flat_insts funcs).0 ≡ code pre ++ (map unresolved b.insts ++ code post))
      × (lookup b.label (build_flat_insts funcs).1 ≡ some (length (code pre)))
unfolding build_flat_insts
build_flat_insts-label funcs pre b post e u = (
  rw (flatten_funcs-eq funcs [] [], e)
      (flatten_blocks-code (pre ++ b ∷ post) [] [] ∙ code-append pre (b ∷ post)),
  rw (flatten_funcs-eq funcs [] [], e) (flatten_blocks-label pre b post [] [] u),
)
