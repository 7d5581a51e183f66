-- ===== src/Rv64/DeadLabels.antt =====
-- `DeadLabelElimination` of src/backend/rv64/optim/label.hpp: a block that nothing jumps to is joined
-- to the block before it. The set of labels is a list.
use Prim.Native.String.{String}
use text.Mathlib.Text.{◌==◌ as str_eq}
use text.Mathlib.TextEquality.{eq_iff}
use mathlib.Core.List.{append-nil, append_assoc, map-append}
use ucas_cplab.Common.{
  ◌≡◌, refl, ap, sym, ◌∙◌, Bool, true, false, not, ◌&&◌, ◌||◌, List, [], ◌∷◌, ◌++◌, map, any, all,
  take, if◌then◌else◌, Bool-cases, inl, inr, arith, subst,
}
use ucas_cplab.Rv64.Inst.{Inst, inst_b, inst_j, pseudo_b, pseudo_j, Block, Func}
use ucas_cplab.Rv64.Vm.Program.{unresolved, build_flat_insts}
use ucas_cplab.Rv64.Vm.Program.Labels.{code, all_blocks, code-append, build_flat_insts-code}

-- `labels_in` of a block and of a function. A call counts as a jump to its target.
abbrev pub targets_of : Inst → List String
targets_of (inst_b op rs1 rs2 target) = target ∷ []
targets_of (inst_j op rd target) = target ∷ []
targets_of (pseudo_b op rs1 target) = target ∷ []
targets_of (pseudo_j op target) = target ∷ []
targets_of i = []

unfoldable pub labels_in : List Inst → List String
labels_in [] = []
labels_in (i ∷ is) = targets_of i ++ labels_in is

unfoldable pub labels_in_blocks : List Block → List String
unfolding labels_in
labels_in_blocks [] = []
labels_in_blocks (b ∷ bs) = labels_in b.insts ++ labels_in_blocks bs

-- The label of the entry block, `blocks[0]`; a function without blocks has none.
abbrev pub entry_label : List Block → List String
entry_label [] = []
entry_label (b ∷ bs) = b.label ∷ []

unfoldable pub needed_labels : List Func → List String
unfolding labels_in_blocks
needed_labels [] = []
needed_labels (f ∷ fs) = labels_in_blocks f.blocks ++ entry_label f.blocks ++ needed_labels fs

abbrev pub is_needed : List String → Block → Bool
is_needed labels b = any (λ l. str_eq l b.label) labels

-- `squashed_blocks.back()` gets the instructions; without a block there is no last one.
abbrev pub append_to_last : List Block → List Inst → List Block
append_to_last [] insts = []
append_to_last (b ∷ []) insts = record b { insts = b.insts ++ insts } ∷ []
append_to_last (b ∷ c ∷ bs) insts = b ∷ append_to_last (c ∷ bs) insts

unfoldable pub squash : List String → List Block → List Block → List Block
squash labels done [] = done
squash labels done (b ∷ bs) =
    squash labels (if is_needed labels b then done ++ b ∷ [] else append_to_last done b.insts) bs

abbrev pub squash_func : List String → Func → Func
squash_func labels f = record f { blocks = squash labels [] f.blocks }

-- The pass, and whether it changed something.
unfoldable pub eliminate_labels : List Func → List Func × Bool
unfolding needed_labels squash
eliminate_labels funcs =
    let labels = needed_labels funcs in
    (map (squash_func labels) funcs, any (λ f. any (λ b. not (is_needed labels b)) f.blocks) funcs)

abbrev pub is_empty : List Block → Bool
is_empty [] = true
is_empty (b ∷ bs) = false

append_to_last-code :
    (done : List Block) (is : List Inst)
    → is_empty done ≡ false
    → (code (append_to_last done is) ≡ code done ++ map unresolved is)
      × (is_empty (append_to_last done is) ≡ false)
append_to_last-code [] is e = absurd (cc)
append_to_last-code (b ∷ []) is e = (
  append-nil (map unresolved (b.insts ++ is))
      ∙ map-append unresolved b.insts is
      ∙ ap (λ xs. xs ++ map unresolved is) (sym (append-nil (map unresolved b.insts))),
  refl,
)
append_to_last-code (b ∷ c ∷ bs) is e = (
  ap (λ xs. map unresolved b.insts ++ xs) (append_to_last-code (c ∷ bs) is refl).0
      ∙ sym (append_assoc (map unresolved b.insts) (code (c ∷ bs)) (map unresolved is)),
  refl,
)

is_empty-append : (done : List Block) (b : Block) → is_empty (done ++ b ∷ []) ≡ false
is_empty-append [] b = refl
is_empty-append (d ∷ ds) b = refl

squash-code :
    (labels : List String) (done bs : List Block)
    → is_empty done ≡ false
    → code (squash labels done bs) ≡ code done ++ code bs
unfolding squash
squash-code labels done [] e = sym (append-nil (code done))
squash-code labels done (b ∷ bs) e = elim (Bool-cases (is_needed labels b)) [
  | inl n ↦
      rw (n, squash)
        (squash-code labels (done ++ b ∷ []) bs (is_empty-append done b)
          ∙ ap (λ xs. xs ++ code bs)
              (code-append done (b ∷ [])
                ∙ ap (λ xs. code done ++ xs) (append-nil (map unresolved b.insts)))
          ∙ append_assoc (code done) (map unresolved b.insts) (code bs))
  | inr n ↦
      let (same, full) = append_to_last-code done b.insts e in
      rw (n, squash)
        (squash-code labels (append_to_last done b.insts) bs full
          ∙ ap (λ xs. xs ++ code bs) same
          ∙ append_assoc (code done) (map unresolved b.insts) (code bs))
]

-- The entry block stays, and so nothing is lost.
squash-code_entry :
    (labels : List String) (bs : List Block)
    → all (is_needed labels) (take 1 bs) ≡ true
    → code (squash labels [] bs) ≡ code bs
unfolding squash
squash-code_entry labels [] e = refl
squash-code_entry labels (b ∷ bs) e =
    rw (first, squash)
      (squash-code labels (b ∷ []) bs refl
        ∙ ap (λ xs. xs ++ code bs) (append-nil (map unresolved b.insts)))
  where
    first : is_needed labels b ≡ true
    first = ground arith

squash_funcs-code :
    (labels : List String) (fs : List Func)
    → all (λ f. all (is_needed labels) (take 1 f.blocks)) fs ≡ true
    → code (all_blocks (map (squash_func labels) fs)) ≡ code (all_blocks fs)
squash_funcs-code labels [] e = refl
squash_funcs-code labels (f ∷ fs) e =
    code-append (squash labels [] f.blocks) (all_blocks (map (squash_func labels) fs))
    ∙ ap (λ xs. xs ++ code (all_blocks (map (squash_func labels) fs)))
        (squash-code_entry labels f.blocks (ground arith))
    ∙ ap (λ xs. code f.blocks ++ xs) (squash_funcs-code labels fs (ground arith))
    ∙ sym (code-append f.blocks (all_blocks fs))

any-append : (p : String → Bool) (xs ys : List String) → any p (xs ++ ys) ≡ (any p xs || any p ys)
any-append p [] ys = refl
any-append p (x ∷ xs) ys = ground (arith, any-append p xs ys)

entry_needed :
    (pre post : List String) (bs : List Block)
    → all (is_needed (pre ++ (entry_label bs ++ post))) (take 1 bs) ≡ true
entry_needed pre post [] = refl
entry_needed pre post (b ∷ bs) =
    ground (arith, any-append (λ l. str_eq l b.label) pre (b.label ∷ post), eq_iff b.label b.label)

and-intro : (a b : Bool) → a ≡ true → b ≡ true → (a && b) ≡ true
and-intro a b p q = ground arith

entries_needed :
    (pre : List String) (fs : List Func)
    → all (λ f. all (is_needed (pre ++ needed_labels fs)) (take 1 f.blocks)) fs ≡ true
unfolding needed_labels
entries_needed pre [] = refl
entries_needed pre (f ∷ fs) =
    let targets = labels_in_blocks f.blocks in
    let entry = entry_label f.blocks in
    let here : pre ++ (targets ++ entry ++ needed_labels fs)
        ≡ pre ++ targets ++ (entry ++ needed_labels fs) =
      ap (λ xs. pre ++ xs) (append_assoc targets entry (needed_labels fs))
      ∙ sym (append_assoc pre targets (entry ++ needed_labels fs)) in
    let below : pre ++ (targets ++ entry ++ needed_labels fs)
        ≡ pre ++ (targets ++ entry) ++ needed_labels fs =
      sym (append_assoc pre (targets ++ entry) (needed_labels fs)) in
    and-intro _ _
      (subst (λ ls. all (is_needed ls) (take 1 f.blocks) ≡ true) (sym here)
        (entry_needed (pre ++ targets) (needed_labels fs) f.blocks))
      (subst (λ ls. all (λ g. all (is_needed ls) (take 1 g.blocks)) fs ≡ true) (sym below)
        (entries_needed (pre ++ (targets ++ entry)) fs))

-- The pass keeps the program: flattening the functions after it gives the same instructions, in the
-- same order, as before it.
pub eliminate_labels-code :
    (funcs : List Func)
    → (build_flat_insts (eliminate_labels funcs).0).0 ≡ (build_flat_insts funcs).0
unfolding eliminate_labels
eliminate_labels-code funcs =
    build_flat_insts-code (map (squash_func (needed_labels funcs)) funcs)
    ∙ squash_funcs-code (needed_labels funcs) funcs (entries_needed [] funcs)
    ∙ sym (build_flat_insts-code funcs)
