-- ===== src/Rv64/Vm/Calls.antt =====
-- Calls and returns (src/backend/rv64/vm/exec.cpp): from the label in the source of a program to the instruction that
-- runs next.
use Prim.Native.String.{String}
use ucas_cplab.Common.{
  ℕ, zero, suc, ◌+◌, ◌≡◌, ◌≢◌, refl, ap, sym, subst, ◌∙◌, true, false, none, some, List, [], ◌∷◌,
  ◌++◌, map, length, inl, inr, get_elem?, Option-cases,
}
use ucas_cplab.Rv64.Inst.{Inst, inst_b, inst_j, pseudo_b, pseudo_j, PseudoJOp, Block, Func}
use ucas_cplab.Rv64.Memory.{VmError, undefined_label, Result, ok, err, ◌>>=◌}
use ucas_cplab.Rv64.Vm.{Host, Machine, FlatInst, lookup}
use ucas_cplab.Rv64.Vm.Builtin.{Builtin, find_builtin}
use ucas_cplab.Rv64.Vm.Exec.{exec, exec_pseudo_j, exec_pseudo_ret}
use ucas_cplab.Rv64.Vm.Run.{step}
use ucas_cplab.Rv64.Vm.Program.{
  unresolved, to_label, resolve_inst, resolve_branches, build_flat_insts,
}
use ucas_cplab.Rv64.Vm.Program.Labels.{code, all_blocks, is_unused, build_flat_insts-label}

ok-injective : {A : Type 0} (a b : A) → ok a ≡ ok b → a ≡ b
ok-injective a b e = cc

bind_ok :
    {A B : Type 0} (r : Result A) (f : A → Result B) (b : B)
    → (r >>= f) ≡ ok b
    → (a : A) × (r ≡ ok a) × (f a ≡ ok b)
bind_ok (ok a) f b e = (a, refl, e)
bind_ok (err x) f b e = absurd (cc)

some-injective : (a b : FlatInst) → some a ≡ some b → a ≡ b
some-injective a b e = cc

to_label-found :
    (labels : List (String × ℕ)) (fi : FlatInst) (target : String) (n : ℕ)
    → lookup target labels ≡ some n
    → to_label labels fi target ≡ ok (record fi { branch_target = n })
to_label-found labels fi target n p = rw (p, to_label) refl

to_label-missing :
    (labels : List (String × ℕ)) (fi : FlatInst) (target : String)
    → lookup target labels ≡ none
    → to_label labels fi target ≡ err (undefined_label target)
to_label-missing labels fi target p = rw (p, to_label) refl

err-ok : (x : VmError) (fi : FlatInst) → err x ≢ ok fi
err-ok x fi e = absurd (cc)

to_label-inst :
    (labels : List (String × ℕ)) (fi fi' : FlatInst) (target : String)
    → to_label labels fi target ≡ ok fi'
    → fi'.inst ≡ fi.inst
to_label-inst labels fi fi' target e = elim (Option-cases (lookup target labels)) [
  | inl p ↦
      absurd (err-ok (undefined_label target) fi' (sym (to_label-missing labels fi target p) ∙ e))
  | inr (n, p) ↦ sym (
      ap (λ z. z.inst)
        (ok-injective (record fi { branch_target = n }) fi'
          (sym (to_label-found labels fi target n p) ∙ e)))
]

same_inst : (fi fi' : FlatInst) → ok fi ≡ ok fi' → fi'.inst ≡ fi.inst
same_inst fi fi' e = sym (ap (λ z. z.inst) (ok-injective fi fi' e))

call_resolved :
    (labels : List (String × ℕ)) (fi : FlatInst) (target : String)
    → find_builtin target ≡ none
    → resolve_inst labels fi (pseudo_j PseudoJOp.call target) ≡ to_label labels fi target
unfolding resolve_inst
call_resolved labels fi target p = rw (p, resolve_inst) refl

call_builtin_resolved :
    (labels : List (String × ℕ)) (fi : FlatInst) (target : String) (b : Builtin)
    → find_builtin target ≡ some b
    → resolve_inst labels fi (pseudo_j PseudoJOp.call target)
      ≡ ok (record fi { is_call_builtin = true })
unfolding resolve_inst
call_builtin_resolved labels fi target b p = rw (p, resolve_inst) refl

resolve_inst-inst :
    (labels : List (String × ℕ)) (fi fi' : FlatInst) (i : Inst)
    → resolve_inst labels fi i ≡ ok fi'
    → fi'.inst ≡ fi.inst
unfolding resolve_inst
resolve_inst-inst labels fi fi' (pseudo_b op rs1 target) e = to_label-inst labels fi fi' target e
resolve_inst-inst labels fi fi' (inst_b op rs1 rs2 target) e = to_label-inst labels fi fi' target e
resolve_inst-inst labels fi fi' (inst_j op rd target) e = to_label-inst labels fi fi' target e
resolve_inst-inst labels fi fi' (pseudo_j PseudoJOp.j target) e =
    to_label-inst labels fi fi' target e
resolve_inst-inst labels fi fi' (pseudo_j PseudoJOp.call target) e =
    elim (Option-cases (find_builtin target)) [
      | inl p ↦ to_label-inst labels fi fi' target (sym (call_resolved labels fi target p) ∙ e)
      | inr (b, p) ↦
          same_inst (record fi { is_call_builtin = true }) fi'
            (sym (call_builtin_resolved labels fi target b p) ∙ e)
    ]
resolve_inst-inst labels fi fi' i e = same_inst fi fi' e

-- Every instruction keeps its place when its target is looked up.
resolve_branches-get_elem? :
    (labels : List (String × ℕ)) (flat flat' : List FlatInst) (n : ℕ) (fi : FlatInst)
    → resolve_branches labels flat ≡ ok flat'
    → get_elem? flat n ≡ some fi
    → (fi' : FlatInst) × (get_elem? flat' n ≡ some fi') × (resolve_inst labels fi fi.inst ≡ ok fi')
unfolding resolve_branches
resolve_branches-get_elem? labels [] flat' n fi e g = absurd (cc)
resolve_branches-get_elem? labels (f ∷ flat) flat' zero fi e g =
    let (f', ef, e1) =
      bind_ok (resolve_inst labels f f.inst)
        (λ f'. resolve_branches labels flat >>= λ fs. ok (f' ∷ fs)) flat' e in
    let (fs, es, e2) = bind_ok (resolve_branches labels flat) (λ fs. ok (f' ∷ fs)) flat' e1 in
    (
      f',
      ap (λ z. get_elem? z 0) (sym (ok-injective (f' ∷ fs) flat' e2)),
      subst (λ z. resolve_inst labels z z.inst ≡ ok f') (some-injective f fi g) ef,
    )
resolve_branches-get_elem? labels (f ∷ flat) flat' (suc n) fi e g =
    let (f', ef, e1) =
      bind_ok (resolve_inst labels f f.inst)
        (λ f'. resolve_branches labels flat >>= λ fs. ok (f' ∷ fs)) flat' e in
    let (fs, es, e2) = bind_ok (resolve_branches labels flat) (λ fs. ok (f' ∷ fs)) flat' e1 in
    let (fi', there, resolved) = resolve_branches-get_elem? labels flat fs n fi es g in
    (fi', ap (λ z. get_elem? z (suc n)) (sym (ok-injective (f' ∷ fs) flat' e2)) ∙ there, resolved)

get_elem?-length :
    (xs : List FlatInst) (y : FlatInst) (ys : List FlatInst)
    → get_elem? (xs ++ y ∷ ys) (length xs) ≡ some y
get_elem?-length [] y ys = refl
get_elem?-length (x ∷ xs) y ys = get_elem?-length xs y ys

-- The machine after a call.
abbrev pub called : Machine → ℕ → Machine
called s n = record s {
  call_stack = (s.pc + 1) ∷ s.call_stack;
  pc = n;
  num_insts = s.num_insts + 1;
}

step-call :
    (h : Host) (s : Machine) (fi : FlatInst) (target : String)
    → fi.inst ≡ pseudo_j PseudoJOp.call target
    → fi.is_call_builtin ≡ false
    → step h s fi ≡ ok (called s fi.branch_target)
unfolding step exec exec_pseudo_j
step-call h s fi target i b = rw (i, exec, b) refl

-- The functions `funcs` have the blocks `pre`, `b`, `post`; no block after `b` has its label, which names no builtin, and
-- `b` begins with `i`. The machine runs these functions with their targets looked up, and is at an
-- instruction that is a call of that label in the source. Then the instruction that it fetches leads
-- to the index after the code of `pre`, at which `i` stands, with the return address on the stack, and nothing else changes but
-- the count; and `ret`, executed by any machine with that stack, leads back to the instruction after
-- the call, with the stack as it was.
pub call-ret :
    (h : Host) (s t : Machine) (funcs : List Func) (pre : List Block) (b : Block)
    (post : List Block) (i : Inst) (is : List Inst)
    → all_blocks funcs ≡ pre ++ b ∷ post
    → is_unused b.label post ≡ true
    → find_builtin b.label ≡ none
    → b.insts ≡ i ∷ is
    → resolve_branches (build_flat_insts funcs).1 (build_flat_insts funcs).0 ≡ ok s.flat_insts
    → get_elem? (build_flat_insts funcs).0 s.pc
      ≡ some (unresolved (pseudo_j PseudoJOp.call b.label))
    → t.call_stack ≡ (s.pc + 1) ∷ s.call_stack
    → (fi fj : FlatInst) × (get_elem? s.flat_insts s.pc ≡ some fi)
      × (step h s fi ≡ ok (called s (length (code pre))))
      × (get_elem? s.flat_insts (length (code pre)) ≡ some fj)
      × (fj.inst ≡ i)
      × ((exec_pseudo_ret t).pc ≡ s.pc + 1)
      × ((exec_pseudo_ret t).call_stack ≡ s.call_stack)
unfolding exec_pseudo_ret
call-ret h s t funcs pre b post i is blocks unused no_builtin begins resolved at_call stack =
    let labels = (build_flat_insts funcs).1 in
    let flat = (build_flat_insts funcs).0 in
    let call = unresolved (pseudo_j PseudoJOp.call b.label) in
    let (flat_eq, entry) = build_flat_insts-label funcs pre b post blocks unused in
    let (fi, here, ri) =
      resolve_branches-get_elem? labels flat s.flat_insts s.pc call resolved at_call in
    let fi_eq : record call { branch_target = length (code pre) } ≡ fi =
      ok-injective (record call { branch_target = length (code pre) }) fi
        (sym (to_label-found labels call b.label (length (code pre)) entry)
          ∙ sym (call_resolved labels call b.label no_builtin)
          ∙ ri) in
    let first : get_elem? flat (length (code pre)) ≡ some (unresolved i) =
      ap (λ z. get_elem? z (length (code pre)))
        (flat_eq ∙ ap (λ z. code pre ++ (map unresolved z ++ code post)) begins)
      ∙ get_elem?-length (code pre) (unresolved i) (map unresolved is ++ code post) in
    let (fj, there, rj) =
      resolve_branches-get_elem? labels flat s.flat_insts (length (code pre)) (unresolved i)
        resolved first in
    (
      fi,
      fj,
      here,
      subst (λ z. step h s z ≡ ok (called s (length (code pre)))) fi_eq
          (step-call h s (record call { branch_target = length (code pre) }) b.label refl refl),
      there,
      resolve_inst-inst labels (unresolved i) fj i rj,
      rw (stack, exec_pseudo_ret) refl,
      rw (stack, exec_pseudo_ret) refl,
    )
