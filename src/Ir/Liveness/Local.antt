-- ===== src/Ir/Liveness/Local.antt =====
-- What `Liveness::init` (src/backend/ir/analysis/dataflow/liveness.hpp) finds in a block.
use ucas_cplab.Common.{
  ◌≡◌, refl, ap, Bool, false, not, ◌&&◌, ◌||◌, Option, none, some, List, [], ◌∷◌, if◌then◌else◌,
  any, inl, inr, arith, Option-cases,
}
use ucas_cplab.Ir.Inst.{LeftValue, Inst, Block, left_eq, eq_left}
use ucas_cplab.Ir.Vars.{defined_var, used_vars, exit_used_var}
use ucas_cplab.Ir.Flow.Set.{count, empty, contains, insert}
use ucas_cplab.Ir.Flow.Set.Member.{contains-insert, test_congr}
use ucas_cplab.Ir.Liveness.{Vars, gen_var, gen_vars, kill_def, is_phi, scan_insts, gen_kill}

abbrev pub is_var : Option LeftValue → LeftValue → Bool
is_var none x = false
is_var (some v) x = eq_left v x

abbrev pub uses : Inst → LeftValue → Bool
uses i x = not (is_phi i) && count (used_vars i) x

-- Some instruction of the block assigns `x`.
abbrev pub defines : List Inst → LeftValue → Bool
defines is x = any (λ i. is_var (defined_var i) x) is

-- The block reads `x`, other than on the way in, before it assigns `x`.
abbrev pub uses_first : List Inst → Bool → LeftValue → Bool
uses_first [] at_exit x = at_exit
uses_first (i ∷ is) at_exit x =
    uses i x || (not (is_var (defined_var i) x) && uses_first is at_exit x)

contains-gen_var :
    (kill gen : Vars) (u x : LeftValue)
    → contains (gen_var kill gen u) x ≡ (contains gen x || (not (contains kill x) && eq_left u x))
contains-gen_var kill gen u x =
    ground (arith, contains-insert gen u x, test_congr (contains kill) u x)

contains-gen_vars :
    (kill gen : Vars) (us : List LeftValue) (x : LeftValue)
    → contains (gen_vars kill gen us) x ≡ (contains gen x || (not (contains kill x) && count us x))
contains-gen_vars kill gen [] x = ground arith
contains-gen_vars kill gen (u ∷ us) x =
    ground (arith, contains-gen_vars kill (gen_var kill gen u) us x, contains-gen_var kill gen u x)

contains-kill_def :
    (kill : Vars) (d : Option LeftValue) (x : LeftValue)
    → contains (kill_def kill d) x ≡ (contains kill x || is_var d x)
contains-kill_def kill none x = ground arith
contains-kill_def kill (some d) x = ground (arith, contains-insert kill d x)

scan_insts-kill :
    (gen kill : Vars) (is : List Inst) (x : LeftValue)
    → contains (scan_insts gen kill is).1 x ≡ (contains kill x || defines is x)
unfolding scan_insts
scan_insts-kill gen kill [] x = ground arith
scan_insts-kill gen kill (i ∷ is) x = ground (
  arith,
  scan_insts-kill (if is_phi i then gen else gen_vars kill gen (used_vars i))
      (kill_def kill (defined_var i)) is x,
  contains-kill_def kill (defined_var i) x,
)

scan_insts-gen :
    (gen kill : Vars) (is : List Inst) (at_exit : Bool) (x : LeftValue)
    → (contains (scan_insts gen kill is).0 x
        || (not (contains (scan_insts gen kill is).1 x) && at_exit))
      ≡ (contains gen x || (not (contains kill x) && uses_first is at_exit x))
unfolding scan_insts
scan_insts-gen gen kill [] at_exit x = refl
scan_insts-gen gen kill (i ∷ is) at_exit x = ground (
  arith,
  scan_insts-gen (if is_phi i then gen else gen_vars kill gen (used_vars i))
      (kill_def kill (defined_var i)) is at_exit x,
  contains-kill_def kill (defined_var i) x,
  contains-gen_vars kill gen (used_vars i) x,
)

not_in_empty : (x : LeftValue) → contains empty x ≡ false
unfolding contains
not_in_empty x = refl

-- `gen` has the variables that the block reads before it assigns them, and `kill` those that it assigns.
pub gen_kill-local :
    (b : Block) (x : LeftValue)
    → (contains (gen_kill b).0 x ≡ uses_first b.insts (is_var (exit_used_var b.exit) x) x)
      × (contains (gen_kill b).1 x ≡ defines b.insts x)
unfolding gen_kill
gen_kill-local b x =
    let at_exit = is_var (exit_used_var b.exit) x in
    let g = scan_insts-gen empty empty b.insts at_exit x in
    let k = scan_insts-kill empty empty b.insts x in
    elim (Option-cases (exit_used_var b.exit)) [
      | inl e ↦ (
        rw (e, gen_kill) (ground (arith, g, e, not_in_empty x)),
        rw (e, gen_kill) (ground (arith, k, not_in_empty x)),
      )
      | inr (u, e) ↦
          let v =
            contains-gen_var (scan_insts empty empty b.insts).1 (scan_insts empty empty b.insts).0 u
              x in
          let a = ap (λ o. is_var o x) e in
          (
            rw (e, gen_kill) (ground (arith, g, v, a, not_in_empty x)),
            rw (e, gen_kill) (ground (arith, k, not_in_empty x)),
          )
    ]

-- Both are finite.
gen_vars_finite :
    (kill gen : Vars) (us : List LeftValue)
    → gen.is_universe ≡ false
    → (gen_vars kill gen us).is_universe ≡ false
unfolding insert
gen_vars_finite kill gen [] h = h
gen_vars_finite kill gen (u ∷ us) h = gen_vars_finite kill (gen_var kill gen u) us (ground arith)

kill_def_finite :
    (kill : Vars) (d : Option LeftValue)
    → kill.is_universe ≡ false
    → (kill_def kill d).is_universe ≡ false
unfolding insert
kill_def_finite kill none h = h
kill_def_finite kill (some d) h = ground arith

scan_insts_finite :
    (gen kill : Vars) (is : List Inst)
    → gen.is_universe ≡ false
    → kill.is_universe ≡ false
    → ((scan_insts gen kill is).0.is_universe ≡ false)
      × ((scan_insts gen kill is).1.is_universe ≡ false)
unfolding scan_insts
scan_insts_finite gen kill [] g k = (g, k)
scan_insts_finite gen kill (i ∷ is) g k =
    scan_insts_finite (if is_phi i then gen else gen_vars kill gen (used_vars i))
      (kill_def kill (defined_var i)) is (ground (arith, gen_vars_finite kill gen (used_vars i) g))
      (kill_def_finite kill (defined_var i) k)

pub gen_kill_finite :
    (b : Block) → ((gen_kill b).0.is_universe ≡ false) × ((gen_kill b).1.is_universe ≡ false)
unfolding gen_kill insert
gen_kill_finite b =
    let (g, k) = scan_insts_finite empty empty b.insts refl refl in
    elim (Option-cases (exit_used_var b.exit)) [
      | inl e ↦ rw (e, gen_kill) (g, k)
      | inr (u, e) ↦ rw (e, gen_kill) (ground (arith, g), k)
    ]
