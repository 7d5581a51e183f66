-- ===== src/Ir/Liveness/Edge.antt =====
-- What the phis of a block read on the edges into it (src/backend/ir/analysis/dataflow/liveness.hpp), and that
-- all of it is used in the function.
use ucas_cplab.Common.{
  ℕ, ◌≡◌, refl, subst, map, sym, ◌∙◌, Bool, true, false, not, ◌&&◌, ◌||◌, Option, none, some, List,
  [], ◌∷◌, ◌++◌, if◌then◌else◌, ◌==◌, any, inl, inr, arith, Bool-cases,
}
use ucas_cplab.Ir.Inst.{
  LeftValue, Value, Inst, phi_inst, unary_inst, binary_inst, call_inst, Block, Func, left_eq,
}
use ucas_cplab.Ir.Vars.{
  as_var, used_vars, exit_used_var, phi_vars, push_some, insts_used_vars, block_used_vars,
  blocks_used_vars, func_used_vars,
}
use ucas_cplab.Ir.Flow.Set.{count, empty, contains, insert}
use ucas_cplab.Ir.Flow.Set.Member.{contains-insert}
use ucas_cplab.Ir.Flow.Rules.{among, some-injective}
use ucas_cplab.Ir.Liveness.{Vars, block_at, insert_use, phi_arg_uses, phi_uses}
use ucas_cplab.Ir.Liveness.Local.{is_var, uses_first}

-- The phis of the block read `x` when control comes from `pred`.
abbrev pub args_read : ℕ → List (ℕ × Value) → LeftValue → Bool
args_read pred args x = any (λ a. a.0 == pred && is_var (as_var a.1) x) args

unfoldable pub phi_reads : ℕ → List Inst → LeftValue → Bool
phi_reads pred [] x = false
phi_reads pred (phi_inst result args ∷ is) x = args_read pred args x || phi_reads pred is x
phi_reads pred (unary_inst op result operand ∷ is) x = phi_reads pred is x
phi_reads pred (binary_inst op result lhs rhs ∷ is) x = phi_reads pred is x
phi_reads pred (call_inst result func args ∷ is) x = phi_reads pred is x

-- What an optional set has.
abbrev pub has : Option Vars → LeftValue → Bool
has none x = false
has (some a) x = contains a x

has-insert_use :
    (o : Option Vars) (v : Option LeftValue) (x : LeftValue)
    → has (insert_use o v) x ≡ (has o x || is_var v x)
unfolding contains
has-insert_use o none x = ground arith
has-insert_use none (some v) x = ground (arith, contains-insert empty v x)
has-insert_use (some a) (some v) x = ground (arith, contains-insert a v x)

has-phi_arg_uses :
    (pred : ℕ) (o : Option Vars) (args : List (ℕ × Value)) (x : LeftValue)
    → has (phi_arg_uses pred o args) x ≡ (has o x || args_read pred args x)
has-phi_arg_uses pred o [] x = ground arith
has-phi_arg_uses pred o (a ∷ args) x = ground (
  arith,
  has-phi_arg_uses pred (if a.0 == pred then insert_use o (as_var a.1) else o) args x,
  has-insert_use o (as_var a.1) x,
)

pub has-phi_uses :
    (pred : ℕ) (o : Option Vars) (is : List Inst) (x : LeftValue)
    → has (phi_uses pred o is) x ≡ (has o x || phi_reads pred is x)
unfolding phi_uses phi_reads
has-phi_uses pred o [] x = ground arith
has-phi_uses pred o (phi_inst result args ∷ is) x =
    ground
      (arith, has-phi_uses pred (phi_arg_uses pred o args) is x, has-phi_arg_uses pred o args x)
has-phi_uses pred o (unary_inst op result operand ∷ is) x = has-phi_uses pred o is x
has-phi_uses pred o (binary_inst op result lhs rhs ∷ is) x = has-phi_uses pred o is x
has-phi_uses pred o (call_inst result func args ∷ is) x = has-phi_uses pred o is x

-- They are finite sets.
abbrev pub no_universe : Option Vars → Bool
no_universe none = true
no_universe (some a) = not a.is_universe

insert_use_finite :
    (o : Option Vars) (v : Option LeftValue)
    → no_universe o ≡ true
    → no_universe (insert_use o v) ≡ true
unfolding insert
insert_use_finite o none h = h
insert_use_finite none (some v) h = refl
insert_use_finite (some a) (some v) h = ground arith

phi_arg_uses_finite :
    (pred : ℕ) (o : Option Vars) (args : List (ℕ × Value))
    → no_universe o ≡ true
    → no_universe (phi_arg_uses pred o args) ≡ true
phi_arg_uses_finite pred o [] h = h
phi_arg_uses_finite pred o (a ∷ args) h =
    phi_arg_uses_finite pred (if a.0 == pred then insert_use o (as_var a.1) else o) args
      (ground (arith, h, insert_use_finite o (as_var a.1) h))

pub phi_uses_finite :
    (pred : ℕ) (o : Option Vars) (is : List Inst)
    → no_universe o ≡ true
    → no_universe (phi_uses pred o is) ≡ true
unfolding phi_uses
phi_uses_finite pred o [] h = h
phi_uses_finite pred o (phi_inst result args ∷ is) h =
    phi_uses_finite pred (phi_arg_uses pred o args) is (phi_arg_uses_finite pred o args h)
phi_uses_finite pred o (unary_inst op result operand ∷ is) h = phi_uses_finite pred o is h
phi_uses_finite pred o (binary_inst op result lhs rhs ∷ is) h = phi_uses_finite pred o is h
phi_uses_finite pred o (call_inst result func args ∷ is) h = phi_uses_finite pred o is h

-- Every use is listed among those of the function.
count-append :
    (xs ys : List LeftValue) (x : LeftValue) → count (xs ++ ys) x ≡ (count xs x || count ys x)
count-append [] ys x = refl
count-append (y ∷ xs) ys x = ground (arith, count-append xs ys x)

count-push_some :
    (o : Option LeftValue) (xs : List LeftValue) (x : LeftValue)
    → count (push_some o xs) x ≡ (is_var o x || count xs x)
count-push_some none xs x = refl
count-push_some (some v) xs x = refl

args_read-used :
    (pred : ℕ) (args : List (ℕ × Value)) (x : LeftValue)
    → args_read pred args x ≡ true
    → count (phi_vars args) x ≡ true
unfolding as_var
args_read-used pred [] x h = absurd (cc)
args_read-used pred (a ∷ args) x h =
    ground (arith, h, args_read-used pred args x, count-push_some (as_var a.1) (phi_vars args) x)

phi_reads-used :
    (pred : ℕ) (is : List Inst) (x : LeftValue)
    → phi_reads pred is x ≡ true
    → count (insts_used_vars is) x ≡ true
unfolding phi_reads used_vars
phi_reads-used pred [] x h = absurd (cc)
phi_reads-used pred (phi_inst result args ∷ is) x h = ground (
  arith,
  h,
  args_read-used pred args x,
  phi_reads-used pred is x,
  count-append (phi_vars args) (insts_used_vars is) x,
)
phi_reads-used pred (unary_inst op result operand ∷ is) x h = ground (
  arith,
  phi_reads-used pred is x h,
  count-append (used_vars (unary_inst op result operand)) (insts_used_vars is) x,
)
phi_reads-used pred (binary_inst op result lhs rhs ∷ is) x h = ground (
  arith,
  phi_reads-used pred is x h,
  count-append (used_vars (binary_inst op result lhs rhs)) (insts_used_vars is) x,
)
phi_reads-used pred (call_inst result func args ∷ is) x h = ground (
  arith,
  phi_reads-used pred is x h,
  count-append (used_vars (call_inst result func args)) (insts_used_vars is) x,
)

uses_first-used :
    (is : List Inst) (at_exit : Bool) (x : LeftValue)
    → uses_first is at_exit x ≡ true
    → (count (insts_used_vars is) x || at_exit) ≡ true
unfolding used_vars
uses_first-used [] at_exit x h = h
uses_first-used (i ∷ is) at_exit x h =
    ground
      (arith, h, uses_first-used is at_exit x, count-append (used_vars i) (insts_used_vars is) x)

block_used :
    (b : Block) (x : LeftValue)
    → (count (insts_used_vars b.insts) x || is_var (exit_used_var b.exit) x) ≡ true
    → count (block_used_vars b) x ≡ true
unfolding block_used_vars
block_used b x h = ground (
  arith,
  h,
  count-append (insts_used_vars b.insts) (push_some (exit_used_var b.exit) []) x,
  count-push_some (exit_used_var b.exit) [] x,
)

pub block_at_here :
    (y : ℕ × Block) (bs : List (ℕ × Block)) (b : ℕ)
    → (y.0 == b) ≡ true
    → block_at (y ∷ bs) b ≡ some y.1
unfolding block_at
block_at_here y bs b q = rw q refl

pub block_at_there :
    (y : ℕ × Block) (bs : List (ℕ × Block)) (b : ℕ)
    → (y.0 == b) ≡ false
    → block_at (y ∷ bs) b ≡ block_at bs b
unfolding block_at
block_at_there y bs b q = rw q refl

pub block_at-some :
    (bs : List (ℕ × Block)) (b : ℕ)
    → among (map (λ x. x.0) bs) b ≡ true
    → (blk : Block) × (block_at bs b ≡ some blk)
block_at-some [] b m = absurd (cc)
block_at-some (y ∷ bs) b m = elim (Bool-cases (y.0 == b)) [
  | inl q ↦ (y.1, block_at_here y bs b q)
  | inr q ↦ let (blk, e) = block_at-some bs b (ground arith) in (blk, block_at_there y bs b q ∙ e)
]

blocks_used :
    (bs : List (ℕ × Block)) (b : ℕ) (blk : Block) (x : LeftValue)
    → block_at bs b ≡ some blk
    → count (block_used_vars blk) x ≡ true
    → count (blocks_used_vars bs) x ≡ true
unfolding block_at block_used_vars
blocks_used [] b blk x e h = absurd (cc)
blocks_used (y ∷ bs) b blk x e h =
    let app = count-append (block_used_vars y.1) (blocks_used_vars bs) x in
    elim (Bool-cases (y.0 == b)) [
      | inl q ↦
          let same = some-injective y.1 blk (sym (block_at_here y bs b q) ∙ e) in
          let listed = subst (λ z. count (block_used_vars z) x ≡ true) (sym same) h in
          ground (arith, app, listed)
      | inr q ↦
          let rest = blocks_used bs b blk x (sym (block_at_there y bs b q) ∙ e) h in
          ground (arith, app, rest)
    ]

module _ (f : Func) (b : ℕ) (blk : Block) (e : block_at f.blocks b ≡ some blk) where
  pub uses_first-listed :
      (x : LeftValue)
      → uses_first blk.insts (is_var (exit_used_var blk.exit) x) x ≡ true
      → count (func_used_vars f) x ≡ true
  unfolding func_used_vars
  uses_first-listed x h =
      blocks_used f.blocks b blk x e
        (block_used blk x (uses_first-used blk.insts (is_var (exit_used_var blk.exit) x) x h))

  pub phi_reads-listed :
      (pred : ℕ) (x : LeftValue)
      → phi_reads pred blk.insts x ≡ true
      → count (func_used_vars f) x ≡ true
  unfolding func_used_vars
  phi_reads-listed pred x h =
      blocks_used f.blocks b blk x e
        (block_used blk x (ground (arith, phi_reads-used pred blk.insts x h)))
