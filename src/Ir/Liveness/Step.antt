-- ===== src/Ir/Liveness/Step.antt =====
-- The operations of `Liveness` (src/backend/ir/analysis/dataflow/liveness.hpp) on finite sets of variables of
-- the function, by what is a member.
use ucas_cplab.Common.{
  ℕ, ◌≡◌, ◌⊎◌, refl, sym, ◌∙◌, subst, ap, Bool, true, false, not, ◌&&◌, ◌||◌, Option, none, some,
  ◌>>=◌, inl, inr, arith, Option-cases,
}
use ucas_cplab.Ir.Inst.{LeftValue, Block, Func, left_eq}
use ucas_cplab.Ir.Vars.{exit_used_var, func_used_vars}
use ucas_cplab.Ir.Flow.Set.{count, empty, contains, union_set, difference, finite, keep}
use ucas_cplab.Ir.Flow.Set.Member.{contains-union, contains-difference}
use ucas_cplab.Ir.Liveness.{Vars, block_at, phi_uses, gen_kill, transfer, edge_transfer, meet}
use ucas_cplab.Ir.Liveness.Local.{is_var, uses_first, defines, gen_kill-local, gen_kill_finite}
use ucas_cplab.Ir.Liveness.Edge.{
  has, phi_reads, has-phi_uses, no_universe, phi_uses_finite, uses_first-listed, phi_reads-listed,
}

module _ (f : Func) where
  -- A finite set of variables that the function uses.
  pub record Known (o : Option Vars) : Type 0 where
    pub vars : Vars
    pub is_some : o ≡ some vars
    pub finite_vars : vars.is_universe ≡ false
    pub listed : (x : LeftValue) → contains vars x ≡ true → count (func_used_vars f) x ≡ true

  pub empty-Known : Known (some empty)
  unfolding contains
  empty-Known = record {
    vars = empty;
    is_some = refl;
    finite_vars = refl;
    listed = λ x h. absurd (cc);
  }

  pub has-Known : {o : Option Vars} (k : Known o) (x : LeftValue) → has o x ≡ contains k.vars x
  has-Known k x = ap (λ o. has o x) k.is_some

  union_finite :
      (a b : Vars)
      → a.is_universe ≡ false
      → b.is_universe ≡ false
      → (union_set a b).is_universe ≡ false
  unfolding union_set
  union_finite a b h k = ground arith

  union-Known :
      {o : Option Vars} (a b : Vars)
      → a.is_universe ≡ false
      → b.is_universe ≡ false
      → ((x : LeftValue) → contains a x ≡ true → count (func_used_vars f) x ≡ true)
      → ((x : LeftValue) → contains b x ≡ true → count (func_used_vars f) x ≡ true)
      → o ≡ some (union_set a b)
      → Known o
  union-Known a b h k la lb e = record {
    vars = union_set a b;
    is_some = e;
    finite_vars = union_finite a b h k;
    listed = λ x m. ground (arith, m, contains-union a b x, la x, lb x);
  }

  pub meet-Known : (a b : Option Vars) → Known a → Known b → Known (meet a b)
  meet-Known a b k l =
      union-Known k.vars l.vars k.finite_vars l.finite_vars k.listed l.listed
        (rw (k.is_some, l.is_some) refl)

  pub has-meet :
      (a b : Option Vars)
      → Known a
      → Known b
      → (x : LeftValue) → has (meet a b) x ≡ (has a x || has b x)
  has-meet a b k l x = rw (k.is_some, l.is_some) (contains-union k.vars l.vars x)

  difference_finite :
      (a b : Vars)
      → a.is_universe ≡ false
      → b.is_universe ≡ false
      → (d : Vars) × (difference a b ≡ some d) × (d.is_universe ≡ false)
  unfolding difference
  difference_finite a b h k =
      (finite (keep (λ x. not (count b.elems x)) a.elems), rw (h, k) refl, refl)

  -- What is live at the start of a block, from what is live at its end.
  abbrev pub block_live : Block → (LeftValue → Bool) → LeftValue → Bool
  block_live blk out x =
      uses_first blk.insts (is_var (exit_used_var blk.exit) x) x
      || (not (defines blk.insts x) && out x)

  module _ (b : ℕ) (blk : Block) (e : block_at f.blocks b ≡ some blk) where
    transfer-union :
        (a d : Vars)
        → difference a (gen_kill blk).1 ≡ some d
        → transfer f b a ≡ some (union_set d (gen_kill blk).0)
    unfolding transfer
    transfer-union a d h = rw (e, h) refl

    pub transfer-Known : (o : Option Vars) (k : Known o) → Known (o >>= transfer f b)
    transfer-Known o k =
        let (gf, kf) = gen_kill_finite blk in
        let (d, de, df) = difference_finite k.vars (gen_kill blk).1 k.finite_vars kf in
        union-Known d (gen_kill blk).0 df gf
          (λ x m.
            k.listed x (ground (arith, m, contains-difference k.vars (gen_kill blk).1 d x de)))
          (λ x m. uses_first-listed f b blk e x (sym (gen_kill-local blk x).0 ∙ m))
          (ap (λ p. p >>= transfer f b) k.is_some ∙ transfer-union k.vars d de)

    pub has-transfer :
        (o : Option Vars)
        → Known o
        → (x : LeftValue) → has (o >>= transfer f b) x ≡ block_live blk (has o) x
    has-transfer o k x =
        let (gf, kf) = gen_kill_finite blk in
        let (d, de, df) = difference_finite k.vars (gen_kill blk).1 k.finite_vars kf in
        let t = ap (λ p. p >>= transfer f b) k.is_some ∙ transfer-union k.vars d de in
        let h = ap (λ p. has p x) t in
        ground (
          arith,
          h,
          contains-union d (gen_kill blk).0 x,
          contains-difference k.vars (gen_kill blk).1 d x de,
          gen_kill-local blk x,
          has-Known k x,
        )

  -- What the phis of a block read on the edge from `src`.
  unfoldable pub edge_reads : ℕ → ℕ → LeftValue → Bool
  edge_reads src dst x = elim (block_at f.blocks dst) [
    | none ↦ false
    | some blk ↦ phi_reads src blk.insts x
  ]

  -- The set that an edge adds.
  record EdgeSet (src dst : ℕ) : Type 0 where
    added : Vars
    finite_added : added.is_universe ≡ false
    members : (x : LeftValue) → contains added x ≡ edge_reads src dst x
    listed_added : (x : LeftValue) → contains added x ≡ true → count (func_used_vars f) x ≡ true

  edge-EdgeSet :
      (src dst : ℕ)
      → ((x : LeftValue) → edge_reads src dst x ≡ false)
          × ((a : Vars) → edge_transfer f src dst a ≡ a)
        ⊎ ((s : EdgeSet src dst) × ((a : Vars) → edge_transfer f src dst a ≡ union_set a s.added))
  unfolding edge_transfer edge_reads
  edge-EdgeSet src dst = elim (Option-cases (block_at f.blocks dst)) [
    | inl e ↦ inl (λ x. rw (e, edge_reads) refl, λ a. rw (e, edge_transfer) refl)
    | inr (blk, e) ↦ elim (Option-cases (phi_uses src none blk.insts)) [
      | inl n ↦ inl (
        λ x. rw (e, edge_reads) (ground (arith, has-phi_uses src none blk.insts x, n)),
        λ a. rw (e, edge_transfer, n) refl,
      )
      | inr (u, n) ↦
          let fin = phi_uses_finite src none blk.insts refl in
          let mem : (x : LeftValue) → contains u x ≡ phi_reads src blk.insts x =
            λ x. sym (ap (λ o. has o x) n) ∙ has-phi_uses src none blk.insts x in
          inr (
            record {
              added = u;
              finite_added = ground (arith, ap no_universe n, fin);
              members = λ x. rw (e, edge_reads) (mem x);
              listed_added = λ x m. phi_reads-listed f dst blk e src x (sym (mem x) ∙ m);
            },
            λ a. rw (e, edge_transfer, n) refl,
          )
    ]
  ]

  pub edge-Known :
      (src dst : ℕ) (o : Option Vars)
      → Known o
      → Known (o >>= (λ x. some (edge_transfer f src dst x)))
  edge-Known src dst o k =
      let through = ap (λ p. p >>= (λ y. some (edge_transfer f src dst y))) k.is_some in
      elim (edge-EdgeSet src dst) [
        | inl h ↦ subst Known (sym (through ∙ ap some (h.1 k.vars) ∙ sym k.is_some)) k
        | inr h ↦
            union-Known k.vars h.0.added k.finite_vars h.0.finite_added k.listed h.0.listed_added
              (through ∙ ap some (h.1 k.vars))
      ]

  pub has-edge :
      (src dst : ℕ) (o : Option Vars)
      → Known o
      → (x : LeftValue)
      → has (o >>= (λ y. some (edge_transfer f src dst y))) x ≡ (has o x || edge_reads src dst x)
  has-edge src dst o k x =
      let through = ap (λ p. has (p >>= (λ y. some (edge_transfer f src dst y))) x) k.is_some in
      elim (edge-EdgeSet src dst) [
        | inl h ↦ ground (arith, through, ap (λ a. contains a x) (h.1 k.vars), h.0 x, has-Known k x)
        | inr h ↦ ground (
          arith,
          through,
          ap (λ a. contains a x) (h.1 k.vars),
          contains-union k.vars h.0.added x,
          h.0.members x,
          has-Known k x,
        )
      ]
