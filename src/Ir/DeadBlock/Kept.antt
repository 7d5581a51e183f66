-- ===== src/Ir/DeadBlock/Kept.antt =====
-- The blocks that `eliminate` (src/backend/ir/transform/optim/dead_block.hpp) leaves, and what their phis name.
use ucas_cplab.Common.{
  ℕ, suc, ◌+◌, ◌≤◌, ◌<◌, ◌≡◌, refl, ap, sym, ◌∙◌, ◌↔◌, subst, Bool, true, not, ◌&&◌, ◌||◌, some,
  List, [], ◌∷◌, ◌++◌, inl, inr, length, map, if◌then◌else◌, ◌==◌, ==_iff, nat_eq, arith,
  Bool-cases,
}
use ucas_cplab.Ir.Inst.{
  Func, Block, Inst, Value, phi_inst, unary_inst, binary_inst, call_inst, block_ids,
}
use ucas_cplab.Ir.Flow.Rules.{among, some-injective}
use ucas_cplab.Ir.Flow.Set.{count}
use ucas_cplab.Ir.Flow.Set.Member.{test_congr}
use ucas_cplab.Ir.Flow.Set.Rank.{tally, tally_lt}
use ucas_cplab.Ir.Liveness.{block_at}
use ucas_cplab.Ir.Liveness.Edge.{block_at_here, block_at_there}
use ucas_cplab.Ir.DeadBlock.{
  reach_loop, entrance, reachable_blocks, refine_phi, refine_phis, keep_blocks, eliminate,
}
use ucas_cplab.Ir.DeadBlock.Reach.{
  Reachable, first, follow, Targeted, Reaching, unseen, reach_loop-total,
}

count-keep_blocks :
    (r : List ℕ) (bs : List (ℕ × Block)) (b : ℕ)
    → count (map (λ x. x.0) (keep_blocks r bs)) b ≡ (count r b && count (map (λ x. x.0) bs) b)
unfolding keep_blocks
count-keep_blocks r [] b = ground arith
count-keep_blocks r (x ∷ bs) b =
    ground (arith, count-keep_blocks r bs b, test_congr (count r) x.0 b)

tally-length : (p : ℕ → Bool) (xs : List ℕ) → tally p xs ≤ length xs
tally-length p [] = omega arith
tally-length p (x ∷ xs) = ground (arith, tally-length p xs)

length-map : (bs : List (ℕ × Block)) → length (map (λ x. x.0) bs) ≡ length bs
length-map [] = refl
length-map (b ∷ bs) = ap suc (length-map bs)

head-injective : (b c : ℕ × Block) (bs cs : List (ℕ × Block)) → b ∷ bs ≡ c ∷ cs → b ≡ c
head-injective b c bs cs e = cc

-- The blocks that the phis at the front of a block name.
abbrev pub front_sources : List Inst → List ℕ
front_sources [] = []
front_sources (phi_inst result args ∷ is) = map (λ a. a.0) args ++ front_sources is
front_sources (unary_inst op result operand ∷ is) = []
front_sources (binary_inst op result lhs rhs ∷ is) = []
front_sources (call_inst result func args ∷ is) = []

refine_phi-sources :
    (r : List ℕ) (args : List (ℕ × Value)) (rest : List ℕ) (p : ℕ)
    → count (map (λ a. a.0) (refine_phi r args) ++ rest) p ≡ true
    → (count r p || count rest p) ≡ true
unfolding refine_phi
refine_phi-sources r [] rest p h = ground (arith, h)
refine_phi-sources r (a ∷ args) rest p h =
    ground (arith, h, refine_phi-sources r args rest p, test_congr (count r) a.0 p)

refine_phis-sources :
    (r : List ℕ) (is : List Inst) (p : ℕ)
    → count (front_sources (refine_phis r is)) p ≡ true
    → count r p ≡ true
unfolding refine_phis
refine_phis-sources r [] p h = absurd (cc)
refine_phis-sources r (phi_inst result args ∷ is) p h = ground (
  arith,
  refine_phi-sources r args (front_sources (refine_phis r is)) p h,
  refine_phis-sources r is p,
)
refine_phis-sources r (unary_inst op result operand ∷ is) p h = absurd (cc)
refine_phis-sources r (binary_inst op result lhs rhs ∷ is) p h = absurd (cc)
refine_phis-sources r (call_inst result func args ∷ is) p h = absurd (cc)

keep_blocks-sources :
    (r : List ℕ) (bs : List (ℕ × Block)) (x : ℕ) (blk : Block) (p : ℕ)
    → block_at (keep_blocks r bs) x ≡ some blk
    → count (front_sources blk.insts) p ≡ true
    → count r p ≡ true
unfolding keep_blocks block_at
keep_blocks-sources r [] x blk p e h = absurd (cc)
keep_blocks-sources r (b ∷ bs) x blk p e h = elim (Bool-cases (count r b.0)) [
  | inr n ↦
      keep_blocks-sources r bs x blk p
        (subst
          (λ c.
            block_at
              (if c
                then (b.0, record b.1 { insts = refine_phis r b.1.insts }) ∷ keep_blocks r bs
                else keep_blocks r bs)
              x
            ≡ some blk)
          n e)
        h
  | inl y ↦
      let e' =
        subst
          (λ c.
            block_at
              (if c
                then (b.0, record b.1 { insts = refine_phis r b.1.insts }) ∷ keep_blocks r bs
                else keep_blocks r bs)
              x
            ≡ some blk)
          y e in
      elim (Bool-cases (b.0 == x)) [
        | inl q ↦
            let same : refine_phis r b.1.insts ≡ blk.insts =
              ap (λ z. z.insts)
                (some-injective (record b.1 { insts = refine_phis r b.1.insts }) blk
                  (sym (
                      block_at_here (b.0, record b.1 { insts = refine_phis r b.1.insts })
                        (keep_blocks r bs) x q)
                    ∙ e')) in
            refine_phis-sources r b.1.insts p
              (subst (λ is. count (front_sources is) p ≡ true) (sym same) h)
        | inr q ↦ keep_blocks-sources r bs x blk p (sym (block_at_there _ _ x q) ∙ e') h
      ]
]

module _ (f : Func) (closed : Targeted f) (b : ℕ × Block) (bs : List (ℕ × Block))
    (e : f.blocks ≡ b ∷ bs) where
  start_in : among (block_ids f) b.0 ≡ true
  unfolding block_ids
  start_in = rw e (ground arith)

  start_Reaching : Reaching f (b.0 ∷ []) (b.0 ∷ [])
  start_Reaching = record {
    sound = λ x m. subst (Reachable f) ((==_iff b.0 x).0 (ground (arith, m))) (first e);
    work_seen = λ x m. m;
    finished = λ x y blk m n q k. absurd (ground (arith, m, n));
  }

  start_fuel : unseen (block_ids f) (b.0 ∷ []) + 1 < suc (length f.blocks)
  unfolding block_ids
  start_fuel =
      let less =
        tally_lt (λ x. not (count (b.0 ∷ []) x)) (λ x. true) (λ x m. refl) (block_ids f) b.0
          start_in (ground arith) refl in
      let most = tally-length (λ x. true) (block_ids f) in
      omega (arith, less, most, length-map f.blocks)

  entrance-start : entrance f ≡ some b.0
  unfolding entrance
  entrance-start = rw e refl

  reachable_blocks-loop :
      reachable_blocks f ≡ reach_loop (suc (length f.blocks)) f.blocks (b.0 ∷ []) (b.0 ∷ [])
  unfolding reachable_blocks
  reachable_blocks-loop = rw entrance-start refl

  complete :
      (r : List ℕ)
      → Reaching f [] r
      → count r b.0 ≡ true
      → {x : ℕ} → Reachable f x
      → count r x ≡ true
  complete r h m (first {b = c} {bs = cs} e') =
      let same : b ≡ c = head-injective b c bs cs (sym e ∙ e') in
      subst (λ y. count r y.0 ≡ true) same m
  complete r h m (follow {a = a} {b = x} {blk = blk} p q k) =
      h.finished a x blk (complete r h m p) refl q k

  pub reachable_blocks-exact :
      (r : List ℕ) × (reachable_blocks f ≡ some r) × ((x : ℕ) → (count r x ≡ true) ↔ Reachable f x)
  reachable_blocks-exact =
      let (r, q, h, keep) =
        reach_loop-total f closed (suc (length f.blocks)) (b.0 ∷ []) (b.0 ∷ []) start_Reaching
          (λ x m.
            subst (λ z. among (block_ids f) z ≡ true) ((==_iff b.0 x).0 (ground (arith, m)))
              start_in)
          start_fuel in
      (r, reachable_blocks-loop ∙ q, λ x. (h.sound x, complete r h (keep b.0 (ground arith))))

eliminate-of :
    (f : Func) (r : List ℕ)
    → reachable_blocks f ≡ some r
    → eliminate f
      ≡ some (not (length r == length f.blocks), record { blocks = keep_blocks r f.blocks })
unfolding eliminate
eliminate-of f r q = rw q refl

Reachable-among : (f : Func) → Targeted f → {x : ℕ} → Reachable f x → among (block_ids f) x ≡ true
unfolding block_ids
Reachable-among f closed (first {b} {bs} e) = rw e (ground arith)
Reachable-among f closed (follow {a = a} {b = x} {blk = blk} p q k) = closed a x blk q k

-- In a function with blocks, whose exits lead to its blocks, `eliminate` ends and leaves exactly the blocks
-- that the exits lead to from the first one; and the phis at the front of a block that is left name only
-- blocks that are left.
pub eliminate-Reachable :
    (f : Func) (b : ℕ × Block) (bs : List (ℕ × Block))
    → f.blocks ≡ b ∷ bs
    → Targeted f
    → (changed : Bool) × (left : Func) × (eliminate f ≡ some (changed, left))
      × ((x : ℕ) → (among (block_ids left) x ≡ true) ↔ Reachable f x)
      × ((x : ℕ) (blk : Block) (p : ℕ)
          → block_at left.blocks x ≡ some blk
          → count (front_sources blk.insts) p ≡ true
          → among (block_ids left) p ≡ true)
unfolding block_ids
eliminate-Reachable f b bs e closed =
    let (r, q, h) = reachable_blocks-exact f closed b bs e in
    (
      _,
      _,
      eliminate-of f r q,
      λ x. (
        λ m. (h x).0 (ground (arith, m, count-keep_blocks r f.blocks x)),
        λ p. ground (arith, (h x).1 p, Reachable-among f closed p, count-keep_blocks r f.blocks x),
      ),
      λ x blk p at m.
          let k = keep_blocks-sources r f.blocks x blk p at m in
          ground (arith, k, Reachable-among f closed ((h p).0 k), count-keep_blocks r f.blocks p),
    )
