-- ===== src/Ir/DeadBlock/Reach.antt =====
-- The worklist of `DeadBlockElimination` (src/backend/ir/transform/optim/dead_block.hpp) finds what a path from the
-- entrance leads to.
use ucas_cplab.Common.{
  ℕ, zero, suc, ◌+◌, ◌≤◌, ◌<◌, ◌≡◌, refl, sym, ◌∙◌, subst, true, false, not, ◌&&◌, ◌||◌, some, List,
  [], ◌∷◌, inl, inr, length, ◌==◌, ==_iff, nat_eq, arith, Bool-cases,
}
use ucas_cplab.Ir.Inst.{Func, Block, block_ids}
use ucas_cplab.Ir.Vars.{targets}
use ucas_cplab.Ir.Flow.Rules.{among, some-injective}
use ucas_cplab.Ir.Flow.Set.{count}
use ucas_cplab.Ir.Flow.Set.Member.{test_congr}
use ucas_cplab.Ir.Flow.Set.Rank.{tally, tally_lt}
use ucas_cplab.Ir.Liveness.{block_at}
use ucas_cplab.Ir.Liveness.Edge.{block_at-some}
use ucas_cplab.Ir.DeadBlock.{push_targets, reach_loop}

-- The exits lead from the first block to the block.
pub data Reachable (f : Func) : ℕ → Type 0 where
  first : {b : ℕ × Block} {bs : List (ℕ × Block)} → f.blocks ≡ b ∷ bs → Reachable f b.0
  follow :
      {a b : ℕ} {blk : Block}
      → Reachable f a
      → block_at f.blocks a ≡ some blk
      → count (targets blk.exit) b ≡ true
      → Reachable f b

-- A target of an exit is a block of the function.
abbrev pub Targeted : Func → Type 0
Targeted f =
    (a b : ℕ) (blk : Block)
    → block_at f.blocks a ≡ some blk
    → count (targets blk.exit) b ≡ true
    → among (block_ids f) b ≡ true

-- The blocks that are not yet in `reachable`.
abbrev pub unseen : List ℕ → List ℕ → ℕ
unseen ids reachable = tally (λ b. not (count reachable b)) ids

push_targets-seen :
    (ts w r : List ℕ) (b : ℕ) → count (push_targets ts w r).1 b ≡ (count r b || count ts b)
push_targets-seen [] w r b = ground arith
push_targets-seen (t ∷ ts) w r b = ground (
  arith,
  push_targets-seen ts w r b,
  push_targets-seen ts (t ∷ w) (t ∷ r) b,
  test_congr (count r) t b,
)

-- What is new in `reachable` is in the worklist, and nothing leaves it.
push_targets-listed :
    (ts w r : List ℕ) (b : ℕ)
    → (count w b || (count (push_targets ts w r).1 b && not (count r b))) ≡ true
    → count (push_targets ts w r).0 b ≡ true
push_targets-listed [] w r b h = ground (arith, h)
push_targets-listed (t ∷ ts) w r b h =
    ground (arith, h, push_targets-listed ts w r b, push_targets-listed ts (t ∷ w) (t ∷ r) b)

-- The worklist has only what was in it and targets.
push_targets-work :
    (ts w r : List ℕ) (b : ℕ)
    → count (push_targets ts w r).0 b ≡ true
    → (count w b || count ts b) ≡ true
push_targets-work [] w r b h = ground (arith, h)
push_targets-work (t ∷ ts) w r b h =
    ground (arith, h, push_targets-work ts w r b, push_targets-work ts (t ∷ w) (t ∷ r) b)

-- A block goes to the worklist at the cost of one that was not seen.
push_targets-unseen :
    (ids ts w r : List ℕ)
    → ((t : ℕ) → count ts t ≡ true → count ids t ≡ true)
    → unseen ids (push_targets ts w r).1 + length (push_targets ts w r).0 ≤ unseen ids r + length w
push_targets-unseen ids [] w r h = omega arith
push_targets-unseen ids (t ∷ ts) w r h = elim (Bool-cases (count r t)) [
  | inl y ↦ rw y (push_targets-unseen ids ts w r (λ u m. h u (ground arith)))
  | inr n ↦
      let rest = push_targets-unseen ids ts (t ∷ w) (t ∷ r) (λ u m. h u (ground arith)) in
      let less : unseen ids (t ∷ r) < unseen ids r =
        tally_lt (λ b. not (count (t ∷ r) b)) (λ b. not (count r b)) (λ b m. ground (arith, m)) ids
          t (h t (ground arith)) (ground arith) (ground (arith, n)) in
      rw n (omega (arith, rest, less))
]

module _ (f : Func) where
  -- The invariant of the loop.
  pub record Reaching (w r : List ℕ) : Type 0 where
    pub sound : (b : ℕ) → count r b ≡ true → Reachable f b
    pub work_seen : (b : ℕ) → count w b ≡ true → count r b ≡ true
    pub finished :
        (a b : ℕ) (blk : Block)
        → count r a ≡ true
        → count w a ≡ false
        → block_at f.blocks a ≡ some blk
        → count (targets blk.exit) b ≡ true
        → count r b ≡ true

  Reaching-step :
      (curr : ℕ) (w r : List ℕ) (blk : Block)
      → block_at f.blocks curr ≡ some blk
      → Reaching (curr ∷ w) r
      → Reaching (push_targets (targets blk.exit) w r).0 (push_targets (targets blk.exit) w r).1
  Reaching-step curr w r blk e h =
      let ts = targets blk.exit in
      let here = h.work_seen curr (ground arith) in
      record {
        sound = λ b m. elim (Bool-cases (count r b)) [
          | inl y ↦ h.sound b y
          | inr n ↦ follow (h.sound curr here) e (ground (arith, m, push_targets-seen ts w r b))
        ];
        work_seen = λ b m.
            ground (arith, push_targets-seen ts w r b, push_targets-work ts w r b m, h.work_seen b);
        finished = λ a b blk' m n e' k. elim (Bool-cases (curr == a)) [
          | inl q ↦
              let same =
                subst (λ c. block_at f.blocks c ≡ some blk') (sym ((==_iff curr a).0 q)) e' in
              let k' =
                subst (λ z. count (targets z.exit) b ≡ true)
                  (some-injective blk' blk (sym same ∙ e)) k in
              ground (arith, push_targets-seen ts w r b, k')
          | inr q ↦
              let listed = push_targets-listed ts w r a in
              let before =
                h.finished a b blk' (ground (arith, m, n, listed)) (ground (arith, n, q, listed)) e'
                  k in
              ground (arith, push_targets-seen ts w r b, before)
        ];
      }

  reach_loop-step :
      (n curr : ℕ) (w r : List ℕ) (blk : Block)
      → block_at f.blocks curr ≡ some blk
      → reach_loop (suc n) f.blocks (curr ∷ w) r
        ≡ reach_loop n f.blocks
            (push_targets (targets blk.exit) w r).0
            (push_targets (targets blk.exit) w r).1
  unfolding reach_loop
  reach_loop-step n curr w r blk e = rw (e, reach_loop) refl

  -- Fuel for what is in the worklist and what was not seen is enough.
  pub reach_loop-total :
      Targeted f
      → (n : ℕ) (w r : List ℕ) → Reaching w r
      → ((b : ℕ) → count r b ≡ true → among (block_ids f) b ≡ true)
      → unseen (block_ids f) r + length w < n
      → (r' : List ℕ) × (reach_loop n f.blocks w r ≡ some r')
        × Reaching [] r'
        × ((b : ℕ) → count r b ≡ true → count r' b ≡ true)
  unfolding reach_loop block_ids
  reach_loop-total closed zero w r h sub lt = absurd (omega arith)
  reach_loop-total closed (suc n) [] r h sub lt = (r, refl, h, λ b m. m)
  reach_loop-total closed (suc n) (curr ∷ w) r h sub lt =
      let (blk, e) = block_at-some f.blocks curr (sub curr (h.work_seen curr (ground arith))) in
      let ts = targets blk.exit in
      let less = push_targets-unseen (block_ids f) ts w r (λ t m. closed curr t blk e m) in
      let (r', q, g, keep) =
        reach_loop-total closed n (push_targets ts w r).0 (push_targets ts w r).1
          (Reaching-step curr w r blk e h)
          (λ b m. elim (Bool-cases (count r b)) [
            | inl y ↦ sub b y
            | inr k ↦ closed curr b blk e (ground (arith, m, k, push_targets-seen ts w r b))
          ])
          (omega (arith, less, lt)) in
      (
        r',
        reach_loop-step n curr w r blk e ∙ q,
        g,
        λ b m. keep b (ground (arith, m, push_targets-seen ts w r b)),
      )
