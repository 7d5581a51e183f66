-- ===== src/Ir/Liveness/Laws.antt =====
-- `Liveness` (src/backend/ir/analysis/dataflow/liveness.hpp) keeps the laws of a trait: its sets only grow, inside the
-- variables that the function uses.
use ucas_cplab.Common.{
  ℕ, ◌≡◌, ◌<◌, sym, ◌∙◌, subst, true, false, Option, none, some, inr, arith, ◌>>=◌,
}
use ucas_cplab.Ir.Inst.{LeftValue, Func, block_ids, left_eq}
use ucas_cplab.Ir.Vars.{func_used_vars}
use ucas_cplab.Ir.Flow.Rules.{among}
use ucas_cplab.Ir.Flow.Termination.{FlowLaws}
use ucas_cplab.Ir.Flow.Set.{empty, contains, set_eq}
use ucas_cplab.Ir.Flow.Set.Rank.{Subset}
use ucas_cplab.Ir.Flow.Set.Within.{missing_within, missing_within-lt}
use ucas_cplab.Ir.Liveness.{
  Vars, transfer, edge_transfer, meet, equal, liveness_trait, backward_graph,
}
use ucas_cplab.Ir.Liveness.Edge.{has, block_at-some}
use ucas_cplab.Ir.Liveness.Step.{
  Known, empty-Known, has-Known, meet-Known, has-meet, transfer-Known, has-transfer, edge-Known,
  has-edge,
}

module _ (f : Func) where
  -- The order of the analysis: going down, a set gains members.
  record Below (a b : Option Vars) : Type 0 where
    known_low : Known f a
    known_high : Known f b
    includes : (x : LeftValue) → has b x ≡ true → has a x ≡ true

  abbrev rank : Option Vars → ℕ
  rank none = 0
  rank (some a) = missing_within (func_used_vars f) a

  set_eq_sym : (a b : Vars) → set_eq a b ≡ false → set_eq b a ≡ false
  unfolding set_eq
  set_eq_sym a b h = ground arith

  rank_lt :
      (a b : Option Vars) → Known f a → Known f b → Below a b → equal a b ≡ false → rank a < rank b
  rank_lt a b k l h ne =
      let sub : Subset l.vars k.vars = record {
        members = λ x m. sym (has-Known f k x) ∙ h.includes x (has-Known f l x ∙ m);
        universes = λ u. absurd (ground (arith, u, l.finite_vars));
      } in
      let differ : set_eq l.vars k.vars ≡ false = set_eq_sym k.vars l.vars (
        subst (λ o. equal o (some l.vars) ≡ false) k.is_some
          (subst (λ o. equal a o ≡ false) l.is_some ne)) in
      rw (k.is_some, l.is_some)
        (missing_within-lt (func_used_vars f) l.vars k.vars (inr k.listed) k.finite_vars sub differ)

  block_transfer-Known :
      (b : ℕ) (a : Option Vars)
      → among (block_ids f) b ≡ true
      → Known f a
      → Known f (a >>= transfer f b)
  unfolding block_ids
  block_transfer-Known b a m k =
      let (blk, e) = block_at-some f.blocks b m in transfer-Known f b blk e a k

  Below-transfer :
      (b : ℕ) (a a' : Option Vars)
      → among (block_ids f) b ≡ true
      → Below a a'
      → Below (a >>= transfer f b) (a' >>= transfer f b)
  unfolding block_ids
  Below-transfer b a a' m h =
      let (blk, e) = block_at-some f.blocks b m in
      record {
        known_low = transfer-Known f b blk e a h.known_low;
        known_high = transfer-Known f b blk e a' h.known_high;
        includes = λ x n. ground (
          arith,
          n,
          has-transfer f b blk e a h.known_low x,
          has-transfer f b blk e a' h.known_high x,
          h.includes x,
        );
      }

  Below-meet : (a a' b b' : Option Vars) → Below a a' → Below b b' → Below (meet a b) (meet a' b')
  Below-meet a a' b b' h k = record {
    known_low = meet-Known f a b h.known_low k.known_low;
    known_high = meet-Known f a' b' h.known_high k.known_high;
    includes = λ x n. ground (
      arith,
      n,
      has-meet f a b h.known_low k.known_low x,
      has-meet f a' b' h.known_high k.known_high x,
      h.includes x,
      k.includes x,
    );
  }

  Below-edge :
      (src dst : ℕ) (a a' : Option Vars)
      → Below a a'
      → Below
          (a >>= (λ x. some (edge_transfer f src dst x)))
          (a' >>= (λ x. some (edge_transfer f src dst x)))
  Below-edge src dst a a' h = record {
    known_low = edge-Known f src dst a h.known_low;
    known_high = edge-Known f src dst a' h.known_high;
    includes = λ x n. ground (
      arith,
      n,
      has-edge f src dst a h.known_low x,
      has-edge f src dst a' h.known_high x,
      h.includes x,
    );
  }

  Below-empty : (a : Option Vars) → Known f a → Below a (some empty)
  unfolding contains
  Below-empty a k = record {
    known_low = k;
    known_high = empty-Known f;
    includes = λ x n. absurd (cc);
  }

  Below-trans : (a b c : Option Vars) → Below a b → Below b c → Below a c
  Below-trans a b c h k = record {
    known_low = h.known_low;
    known_high = k.known_high;
    includes = λ x n. h.includes x (k.includes x n);
  }

  pub liveness_laws : FlowLaws (liveness_trait f) (backward_graph f)
  unfolding liveness_trait backward_graph
  liveness_laws = record {
    Reached = Known f;
    Le = Below;
    rank = rank;
    default-Reached = empty-Known f;
    boundary-Reached = empty-Known f;
    top-Reached = empty-Known f;
    meet-Reached = meet-Known f;
    transfer-Reached = block_transfer-Known;
    edge-Reached = λ p b a k. edge-Known f b p a k;
    le_refl = λ a k. record { known_low = k; known_high = k; includes = λ x n. n };
    below_top = Below-empty;
    below_boundary =
        λ a k. Below-empty (meet a (some empty)) (meet-Known f a (some empty) k (empty-Known f));
    le_trans = Below-trans;
    meet_mono = Below-meet;
    transfer_mono = Below-transfer;
    edge_mono = λ p b a a' h. Below-edge b p a a' h;
    rank_lt = rank_lt;
  }
