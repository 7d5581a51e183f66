-- ===== src/Ir/Dominance/Tree.antt =====
-- `DominanceTree` and `DominanceFrontier` (src/backend/ir/analysis/dominance.hpp). An exception is `none`,
-- a null pointer an inner `none`.
use ucas_cplab.Common.{
  ℕ, zero, suc, Bool, true, false, Option, none, some, List, [], ◌∷◌, ◌++◌, ltb, ◌==◌,
  if◌then◌else◌, nat_eq, update, ◌>>=◌,
}
use ucas_cplab.Ir.Flow.Set.{Set, size, elements, empty, insert}
pub mod Idom
pub mod Immediate

-- The loop over the dominators of a block: the one with the largest set of dominators.
unfoldable pub closest : (ℕ → Set ℕ) → ℕ → List ℕ → Option ℕ → Option (Option ℕ)
closest dom block [] idom_block = some idom_block
closest dom block (x ∷ xs) none =
    let rest = closest dom block xs (some x) in
    let skipped = closest dom block xs none in if x == block then skipped else rest
closest dom block (x ∷ xs) (some c) =
    let rest = closest dom block xs (some x) in
    let skipped = closest dom block xs (some c) in
    if x == block
    then skipped
    else do n ← size (dom x); m ← size (dom c); if ltb m n then rest else skipped

unfoldable pub idom_of : (ℕ → Set ℕ) → ℕ → Option (Option ℕ)
unfolding closest
idom_of dom block = do doms ← elements (dom block); closest dom block doms none

-- `idom_map`, for all blocks.
unfoldable pub idom_map : (ℕ → Set ℕ) → List ℕ → Option (List (ℕ × Option ℕ))
unfolding idom_of
idom_map dom [] = some []
idom_map dom (b ∷ bs) = do i ← idom_of dom b; rest ← idom_map dom bs; some ((b, i) ∷ rest)

-- `idom`: a block that is not in the map is an exception.
unfoldable pub idom : List (ℕ × Option ℕ) → ℕ → Option (Option ℕ)
idom [] b = none
idom (x ∷ xs) b = if x.0 == b then some x.1 else idom xs b

abbrev pub is_child : Option ℕ → ℕ → Bool
is_child none p = false
is_child (some i) p = i == p

-- `children_map`, read at a block.
unfoldable pub children : List (ℕ × Option ℕ) → ℕ → List ℕ
children [] p = []
children (x ∷ xs) p = if is_child x.1 p then x.0 ∷ children xs p else children xs p
