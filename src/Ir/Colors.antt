-- ===== src/Ir/Colors.antt =====
-- `assign_colors` (src/backend/ir/lowering/regalloc/colorize.hpp). The interference graph is a parameter: the
-- neighbours and the moves of a node in the order of the sets, `alias`, and which of two registers has the
-- higher priority. `result.colors` is an association list, and `nodes.spilled` and `result.spilled` are
-- lists, all with the newest entry first.
use ucas_cplab.Common.{
  ℕ, zero, suc, ◌+◌, Bool, true, false, not, ◌&&◌, ◌||◌, Option, none, some, List, [], ◌∷◌, ◌++◌,
  any, ◌==◌, Eq, eqb, nat_eq, if◌then◌else◌,
}
use ucas_cplab.Ir.Inst.{LeftValue, left_eq, eq_left}
use ucas_cplab.Ir.Flow.Set.{count, keep}
pub mod Proper
pub mod Stack

pub record Graph : Type 0 where
  pub max_color : ℕ
  pub interfere : LeftValue → List LeftValue
  pub moves : LeftValue → List LeftValue
  pub alias : LeftValue → LeftValue
  pub higher : ℕ → ℕ → Bool

abbrev pub Colors : Type 0
Colors = List (LeftValue × ℕ)

abbrev pub color_of : Colors → LeftValue → Option ℕ
color_of [] v = none
color_of (x ∷ xs) v = if eq_left x.0 v then some x.1 else color_of xs v

-- The numbers from `start`, in ascending order.
abbrev pub range : ℕ → ℕ → List ℕ
range start zero = []
range start (suc n) = start ∷ range (start + 1) n

abbrev pub has_color : Option ℕ → ℕ → Bool
has_color none c = false
has_color (some d) c = d == c

-- `ok_colors`: what no neighbour has.
unfoldable pub ok_colors : Graph → Colors → LeftValue → List ℕ
ok_colors g colors n =
    keep (λ c. not (any (λ v. has_color (color_of colors (g.alias v)) c) (g.interfere n)))
      (range 0 g.max_color)

-- The last move whose color is still free.
abbrev pub move_color : Graph → Colors → List ℕ → List LeftValue → Option ℕ → Option ℕ
move_color g colors ok [] best = best
move_color g colors ok (v ∷ vs) best =
    move_color g colors ok vs (elim (color_of colors (g.alias v)) [
      | none ↦ best
      | some c ↦ if count ok c then some c else best
    ])

-- The color with the highest priority, the first of them.
abbrev pub best_color : Graph → List ℕ → ℕ → ℕ
best_color g [] best = best
best_color g (c ∷ cs) best = best_color g cs (if g.higher c best then c else best)

abbrev pub pick_color : Graph → Colors → LeftValue → ℕ → List ℕ → ℕ
pick_color g colors n c cs = elim (move_color g colors (c ∷ cs) (g.moves n) none) [
  | some m ↦ m
  | none ↦ best_color g cs c
]

-- One iteration, with the colors that are left: the colors and the spilled nodes.
unfoldable pub after_color :
    Graph → LeftValue → Colors → List LeftValue → List ℕ → Colors × List LeftValue
after_color g n colors spilled ok = elim ok [
  | [] ↦ (colors, n ∷ spilled)
  | c ∷ cs ↦ ((n, pick_color g colors n c cs) ∷ colors, spilled)
]

unfoldable pub assign_color : Graph → LeftValue → Colors × List LeftValue → Colors × List LeftValue
unfolding ok_colors after_color
assign_color g n (colors, spilled) = after_color g n colors spilled (ok_colors g colors n)

-- `while (!select_stack.empty())`, with the back of the stack first.
unfoldable pub assign_stack :
    Graph → List LeftValue → Colors × List LeftValue → Colors × List LeftValue
unfolding assign_color
assign_stack g [] s = s
assign_stack g (n ∷ ns) s = assign_stack g ns (assign_color g n s)

-- The loop over the coalesced nodes: the colors and `result.spilled`.
unfoldable pub assign_coalesced :
    Graph → List LeftValue → Colors × List LeftValue → Colors × List LeftValue
assign_coalesced g [] s = s
assign_coalesced g (n ∷ ns) (colors, spilled) =
    assign_coalesced g ns (elim (color_of colors (g.alias n)) [
      | some c ↦ ((n, c) ∷ colors, spilled)
      | none ↦ (colors, n ∷ spilled)
    ])

-- The colors, `nodes.spilled` and `result.spilled`.
unfoldable pub assign_colors :
    Graph → Colors → List LeftValue → List LeftValue → Colors × List LeftValue × List LeftValue
unfolding assign_stack assign_coalesced
assign_colors g precolored stack coalesced =
    let (colors, spilled) = assign_stack g stack (precolored, []) in
    let (all, unassigned) = assign_coalesced g coalesced (colors, []) in (all, spilled, unassigned)
