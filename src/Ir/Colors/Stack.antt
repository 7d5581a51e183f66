-- ===== src/Ir/Colors/Stack.antt =====
-- After the loop over the stack (src/backend/ir/lowering/regalloc/colorize.hpp): every node has a color or is spilled.
use ucas_cplab.Common.{
  ℕ, ◌≡◌, Bool, true, false, ◌||◌, Option, none, some, List, [], ◌∷◌, nat_eq, arith,
}
use ucas_cplab.Ir.Inst.{LeftValue, left_eq, eq_left}
use ucas_cplab.Ir.Flow.Set.{count}
use ucas_cplab.Ir.Colors.{
  Graph, Colors, color_of, ok_colors, after_color, assign_color, assign_stack,
}
use ucas_cplab.Ir.Colors.Proper.{Proper, Symmetric, Proper-stack}

abbrev pub is_some : Option ℕ → Bool
is_some none = false
is_some (some c) = true

-- A node that has a color or is spilled.
abbrev pub settled : Colors × List LeftValue → LeftValue → Bool
settled s x = is_some (color_of s.0 x) || count s.1 x

settled-after_color :
    (g : Graph) (n : LeftValue) (colors : Colors) (spilled : List LeftValue) (ok : List ℕ)
    (x : LeftValue)
    → settled (after_color g n colors spilled ok) x ≡ (settled (colors, spilled) x || eq_left n x)
unfolding after_color
settled-after_color g n colors spilled [] x = ground arith
settled-after_color g n colors spilled (c ∷ cs) x = ground arith

settled-assign_color :
    (g : Graph) (n : LeftValue) (s : Colors × List LeftValue) (x : LeftValue)
    → settled (assign_color g n s) x ≡ (settled s x || eq_left n x)
unfolding assign_color after_color
settled-assign_color g n (colors, spilled) x =
    settled-after_color g n colors spilled (ok_colors g colors n) x

settled-assign_stack :
    (g : Graph) (stack : List LeftValue) (s : Colors × List LeftValue) (x : LeftValue)
    → settled (assign_stack g stack s) x ≡ (settled s x || count stack x)
unfolding assign_stack
settled-assign_stack g [] s x = ground arith
settled-assign_stack g (n ∷ ns) s x =
    ground (arith, settled-assign_stack g ns (assign_color g n s) x, settled-assign_color g n s x)

-- A node that is its own alias is in conflict with the aliases of its neighbours. If conflict is symmetric and no
-- node is in conflict with itself, and if the colors before are below `max_color` and different for nodes in
-- conflict, then they are so after the whole stack, and every node of the stack has a color or is spilled.
pub Proper-assign_stack :
    (g : Graph) (stack : List LeftValue) (s : Colors × List LeftValue)
    → Symmetric g
    → Proper g s.0
    → Proper g (assign_stack g stack s).0
      × ((x : LeftValue) → count stack x ≡ true → settled (assign_stack g stack s) x ≡ true)
Proper-assign_stack g stack s sy h =
    (Proper-stack g stack s sy h, λ x m. ground (arith, settled-assign_stack g stack s x, m))
