-- ===== src/Examples/Colors.antt =====
-- The coloring (src/backend/ir/lowering/regalloc/colorize.hpp) of three nodes with two registers.
use ucas_cplab.Common.{
  ℕ, ◌≡◌, refl, sym, ◌∙◌, true, false, [], ◌∷◌, if◌then◌else◌, arith, nat_eq, ltb, Bool-cases, inl,
  inr,
}
use ucas_cplab.Ir.Inst.{LeftValue, temp_value, eq_left, eq_left_iff, left_eq}
use ucas_cplab.Ir.Flow.Set.{count}
use ucas_cplab.Ir.Colors.{
  Graph, ok_colors, after_color, assign_color, assign_stack, assign_coalesced, assign_colors,
}
use ucas_cplab.Ir.Colors.Proper.{Proper, Symmetric}
use ucas_cplab.Ir.Colors.Stack.{settled, Proper-assign_stack}

abbrev node : ℕ → LeftValue
node i = temp_value 0 i

-- 0 and 1 are neighbours.
abbrev edge_graph : Graph
edge_graph = record {
  max_color = 2;
  interfere = λ v.
      if eq_left v (node 0) then node 1 ∷ [] else if eq_left v (node 1) then node 0 ∷ [] else [];
  moves = λ v. [];
  alias = λ v. v;
  higher = λ c d. ltb d c;
}

eq_left_comm : (a b : LeftValue) → eq_left a b ≡ eq_left b a
eq_left_comm a b = elim (Bool-cases (eq_left a b)) [
  | inl p ↦ p ∙ sym ((eq_left_iff b a).1 (sym ((eq_left_iff a b).0 p)))
  | inr p ↦ elim (Bool-cases (eq_left b a)) [
    | inl q ↦ (eq_left_iff a b).1 (sym ((eq_left_iff b a).0 q)) ∙ sym q
    | inr q ↦ p ∙ sym q
  ]
]

eq_left-node : (a : LeftValue) → eq_left a (node 0) ≡ true → eq_left a (node 1) ≡ false
eq_left-node a p = rw ((eq_left_iff a (node 0)).0 p) refl

edge_graph-Symmetric : Symmetric edge_graph
edge_graph-Symmetric = (
  λ a b h. ground (
    arith,
    h,
    eq_left-node a,
    eq_left-node b,
    eq_left_comm (node 0) a,
    eq_left_comm (node 1) a,
    eq_left_comm (node 0) b,
    eq_left_comm (node 1) b,
  ),
  λ a. ground (arith, eq_left-node a, eq_left_comm (node 0) a, eq_left_comm (node 1) a),
)

nothing-Proper : Proper edge_graph []
nothing-Proper = record { apart = λ a b c r ea eb. absurd (cc); in_range = λ a c e. absurd (cc) }

Proper-assign_stack_example :
    Proper edge_graph (assign_stack edge_graph (node 0 ∷ node 1 ∷ node 2 ∷ []) ([], [])).0
    × ((x : LeftValue)
        → count (node 0 ∷ node 1 ∷ node 2 ∷ []) x ≡ true
        → settled (assign_stack edge_graph (node 0 ∷ node 1 ∷ node 2 ∷ []) ([], [])) x ≡ true)
Proper-assign_stack_example =
    Proper-assign_stack edge_graph (node 0 ∷ node 1 ∷ node 2 ∷ []) ([], []) edge_graph-Symmetric
      nothing-Proper

assign_colors-edge_graph :
    assign_colors edge_graph [] (node 0 ∷ node 1 ∷ node 2 ∷ []) []
    ≡ ((node 2, 1) ∷ (node 1, 0) ∷ (node 0, 1) ∷ [], [], [])
unfolding assign_colors assign_stack assign_coalesced assign_color after_color ok_colors
assign_colors-edge_graph = refl
