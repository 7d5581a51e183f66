-- ===== src/Ir/Colors/Proper.antt =====
-- The colors that `assign_colors` (src/backend/ir/lowering/regalloc/colorize.hpp) gives to the nodes of the stack.
use ucas_cplab.Common.{
  ℕ, zero, suc, ◌+◌, ◌<◌, ◌≡◌, ◌≢◌, refl, sym, ◌∙◌, ap, subst, Bool, true, false, not, ◌&&◌, Option,
  none, some, List, [], ◌∷◌, any, ◌==◌, nat_eq, if◌then◌else◌, arith, Bool-cases, Option-cases, inl,
  inr,
}
use ucas_cplab.Ir.Inst.{LeftValue, left_eq, eq_left, eq_left_iff}
use ucas_cplab.Ir.Flow.Rules.{some-injective}
use ucas_cplab.Ir.Flow.Set.{count}
use ucas_cplab.Ir.Flow.Set.Member.{count-keep}
use ucas_cplab.Ir.Colors.{
  Graph, Colors, color_of, range, has_color, ok_colors, move_color, best_color, pick_color,
  after_color, assign_color, assign_stack,
}

-- `a` is its own alias, and `b` stands for a neighbour of `a`.
abbrev pub conflicts : Graph → LeftValue → LeftValue → Bool
conflicts g a b = eq_left (g.alias a) a && any (λ v. eq_left (g.alias v) b) (g.interfere a)

-- Nodes in conflict have different colors, and the colors are registers.
pub record Proper (g : Graph) (colors : Colors) : Type 0 where
  pub apart :
      (a b : LeftValue) (c : ℕ)
      → conflicts g a b ≡ true
      → color_of colors a ≡ some c
      → color_of colors b ≡ some c
      → ⊥
  pub in_range : (a : LeftValue) (c : ℕ) → color_of colors a ≡ some c → c < g.max_color

true_ne_false : true ≢ false
true_ne_false e = absurd (cc)

count-range : (start n c : ℕ) → count (range start n) c ≡ true → c < start + n
count-range start zero c h = absurd (cc)
count-range start (suc n) c h = elim (Bool-cases (start == c)) [
  | inl e ↦ ground (arith, e)
  | inr k ↦ omega (arith, count-range (start + 1) n c (ground (arith, h, k)))
]

module _ (g : Graph) (colors : Colors) where
  count-chosen :
      (ok : List ℕ) (o best : Option ℕ) (b : ℕ)
      → ((d : ℕ) → best ≡ some d → count ok d ≡ true)
      → (elim o [ none ↦ best | some c ↦ if count ok c then some c else best ]) ≡ some b
      → count ok b ≡ true
  count-chosen ok none best b h e = h b e
  count-chosen ok (some c) best b h e = elim (Bool-cases (count ok c)) [
    | inl y ↦
        let same : c ≡ b =
          some-injective c b (subst (λ z. (if z then some c else best) ≡ some b) y e) in
        subst (λ z. count ok z ≡ true) same y
    | inr n ↦ h b (subst (λ z. (if z then some c else best) ≡ some b) n e)
  ]

  move_color-count :
      (ok : List ℕ) (vs : List LeftValue) (best : Option ℕ) (m : ℕ)
      → ((b : ℕ) → best ≡ some b → count ok b ≡ true)
      → move_color g colors ok vs best ≡ some m
      → count ok m ≡ true
  move_color-count ok [] best m h e = h m e
  move_color-count ok (v ∷ vs) best m h e =
      move_color-count ok vs
        (elim (color_of colors (g.alias v)) [
          | none ↦ best
          | some c ↦ if count ok c then some c else best
        ])
        m (λ b. count-chosen ok (color_of colors (g.alias v)) best b h) e

  best_color-count : (cs : List ℕ) (best : ℕ) → count (best ∷ cs) (best_color g cs best) ≡ true
  best_color-count [] best = ground arith
  best_color-count (c ∷ cs) best =
      ground (arith, best_color-count cs (if g.higher c best then c else best))

  pick_color-count :
      (n : LeftValue) (c : ℕ) (cs : List ℕ) → count (c ∷ cs) (pick_color g colors n c cs) ≡ true
  pick_color-count n c cs =
      let chosen : Option ℕ → ℕ = λ o. elim o [ some m ↦ m | none ↦ best_color g cs c ] in
      elim (Option-cases (move_color g colors (c ∷ cs) (g.moves n) none)) [
        | inl e ↦ subst (λ r. count (c ∷ cs) r ≡ true) (sym (ap chosen e)) (best_color-count cs c)
        | inr (m, e) ↦
            subst (λ r. count (c ∷ cs) r ≡ true) (sym (ap chosen e))
              (move_color-count (c ∷ cs) (g.moves n) none m (λ b k. absurd (cc)) e)
      ]

  any-has_color :
      (n b : LeftValue) (vs : List LeftValue) (m : ℕ)
      → any (λ v. eq_left (g.alias v) b) vs ≡ true
      → color_of colors b ≡ some m
      → any (λ v. has_color (color_of colors (g.alias v)) m) vs ≡ true
  any-has_color n b [] m h e = absurd (cc)
  any-has_color n b (v ∷ vs) m h e = elim (Bool-cases (eq_left (g.alias v) b)) [
    | inl q ↦
        let same =
          subst (λ z. color_of colors z ≡ some m) (sym ((eq_left_iff (g.alias v) b).0 q)) e in
        let has = ap (λ o. has_color o m) same in ground (arith, has)
    | inr q ↦ ground (arith, any-has_color n b vs m (ground (arith, h, q)) e)
  ]

  ok_colors-free :
      (n : LeftValue) (m : ℕ)
      → count (ok_colors g colors n) m ≡ true
      → (m < g.max_color) × ((b : LeftValue) → conflicts g n b ≡ true → color_of colors b ≢ some m)
  unfolding ok_colors
  ok_colors-free n m h =
      let p : ℕ → Bool =
        λ c. not (any (λ v. has_color (color_of colors (g.alias v)) c) (g.interfere n)) in
      let both = count-keep p (range 0 g.max_color) m in
      (
        omega (arith, count-range 0 g.max_color m (ground (arith, h, both))),
        λ b k e.
            let taken = any-has_color n b (g.interfere n) m (ground (arith, k)) e in
            true_ne_false (sym taken ∙ ground (arith, h, both)),
      )

  color_of-here :
      (n a : LeftValue) (m : ℕ) → eq_left n a ≡ true → color_of ((n, m) ∷ colors) a ≡ some m
  color_of-here n a m q = rw q refl

  color_of-there :
      (n a : LeftValue) (m : ℕ)
      → eq_left n a ≡ false
      → color_of ((n, m) ∷ colors) a ≡ color_of colors a
  color_of-there n a m q = rw q refl

-- Conflict is symmetric and no node is in conflict with itself.
abbrev pub Symmetric : Graph → Type 0
Symmetric g =
    ((a b : LeftValue) → conflicts g a b ≡ true → conflicts g b a ≡ true)
    × ((a : LeftValue) → conflicts g a a ≡ false)

conflicts_self :
    (g : Graph) (n a b : LeftValue)
    → ((z : LeftValue) → conflicts g z z ≡ false)
    → eq_left n a ≡ true
    → eq_left n b ≡ true
    → conflicts g a b ≡ true
    → ⊥
conflicts_self g n a b irr p q r =
    let same = sym ((eq_left_iff n a).0 p) ∙ (eq_left_iff n b).0 q in
    true_ne_false (sym (subst (λ z. conflicts g z b ≡ true) same r) ∙ irr b)

Proper-color :
    (g : Graph) (colors : Colors) (n : LeftValue) (m : ℕ)
    → Symmetric g
    → Proper g colors
    → count (ok_colors g colors n) m ≡ true
    → Proper g ((n, m) ∷ colors)
Proper-color g colors n m (sy, irr) h k =
    let (small, free) = ok_colors-free g colors n m k in
    record {
      apart = λ a b c r ea eb. elim (Bool-cases (eq_left n a)) [
        | inl p ↦ elim (Bool-cases (eq_left n b)) [
          | inl q ↦ conflicts_self g n a b irr p q r
          | inr q ↦
              free b (subst (λ z. conflicts g z b ≡ true) (sym ((eq_left_iff n a).0 p)) r) (
                sym (color_of-there g colors n b m q)
                ∙ eb
                ∙ sym ea
                ∙ color_of-here g colors n a m p)
        ]
        | inr p ↦ elim (Bool-cases (eq_left n b)) [
          | inl q ↦
              free a (subst (λ z. conflicts g z a ≡ true) (sym ((eq_left_iff n b).0 q)) (sy a b r))
                (sym (color_of-there g colors n a m p)
                  ∙ ea
                  ∙ sym eb
                  ∙ color_of-here g colors n b m q)
          | inr q ↦
              h.apart a b c r (sym (color_of-there g colors n a m p) ∙ ea)
                (sym (color_of-there g colors n b m q) ∙ eb)
        ]
      ];
      in_range = λ a c ea. elim (Bool-cases (eq_left n a)) [
        | inl p ↦
            let same : m ≡ c = some-injective m c (sym (color_of-here g colors n a m p) ∙ ea) in
            omega (arith, same, small)
        | inr p ↦ h.in_range a c (sym (color_of-there g colors n a m p) ∙ ea)
      ];
    }

Proper-after_color :
    (g : Graph) (n : LeftValue) (colors : Colors) (spilled : List LeftValue) (ok : List ℕ)
    → ok_colors g colors n ≡ ok
    → Symmetric g
    → Proper g colors
    → Proper g (after_color g n colors spilled ok).0
unfolding after_color
Proper-after_color g n colors spilled [] e sy h = h
Proper-after_color g n colors spilled (c ∷ cs) e sy h =
    Proper-color g colors n (pick_color g colors n c cs) sy h (
      subst (λ ok. count ok (pick_color g colors n c cs) ≡ true) (sym e)
        (pick_color-count g colors n c cs))

Proper-assign_color :
    (g : Graph) (n : LeftValue) (s : Colors × List LeftValue)
    → Symmetric g
    → Proper g s.0
    → Proper g (assign_color g n s).0
unfolding assign_color after_color
Proper-assign_color g n (colors, spilled) sy h =
    Proper-after_color g n colors spilled (ok_colors g colors n) refl sy h

pub Proper-stack :
    (g : Graph) (stack : List LeftValue) (s : Colors × List LeftValue)
    → Symmetric g
    → Proper g s.0
    → Proper g (assign_stack g stack s).0
unfolding assign_stack
Proper-stack g [] s sy h = h
Proper-stack g (n ∷ ns) s sy h =
    Proper-stack g ns (assign_color g n s) sy (Proper-assign_color g n s sy h)
