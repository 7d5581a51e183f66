-- ===== src/Rv64/Peephole/Apply.antt =====
-- The window loop `peephole_apply` (src/backend/rv64/optim/peephole.hpp): what holds of every window
-- that a rule replaces holds of the block.
use Prim.Native.String.{String}
use ucas_cplab.Common.{
  ℕ, zero, suc, ◌+◌, ◌-◌, Bool, true, false, Option, some, List, [], ◌∷◌, ◌++◌, ◌≡◌, refl, ap, sym,
  ◌∙◌, length, get_elem?, take, drop, ltb, arith, inl, inr, Bool-cases, Option-cases,
}
use ucas_cplab.Rv64.Inst.{Inst}
use ucas_cplab.Rv64.Memory.{Result}
use ucas_cplab.Rv64.Vm.{Host, Machine}
use ucas_cplab.Rv64.Peephole.{MatchFn, peephole_loop, peephole_apply, at_pair}
use ucas_cplab.Rv64.Peephole.Run.{exec_block, exec_block-append}

take-drop : (xs : List Inst) (i : ℕ) → take i xs ++ drop i xs ≡ xs
take-drop xs zero = refl
take-drop [] (suc i) = refl
take-drop (x ∷ xs) (suc i) = ap (λ ys. x ∷ ys) (take-drop xs i)

drop-get_elem? :
    (xs : List Inst) (i : ℕ) (x : Inst) → get_elem? xs i ≡ some x → drop i xs ≡ x ∷ drop (suc i) xs
drop-get_elem? [] i x e = absurd (cc)
drop-get_elem? (y ∷ xs) zero x e = cc
drop-get_elem? (y ∷ xs) (suc i) x e = drop-get_elem? xs i x e

two_more : (i : ℕ) → suc (suc i) ≡ i + 2
two_more i = omega arith

at_pair-cases :
    (rule : Inst → Inst → Option (List Inst)) (insts repl : List Inst) (i : ℕ)
    → at_pair rule insts i ≡ some repl
    → (x : Inst) × (get_elem? insts i ≡ some x)
      × (y : Inst) × (get_elem? insts (suc i) ≡ some y)
      × (rule x y ≡ some repl)
unfolding at_pair
at_pair-cases rule insts repl i e = elim (Option-cases (get_elem? insts i)) [
  | inl p ↦ absurd (cc)
  | inr (x, p) ↦ elim (Option-cases (get_elem? insts (suc i))) [
    | inl q ↦ absurd (cc)
    | inr (y, q) ↦ (x, p, y, q, cc)
  ]
]

module _ (h : Host) (call : String → Machine → Result Machine) where
  abbrev pub Same : List Inst → List Inst → Type 0
  Same xs ys = (s : Machine) → exec_block h call xs s ≡ exec_block h call ys s

  -- Every replacement of a window does what the window does, whatever follows.
  abbrev pub Preserves : ℕ → MatchFn → Type 0
  Preserves window match_fn =
      (insts repl : List Inst) (i : ℕ)
      → match_fn insts i ≡ some repl
      → Same (repl ++ drop (i + window) insts) (drop i insts)

  module _ (window : ℕ) (match_fn : MatchFn) (sound : Preserves window match_fn) where
    replace_window :
        (insts repl : List Inst) (i : ℕ)
        → match_fn insts i ≡ some repl
        → Same (take i insts ++ (repl ++ drop (i + window) insts)) insts
    replace_window insts repl i e s =
        exec_block-append h call (take i insts) (repl ++ drop (i + window) insts) (drop i insts)
          (sound insts repl i e) s
        ∙ ap (λ xs. exec_block h call xs s) (take-drop insts i)

    peephole_loop-Same :
        (n : ℕ) (insts : List Inst) (changed : Bool)
        → Same (peephole_loop window match_fn n insts changed).0 insts
    unfolding peephole_loop
    peephole_loop-Same zero insts changed s = refl
    peephole_loop-Same (suc i) insts changed s =
        elim (Bool-cases (ltb (length insts) (i + window))) [
          | inl b ↦ rw (b, peephole_loop) (peephole_loop-Same i insts changed s)
          | inr b ↦ elim (Option-cases (match_fn insts i)) [
            | inl e ↦ rw (b, e, peephole_loop) (peephole_loop-Same i insts changed s)
            | inr (repl, e) ↦
                rw (b, e, peephole_loop)
                  (peephole_loop-Same i (take i insts ++ (repl ++ drop (i + window) insts)) true s
                    ∙ replace_window insts repl i e s)
          ]
        ]

    pub peephole_apply-Same :
        (insts : List Inst) → Same (peephole_apply window match_fn insts).0 insts
    unfolding peephole_apply
    peephole_apply-Same insts = peephole_loop-Same (suc (length insts) - window) insts false

  -- A rule on pairs is a rule on windows.
  pub at_pair-Preserves :
      (rule : Inst → Inst → Option (List Inst))
      → ((x y : Inst) (repl rest : List Inst)
          → rule x y ≡ some repl
          → Same (repl ++ rest) (x ∷ y ∷ rest))
      → Preserves 2 (at_pair rule)
  at_pair-Preserves rule f insts repl i e s =
      let (x, p, y, q, r) = at_pair-cases rule insts repl i e in
      f x y repl (drop (i + 2) insts) r s
      ∙ ap (λ xs. exec_block h call xs s)
          (sym (
            drop-get_elem? insts i x p
            ∙ ap (λ xs. x ∷ xs) (drop-get_elem? insts (suc i) y q)
            ∙ ap (λ n. x ∷ y ∷ drop n insts) (two_more i)))
