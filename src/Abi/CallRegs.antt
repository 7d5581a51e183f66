-- ===== src/Abi/CallRegs.antt =====
-- Which registers `assign_call_regs` (src/backend/ir/lowering/abi.hpp) gives to call arguments.
use ucas_cplab.Common.{
  ℕ, zero, suc, ◌+◌, ◌≤◌, ◌≡◌, refl, sym, ◌∙◌, ap, Bool, true, false, ◌||◌, arith, Option, none,
  some, List, [], ◌∷◌, ◌++◌, if◌then◌else◌, length, get_elem?, all, ltb, Bool-cases, inl, inr,
}
use Prim.Native.Nat.{min}
use mathlib.Core.List.{append-nil, append_assoc}
use ucas_cplab.Types.{Primitive, IrType, primitive, reference}
use ucas_cplab.Abi.{
  TargetAbi, Assigned, is_fp, assign_general, assign_float, assign_class, assign_type, assign_loop,
  assign_call_regs, rv64_abi, unassigned,
}

abbrev pub is_primitive : IrType → Bool
is_primitive (primitive p) = true
is_primitive t = false

abbrev pub is_reference : IrType → Bool
is_reference (reference elem ro is_slice) = true
is_reference t = false

-- The specification: an argument's register is the parameter register of its class that comes
-- after those of the earlier arguments of that class; past the end there is none.
unfoldable pub expected_from : TargetAbi → ℕ → ℕ → List IrType → List (Option ℕ)
expected_from abi g f [] = []
expected_from abi g f (t ∷ ts) =
    if is_fp t
    then get_elem? abi.floats.parameters f ∷ expected_from abi g (f + 1) ts
    else get_elem? abi.generals.parameters g ∷ expected_from abi (g + 1) f ts

get_elem?-past {ℓ} : {A : Type ℓ} (xs : List A) (i : ℕ) → length xs ≤ i → get_elem? xs i ≡ none
get_elem?-past [] i h = refl
get_elem?-past (x ∷ xs) zero h = absurd (omega arith)
get_elem?-past (x ∷ xs) (suc i) h = get_elem?-past xs i (omega arith)

-- The counters stop at the number of parameter registers: each is the smaller of that number and
-- of the arguments of its class so far.
record Counts (abi : TargetAbi) (g f : ℕ) (s : Assigned) : Type 0 where
  general : s.num_general ≡ min g (length abi.generals.parameters)
  float : s.num_float ≡ min f (length abi.floats.parameters)

module _ (abi : TargetAbi) (g f : ℕ) (s : Assigned) (c : Counts abi g f s) where
  Counts-assign_general : Counts abi (g + 1) f (assign_general abi s)
  unfolding assign_general
  Counts-assign_general = ground arith

  Counts-assign_float : Counts abi g (f + 1) (assign_float abi s)
  unfolding assign_float
  Counts-assign_float = ground arith

  assign_general_regs :
      (assign_general abi s).param_regs ≡ s.param_regs ++ get_elem? abi.generals.parameters g ∷ []
  unfolding assign_general
  assign_general_regs = ground (arith, get_elem?-past abi.generals.parameters g)

  assign_float_regs :
      (assign_float abi s).param_regs ≡ s.param_regs ++ get_elem? abi.floats.parameters f ∷ []
  unfolding assign_float
  assign_float_regs = ground (arith, get_elem?-past abi.floats.parameters f)

assign_loop_primitive :
    (abi : TargetAbi) (ts : List IrType) (g f : ℕ) (s : Assigned)
    → Counts abi g f s
    → all is_primitive ts ≡ true
    → (s' : Assigned) × (assign_loop abi ts s ≡ some s')
      × (s'.param_regs ≡ s.param_regs ++ expected_from abi g f ts)
unfolding assign_loop assign_class expected_from
assign_loop_primitive abi [] g f s c p = (s, refl, sym (append-nil s.param_regs))
assign_loop_primitive abi (primitive q ∷ ts) g f s c p = elim (Bool-cases (is_fp (primitive q))) [
  | inl fp ↦
      let (s', e, r) =
        assign_loop_primitive abi ts g (f + 1) (assign_float abi s)
          (Counts-assign_float abi g f s c) p in
      (s', rw fp e, rw fp (r ∙ rw (assign_float_regs abi g f s c) (append_assoc s.param_regs _ _)))
  | inr fp ↦
      let (s', e, r) =
        assign_loop_primitive abi ts (g + 1) f (assign_general abi s)
          (Counts-assign_general abi g f s c) p in
      (
        s',
        rw fp e,
        rw fp (r ∙ rw (assign_general_regs abi g f s c) (append_assoc s.param_regs _ _)),
      )
]
assign_loop_primitive abi (t ∷ ts) g f s c p = absurd (cc)

-- Arguments of primitive types: the call returns one entry for each argument, and the argument gets
-- the parameter register of its class that follows those of the earlier arguments of that class,
-- or none when the class has no register left.
pub assign_call_regs_primitive :
    (abi : TargetAbi) (ts : List IrType)
    → all is_primitive ts ≡ true
    → assign_call_regs ts abi ≡ some (expected_from abi 0 0 ts)
unfolding assign_call_regs
assign_call_regs_primitive abi ts p =
    let (s', e, r) = assign_loop_primitive abi ts 0 0 unassigned (omega arith) p in
    rw (e, assign_call_regs) (ap some r)

abbrev pub count_references : List IrType → ℕ
count_references [] = 0
count_references (t ∷ ts) = (if is_reference t then 1 else 0) + count_references ts

abbrev pub is_passable : IrType → Bool
is_passable t = is_primitive t || is_reference t

assign_loop_returns :
    (abi : TargetAbi) (ts : List IrType) (s : Assigned)
    → all is_passable ts ≡ true
    → (s' : Assigned) × (assign_loop abi ts s ≡ some s')
unfolding assign_loop assign_type
assign_loop_returns abi [] s h = (s, refl)
assign_loop_returns abi (primitive p ∷ ts) s h =
    assign_loop_returns abi ts (assign_class abi (primitive p) s) h
assign_loop_returns abi (reference e ro k ∷ ts) s h =
    assign_loop_returns abi ts (assign_class abi (reference e ro k) (assign_general abi s)) h
assign_loop_returns abi (t ∷ ts) s h = absurd (cc)

-- Later arguments leave the entries of the earlier ones.
append_regs :
    (s s' t : Assigned) (a b : List (Option ℕ))
    → s'.param_regs ≡ s.param_regs ++ a
    → t.param_regs ≡ s'.param_regs ++ b
    → t.param_regs ≡ s.param_regs ++ a ++ b
append_regs s s' t a b p q = q ∙ ap (λ l. l ++ b) p

assign_general_extends :
    (abi : TargetAbi) (s : Assigned)
    → (more : List (Option ℕ)) × ((assign_general abi s).param_regs ≡ s.param_regs ++ more)
unfolding assign_general
assign_general_extends abi s =
    elim (Bool-cases (ltb s.num_general (length abi.generals.parameters))) [
      | inl room ↦ (get_elem? abi.generals.parameters s.num_general ∷ [], rw room refl)
      | inr full ↦ (none ∷ [], rw full refl)
    ]

assign_class_extends :
    (abi : TargetAbi) (t : IrType) (s : Assigned)
    → (more : List (Option ℕ)) × ((assign_class abi t s).param_regs ≡ s.param_regs ++ more)
unfolding assign_class assign_float
assign_class_extends abi t s = elim (Bool-cases (is_fp t)) [
  | inr general ↦ rw general (assign_general_extends abi s)
  | inl fp ↦ rw fp (elim (Bool-cases (ltb s.num_float (length abi.floats.parameters))) [
    | inl room ↦ (get_elem? abi.floats.parameters s.num_float ∷ [], rw room refl)
    | inr full ↦ (none ∷ [], rw full refl)
  ])
]

assign_loop_extends :
    (abi : TargetAbi) (ts : List IrType) (s s' : Assigned)
    → assign_loop abi ts s ≡ some s'
    → (more : List (Option ℕ)) × (s'.param_regs ≡ s.param_regs ++ more)
unfolding assign_loop assign_type
assign_loop_extends abi [] s s' h = ([], ground (arith, append-nil s.param_regs))
assign_loop_extends abi (primitive p ∷ ts) s s' h =
    let s₁ = assign_class abi (primitive p) s in
    let (a, e) = assign_class_extends abi (primitive p) s in
    let (b, k) = assign_loop_extends abi ts s₁ s' h in
    (a ++ b, append_regs s s₁ s' a b e k ∙ append_assoc s.param_regs a b)
assign_loop_extends abi (reference x ro is_slice ∷ ts) s s' h =
    let s₁ = assign_general abi s in
    let s₂ = assign_class abi (reference x ro is_slice) s₁ in
    let (a, e) = assign_general_extends abi s in
    let (b, k) = assign_class_extends abi (reference x ro is_slice) s₁ in
    let (c, l) = assign_loop_extends abi ts s₂ s' h in
    (
      a ++ (b ++ c),
      append_regs s s₁ s' a (b ++ c) e
            (append_regs s₁ s₂ s' b c k l ∙ append_assoc s₁.param_regs b c)
          ∙ append_assoc s.param_regs a (b ++ c),
    )
assign_loop_extends abi (t ∷ ts) s s' h = absurd (cc)

abbrev three_given : Assigned
three_given = record {
  num_general = 3;
  num_float = 1;
  param_regs = some 10 ∷ some 11 ∷ some 10 ∷ some 12 ∷ [];
}

assign_loop_three :
    (elem : IrType) (ro is_slice : Bool) (p q : Primitive) (ts : List IrType)
    → is_fp (primitive p) ≡ true
    → is_fp (primitive q) ≡ false
    → assign_loop rv64_abi (reference elem ro is_slice ∷ primitive p ∷ primitive q ∷ ts) unassigned
      ≡ assign_loop rv64_abi ts three_given
unfolding assign_loop assign_class assign_general assign_float
assign_loop_three elem ro is_slice p q ts hp hq = rw (hp, hq) refl

-- With the RV64 convention, a reference, a floating-point number and then another primitive that is
-- passed in a general register, with any primitives and references behind them: the call returns
-- and gives the first and the third argument the same register 10, a0.
pub assign_call_regs_collision :
    (elem : IrType) (ro is_slice : Bool) (p q : Primitive) (ts : List IrType)
    → is_fp (primitive p) ≡ true
    → is_fp (primitive q) ≡ false
    → all is_passable ts ≡ true
    → (rs : List (Option ℕ)) × (assign_call_regs
          (reference elem ro is_slice ∷ primitive p ∷ primitive q ∷ ts)
          rv64_abi
        ≡ some rs)
      × (get_elem? rs 0 ≡ some (some 10))
      × (get_elem? rs 2 ≡ some (some 10))
unfolding assign_call_regs
assign_call_regs_collision elem ro is_slice p q ts hp hq pass =
    let (s, e) = assign_loop_returns rv64_abi ts three_given pass in
    let (more, l) = assign_loop_extends rv64_abi ts three_given s e in
    (
      s.param_regs,
      rw (assign_loop_three elem ro is_slice p q ts hp hq, assign_call_regs, e) refl,
      rw l refl,
      rw l refl,
    )
