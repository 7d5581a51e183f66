-- ===== src/Ir/ConstantFold/Identity.antt =====
-- `x + 0`, `x - 0`, `x * 1` and their mirror images (src/backend/ir/transform/optim/constant_fold.hpp) have the value of `x`.
use ucas_cplab.Common.{
  ◌+◌, ◌-◌, ◌*◌, ◌%◌, ◌^◌, ◌<◌, ◌≡◌, refl, sym, ap, ◌∙◌, Bool, true, false, none, some, ==_iff,
  if◌then◌else◌, arith, inl, inr, ◌⊎◌,
}
use ucas_cplab.Ir.Inst.{
  ConstexprValue, int_const, int64_const, float_const, bool_const, double_const, LeftValue, Value,
  const_value, left_value, InstOp,
}
use ucas_cplab.Ir.ConstantFold.{folded, fold_binary, fold_int, fold_bool}
use ucas_cplab.Ir.ConstantFold.Pass.{is_zero, is_one, constant_is, identity_result}
use ucas_cplab.Rv64.Vm.{Host}

-- The values of the variables, and of operands.
abbrev pub Env : Type 0
Env = LeftValue → ConstexprValue

abbrev pub eval : Env → Value → ConstexprValue
eval env (const_value c) = c
eval env (left_value x) = env x

-- An integer or a `bool`, with a pattern of its width; floating-point numbers are left out, since x + 0 is not x for
-- x = -0.0.
abbrev pub IsInteger : ConstexprValue → Type 0
IsInteger (int_const v) = v < 2 ^ 32
IsInteger (int64_const v) = v < 2 ^ 64
IsInteger (bool_const v) = Unit {0}
IsInteger c = ⊥

pub folded-injective : (c d : ConstexprValue) → folded c ≡ folded d → c ≡ d
folded-injective c d h = cc

add-zero :
    (h : Host) (l r c : ConstexprValue)
    → IsInteger l
    → is_zero h r ≡ true
    → fold_binary h InstOp.add_op l r ≡ folded c
    → c ≡ l
unfolding fold_binary fold_int fold_bool is_zero
add-zero h (int_const l) (int_const r) c k z e =
    sym (folded-injective (int_const ((l + r) % 2 ^ 32)) c e) ∙ ap int_const (ground (arith, z, k))
add-zero h (int64_const l) (int64_const r) c k z e =
    sym (folded-injective (int64_const ((l + r) % 2 ^ 64)) c e)
    ∙ ap int64_const (ground (arith, z, k))
add-zero h (bool_const l) (bool_const r) c k z e = absurd (cc)
add-zero h (float_const l) (float_const r) c k z e = absurd k
add-zero h (double_const l) (double_const r) c k z e = absurd k
add-zero h l r c k z e = absurd (cc)

zero-add :
    (h : Host) (l r c : ConstexprValue)
    → IsInteger r
    → is_zero h l ≡ true
    → fold_binary h InstOp.add_op l r ≡ folded c
    → c ≡ r
unfolding fold_binary fold_int fold_bool is_zero
zero-add h (int_const l) (int_const r) c k z e =
    sym (folded-injective (int_const ((l + r) % 2 ^ 32)) c e) ∙ ap int_const (ground (arith, z, k))
zero-add h (int64_const l) (int64_const r) c k z e =
    sym (folded-injective (int64_const ((l + r) % 2 ^ 64)) c e)
    ∙ ap int64_const (ground (arith, z, k))
zero-add h (bool_const l) (bool_const r) c k z e = absurd (cc)
zero-add h (float_const l) (float_const r) c k z e = absurd k
zero-add h (double_const l) (double_const r) c k z e = absurd k
zero-add h l r c k z e = absurd (cc)

sub-zero :
    (h : Host) (l r c : ConstexprValue)
    → IsInteger l
    → is_zero h r ≡ true
    → fold_binary h InstOp.sub_op l r ≡ folded c
    → c ≡ l
unfolding fold_binary fold_int fold_bool is_zero
sub-zero h (int_const l) (int_const r) c k z e =
    sym (folded-injective (int_const ((l + 2 ^ 32 - r) % 2 ^ 32)) c e)
    ∙ ap int_const (ground (arith, z, k))
sub-zero h (int64_const l) (int64_const r) c k z e =
    sym (folded-injective (int64_const ((l + 2 ^ 64 - r) % 2 ^ 64)) c e)
    ∙ ap int64_const (ground (arith, z, k))
sub-zero h (bool_const l) (bool_const r) c k z e = absurd (cc)
sub-zero h (float_const l) (float_const r) c k z e = absurd k
sub-zero h (double_const l) (double_const r) c k z e = absurd k
sub-zero h l r c k z e = absurd (cc)

mul-one :
    (h : Host) (l r c : ConstexprValue)
    → IsInteger l
    → is_one h r ≡ true
    → fold_binary h InstOp.mul_op l r ≡ folded c
    → c ≡ l
unfolding fold_binary fold_int fold_bool is_one
mul-one h (int_const l) (int_const r) c k z e =
    sym (folded-injective (int_const (l * r % 2 ^ 32)) c e)
    ∙ ap int_const (rw ((==_iff r 1).0 z) (omega (arith, k)))
mul-one h (int64_const l) (int64_const r) c k z e =
    sym (folded-injective (int64_const (l * r % 2 ^ 64)) c e)
    ∙ ap int64_const (rw ((==_iff r 1).0 z) (omega (arith, k)))
mul-one h (bool_const l) (bool_const r) c k z e = absurd (cc)
mul-one h (float_const l) (float_const r) c k z e = absurd k
mul-one h (double_const l) (double_const r) c k z e = absurd k
mul-one h l r c k z e = absurd (cc)

one-mul :
    (h : Host) (l r c : ConstexprValue)
    → IsInteger r
    → is_one h l ≡ true
    → fold_binary h InstOp.mul_op l r ≡ folded c
    → c ≡ r
unfolding fold_binary fold_int fold_bool is_one
one-mul h (int_const l) (int_const r) c k z e =
    sym (folded-injective (int_const (l * r % 2 ^ 32)) c e)
    ∙ ap int_const (rw ((==_iff l 1).0 z) (omega (arith, k)))
one-mul h (int64_const l) (int64_const r) c k z e =
    sym (folded-injective (int64_const (l * r % 2 ^ 64)) c e)
    ∙ ap int64_const (rw ((==_iff l 1).0 z) (omega (arith, k)))
one-mul h (bool_const l) (bool_const r) c k z e = absurd (cc)
one-mul h (float_const l) (float_const r) c k z e = absurd k
one-mul h (double_const l) (double_const r) c k z e = absurd k
one-mul h l r c k z e = absurd (cc)

constant_is-eval :
    (env : Env) (p : ConstexprValue → Bool) (v : Value)
    → constant_is p v ≡ true
    → p (eval env v) ≡ true
constant_is-eval env p (const_value c) h = h
constant_is-eval env p (left_value x) h = absurd (cc)

-- The alternatives of `identity_result` for a commutative operator.
chosen :
    (p q : Bool) (l r x : Value)
    → (if p then some l else if q then some r else none) ≡ some x
    → ((p ≡ true) × (l ≡ x)) ⊎ ((q ≡ true) × (r ≡ x))
chosen true q l r x h = inl (refl, cc)
chosen false true l r x h = inr (refl, cc)
chosen false false l r x h = absurd (cc)

chosen_left :
    (p : Bool) (l x : Value) → (if p then some l else none) ≡ some x → (p ≡ true) × (l ≡ x)
chosen_left true l x h = (refl, cc)
chosen_left false l x h = absurd (cc)

module _ (h : Host) (env : Env) where
  pub identity_result-eval :
      (op : InstOp) (lhs rhs x : Value) (c : ConstexprValue)
      → IsInteger (eval env lhs)
      → IsInteger (eval env rhs)
      → fold_binary h op (eval env lhs) (eval env rhs) ≡ folded c
      → identity_result h op lhs rhs ≡ some x
      → c ≡ eval env x
  unfolding identity_result
  identity_result-eval InstOp.add_op lhs rhs x c kl kr e i =
      elim (chosen (constant_is (is_zero h) rhs) (constant_is (is_zero h) lhs) lhs rhs x i) [
        | inl (z, same) ↦
            add-zero h (eval env lhs) (eval env rhs) c kl (constant_is-eval env (is_zero h) rhs z) e
            ∙ ap (eval env) same
        | inr (z, same) ↦
            zero-add h (eval env lhs) (eval env rhs) c kr (constant_is-eval env (is_zero h) lhs z) e
            ∙ ap (eval env) same
      ]
  identity_result-eval InstOp.sub_op lhs rhs x c kl kr e i =
      let (z, same) = chosen_left (constant_is (is_zero h) rhs) lhs x i in
      sub-zero h (eval env lhs) (eval env rhs) c kl (constant_is-eval env (is_zero h) rhs z) e
      ∙ ap (eval env) same
  identity_result-eval InstOp.mul_op lhs rhs x c kl kr e i =
      elim (chosen (constant_is (is_one h) rhs) (constant_is (is_one h) lhs) lhs rhs x i) [
        | inl (z, same) ↦
            mul-one h (eval env lhs) (eval env rhs) c kl (constant_is-eval env (is_one h) rhs z) e
            ∙ ap (eval env) same
        | inr (z, same) ↦
            one-mul h (eval env lhs) (eval env rhs) c kr (constant_is-eval env (is_one h) lhs z) e
            ∙ ap (eval env) same
      ]
  identity_result-eval op lhs rhs x c kl kr e i = absurd (cc)
