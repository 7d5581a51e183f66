-- ===== src/Ir/ConstantFold/Same.antt =====
-- An instruction that `ConstantFolding` (src/backend/ir/transform/optim/constant_fold.hpp) replaces has the value of the new one.
use ucas_cplab.Common.{
  ℕ, ◌≡◌, refl, sym, ap, ◌∙◌, subst, Bool, true, false, Option, none, some, List, [], ◌∷◌, ◌==◌,
  ==_iff, if◌then◌else◌, inl, inr, ◌⊎◌,
}
use ucas_cplab.Ir.Inst.{
  ConstexprValue, void_const, int_const, int64_const, float_const, bool_const, double_const,
  bytes_const, LeftValue, Value, const_value, left_value, UnaryInstOp, InstOp, Inst, phi_inst,
  unary_inst, binary_inst, call_inst,
}
use ucas_cplab.Ir.ConstantFold.{Folded, unfolded, folded, undefined, fold_unary, fold_binary}
use ucas_cplab.Ir.ConstantFold.Pass.{
  replaced, move_folded, move_identity, move_common, identity_result, const_eq, common_loop,
  common_const, fold_operands, fold_inst,
}
use ucas_cplab.Rv64.Vm.{Host}
use ucas_cplab.Ir.ConstantFold.Identity.{
  Env, eval, IsInteger, folded-injective, identity_result-eval,
}

abbrev pub phi_value : Env → ℕ → List (ℕ × Value) → Folded
phi_value env prev [] = unfolded
phi_value env prev ((b, v) ∷ args) =
    if b == prev then folded (eval env v) else phi_value env prev args

abbrev pub unary_value : UnaryInstOp → ConstexprValue → Folded
unary_value UnaryInstOp.mov_op c = folded c
unary_value op c = fold_unary op c

-- The value of an instruction in a block that is entered from `prev`.
abbrev pub inst_value : Host → Env → ℕ → Inst → Folded
inst_value h env prev (phi_inst result args) = phi_value env prev args
inst_value h env prev (unary_inst op result operand) = unary_value op (eval env operand)
inst_value h env prev (binary_inst op result lhs rhs) =
    fold_binary h op (eval env lhs) (eval env rhs)
inst_value h env prev (call_inst result func args) = unfolded

guard_some :
    (p : Bool) (rest : Option ConstexprValue) (c : ConstexprValue)
    → (if p then rest else none) ≡ some c
    → (p ≡ true) × (rest ≡ some c)
guard_some true rest c e = (refl, e)
guard_some false rest c e = absurd (cc)

branch_folded :
    (q : Bool) (a d : ConstexprValue) (rest : Folded)
    → (if q then folded a else rest) ≡ folded d
    → (a ≡ d) ⊎ (rest ≡ folded d)
branch_folded true a d rest e = inl (folded-injective a d e)
branch_folded false a d rest e = inr e

replaced-injective : (i j : Inst) → replaced i ≡ replaced j → i ≡ j
replaced-injective i j e = cc

some-injective : (a b : ConstexprValue) → some a ≡ some b → a ≡ b
some-injective a b e = cc

module _ (h : Host) (env : Env) where
  const_eq-same :
      (bytes_eq : List ℕ → List ℕ → Bool) (c d : ConstexprValue)
      → IsInteger d
      → const_eq h bytes_eq c d ≡ true
      → d ≡ c
  unfolding const_eq
  const_eq-same bytes_eq (int_const a) (int_const b) k e = ap int_const (sym ((==_iff a b).0 e))
  const_eq-same bytes_eq (int64_const a) (int64_const b) k e =
      ap int64_const (sym ((==_iff a b).0 e))
  const_eq-same bytes_eq (bool_const true) (bool_const true) k e = refl
  const_eq-same bytes_eq (bool_const false) (bool_const false) k e = refl
  const_eq-same bytes_eq (bool_const true) (bool_const false) k e = absurd (cc)
  const_eq-same bytes_eq (bool_const false) (bool_const true) k e = absurd (cc)
  const_eq-same bytes_eq (float_const a) (float_const b) k e = absurd k
  const_eq-same bytes_eq (double_const a) (double_const b) k e = absurd k
  const_eq-same bytes_eq (bytes_const a) (bytes_const b) k e = absurd k
  const_eq-same bytes_eq void_const void_const k e = absurd k
  const_eq-same bytes_eq c d k e = absurd (cc)

  -- If the loop ends with a constant, every argument is equal to the first.
  common_loop-value :
      (bytes_eq : List ℕ → List ℕ → Bool) (prev : ℕ) (first c d : ConstexprValue)
      (args : List (ℕ × Value))
      → IsInteger d
      → common_loop (const_eq h bytes_eq) first args ≡ some c
      → (first ≡ c) × (phi_value env prev args ≡ folded d → d ≡ c)
  common_loop-value bytes_eq prev first c d [] k e = (some-injective first c e, λ f. absurd (cc))
  common_loop-value bytes_eq prev first c d ((b, left_value x) ∷ args) k e = absurd (cc)
  common_loop-value bytes_eq prev first c d ((b, const_value a) ∷ args) k e =
      let eq = const_eq h bytes_eq in
      let (same, more) = guard_some (eq first a) (common_loop eq first args) c e in
      let (whole, later) = common_loop-value bytes_eq prev first c d args k more in
      (
        whole,
        λ f. elim (branch_folded (b == prev) a d (phi_value env prev args) f) [
          | inl here ↦
              const_eq-same bytes_eq first d k (subst (λ z. eq first z ≡ true) here same) ∙ whole
          | inr there ↦ later there
        ],
      )

  common_const-value :
      (bytes_eq : List ℕ → List ℕ → Bool) (prev : ℕ) (c d : ConstexprValue)
      (args : List (ℕ × Value))
      → IsInteger d
      → common_const (const_eq h bytes_eq) args ≡ some c
      → phi_value env prev args ≡ folded d
      → d ≡ c
  unfolding common_const
  common_const-value bytes_eq prev c d [] k e f = absurd (cc)
  common_const-value bytes_eq prev c d ((b, left_value x) ∷ args) k e f = absurd (cc)
  common_const-value bytes_eq prev c d ((b, const_value a) ∷ args) k e f =
      let (whole, later) = common_loop-value bytes_eq prev a c d args k e in
      elim (branch_folded (b == prev) a d (phi_value env prev args) f) [
        | inl here ↦ sym here ∙ whole
        | inr there ↦ later there
      ]

  -- The operands of a binary instruction are integers.
  abbrev pub Integers : Inst → Type 0
  Integers (binary_inst op result lhs rhs) = IsInteger (eval env lhs) × IsInteger (eval env rhs)
  Integers (phi_inst result args) = Unit {0}
  Integers (unary_inst op result operand) = Unit {0}
  Integers (call_inst result func args) = Unit {0}

  move_value :
      (prev : ℕ) (result : LeftValue) (v : Value) (j : Inst) (c : ConstexprValue)
      → replaced (unary_inst UnaryInstOp.mov_op (some result) v) ≡ replaced j
      → c ≡ eval env v
      → inst_value h env prev j ≡ folded c
  move_value prev result v j c e same =
      subst (λ z. inst_value h env prev z ≡ folded c)
        (replaced-injective (unary_inst UnaryInstOp.mov_op (some result) v) j e)
        (ap folded (sym same))

  move_folded-value :
      (prev : ℕ) (result : LeftValue) (f : Folded) (j : Inst) (c : ConstexprValue)
      → move_folded result f ≡ replaced j
      → f ≡ folded c
      → inst_value h env prev j ≡ folded c
  move_folded-value prev result (folded d) j c e same =
      move_value prev result (const_value d) j c e (sym (folded-injective d c same))
  move_folded-value prev result unfolded j c e same = absurd (cc)
  move_folded-value prev result undefined j c e same = absurd (cc)

  move_identity-value :
      (prev : ℕ) (result : LeftValue) (o : Option Value) (j : Inst) (c : ConstexprValue)
      → move_identity result o ≡ replaced j
      → ((x : Value) → o ≡ some x → c ≡ eval env x)
      → inst_value h env prev j ≡ folded c
  move_identity-value prev result (some x) j c e same = move_value prev result x j c e (same x refl)
  move_identity-value prev result none j c e same = absurd (cc)

  move_common-value :
      (prev : ℕ) (result : LeftValue) (o : Option ConstexprValue) (j : Inst) (c : ConstexprValue)
      → move_common result o ≡ replaced j
      → ((d : ConstexprValue) → o ≡ some d → c ≡ d)
      → inst_value h env prev j ≡ folded c
  move_common-value prev result (some d) j c e same =
      move_value prev result (const_value d) j c e (same d refl)
  move_common-value prev result none j c e same = absurd (cc)

-- A move does not fold.
unary_folded :
    (op : UnaryInstOp) (d : ConstexprValue) (result : LeftValue) (j : Inst) (c : ConstexprValue)
    → move_folded result (fold_unary op d) ≡ replaced j
    → unary_value op d ≡ folded c
    → fold_unary op d ≡ folded c
unfolding fold_unary
unary_folded UnaryInstOp.mov_op d result j c e f = absurd (cc)
unary_folded op d result j c e f = f

module _ (h : Host) (env : Env) (bytes_eq : List ℕ → List ℕ → Bool) (prev : ℕ) where
  fold_operands-value :
      (op : InstOp) (result : LeftValue) (lhs rhs : Value) (j : Inst) (c : ConstexprValue)
      → IsInteger (eval env lhs)
      → IsInteger (eval env rhs)
      → fold_operands h bytes_eq result op lhs rhs ≡ replaced j
      → fold_binary h op (eval env lhs) (eval env rhs) ≡ folded c
      → inst_value h env prev j ≡ folded c
  unfolding fold_operands
  fold_operands-value op result (const_value l) (const_value r) j c kl kr e f =
      move_folded-value h env prev result (fold_binary h op l r) j c e f
  fold_operands-value op result (const_value l) (left_value y) j c kl kr e f =
      move_identity-value h env prev result (identity_result h op (const_value l) (left_value y)) j
        c e (λ x i. identity_result-eval h env op (const_value l) (left_value y) x c kl kr f i)
  fold_operands-value op result (left_value y) rhs j c kl kr e f =
      move_identity-value h env prev result (identity_result h op (left_value y) rhs) j c e
        (λ x i. identity_result-eval h env op (left_value y) rhs x c kl kr f i)

  -- If an instruction is replaced, and on the values of its operands it has the value `c`, then the new
  -- instruction has the value `c` as well. `c`, and the operands of a binary instruction, are integers of
  -- their widths or `bool`s.
  pub fold_inst-value :
      (i j : Inst) (c : ConstexprValue)
      → fold_inst h bytes_eq i ≡ replaced j
      → Integers h env i
      → IsInteger c
      → inst_value h env prev i ≡ folded c
      → inst_value h env prev j ≡ folded c
  unfolding fold_inst
  fold_inst-value (unary_inst op (some result) (const_value d)) j c e k kc f =
      move_folded-value h env prev result (fold_unary op d) j c e (unary_folded op d result j c e f)
  fold_inst-value (binary_inst op (some result) lhs rhs) j c e k kc f =
      fold_operands-value op result lhs rhs j c k.0 k.1 e f
  fold_inst-value (phi_inst (some result) args) j c e k kc f =
      move_common-value h env prev result (common_const (const_eq h bytes_eq) args) j c e
        (λ d s. common_const-value h env bytes_eq prev d c args kc s f)
  fold_inst-value i j c e k kc f = absurd (cc)
