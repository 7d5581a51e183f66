-- ===== src/Rv64/Isel/UnaryCorrect.antt =====
-- `translate_unary` of src/backend/rv64/isel.hpp against the unary `fold` of
-- src/backend/ir/transform/optim/constant_fold.hpp.
use Prim.Native.Nat.{bit_xor}
use Prim.Native.String.{String}
use ucas_cplab.Common.{
  ℕ, ◌-◌, ◌%◌, ◌^◌, ◌<◌, ◌≡◌, ◌≢◌, refl, sym, ap, ◌∙◌, subst, Bool, true, false, not, Option, some,
  List, [], ◌∷◌, ◌==◌, arith, if◌then◌else◌,
}
use ucas_cplab.Types.{Primitive, IrType, primitive}
use ucas_cplab.Ir.Inst.{
  LeftValue, Value, const_value, left_value, ConstexprValue, int_const, int64_const, bool_const,
  UnaryInstOp,
}
use ucas_cplab.Ir.ConstantFold.{fold_unary, folded, signed_neg}
use ucas_cplab.Rv64.Op.{OpI}
use ucas_cplab.Rv64.Inst.{Inst, inst_i, pseudo_r, pseudo_li, PseudoROp}
use ucas_cplab.Rv64.Words.{bool_word, sext, neg64}
use ucas_cplab.Rv64.Memory.{Result}
use ucas_cplab.Rv64.Vm.{Host, Machine}
use ucas_cplab.Rv64.Isel.{Context, type_of_const, extract_imm, is_fp_op, is_32bit_op, is_bool_op}
use ucas_cplab.Rv64.Isel.OpWord.{InRange}
use ucas_cplab.Rv64.Isel.Runs.{
  Computes, Computes-one, Sets, negate-Sets, xori-Sets, pseudo_li-Sets, Regs,
}
use ucas_cplab.Rv64.Isel.RegReg.{Selects, some-injective, flip_word}
use ucas_cplab.Rv64.Isel.Operands.{Holds, in_register, constant, gpr-lt}
use ucas_cplab.Rv64.Isel.Unary.{
  translate_neg, translate_not, translate_unary_op, translate_unary, plain,
}

-- The negation of the smallest `int` does not fit the type.
abbrev pub Negatable : Value → Type 0
Negatable (const_value (int_const v)) = v ≢ 2 ^ 31
Negatable v = Unit {0}

negw-word : (v : ℕ) → v < 2 ^ 32 → sext 32 (2 ^ 32 - sext 32 v % 2 ^ 32) ≡ sext 32 (signed_neg 32 v)
negw-word v h = ground arith

neg-word : (v : ℕ) → v < 2 ^ 32 → v ≢ 2 ^ 31 → neg64 (sext 32 v) ≡ sext 32 (signed_neg 32 v)
neg-word v h n = ground arith

not-word : (b : Bool) → (if bool_word b == 0 then 1 else 0) ≡ bool_word (not b)
not-word true = refl
not-word false = refl

module _ (host : Host) (call : String → Machine → Result Machine) (cx : Context) (s : Machine)
    (id : ℕ) (lt : id < 32) where
  -- One instruction that sets `rd` from a register, or to a constant.
  one :
      (i : Inst) (f : Regs → ℕ) (v : ℕ)
      → Sets host call i id f
      → f s.regs ≡ v
      → Selects host call (some (i ∷ [])) s id v
  one i f v p e = (i ∷ [], refl, Computes-one host call i s id v f p e)

  neg_int-Selects :
      (operand : Value) (v : ℕ)
      → v < 2 ^ 32
      → Negatable operand
      → Holds cx s operand (int_const v)
      → Selects host call
          (translate_neg cx (primitive Primitive.int32) id operand)
          s
          id
          (sext 32 (signed_neg 32 v))
  unfolding translate_neg is_fp_op is_32bit_op extract_imm
  neg_int-Selects (left_value x) v small ok (in_register _ r _ e lr n m f t) =
      rw (e, gpr-lt id lt, gpr-lt r lr)
        (one (pseudo_r PseudoROp.negw id r) (λ g. sext 32 (2 ^ 32 - g r % 2 ^ 32))
          (sext 32 (signed_neg 32 v)) (negate-Sets host call true id r)
          (ap (λ z. sext 32 (2 ^ 32 - z % 2 ^ 32)) (sym (some-injective (sext 32 v) (s.regs r) f))
            ∙ negw-word v small))
  neg_int-Selects (const_value _) v small ok (constant _) = rw (gpr-lt id lt) (
      one (pseudo_li id (neg64 (sext 32 v))) (λ g. neg64 (sext 32 v)) (sext 32 (signed_neg 32 v))
        (pseudo_li-Sets host call id (neg64 (sext 32 v))) (neg-word v small ok))

  neg_int64-Selects :
      (operand : Value) (v : ℕ)
      → Holds cx s operand (int64_const v)
      → Selects host call
          (translate_neg cx (primitive Primitive.int) id operand)
          s
          id
          (signed_neg 64 v)
  unfolding translate_neg is_fp_op is_32bit_op extract_imm
  neg_int64-Selects (left_value x) v (in_register _ r _ e lr n m f t) =
      rw (e, gpr-lt id lt, gpr-lt r lr)
        (one (pseudo_r PseudoROp.neg id r) (λ g. neg64 (g r)) (signed_neg 64 v)
          (negate-Sets host call false id r) (ap neg64 (sym (some-injective v (s.regs r) f))))
  neg_int64-Selects (const_value _) v (constant _) = rw (gpr-lt id lt) (
      one (pseudo_li id (neg64 v)) (λ g. neg64 v) (signed_neg 64 v)
        (pseudo_li-Sets host call id (neg64 v)) refl)

  not-Selects :
      (operand : Value) (v : Bool)
      → Holds cx s operand (bool_const v)
      → Selects host call
          (translate_not cx (primitive Primitive.int1) id operand)
          s
          id
          (bool_word (not v))
  unfolding translate_not is_bool_op extract_imm
  not-Selects (left_value x) v (in_register _ r _ e lr n m f t) =
      rw (e, gpr-lt id lt, gpr-lt r lr)
        (one (inst_i OpI.xori id r 1) (λ g. bit_xor (g r) 1) (bool_word (not v))
          (xori-Sets host call id r)
          (ap (λ z. bit_xor z 1) (sym (some-injective (bool_word v) (s.regs r) f)) ∙ flip_word v))
  not-Selects (const_value _) v (constant _) = rw (gpr-lt id lt) (
      one (pseudo_li id (if bool_word v == 0 then 1 else 0))
        (λ g. if bool_word v == 0 then 1 else 0) (bool_word (not v))
        (pseudo_li-Sets host call id (if bool_word v == 0 then 1 else 0)) (not-word v))

folded-word :
    (c d : ConstexprValue) (v : ℕ)
    → folded c ≡ folded d
    → extract_imm c ≡ some v
    → extract_imm d ≡ some v
folded-word c d v h e = subst (λ z. extract_imm z ≡ some v) (cc) e

module _ (host : Host) (call : String → Machine → Result Machine) (cx : Context) (s : Machine)
    (result : LeftValue) (operand : Value) (literals : List ConstexprValue) (id : ℕ) where
  -- What the theorem concludes, for the word of `c`.
  abbrev pub Translated : UnaryInstOp → ConstexprValue → Type 0
  Translated op c =
      (v : ℕ) × (code : List Inst) × (extract_imm c ≡ some v)
      × (translate_unary cx op (some result) operand literals ≡ some (code, literals))
      × Computes host call code s id v

  translated :
      (op : UnaryInstOp) (t : IrType) (c : ConstexprValue) (v : ℕ) (selection : Option (List Inst))
      → cx.regs result ≡ some id
      → cx.type_of_left result ≡ t
      → translate_unary_op cx op t id operand literals ≡ plain literals selection
      → extract_imm c ≡ some v
      → Selects host call selection s id v
      → Translated op c
  unfolding translate_unary
  translated op t c v selection e te te' w (code, ce, run) =
      (v, code, w, rw (e, translate_unary, te) (te' ∙ ap (plain literals) ce), run)

  -- The operand holds a constant `l` of its width, an integer or a `bool`: it is in a register other than
  -- `t0` that has its word, for a variable of its type, or is written as a constant, but not the smallest
  -- `int` as a constant. The result has the type of `l` and a register, and the operator folds `l` to `c`.
  -- Then there is code, which adds no literal; on the machine it ends, leaves the word of `c` in that
  -- register, and changes no other register but `t0`, and nothing else.
  pub translate_unary-fold :
      (op : UnaryInstOp) (l c : ConstexprValue) (a : ℕ)
      → cx.regs result ≡ some id
      → id < 32
      → cx.type_of_left result ≡ type_of_const cx l
      → Holds cx s operand l
      → InRange l
      → Negatable operand
      → extract_imm l ≡ some a
      → fold_unary op l ≡ folded c
      → Translated op c
  unfolding translate_unary_op fold_unary extract_imm type_of_const
  translate_unary-fold UnaryInstOp.neg_op (int_const v) c a e lt te h small ok p f =
      translated UnaryInstOp.neg_op (primitive Primitive.int32) c (sext 32 (signed_neg 32 v))
        (translate_neg cx (primitive Primitive.int32) id operand) e te refl
        (folded-word (int_const (signed_neg 32 v)) c (sext 32 (signed_neg 32 v)) f refl)
        (neg_int-Selects host call cx s id lt operand v small ok h)
  translate_unary-fold UnaryInstOp.neg_op (int64_const v) c a e lt te h small ok p f =
      translated UnaryInstOp.neg_op (primitive Primitive.int) c (signed_neg 64 v)
        (translate_neg cx (primitive Primitive.int) id operand) e te refl
        (folded-word (int64_const (signed_neg 64 v)) c (signed_neg 64 v) f refl)
        (neg_int64-Selects host call cx s id lt operand v h)
  translate_unary-fold UnaryInstOp.not_op (bool_const v) c a e lt te h small ok p f =
      translated UnaryInstOp.not_op (primitive Primitive.int1) c (bool_word (not v))
        (translate_not cx (primitive Primitive.int1) id operand) e te refl
        (folded-word (bool_const (not v)) c (bool_word (not v)) f refl)
        (not-Selects host call cx s id lt operand v h)
  translate_unary-fold op l c a e lt te h small ok p f = absurd (cc)
