-- ===== src/Rv64/Isel/Correct.antt =====
-- `translate_binary` of src/backend/rv64/isel.hpp against `ConstexprFolder::fold` of
-- src/backend/ir/transform/optim/constant_fold.hpp: what is computed at run time is what is folded at compile time.
use Prim.Native.String.{String}
use mathlib.Core.Option
use ucas_cplab.Common.{
  ℕ, ◌^◌, ◌<◌, ◌≡◌, ◌≢◌, Option-cases, inl, inr, refl, sym, ap, ◌∙◌, subst, Bool, false, none, some,
  List,
}
use ucas_cplab.Types.{Primitive, primitive}
use ucas_cplab.Abi.{abi_size}
use ucas_cplab.Ir.Inst.{
  LeftValue, Value, const_value, left_value, ConstexprValue, void_const, int_const, int64_const,
  float_const, bool_const, double_const, bytes_const, InstOp,
}
use ucas_cplab.Ir.ConstantFold.{fold_binary, fold_int, fold_bool, folded}
use ucas_cplab.Rv64.Inst.{Inst}
use ucas_cplab.Rv64.Words.{bool_word, sext}
use ucas_cplab.Rv64.Words.Bounds.{bool_word-IsWord}
use ucas_cplab.Rv64.Memory.{Result}
use ucas_cplab.Rv64.Vm.{Host, Machine}
use ucas_cplab.Rv64.Isel.{
  Context, lookup_reg, type_of, type_of_const, extract_imm, is_fp_op, is_32bit_op,
}
use ucas_cplab.Rv64.Isel.Binary.Words32.{sext-IsWord}
use ucas_cplab.Rv64.Isel.OpWord.{op_word, InRange, is_int32, fold_binary-op_word}
use ucas_cplab.Rv64.Isel.Runs.{Computes}
use ucas_cplab.Rv64.Isel.RegReg.{some-injective}
use ucas_cplab.Rv64.Isel.Translate.{
  operands, load_operand, translate_typed, translate_operator, translate_binary,
}
use ucas_cplab.Rv64.Isel.Operands.{
  Holds, in_register, constant, Fits, BitsSwap-fold, operands-Selects,
}

Holds-type_of :
    (cx : Context) (s : Machine) (v : Value) (c : ConstexprValue)
    → Holds cx s v c
    → type_of cx v ≡ type_of_const cx c
unfolding type_of
Holds-type_of cx s (left_value x) c (in_register _ r _ e lt n small w t) = t
Holds-type_of cx s (const_value c) _ (constant _) = refl

translate_operator-int :
    (cx : Context) (op : InstOp) (result : LeftValue) (lhs rhs : Value)
    (literals : List ConstexprValue) (p : Primitive) (id : ℕ)
    → is_fp_op (primitive p) ≡ false
    → type_of cx lhs ≡ primitive p
    → type_of cx rhs ≡ primitive p
    → cx.regs result ≡ some id
    → translate_operator cx op result lhs rhs literals
      ≡ Option.map
          (λ code. (code, literals))
          (operands op false
            (is_32bit_op (primitive p))
            id
            (lookup_reg cx lhs)
            (lookup_reg cx rhs)
            lhs
            rhs)
unfolding translate_operator translate_typed load_operand is_fp_op abi_size
translate_operator-int cx op result lhs rhs literals Primitive.int1 id f tl tr e =
    rw (e, tl, tr) refl
translate_operator-int cx op result lhs rhs literals Primitive.int32 id f tl tr e =
    rw (e, tl, tr) refl
translate_operator-int cx op result lhs rhs literals Primitive.int id f tl tr e =
    rw (e, tl, tr) refl
translate_operator-int cx op result lhs rhs literals Primitive.float32 id f tl tr e = absurd (cc)
translate_operator-int cx op result lhs rhs literals Primitive.float64 id f tl tr e = absurd (cc)
translate_operator-int cx op result lhs rhs literals Primitive.float id f tl tr e = absurd (cc)

-- The two constants have the type of an integer or a `bool`.
integer_type :
    (host : Host) (cx : Context) (op : InstOp) (l r c : ConstexprValue) (a : ℕ)
    → fold_binary host op l r ≡ folded c
    → extract_imm l ≡ some a
    → (p : Primitive) × (is_fp_op (primitive p) ≡ false)
      × (type_of_const cx l ≡ primitive p)
      × (type_of_const cx r ≡ primitive p)
      × (is_32bit_op (primitive p) ≡ is_int32 l)
unfolding fold_binary extract_imm type_of_const is_fp_op is_32bit_op
integer_type host cx op (int_const l) (int_const r) c a h p =
    (Primitive.int32, refl, refl, refl, refl)
integer_type host cx op (int64_const l) (int64_const r) c a h p =
    (Primitive.int, refl, refl, refl, refl)
integer_type host cx op (bool_const l) (bool_const r) c a h p =
    (Primitive.int1, refl, refl, refl, refl)
integer_type host cx op (float_const l) r c a h p = absurd (cc)
integer_type host cx op (double_const l) r c a h p = absurd (cc)
integer_type host cx op l r c a h p = absurd (cc)

extract_imm-lt : (c : ConstexprValue) (a : ℕ) → InRange c → extract_imm c ≡ some a → a < 2 ^ 64
unfolding extract_imm
extract_imm-lt (int_const v) a h e =
    subst (λ z. z < 2 ^ 64) (some-injective (sext 32 v) a e) (sext-IsWord v)
extract_imm-lt (int64_const v) a h e = subst (λ z. z < 2 ^ 64) (some-injective v a e) h
extract_imm-lt (bool_const v) a h e =
    subst (λ z. z < 2 ^ 64) (some-injective (bool_word v) a e) (bool_word-IsWord v)
extract_imm-lt void_const a h e = absurd (cc)
extract_imm-lt (float_const v) a h e = absurd (cc)
extract_imm-lt (double_const v) a h e = absurd (cc)
extract_imm-lt (bytes_const v) a h e = absurd (cc)

-- An operator without a word does not fold.
fold_int-op_word-none :
    (op : InstOp) (w : ℕ) (mk : ℕ → ConstexprValue) (l r a b : ℕ) (u : Bool) (c : ConstexprValue)
    → fold_int w mk op l r ≡ folded c
    → op_word op u a b ≢ none
unfolding fold_int op_word
fold_int-op_word-none InstOp.store_op w mk l r a b u c h e = absurd (cc)
fold_int-op_word-none op w mk l r a b u c h e = absurd (cc)

fold_bool-op_word-none :
    (op : InstOp) (l r : Bool) (a b : ℕ) (u : Bool) (c : ConstexprValue)
    → fold_bool op l r ≡ folded c
    → op_word op u a b ≢ none
unfolding fold_bool op_word
fold_bool-op_word-none InstOp.store_op l r a b u c h e = absurd (cc)
fold_bool-op_word-none op l r a b u c h e = absurd (cc)

fold_binary-op_word-none :
    (host : Host) (op : InstOp) (l r c : ConstexprValue) (a x y : ℕ) (u : Bool)
    → fold_binary host op l r ≡ folded c
    → extract_imm l ≡ some a
    → op_word op u x y ≢ none
unfolding fold_binary extract_imm
fold_binary-op_word-none host op (int_const l) (int_const r) c a x y u h p =
    fold_int-op_word-none op 32 int_const l r x y u c h
fold_binary-op_word-none host op (int64_const l) (int64_const r) c a x y u h p =
    fold_int-op_word-none op 64 int64_const l r x y u c h
fold_binary-op_word-none host op (bool_const l) (bool_const r) c a x y u h p =
    fold_bool-op_word-none op l r x y u c h
fold_binary-op_word-none host op (float_const l) r c a x y u h p = absurd (cc)
fold_binary-op_word-none host op (double_const l) r c a x y u h p = absurd (cc)
fold_binary-op_word-none host op l r c a x y u h p = absurd (cc)

module _ (host : Host) (call : String → Machine → Result Machine) (cx : Context) (s : Machine)
    (op : InstOp) (result : LeftValue) (lhs rhs : Value) (literals : List ConstexprValue)
    (l r c : ConstexprValue) (id a b : ℕ) where
  -- The operands hold two constants `l` and `r` of their widths, integers or `bool`s with the words `a`
  -- and `b`: each is in a register other than `t0` that has its word, for a variable of its type, or is
  -- written as a constant. Not both are written as constants; one on the right is a sign-extended
  -- `int32_t`; one on the left is not shifted, and fits 12 bits for `>` and `<=`. The result has a
  -- register, and `l` and `r` fold to `c`. Then there is code, which adds no literal; on the machine it
  -- ends, leaves the word of `c` in that register, and changes no other register but `t0`, and nothing
  -- else.
  pub translate_binary-fold :
      cx.regs result ≡ some id
      → id < 32
      → Holds cx s lhs l
      → Holds cx s rhs r
      → InRange l
      → InRange r
      → extract_imm l ≡ some a
      → extract_imm r ≡ some b
      → Fits op lhs rhs a b
      → fold_binary host op l r ≡ folded c
      → (v : ℕ) × (code : List Inst) × (extract_imm c ≡ some v)
        × (translate_binary cx op (some result) lhs rhs literals ≡ some (code, literals))
        × Computes host call code s id v
  unfolding translate_binary
  translate_binary-fold e lt hl hr rl rr p q k h =
      let word = fold_binary-op_word host op l r c a b rl rr h p q in
      let (t, f, tl, tr, w) = integer_type host cx op l r c a h p in
      elim (Option-cases (op_word op (is_int32 l) a b)) [
        | inl z ↦ absurd (fold_binary-op_word-none host op l r c a a b (is_int32 l) h p z)
        | inr (v, z) ↦
            let (code, code_eq, run) =
              operands-Selects host call cx s op (is_int32 l) id a b v lt lhs rhs l r hl hr k
                (BitsSwap-fold host op l r c a b h p q) (extract_imm-lt l a rl p)
                (extract_imm-lt r b rr q) p q z in
            let selected =
              subst
                (λ u.
                  operands op false u id (lookup_reg cx lhs) (lookup_reg cx rhs) lhs rhs
                  ≡ some code)
                (sym w) code_eq in
            let typed =
              translate_operator-int cx op result lhs rhs literals t id f
                (Holds-type_of cx s lhs l hl ∙ tl) (Holds-type_of cx s rhs r hr ∙ tr) e in
            (v, code, word ∙ z, typed ∙ ap (Option.map (λ is. (is, literals))) selected, run)
      ]
