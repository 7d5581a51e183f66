-- ===== src/Rv64/Isel/Operands.antt =====
-- The forms of `translate_binary` by the operands (src/backend/rv64/isel.hpp), on values that are in registers or constants.
use Prim.Native.Nat.{bit_and, bit_or}
use Prim.Native.String.{String}
use ucas_cplab.Common.{
  ℕ, ◌^◌, ◌<◌, ◌≡◌, refl, sym, ◌∙◌, subst, Bool, true, false, some, ◌==◌, arith,
}
use ucas_cplab.Ir.Inst.{
  LeftValue, Value, const_value, left_value, ConstexprValue, int_const, int64_const, float_const,
  bool_const, double_const, InstOp,
}
use ucas_cplab.Ir.ConstantFold.{fold_binary, fold_int, folded}
use ucas_cplab.Rv64.Inst.{general_reg}
use ucas_cplab.Rv64.Words.{bool_word}
use ucas_cplab.Rv64.Memory.{Result}
use ucas_cplab.Rv64.Vm.{Host, Machine}
use ucas_cplab.Rv64.Isel.{Context, lookup_reg, type_of_const, extract_imm, gpr, reg_t0}
use ucas_cplab.Rv64.Isel.OpWord.{op_word}
use ucas_cplab.Rv64.Isel.RegReg.{Selects, some-injective, int_reg_reg-Selects}
use ucas_cplab.Rv64.Isel.Immediate.{Narrow}
use ucas_cplab.Rv64.Isel.RegConst.{int_reg_const-Selects}
use ucas_cplab.Rv64.Isel.ConstReg.{Supported, BitsSwap, int_const_reg-Selects}
use ucas_cplab.Rv64.Isel.Translate.{operands}

pub gpr-lt : (r : ℕ) → r < 32 → gpr r ≡ some r
unfolding general_reg
gpr-lt r h = ground arith

-- The value is in a register that code generation keeps for values, or it is the constant.
pub data Holds (cx : Context) (s : Machine) : Value → ConstexprValue → Type 0 where
  in_register :
      (x : LeftValue) (r : ℕ) (c : ConstexprValue)
      → cx.regs x ≡ some r
      → r < 32
      → (r == reg_t0) ≡ false
      → s.regs r < 2 ^ 64
      → extract_imm c ≡ some (s.regs r)
      → cx.type_of_left x ≡ type_of_const cx c
      → Holds cx s (left_value x) c
  constant : (c : ConstexprValue) → Holds cx s (const_value c) c

-- For the words `a` and `b` of the operands: a constant on the right is a sign-extended `int32_t`, one on the left
-- is supported, and not both are constants.
abbrev pub Fits : InstOp → Value → Value → ℕ → ℕ → Type 0
Fits op (left_value x) (left_value y) a b = Unit {0}
Fits op (left_value x) (const_value c) a b = Narrow b
Fits op (const_value c) (left_value y) a b = Supported op a
Fits op (const_value c) (const_value d) a b = ⊥

bits_swap : (p q : Bool) → bit_and (bool_word q) (bool_word p) ≡ bit_and (bool_word p) (bool_word q)
bits_swap true true = refl
bits_swap true false = refl
bits_swap false true = refl
bits_swap false false = refl

bits_swap_or :
    (p q : Bool) → bit_or (bool_word q) (bool_word p) ≡ bit_or (bool_word p) (bool_word q)
bits_swap_or true true = refl
bits_swap_or true false = refl
bits_swap_or false true = refl
bits_swap_or false false = refl

BitsSwap-bool : (op : InstOp) (p q : Bool) → BitsSwap op (bool_word p) (bool_word q)
BitsSwap-bool InstOp.and_op p q = bits_swap p q
BitsSwap-bool InstOp.or_op p q = bits_swap_or p q
BitsSwap-bool op p q = tt

BitsSwap-int :
    (op : InstOp) (w : ℕ) (mk : ℕ → ConstexprValue) (l r a b : ℕ) (c : ConstexprValue)
    → fold_int w mk op l r ≡ folded c
    → BitsSwap op a b
unfolding fold_int
BitsSwap-int InstOp.and_op w mk l r a b c h = absurd (cc)
BitsSwap-int InstOp.or_op w mk l r a b c h = absurd (cc)
BitsSwap-int op w mk l r a b c h = tt

pub BitsSwap-fold :
    (host : Host) (op : InstOp) (l r c : ConstexprValue) (a b : ℕ)
    → fold_binary host op l r ≡ folded c
    → extract_imm l ≡ some a
    → extract_imm r ≡ some b
    → BitsSwap op a b
unfolding fold_binary extract_imm
BitsSwap-fold host op (int_const l) (int_const r) c a b h p q =
    BitsSwap-int op 32 int_const l r a b c h
BitsSwap-fold host op (int64_const l) (int64_const r) c a b h p q =
    BitsSwap-int op 64 int64_const l r a b c h
BitsSwap-fold host op (bool_const l) (bool_const r) c a b h p q =
    subst (λ z. BitsSwap op z b) (some-injective (bool_word l) a p)
      (subst (BitsSwap op (bool_word l)) (some-injective (bool_word r) b q) (BitsSwap-bool op l r))
BitsSwap-fold host op (float_const l) r c a b h p q = absurd (cc)
BitsSwap-fold host op (double_const l) r c a b h p q = absurd (cc)
BitsSwap-fold host op l r c a b h p q = absurd (cc)

module _ (host : Host) (call : String → Machine → Result Machine) (cx : Context) (s : Machine)
    (op : InstOp) (w : Bool) (id a b v : ℕ) (id_lt : id < 32) where
  -- The three forms.
  pub operands-Selects :
      (lhs rhs : Value) (l r : ConstexprValue)
      → Holds cx s lhs l
      → Holds cx s rhs r
      → Fits op lhs rhs a b
      → BitsSwap op a b
      → a < 2 ^ 64
      → b < 2 ^ 64
      → extract_imm l ≡ some a
      → extract_imm r ≡ some b
      → op_word op w a b ≡ some v
      → Selects host call
          (operands op false w id (lookup_reg cx lhs) (lookup_reg cx rhs) lhs rhs)
          s
          id
          v
  unfolding operands
  operands-Selects (left_value x) (left_value y) l r (in_register _ i _ e lt n m f t)
        (in_register _ j _ e' lt' n' m' f' t') k bits la lb p q h =
      let pa : s.regs i ≡ a = some-injective (s.regs i) a (sym f ∙ p) in
      let pb : s.regs j ≡ b = some-injective (s.regs j) b (sym f' ∙ q) in
      rw (e, e', gpr-lt id id_lt, gpr-lt i lt, gpr-lt j lt')
        (int_reg_reg-Selects host call op w id i j v s (
          subst (λ z. op_word op w z (s.regs j) ≡ some v) (sym pa)
            (subst (λ z. op_word op w a z ≡ some v) (sym pb) h)))
  operands-Selects (left_value x) (const_value _) l r (in_register _ i _ e lt n m f t) (constant _)
        k bits la lb p q h =
      let pa : s.regs i ≡ a = some-injective (s.regs i) a (sym f ∙ p) in
      rw (e, q, gpr-lt id id_lt, gpr-lt i lt)
        (int_reg_const-Selects host call s id i b v n m op w lb k
          (subst (λ z. op_word op w z b ≡ some v) (sym pa) h))
  operands-Selects (const_value _) (left_value y) l r (constant _) (in_register _ j _ e lt n m f t)
        k bits la lb p q h =
      let pb : s.regs j ≡ b = some-injective (s.regs j) b (sym f ∙ q) in
      rw (e, p, gpr-lt id id_lt, gpr-lt j lt)
        (int_const_reg-Selects host call s id j a v n m la op w k
          (subst (BitsSwap op a) (sym pb) bits) (subst (λ z. op_word op w a z ≡ some v) (sym pb) h))
  operands-Selects (const_value _) (const_value _) l r (constant _) (constant _) k bits la lb p q
        h =
      absurd k
