-- ===== src/Rv64/Isel/OpWord.antt =====
-- The word that the instructions for an integer operator leave in the result register (src/backend/rv64/isel.hpp), and that it
-- is the word of the folded constant (src/backend/ir/transform/optim/constant_fold.hpp).
use Prim.Native.Nat.{bit_and, bit_or}
use ucas_cplab.Common.{
  ℕ, ◌+◌, ◌-◌, ◌*◌, ◌/◌, ◌%◌, ◌^◌, ◌<◌, ◌≡◌, refl, sym, ap, ◌∙◌, subst, Bool, true, false, not,
  ◌&&◌, ◌||◌, Option, none, some, ◌==◌, ltb, ltb→lt, Bool-cases, inl, inr, if◌then◌else◌,
}
use ucas_cplab.Ir.Inst.{
  ConstexprValue, int_const, int64_const, float_const, bool_const, double_const, InstOp,
}
use ucas_cplab.Ir.ConstantFold.{
  unfolded, folded, undefined, fold_binary, fold_int, fold_bool, divided, shifted, overflows,
  signed_div, signed_mod, signed_shift, signed_lt, same_bool,
}
use ucas_cplab.Rv64.Op.{OpR}
use ucas_cplab.Rv64.Words.{bool_word, sext, sub64, slt64}
use ucas_cplab.Rv64.Vm.{Host}
use ucas_cplab.Rv64.Vm.Exec.{alu_r}
use ucas_cplab.Rv64.Isel.{extract_imm}
use ucas_cplab.Rv64.Isel.Binary.Words32.{
  IsInt, addw-fold, subw-fold, mulw-fold, divw-fold, remw-fold, sllw-fold, srlw-fold, sraw-fold,
  slt-signed_lt, sub64-sext,
}
use ucas_cplab.Rv64.Isel.Binary.Words64.{
  div-signed_div, rem-signed_mod, sll-fold, srl-fold, sra-fold, sub64-zero,
}

abbrev pub alu_w : OpR → OpR → Bool → ℕ → ℕ → ℕ
alu_w op64 op32 w a b = alu_r (if w then op32 else op64) a b

-- Addresses and memory are not the business of the integer operators.
unfoldable pub op_word : InstOp → Bool → ℕ → ℕ → Option ℕ
op_word InstOp.add_op w a b = some (alu_w OpR.add OpR.addw w a b)
op_word InstOp.sub_op w a b = some (alu_w OpR.sub OpR.subw w a b)
op_word InstOp.mul_op w a b = some (alu_w OpR.mul OpR.mulw w a b)
op_word InstOp.div_op w a b = some (alu_w OpR.div OpR.divw w a b)
op_word InstOp.mod_op w a b = some (alu_w OpR.rem OpR.remw w a b)
op_word InstOp.shl_op w a b = some (alu_w OpR.sll OpR.sllw w a b)
op_word InstOp.shrl_op w a b = some (alu_w OpR.srl OpR.srlw w a b)
op_word InstOp.shra_op w a b = some (alu_w OpR.sra OpR.sraw w a b)
op_word InstOp.and_op w a b = some (bit_and a b)
op_word InstOp.or_op w a b = some (bit_or a b)
op_word InstOp.lt_op w a b = some (bool_word (slt64 a b))
op_word InstOp.gt_op w a b = some (bool_word (slt64 b a))
op_word InstOp.leq_op w a b = some (bool_word (not (slt64 b a)))
op_word InstOp.geq_op w a b = some (bool_word (not (slt64 a b)))
op_word InstOp.eq_op w a b = some (bool_word (sub64 a b == 0))
op_word InstOp.neq_op w a b = some (bool_word (not (sub64 a b == 0)))
op_word op w a b = none

folded-injective : (c d : ConstexprValue) → folded c ≡ folded d → c ≡ d
folded-injective c d h = cc

undefined-folded : (c : ConstexprValue) → undefined ≡ folded c → ⊥
undefined-folded c h = absurd (cc)

unfolded-folded : (c : ConstexprValue) → unfolded ≡ folded c → ⊥
unfolded-folded c h = absurd (cc)

guarded :
    (by_zero over : Bool) (d c : ConstexprValue)
    → (if by_zero then unfolded else if over then undefined else folded d) ≡ folded c
    → (by_zero ≡ false) × (over ≡ false) × (d ≡ c)
guarded true over d c h = absurd (unfolded-folded c h)
guarded false true d c h = absurd (undefined-folded c h)
guarded false false d c h = (refl, refl, folded-injective d c h)

abbrev pub IsLong : ℕ → Type 0
IsLong v = v < 2 ^ 64

-- The patterns have the width of their types.
abbrev pub InRange : ConstexprValue → Type 0
InRange (int_const v) = IsInt v
InRange (int64_const v) = IsLong v
InRange c = Unit {0}

abbrev pub is_int32 : ConstexprValue → Bool
is_int32 (int_const v) = true
is_int32 c = false

-- From the result of a fold that is a constant, for an operator with a guard.
divided-folded :
    (w : ℕ) (mk : ℕ → ConstexprValue) (l r q : ℕ) (c : ConstexprValue)
    → divided w mk l r q ≡ folded c
    → ((r == 0) ≡ false) × (overflows w l r ≡ false) × (mk q ≡ c)
divided-folded w mk l r q c h = guarded (r == 0) (overflows w l r) (mk q) c h

shifted-folded :
    (w : ℕ) (mk : ℕ → ConstexprValue) (r v : ℕ) (c : ConstexprValue)
    → shifted w mk r v ≡ folded c
    → (r < w) × (mk v ≡ c)
shifted-folded w mk r v c h = elim (Bool-cases (ltb r w)) [
  | inl e ↦ (
    ltb→lt r w e,
    folded-injective (mk v) c (sym (ap (λ b. if b then folded (mk v) else undefined) e) ∙ h),
  )
  | inr e ↦
      absurd (undefined-folded c (sym (ap (λ b. if b then folded (mk v) else undefined) e) ∙ h))
]

-- The word of the folded constant is what the instructions give, with `x` for the result.
abbrev Gives : ConstexprValue → Option ℕ → Type 0
Gives c word = extract_imm c ≡ word

gives : (d c : ConstexprValue) (word : Option ℕ) → d ≡ c → extract_imm d ≡ word → Gives c word
gives d c word e h = subst (λ z. extract_imm z ≡ word) e h

fold_int32-op_word :
    (op : InstOp) (c : ConstexprValue) (l r : ℕ)
    → IsInt l
    → IsInt r
    → fold_int 32 int_const op l r ≡ folded c
    → Gives c (op_word op true (sext 32 l) (sext 32 r))
unfolding fold_int op_word extract_imm alu_r
fold_int32-op_word InstOp.add_op c l r hl hr h =
    gives (int_const ((l + r) % 2 ^ 32)) c _ (folded-injective (int_const ((l + r) % 2 ^ 32)) c h)
      (ap some (sym (addw-fold l r hl hr)))
fold_int32-op_word InstOp.sub_op c l r hl hr h =
    gives (int_const ((l + 2 ^ 32 - r) % 2 ^ 32)) c _
      (folded-injective (int_const ((l + 2 ^ 32 - r) % 2 ^ 32)) c h)
      (ap some (sym (subw-fold l r hl hr)))
fold_int32-op_word InstOp.mul_op c l r hl hr h =
    gives (int_const (l * r % 2 ^ 32)) c _ (folded-injective (int_const (l * r % 2 ^ 32)) c h)
      (ap some (sym (mulw-fold l r hl hr)))
fold_int32-op_word InstOp.div_op c l r hl hr h =
    let (z, o, e) = divided-folded 32 int_const l r (signed_div 32 l r) c h in
    gives (int_const (signed_div 32 l r)) c _ e (ap some (sym (divw-fold l r hl hr z o)))
fold_int32-op_word InstOp.mod_op c l r hl hr h =
    let (z, o, e) = divided-folded 32 int_const l r (signed_mod 32 l r) c h in
    gives (int_const (signed_mod 32 l r)) c _ e (ap some (sym (remw-fold l r hl hr z o)))
fold_int32-op_word InstOp.shl_op c l r hl hr h =
    let (lt, e) = shifted-folded 32 int_const r (l * 2 ^ r % 2 ^ 32) c h in
    gives (int_const (l * 2 ^ r % 2 ^ 32)) c _ e (ap some (sym (sllw-fold l r hl lt)))
fold_int32-op_word InstOp.shrl_op c l r hl hr h =
    let (lt, e) = shifted-folded 32 int_const r (l / 2 ^ r) c h in
    gives (int_const (l / 2 ^ r)) c _ e (ap some (sym (srlw-fold l r hl lt)))
fold_int32-op_word InstOp.shra_op c l r hl hr h =
    let (lt, e) = shifted-folded 32 int_const r (signed_shift 32 l r) c h in
    gives (int_const (signed_shift 32 l r)) c _ e (ap some (sym (sraw-fold l r hl lt)))
fold_int32-op_word InstOp.lt_op c l r hl hr h =
    gives (bool_const (signed_lt 32 l r)) c _ (folded-injective (bool_const (signed_lt 32 l r)) c h)
      (sym (ap (λ b. some (bool_word b)) (slt-signed_lt l r hl hr)))
fold_int32-op_word InstOp.gt_op c l r hl hr h =
    gives (bool_const (signed_lt 32 r l)) c _ (folded-injective (bool_const (signed_lt 32 r l)) c h)
      (sym (ap (λ b. some (bool_word b)) (slt-signed_lt r l hr hl)))
fold_int32-op_word InstOp.leq_op c l r hl hr h =
    gives (bool_const (not (signed_lt 32 r l))) c _
      (folded-injective (bool_const (not (signed_lt 32 r l))) c h)
      (sym (ap (λ b. some (bool_word (not b))) (slt-signed_lt r l hr hl)))
fold_int32-op_word InstOp.geq_op c l r hl hr h =
    gives (bool_const (not (signed_lt 32 l r))) c _
      (folded-injective (bool_const (not (signed_lt 32 l r))) c h)
      (sym (ap (λ b. some (bool_word (not b))) (slt-signed_lt l r hl hr)))
fold_int32-op_word InstOp.eq_op c l r hl hr h =
    gives (bool_const (l == r)) c _ (folded-injective (bool_const (l == r)) c h)
      (sym (ap (λ b. some (bool_word b)) (sub64-sext l r hl hr)))
fold_int32-op_word InstOp.neq_op c l r hl hr h =
    gives (bool_const (not (l == r))) c _ (folded-injective (bool_const (not (l == r))) c h)
      (sym (ap (λ b. some (bool_word (not b))) (sub64-sext l r hl hr)))
fold_int32-op_word InstOp.and_op c l r hl hr h = absurd (unfolded-folded c h)
fold_int32-op_word InstOp.or_op c l r hl hr h = absurd (unfolded-folded c h)
fold_int32-op_word InstOp.store_op c l r hl hr h = absurd (unfolded-folded c h)
fold_int32-op_word InstOp.load_elem_op c l r hl hr h = absurd (unfolded-folded c h)
fold_int32-op_word InstOp.borrow_elem_op c l r hl hr h = absurd (unfolded-folded c h)
fold_int32-op_word InstOp.borrow_elem_mut_op c l r hl hr h = absurd (unfolded-folded c h)

fold_int64-op_word :
    (op : InstOp) (c : ConstexprValue) (l r : ℕ)
    → IsLong l
    → IsLong r
    → fold_int 64 int64_const op l r ≡ folded c
    → Gives c (op_word op false l r)
unfolding fold_int op_word extract_imm alu_r
fold_int64-op_word InstOp.add_op c l r hl hr h =
    gives (int64_const ((l + r) % 2 ^ 64)) c _
      (folded-injective (int64_const ((l + r) % 2 ^ 64)) c h) (refl)
fold_int64-op_word InstOp.sub_op c l r hl hr h =
    gives (int64_const ((l + 2 ^ 64 - r) % 2 ^ 64)) c _
      (folded-injective (int64_const ((l + 2 ^ 64 - r) % 2 ^ 64)) c h) (refl)
fold_int64-op_word InstOp.mul_op c l r hl hr h =
    gives (int64_const (l * r % 2 ^ 64)) c _ (folded-injective (int64_const (l * r % 2 ^ 64)) c h)
      (refl)
fold_int64-op_word InstOp.div_op c l r hl hr h =
    let (z, o, e) = divided-folded 64 int64_const l r (signed_div 64 l r) c h in
    gives (int64_const (signed_div 64 l r)) c _ e (ap some (sym (div-signed_div l r z o)))
fold_int64-op_word InstOp.mod_op c l r hl hr h =
    let (z, o, e) = divided-folded 64 int64_const l r (signed_mod 64 l r) c h in
    gives (int64_const (signed_mod 64 l r)) c _ e (ap some (sym (rem-signed_mod l r z o)))
fold_int64-op_word InstOp.shl_op c l r hl hr h =
    let (lt, e) = shifted-folded 64 int64_const r (l * 2 ^ r % 2 ^ 64) c h in
    gives (int64_const (l * 2 ^ r % 2 ^ 64)) c _ e (ap some (sym (sll-fold l r lt)))
fold_int64-op_word InstOp.shrl_op c l r hl hr h =
    let (lt, e) = shifted-folded 64 int64_const r (l / 2 ^ r) c h in
    gives (int64_const (l / 2 ^ r)) c _ e (ap some (sym (srl-fold l r lt)))
fold_int64-op_word InstOp.shra_op c l r hl hr h =
    let (lt, e) = shifted-folded 64 int64_const r (signed_shift 64 l r) c h in
    gives (int64_const (signed_shift 64 l r)) c _ e (ap some (sym (sra-fold l r lt)))
fold_int64-op_word InstOp.lt_op c l r hl hr h =
    gives (bool_const (signed_lt 64 l r)) c _ (folded-injective (bool_const (signed_lt 64 l r)) c h)
      (refl)
fold_int64-op_word InstOp.gt_op c l r hl hr h =
    gives (bool_const (signed_lt 64 r l)) c _ (folded-injective (bool_const (signed_lt 64 r l)) c h)
      (refl)
fold_int64-op_word InstOp.leq_op c l r hl hr h =
    gives (bool_const (not (signed_lt 64 r l))) c _
      (folded-injective (bool_const (not (signed_lt 64 r l))) c h) (refl)
fold_int64-op_word InstOp.geq_op c l r hl hr h =
    gives (bool_const (not (signed_lt 64 l r))) c _
      (folded-injective (bool_const (not (signed_lt 64 l r))) c h) (refl)
fold_int64-op_word InstOp.eq_op c l r hl hr h =
    gives (bool_const (l == r)) c _ (folded-injective (bool_const (l == r)) c h)
      (sym (ap (λ b. some (bool_word b)) (sub64-zero l r hl hr)))
fold_int64-op_word InstOp.neq_op c l r hl hr h =
    gives (bool_const (not (l == r))) c _ (folded-injective (bool_const (not (l == r))) c h)
      (sym (ap (λ b. some (bool_word (not b))) (sub64-zero l r hl hr)))
fold_int64-op_word InstOp.and_op c l r hl hr h = absurd (unfolded-folded c h)
fold_int64-op_word InstOp.or_op c l r hl hr h = absurd (unfolded-folded c h)
fold_int64-op_word InstOp.store_op c l r hl hr h = absurd (unfolded-folded c h)
fold_int64-op_word InstOp.load_elem_op c l r hl hr h = absurd (unfolded-folded c h)
fold_int64-op_word InstOp.borrow_elem_op c l r hl hr h = absurd (unfolded-folded c h)
fold_int64-op_word InstOp.borrow_elem_mut_op c l r hl hr h = absurd (unfolded-folded c h)

and_bits : (p q : Bool) → bit_and (bool_word p) (bool_word q) ≡ bool_word (p && q)
and_bits true true = refl
and_bits true false = refl
and_bits false true = refl
and_bits false false = refl

or_bits : (p q : Bool) → bit_or (bool_word p) (bool_word q) ≡ bool_word (p || q)
or_bits true true = refl
or_bits true false = refl
or_bits false true = refl
or_bits false false = refl

same_bits : (p q : Bool) → (sub64 (bool_word p) (bool_word q) == 0) ≡ same_bool p q
same_bits true true = refl
same_bits true false = refl
same_bits false true = refl
same_bits false false = refl

fold_bool-op_word :
    (op : InstOp) (c : ConstexprValue) (l r : Bool)
    → fold_bool op l r ≡ folded c
    → Gives c (op_word op false (bool_word l) (bool_word r))
unfolding fold_bool op_word extract_imm
fold_bool-op_word InstOp.and_op c l r h =
    gives (bool_const (l && r)) c _ (folded-injective (bool_const (l && r)) c h)
      (ap some (sym (and_bits l r)))
fold_bool-op_word InstOp.or_op c l r h =
    gives (bool_const (l || r)) c _ (folded-injective (bool_const (l || r)) c h)
      (ap some (sym (or_bits l r)))
fold_bool-op_word InstOp.eq_op c l r h =
    gives (bool_const (same_bool l r)) c _ (folded-injective (bool_const (same_bool l r)) c h)
      (ap (λ b. some (bool_word b)) (sym (same_bits l r)))
fold_bool-op_word InstOp.neq_op c l r h =
    gives (bool_const (not (same_bool l r))) c _
      (folded-injective (bool_const (not (same_bool l r))) c h)
      (ap (λ b. some (bool_word (not b))) (sym (same_bits l r)))
fold_bool-op_word op c l r h = absurd (unfolded-folded c h)

some-injective : (a b : ℕ) → some a ≡ some b → a ≡ b
some-injective a b h = cc

-- If two constants fold to `c`, the operator on their words gives the word of `c`.
pub fold_binary-op_word :
    (host : Host) (op : InstOp) (l r c : ConstexprValue) (a b : ℕ)
    → InRange l
    → InRange r
    → fold_binary host op l r ≡ folded c
    → extract_imm l ≡ some a
    → extract_imm r ≡ some b
    → extract_imm c ≡ op_word op (is_int32 l) a b
unfolding fold_binary extract_imm
fold_binary-op_word host op (int_const l) (int_const r) c a b hl hr h p q =
    rw (← some-injective (sext 32 l) a p, ← some-injective (sext 32 r) b q)
      (fold_int32-op_word op c l r hl hr h)
fold_binary-op_word host op (int64_const l) (int64_const r) c a b hl hr h p q =
    rw (← some-injective l a p, ← some-injective r b q) (fold_int64-op_word op c l r hl hr h)
fold_binary-op_word host op (bool_const l) (bool_const r) c a b hl hr h p q =
    rw (← some-injective (bool_word l) a p, ← some-injective (bool_word r) b q)
      (fold_bool-op_word op c l r h)
fold_binary-op_word host op (float_const l) r c a b hl hr h p q = absurd (cc)
fold_binary-op_word host op (double_const l) r c a b hl hr h p q = absurd (cc)
fold_binary-op_word host op l r c a b hl hr h p q = absurd (cc)
