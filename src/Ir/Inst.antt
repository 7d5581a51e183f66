-- ===== src/Ir/Inst.antt =====
-- Values, instructions and blocks (src/backend/ir/ir.h, op.hpp). A pointer to a block, a function, a
-- builtin function or an `Alloc` is its number. Types are left out: `operator==` does not look at those
-- of variables, and a constant's is that of its alternative.
use ucas_cplab.Common.{ℕ, ◌≡◌, ◌↔◌, ap, Bool, true, false, ◌&&◌, Option, List, ◌==◌, arith, Eq, map}

pub data NameDef : Type 0 where
  alloc_def : ℕ → NameDef
  func_def : ℕ → NameDef
  builtin_def : ℕ → NameDef

pub data LeftValue : Type 0 where
  named_value : NameDef → LeftValue
  temp_value : (func id : ℕ) → LeftValue
  ssa_value : (alloc version : ℕ) → LeftValue

-- Words and floating point numbers are the numbers with their bits.
pub data ConstexprValue : Type 0 where
  void_const : ConstexprValue
  int_const : ℕ → ConstexprValue
  int64_const : ℕ → ConstexprValue
  float_const : ℕ → ConstexprValue
  bool_const : Bool → ConstexprValue
  double_const : ℕ → ConstexprValue
  bytes_const : List ℕ → ConstexprValue

pub data Value : Type 0 where
  const_value : ConstexprValue → Value
  left_value : LeftValue → Value

pub data UnaryInstOp : Type 0 where
  mov_op not_op neg_op load_op borrow_op borrow_mut_op convert_op : UnaryInstOp

pub data InstOp : Type 0 where
  mul_op div_op mod_op add_op sub_op lt_op gt_op leq_op geq_op eq_op neq_op and_op or_op shl_op
        shrl_op shra_op store_op load_elem_op borrow_elem_op borrow_elem_mut_op :
      InstOp

pub data Inst : Type 0 where
  phi_inst : (result : Option LeftValue) (args : List (ℕ × Value)) → Inst
  unary_inst : (op : UnaryInstOp) (result : Option LeftValue) (operand : Value) → Inst
  binary_inst : (op : InstOp) (result : Option LeftValue) (lhs rhs : Value) → Inst
  call_inst : (result : Option LeftValue) (func : NameDef) (args : List Value) → Inst

pub data Exit : Type 0 where
  return_exit : Value → Exit
  branch_exit : (cond : Value) (true_target false_target : ℕ) → Exit
  jump_exit : (target : ℕ) → Exit

pub record Block : Type 0 where
  pub insts : List Inst
  pub exit : Exit

-- The blocks in order, each with its number; the first is the entrance.
pub record Func : Type 0 where
  pub blocks : List (ℕ × Block)

unfoldable pub block_ids : Func → List ℕ
block_ids f = map (λ b. b.0) f.blocks

-- `operator==` of the three kinds of variables and of the variant of them.
abbrev pub eq_def : NameDef → NameDef → Bool
eq_def (alloc_def a) (alloc_def b) = a == b
eq_def (func_def a) (func_def b) = a == b
eq_def (builtin_def a) (builtin_def b) = a == b
eq_def _ _ = false

abbrev pub eq_left : LeftValue → LeftValue → Bool
eq_left (named_value a) (named_value b) = eq_def a b
eq_left (temp_value f i) (temp_value g j) = f == g && i == j
eq_left (ssa_value a v) (ssa_value b w) = a == b && v == w
eq_left _ _ = false

eq_def_iff : (a b : NameDef) → (eq_def a b ≡ true) ↔ (a ≡ b)
eq_def_iff a b = ground arith

pub eq_left_iff : (a b : LeftValue) → (eq_left a b ≡ true) ↔ (a ≡ b)
eq_left_iff (named_value a) (named_value b) =
    (λ h. ap named_value ((eq_def_iff a b).0 h), λ h. (eq_def_iff a b).1 (cc))
eq_left_iff (temp_value f i) (temp_value g j) = ground arith
eq_left_iff (ssa_value a v) (ssa_value b w) = ground arith
eq_left_iff (named_value a) (temp_value g j) = ground arith
eq_left_iff (named_value a) (ssa_value b w) = ground arith
eq_left_iff (temp_value f i) (named_value b) = ground arith
eq_left_iff (temp_value f i) (ssa_value b w) = ground arith
eq_left_iff (ssa_value a v) (named_value b) = ground arith
eq_left_iff (ssa_value a v) (temp_value g j) = ground arith

instance abbrev pub left_eq : Eq LeftValue
left_eq = record { eqb = eq_left; eqb_iff = eq_left_iff }
