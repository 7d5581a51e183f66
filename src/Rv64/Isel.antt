-- ===== src/Rv64/Isel.antt =====
-- Instruction selection (src/backend/rv64/isel.hpp): what the translations of the single instructions share. A
-- source exception is `none`; an `int64_t` is its pattern of 64 bits, an `int32_t` its pattern of 32.
use Prim.Native.String.{String}
use ucas_cplab.Common.{
  ℕ, ◌+◌, ◌-◌, ◌%◌, ◌^◌, Bool, true, false, ◌||◌, Option, none, some, List, [], ◌∷◌, ◌++◌,
  if◌then◌else◌, ltb, leb, length,
}
use mathlib.Core.Option
use ucas_cplab.Types.{Primitive, IrType, primitive, unit, reference}
use ucas_cplab.Ir.Inst.{
  NameDef, alloc_def, LeftValue, named_value, Value, const_value, left_value, ConstexprValue,
  void_const, int_const, int64_const, float_const, bool_const, double_const, bytes_const,
}
use ucas_cplab.Rv64.Op.{OpR, OpI, OpFi}
use ucas_cplab.Rv64.Inst.{
  Inst, inst_r, inst_i, inst_fi, pseudo_li, pseudo_l, PseudoLOp, general_reg, float_reg,
}
use ucas_cplab.Rv64.Words.{bool_word, sext}
pub mod Binary
pub mod OpWord
pub mod Runs
pub mod RegReg
pub mod Loaded
pub mod Immediate
pub mod RegConst
pub mod ConstReg
pub mod Translate
pub mod Operands
pub mod Correct
pub mod Unary
pub mod UnaryCorrect
pub mod Frame
pub mod Function
pub mod Exit

-- What is read of an `Alloc`; its number stands for the pointer.
pub record Alloc : Type 0 where
  pub name : String
  pub alloc_type : IrType
  pub comptime : Bool
  pub reference : Bool
  pub init : Option ConstexprValue

-- The arguments of the translation: the colors, the types that values carry, the `Alloc`s, the slots of
-- `FrameLayout`, the names of functions, and the label of the literal with a given index.
pub record Context : Type 0 where
  pub regs : LeftValue → Option ℕ
  pub type_of_left : LeftValue → IrType
  pub type_of_bytes : List ℕ → IrType
  pub alloc : ℕ → Alloc
  pub spill_offsets : ℕ → Option ℕ
  pub name_of : NameDef → String
  pub literal_label : ℕ → String

-- The instructions that a translation adds, and the literal pool after it: a `FloatLiteral` is its value, and
-- its label is that of its index.
abbrev pub Code : Type 0
Code = List Inst × List ConstexprValue

abbrev pub lookup_reg : Context → Value → Option ℕ
lookup_reg cx (left_value v) = cx.regs v
lookup_reg cx (const_value c) = none

unfoldable pub type_of_const : Context → ConstexprValue → IrType
type_of_const cx void_const = unit
type_of_const cx (int_const v) = primitive Primitive.int32
type_of_const cx (int64_const v) = primitive Primitive.int
type_of_const cx (float_const v) = primitive Primitive.float32
type_of_const cx (bool_const v) = primitive Primitive.int1
type_of_const cx (double_const v) = primitive Primitive.float64
type_of_const cx (bytes_const v) = cx.type_of_bytes v

unfoldable pub type_of : Context → Value → IrType
unfolding type_of_const
type_of cx (left_value v) = cx.type_of_left v
type_of cx (const_value c) = type_of_const cx c

unfoldable pub extract_imm : ConstexprValue → Option ℕ
extract_imm (int_const v) = some (sext 32 v)
extract_imm (int64_const v) = some v
extract_imm (bool_const v) = some (bool_word v)
extract_imm void_const = none
extract_imm (float_const v) = none
extract_imm (double_const v) = none
extract_imm (bytes_const v) = none

unfoldable pub fits_i12 : ℕ → Bool
fits_i12 imm = ltb imm 2048 || leb (2 ^ 64 - 2048) imm

-- The conversion of an `int64_t` to `int32_t`.
abbrev pub low_word : ℕ → ℕ
low_word imm = imm % 2 ^ 32

unfoldable pub is_32bit_op : IrType → Bool
is_32bit_op (primitive Primitive.int32) = true
is_32bit_op (primitive Primitive.float32) = true
is_32bit_op t = false

unfoldable pub is_fp_op : IrType → Bool
is_fp_op (primitive Primitive.float32) = true
is_fp_op (primitive Primitive.float64) = true
is_fp_op (primitive Primitive.float) = true
is_fp_op t = false

unfoldable pub is_bool_op : IrType → Bool
is_bool_op (primitive Primitive.int1) = true
is_bool_op t = false

unfoldable pub resolve_alloc : Value → Option ℕ
resolve_alloc (left_value (named_value (alloc_def a))) = some a
resolve_alloc v = none

-- `gpr` and `fpr`: the cast keeps the low byte, and the constructor throws on what is no register.
abbrev pub gpr : ℕ → Option ℕ
unfolding general_reg
gpr id = general_reg (id % 256)

abbrev pub fpr : ℕ → Option ℕ
unfolding float_reg
fpr id = float_reg (id % 256)

abbrev pub reg_t0 : ℕ
reg_t0 = 5

abbrev pub reg_t1 : ℕ
reg_t1 = 6

abbrev pub reg_sp : ℕ
reg_sp = 2

abbrev pub reg_ft0 : ℕ
reg_ft0 = 5

abbrev pub int_reg_op : OpR → OpR → Bool → ℕ → ℕ → ℕ → Inst
int_reg_op op64 op32 w rd lhs rhs = inst_r (if w then op32 else op64) rd lhs rhs

unfoldable pub add_reg_imm : ℕ → ℕ → ℕ → Bool → List Inst
unfolding fits_i12
add_reg_imm rd rs imm w =
    if fits_i12 imm
    then inst_i (if w then OpI.addiw else OpI.addi) rd rs (low_word imm) ∷ []
    else pseudo_li reg_t0 imm ∷ int_reg_op OpR.add OpR.addw w rd rs reg_t0 ∷ []

-- The instructions that are added, and the base and the immediate that hold the address.
unfoldable pub resolve_addr : ℕ → ℕ → List Inst × ℕ × ℕ
unfolding fits_i12 add_reg_imm
resolve_addr base offset =
    if fits_i12 offset
    then ([], base, low_word offset)
    else (add_reg_imm reg_t0 base offset false, reg_t0, 0)

-- The slot of an `Alloc` in the frame.
abbrev pub slot_of : Context → Option ℕ → Option ℕ
slot_of cx none = none
slot_of cx (some a) = cx.spill_offsets a

unfoldable pub int_store_op : IrType → OpI
unfolding is_bool_op is_32bit_op
int_store_op t = if is_bool_op t then OpI.sb else if is_32bit_op t then OpI.sw else OpI.sd

-- A register is stored by its type.
unfoldable pub store_inst : IrType → ℕ → ℕ → ℕ → Inst
unfolding is_fp_op is_32bit_op int_store_op
store_inst t val base imm =
    if is_fp_op t
    then inst_fi (if is_32bit_op t then OpFi.fsw else OpFi.fsd) val base imm
    else inst_i (int_store_op t) val base imm

abbrev pub float_load : IrType → OpFi
unfolding is_32bit_op
float_load t = if is_32bit_op t then OpFi.flw else OpFi.fld

-- The literal is added to the pool, and loaded from its label.
unfoldable pub load_float_const : Context → ConstexprValue → IrType → ℕ → List ConstexprValue → Code
unfolding is_32bit_op
load_float_const cx c t dst literals = (
  pseudo_l PseudoLOp.la reg_t0 (cx.literal_label (length literals))
      ∷ inst_fi (float_load t) dst reg_t0 0
      ∷ [],
  literals ++ c ∷ [],
)
