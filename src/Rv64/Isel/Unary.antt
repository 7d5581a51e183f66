-- ===== src/Rv64/Isel/Unary.antt =====
-- `translate_unary` (src/backend/rv64/isel.hpp).
use ucas_cplab.Common.{
  ℕ, Bool, false, not, ◌&&◌, Option, none, some, List, [], ◌∷◌, ◌++◌, ◌==◌, if◌then◌else◌, ◌>>=◌,
}
use mathlib.Core.Option
use ucas_cplab.Types.{IrType, reference}
use ucas_cplab.Abi.{abi_size}
use ucas_cplab.Ir.Inst.{LeftValue, Value, const_value, left_value, ConstexprValue, UnaryInstOp}
use ucas_cplab.Rv64.Op.{OpFr, OpI}
use ucas_cplab.Rv64.Inst.{
  Inst, inst_fr, inst_i, inst_fi, pseudo_r, pseudo_li, pseudo_l, PseudoROp, PseudoLOp, float,
  general, general_reg,
}
use ucas_cplab.Rv64.Words.{neg64}
use ucas_cplab.Rv64.Isel.{
  Context, Code, Alloc, lookup_reg, type_of, extract_imm, is_32bit_op, is_fp_op, is_bool_op,
  resolve_alloc, gpr, reg_t0, reg_sp, add_reg_imm, resolve_addr, slot_of, load_float_const,
  float_load,
}

-- One instruction on the registers `rd` and `src`; the casts of `gpr` and `fpr` are the same.
abbrev pub on_registers : ℕ → ℕ → (ℕ → ℕ → Inst) → Option (List Inst)
unfolding general_reg
on_registers id src f = do rd ← gpr id; rs ← gpr src; some (f rd rs ∷ [])

abbrev pub float_unary : OpFr → OpFr → IrType → ℕ → ℕ → Inst
unfolding is_32bit_op
float_unary op_d op_s t rd rs =
    inst_fr (if is_32bit_op t then op_s else op_d) (float rd) (float rs) (some (float rs))

-- The address of an `Alloc`: its slot in the frame, or its symbol.
abbrev pub alloc_address : Context → ℕ → ℕ → List Inst
unfolding add_reg_imm
alloc_address cx rd a = elim (cx.spill_offsets a) [
  | some off ↦ add_reg_imm rd reg_sp off false
  | none ↦ pseudo_l PseudoLOp.la rd (cx.alloc a).name ∷ []
]

-- A comptime value is loaded; what is no scalar, by its address.
abbrev pub alloc_value : Context → Bool → ℕ → ℕ → List Inst
unfolding add_reg_imm extract_imm
alloc_value cx fp rd a = elim (cx.alloc a).init [
  | none ↦ alloc_address cx rd a
  | some c ↦
      if not fp && (cx.alloc a).comptime
      then elim (extract_imm c) [
        | some imm ↦ pseudo_li rd imm ∷ []
        | none ↦ pseudo_l PseudoLOp.la rd (cx.alloc a).name ∷ []
      ]
      else alloc_address cx rd a
]

unfoldable pub move_const : Context → Bool → ℕ → ConstexprValue → List ConstexprValue → Option Code
unfolding extract_imm load_float_const type_of general_reg
move_const cx fp id c literals = elim (extract_imm c) [
  | some imm ↦ Option.map (λ rd. (pseudo_li rd imm ∷ [], literals)) (gpr id)
  | none ↦
      if fp
      then Option.map (λ rd. load_float_const cx c (type_of cx (const_value c)) rd literals)
          (gpr id)
      else some ([], literals)
]

unfoldable pub move_left : Context → IrType → ℕ → LeftValue → Option (List Inst)
unfolding is_fp_op is_32bit_op add_reg_imm extract_imm resolve_alloc general_reg
move_left cx t id x = elim (cx.regs x) [
  | some src ↦
      if id == src
      then some []
      else on_registers id src
          (if is_fp_op t then float_unary OpFr.fsgnj_d OpFr.fsgnj_s t else pseudo_r PseudoROp.mv)
  | none ↦ do a ← resolve_alloc (left_value x); rd ← gpr id; some (alloc_value cx (is_fp_op t) rd a)
]

unfoldable pub translate_neg : Context → IrType → ℕ → Value → Option (List Inst)
unfolding is_fp_op is_32bit_op extract_imm general_reg
translate_neg cx t id (left_value x) = do
  src ← cx.regs x
  on_registers id src (
      if is_fp_op t
      then float_unary OpFr.fsgnjn_d OpFr.fsgnjn_s t
      else pseudo_r (if is_32bit_op t then PseudoROp.negw else PseudoROp.neg))
translate_neg cx t id (const_value c) =
    if is_fp_op t
    then none
    else (extract_imm c >>= λ imm. Option.map (λ rd. pseudo_li rd (neg64 imm) ∷ []) (gpr id))

unfoldable pub translate_not : Context → IrType → ℕ → Value → Option (List Inst)
unfolding is_bool_op extract_imm general_reg
translate_not cx t id (left_value x) = do
  src ← cx.regs x
  on_registers id src
      (if is_bool_op t then (λ rd rs. inst_i OpI.xori rd rs 1) else pseudo_r PseudoROp.seqz)
translate_not cx t id (const_value c) = do
  imm ← extract_imm c
  rd ← gpr id
  some (pseudo_li rd (if imm == 0 then 1 else 0) ∷ [])

unfoldable pub int_load_op : IrType → OpI
unfolding is_bool_op is_32bit_op
int_load_op t = if is_bool_op t then OpI.lbu else if is_32bit_op t then OpI.lw else OpI.ld

-- A register is loaded by the type of the element.
unfoldable pub load_inst : IrType → ℕ → ℕ → ℕ → Inst
unfolding is_fp_op is_32bit_op int_load_op
load_inst t rd base imm =
    if is_fp_op t then inst_fi (float_load t) rd base imm else inst_i (int_load_op t) rd base imm

unfoldable pub elem_of : IrType → Option IrType
elem_of (reference elem readonly is_slice) = some elem
elem_of t = none

-- From a symbol: an integer of one byte and a floating-point number through `t0`.
unfoldable pub load_symbol : Alloc → IrType → ℕ → ℕ → List Inst
unfolding is_fp_op is_32bit_op
load_symbol alloc elem rd size =
    if is_fp_op elem
    then pseudo_l PseudoLOp.la reg_t0 alloc.name ∷ inst_fi (float_load elem) rd reg_t0 0 ∷ []
    else if size == 1
    then pseudo_l PseudoLOp.la reg_t0 alloc.name ∷ inst_i OpI.lbu rd reg_t0 0 ∷ []
    else pseudo_l (if size == 8 then PseudoLOp.lgd else PseudoLOp.lgw) rd alloc.name ∷ []

unfoldable pub translate_load : Context → ℕ → Value → Option (List Inst)
unfolding type_of elem_of load_inst load_symbol resolve_addr resolve_alloc abi_size general_reg
translate_load cx id operand = do
  elem ← elem_of (type_of cx operand)
  rd ← gpr id
  elim (slot_of cx (resolve_alloc operand)) [
    | some off ↦
        let (pre, base, imm) = resolve_addr reg_sp off in
        some (pre ++ load_inst elem rd base imm ∷ [])
    | none ↦ elim (lookup_reg cx operand) [
      | some base ↦ Option.map (λ b. load_inst elem rd b 0 ∷ []) (gpr base)
      | none ↦
          (resolve_alloc operand >>= λ a.
          Option.map (load_symbol (cx.alloc a) elem rd) (abi_size (cx.alloc a).alloc_type))
    ]
  ]

-- The opcode of a conversion between floating-point and integer registers.
abbrev pub to_int : Bool → Bool → OpFr
to_int src_double dst_32 =
    if src_double
    then (if dst_32 then OpFr.fcvt_w_d else OpFr.fcvt_l_d)
    else (if dst_32 then OpFr.fcvt_w_s else OpFr.fcvt_l_s)

abbrev pub to_float : Bool → Bool → OpFr
to_float dst_double src_32 =
    if dst_double
    then (if src_32 then OpFr.fcvt_d_w else OpFr.fcvt_d_l)
    else (if src_32 then OpFr.fcvt_s_w else OpFr.fcvt_s_l)

unfoldable pub convert_float : IrType → IrType → ℕ → ℕ → Option (List Inst)
unfolding is_32bit_op general_reg
convert_float src_t dst_t id src =
    if is_32bit_op src_t && not (is_32bit_op dst_t)
    then on_registers id src (λ rd rs. inst_fr OpFr.fcvt_d_s (float rd) (float rs) none)
    else if not (is_32bit_op src_t) && is_32bit_op dst_t
    then on_registers id src (λ rd rs. inst_fr OpFr.fcvt_s_d (float rd) (float rs) none)
    else if id == src
    then some []
    else on_registers id src (float_unary OpFr.fsgnj_d OpFr.fsgnj_s dst_t)

unfoldable pub convert_register : IrType → IrType → ℕ → ℕ → Option (List Inst)
unfolding is_fp_op is_32bit_op convert_float general_reg
convert_register src_t dst_t id src =
    if is_fp_op src_t && is_fp_op dst_t
    then convert_float src_t dst_t id src
    else if is_fp_op src_t
    then on_registers id src (λ rd rs.
      inst_fr (to_int (not (is_32bit_op src_t)) (is_32bit_op dst_t)) (general rd) (float rs) none)
    else if is_fp_op dst_t
    then on_registers id src (λ rd rs.
      inst_fr (to_float (not (is_32bit_op dst_t)) (is_32bit_op src_t)) (float rd) (general rs) none)
    else if is_32bit_op src_t && not (is_32bit_op dst_t)
    then on_registers id src (λ rd rs. inst_i OpI.addiw rd rs 0)
    else on_registers id src (pseudo_r PseudoROp.mv)

unfoldable pub translate_convert : Context → IrType → ℕ → Value → Option (List Inst)
unfolding type_of convert_register resolve_alloc add_reg_imm general_reg
translate_convert cx t id operand = elim (lookup_reg cx operand) [
  | some src ↦ convert_register (type_of cx operand) t id src
  | none ↦ do a ← resolve_alloc operand; rd ← gpr id; some (alloc_address cx rd a)
]

-- Code that adds no literal.
abbrev pub plain : List ConstexprValue → Option (List Inst) → Option Code
plain literals code = Option.map (λ is. (is, literals)) code

-- With the register and the type of the result.
unfoldable pub translate_unary_op :
    Context → UnaryInstOp → IrType → ℕ → Value → List ConstexprValue → Option Code
unfolding move_const move_left translate_neg translate_not translate_load translate_convert is_fp_op
translate_unary_op cx UnaryInstOp.mov_op t id (const_value c) literals =
    move_const cx (is_fp_op t) id c literals
translate_unary_op cx UnaryInstOp.mov_op t id (left_value x) literals =
    plain literals (move_left cx t id x)
translate_unary_op cx UnaryInstOp.neg_op t id operand literals =
    plain literals (translate_neg cx t id operand)
translate_unary_op cx UnaryInstOp.not_op t id operand literals =
    plain literals (translate_not cx t id operand)
translate_unary_op cx UnaryInstOp.load_op t id operand literals =
    plain literals (translate_load cx id operand)
translate_unary_op cx UnaryInstOp.convert_op t id operand literals =
    plain literals (translate_convert cx t id operand)
translate_unary_op cx UnaryInstOp.borrow_op t id operand literals = none
translate_unary_op cx UnaryInstOp.borrow_mut_op t id operand literals = none

unfoldable pub translate_unary :
    Context → UnaryInstOp → Option LeftValue → Value → List ConstexprValue → Option Code
unfolding translate_unary_op
translate_unary cx op none operand literals = none
translate_unary cx op (some result) operand literals = elim (cx.regs result) [
  | none ↦ none
  | some id ↦ translate_unary_op cx op (cx.type_of_left result) id operand literals
]
