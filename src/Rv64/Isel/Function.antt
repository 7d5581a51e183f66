-- ===== src/Rv64/Isel/Function.antt =====
-- `translate_call`, `translate_inst` and `translate_func` (src/backend/rv64/isel.hpp). The blocks come in the order of
-- `reverse_post_order`, each with its label.
use Prim.Native.String.{String, ◌++◌ as append}
use ucas_cplab.Common.{
  ℕ, ◌+◌, ◌*◌, Bool, false, not, ◌||◌, Option, none, some, List, [], ◌∷◌, ◌++◌, map, if◌then◌else◌,
  ltb, ◌==◌, length, ◌>>=◌,
}
use mathlib.Core.Option
use ucas_cplab.Types.{wrap64}
use ucas_cplab.Abi.{abi_size, rv64_abi, assign_call_regs}
use ucas_cplab.Ir.Inst.{
  NameDef, Value, left_value, const_value, ConstexprValue, void_const, int_const, int64_const,
  float_const, bool_const, double_const, bytes_const, Inst as IrInst, phi_inst, unary_inst,
  binary_inst, call_inst, Block as IrBlock, Func as IrFunc,
}
use ucas_cplab.Rv64.Op.{OpR, OpI, OpFi}
use ucas_cplab.Rv64.Inst.{
  Inst, inst_r, inst_i, inst_fi, pseudo_li, pseudo_j, pseudo_ret, PseudoJOp, general_reg, Block,
  Func,
}
use ucas_cplab.Rv64.Words.{sext, neg64, bool_word}
use ucas_cplab.Rv64.Isel.{
  Context, Code, Alloc, type_of, extract_imm, is_32bit_op, is_fp_op, gpr, reg_t0, reg_t1, reg_sp,
  reg_ft0, fits_i12, low_word, add_reg_imm, resolve_addr, store_inst, load_float_const,
}
use ucas_cplab.Rv64.Isel.Translate.{translate_binary}
use ucas_cplab.Rv64.Isel.Unary.{translate_unary}
use ucas_cplab.Rv64.Isel.Frame.{compute_frame}
use ucas_cplab.Rv64.Isel.Exit.{epilogue_label, block_label, translate_exit}

-- The floating-point scratch register goes to the stack.
abbrev pub store_literal : Bool → ℕ → Code → Code
store_literal single off (load, pool) = (
  load ++ inst_fi (if single then OpFi.fsw else OpFi.fsd) reg_ft0 reg_sp (low_word off) ∷ [],
  pool,
)

-- An argument that goes to the stack, at the offset `off`. A constant that is neither an integer nor a
-- floating-point number is not stored.
unfoldable pub store_arg : Context → Value → ℕ → List ConstexprValue → Option Code
unfolding type_of extract_imm is_fp_op is_32bit_op resolve_addr store_inst load_float_const
    general_reg
store_arg cx (left_value x) off literals = elim (cx.regs x) [
  | none ↦ some ([], literals)
  | some id ↦
      let (pre, base, imm) = resolve_addr reg_sp off in
      Option.map (λ val. (pre ++ store_inst (cx.type_of_left x) val base imm ∷ [], literals))
        (gpr id)
]
store_arg cx (const_value c) off literals = elim (extract_imm c) [
  | some imm ↦
      some (pseudo_li reg_t0 imm ∷ inst_i OpI.sd reg_t0 reg_sp (low_word off) ∷ [], literals)
  | none ↦
      let t = type_of cx (const_value c) in
      if is_fp_op t
      then some (store_literal (is_32bit_op t) off (load_float_const cx c t reg_ft0 literals))
      else some ([], literals)
]

-- The loop over the arguments, with their registers and the offset of the next slot.
unfoldable pub store_args :
    Context → List Value → List (Option ℕ) → ℕ → List ConstexprValue → Option Code
unfolding store_arg
store_args cx [] regs off literals = some ([], literals)
store_args cx (v ∷ vs) [] off literals = none
store_args cx (v ∷ vs) (some r ∷ regs) off literals = store_args cx vs regs off literals
store_args cx (v ∷ vs) (none ∷ regs) off literals = store_arg cx v off literals >>= λ c.
    Option.map (λ d. (c.0 ++ d.0, d.1)) (store_args cx vs regs (wrap64 (off + 8)) c.1)

unfoldable pub translate_call : Context → NameDef → List Value → List ConstexprValue → Option Code
unfolding store_args type_of assign_call_regs
translate_call cx func args literals = do
  regs ← assign_call_regs (map (type_of cx) args) rv64_abi
  code ← store_args cx args regs 0 literals
  some (code.0 ++ pseudo_j PseudoJOp.call (cx.name_of func) ∷ [], code.1)

unfoldable pub translate_inst : Context → IrInst → List ConstexprValue → Option Code
unfolding translate_unary translate_binary translate_call
translate_inst cx (unary_inst op result operand) literals =
    translate_unary cx op result operand literals
translate_inst cx (binary_inst op result lhs rhs) literals =
    translate_binary cx op result lhs rhs literals
translate_inst cx (call_inst result func args) literals = translate_call cx func args literals
translate_inst cx (phi_inst result args) literals = none

unfoldable pub translate_insts : Context → List IrInst → List ConstexprValue → Option Code
unfolding translate_inst
translate_insts cx [] literals = some ([], literals)
translate_insts cx (i ∷ is) literals = translate_inst cx i literals >>= λ c.
    Option.map (λ d. (c.0 ++ d.0, d.1)) (translate_insts cx is c.1)

-- `emit_add_sp`
unfoldable pub add_sp : ℕ → List Inst
unfolding fits_i12
add_sp delta =
    if fits_i12 delta
    then inst_i OpI.addi reg_sp reg_sp (low_word delta) ∷ []
    else pseudo_li reg_t0 delta ∷ inst_r OpR.add reg_sp reg_sp reg_t0 ∷ []

abbrev pub put : OpI → ℕ → ℕ → ℕ → List Inst
put op value base off = pseudo_li reg_t0 value ∷ inst_i op reg_t0 base (low_word off) ∷ []

-- The loop of `emit_store_bytes` over the bytes that are left: words, then a half word, then a byte.
unfoldable pub store_chunks : List ℕ → ℕ → ℕ → List Inst
store_chunks [] base off = []
store_chunks (a ∷ []) base off = put OpI.sb a base off
store_chunks (a ∷ b ∷ []) base off = put OpI.sh (a + 256 * b) base off
store_chunks (a ∷ b ∷ c ∷ []) base off =
    put OpI.sh (a + 256 * b) base off ++ put OpI.sb c base (off + 2)
store_chunks (a ∷ b ∷ c ∷ d ∷ bytes) base off =
    put OpI.sw (sext 32 (a + 256 * (b + 256 * (c + 256 * d)))) base off
    ++ store_chunks bytes base (off + 4)

unfoldable pub store_bytes : List ℕ → ℕ → ℕ → List Inst
unfolding fits_i12 add_reg_imm store_chunks
store_bytes bytes base off =
    if not (fits_i12 off) || not (fits_i12 (wrap64 (off + length bytes)))
    then add_reg_imm reg_t1 base off false ++ store_chunks bytes reg_t1 0
    else store_chunks bytes base off

-- The bits of a scalar.
unfoldable pub scalar_bits : ConstexprValue → Option ℕ
scalar_bits (int_const v) = some (sext 32 v)
scalar_bits (int64_const v) = some v
scalar_bits (float_const v) = some v
scalar_bits (double_const v) = some v
scalar_bits (bool_const v) = some (bool_word v)
scalar_bits void_const = none
scalar_bits (bytes_const v) = none

abbrev pub sized_store : ℕ → OpI
sized_store size =
    if size == 8 then OpI.sd else if size == 4 then OpI.sw else if size == 2 then OpI.sh else OpI.sb

unfoldable pub init_scalar : ℕ → ℕ → ℕ → List Inst
unfolding fits_i12 add_reg_imm
init_scalar value size off =
    pseudo_li reg_t0 value
    ∷ (if fits_i12 off
        then inst_i (sized_store size) reg_t0 reg_sp (low_word off) ∷ []
        else add_reg_imm reg_t1 reg_sp off false ++ inst_i (sized_store size) reg_t0 reg_t1 0 ∷ [])

-- The bytes of an array are as many as its type says.
unfoldable pub init_local : Alloc → ConstexprValue → ℕ → Option (List Inst)
unfolding abi_size store_bytes init_scalar scalar_bits
init_local alloc (bytes_const bytes) off =
    Option.map (λ size. store_bytes bytes reg_sp off) (abi_size alloc.alloc_type)
init_local alloc c off = elim (scalar_bits c) [
  | none ↦ some []
  | some value ↦ Option.map (λ size. init_scalar value size off) (abi_size alloc.alloc_type)
]

unfoldable pub init_locals : Context → List ℕ → Option (List Inst)
unfolding init_local
init_locals cx [] = some []
init_locals cx (a ∷ rest) = elim (cx.alloc a).init [
  | none ↦ init_locals cx rest
  | some c ↦ elim (cx.spill_offsets a) [
    | none ↦ init_locals cx rest
    | some off ↦
        (init_local (cx.alloc a) c off >>= λ is. Option.map (λ js. is ++ js) (init_locals cx rest))
  ]
]

abbrev pub entry_label : String → String
entry_label func = append ".L" (append func "_entry")

unfoldable pub translate_blocks :
    Context
    → String
    → (ℕ → String)
    → List (ℕ × IrBlock)
    → List ConstexprValue
    → Option (List Block × List ConstexprValue)
unfolding translate_insts translate_exit
translate_blocks cx func label [] literals = some ([], literals)
translate_blocks cx func label (b ∷ bs) literals = translate_insts cx b.1.insts literals >>= λ c.
    translate_exit cx func label b.1.exit >>= λ e.
    Option.map (λ d. (record { label = block_label func (label b.0); insts = c.0 ++ e } ∷ d.0, d.1))
      (translate_blocks cx func label bs c.1)

-- The function with its blocks: the entry block before them, and the epilogue.
abbrev pub framed : String → ℕ → List Inst → List Block → Func
unfolding add_sp
framed name total_size init body = record {
  name = name;
  blocks =
      record {
        label = name;
        insts =
            (if ltb 0 total_size then add_sp (neg64 total_size) else [])
            ++ (init ++ pseudo_j PseudoJOp.j (entry_label name) ∷ []);
      }
      ∷ (body
          ++ record {
            label = epilogue_label name;
            insts = (if ltb 0 total_size then add_sp total_size else []) ++ pseudo_ret ∷ [];
          }
            ∷ []);
}

abbrev pub find_slot : List (ℕ × ℕ) → ℕ → Option ℕ
find_slot [] a = none
find_slot ((b, off) ∷ slots) a = if b == a then some off else find_slot slots a

-- `order` is the reverse post-order of the blocks of the function.
unfoldable pub translate_func :
    Context
    → String
    → (ℕ → String)
    → IrFunc
    → (locals params : List ℕ) → (order : List (ℕ × IrBlock)) → List ConstexprValue
    → Option (Func × List ConstexprValue)
unfolding init_locals translate_blocks compute_frame
translate_func cx name label f locals params order literals = do
  frame ← compute_frame cx.alloc f locals params
  let cx' = record cx { spill_offsets = find_slot frame.spill_offsets }
  init ← init_locals cx' locals
  body ← translate_blocks cx' name label order literals
  some (framed name frame.total_size init body.0, body.1)
