-- ===== src/Examples/Selection.antt =====
-- Instruction selection (src/backend/rv64/isel.hpp) and constant folding (src/backend/ir/transform/optim/constant_fold.hpp) at
-- concrete instructions: the temporary `i` has the register 10 + i, and every register holds 8.
use Prim.Native.String.{String}
use ucas_cplab.Common.{
  map, ℕ, ◌+◌, ◌-◌, ◌%◌, ◌^◌, ◌≡◌, ◌≢◌, refl, true, false, Option, none, some, List, [], ◌∷◌, ◌++◌,
  arith,
}
use ucas_cplab.Types.{Primitive, primitive, unit}
use ucas_cplab.Abi.{abi_size}
use ucas_cplab.Ir.Inst.{
  LeftValue, temp_value, Value, const_value, left_value, ConstexprValue, int_const, bool_const,
  UnaryInstOp, InstOp, unary_inst, binary_inst, branch_exit, Func,
}
use ucas_cplab.Ir.Inst
use ucas_cplab.Ir.ConstantFold.{folded, fold_binary, fold_int, fold_unary}
use ucas_cplab.Ir.ConstantFold.Pass.{fold_inst}
use ucas_cplab.Ir.ConstantFold.Identity.{Env}
use ucas_cplab.Ir.ConstantFold.Same.{inst_value, fold_inst-value}
use ucas_cplab.Rv64.Inst.{Inst}
use ucas_cplab.Rv64.Memory.{Result, ok}
use ucas_cplab.Rv64.Vm.{Machine}
use ucas_cplab.Rv64.Peephole.Run.{jumped, exec_block}
use ucas_cplab.Rv64.Isel.{Alloc, Context, type_of_const, extract_imm, fits_i12}
use ucas_cplab.Rv64.Isel.Translate.{translate_binary}
use ucas_cplab.Rv64.Isel.Binary.{int_const_reg}
use ucas_cplab.Rv64.Isel.OpWord.{op_word}
use ucas_cplab.Rv64.Isel.Runs.{Computes}
use ucas_cplab.Rv64.Isel.RegReg.{Selects}
use ucas_cplab.Rv64.Isel.Operands.{Holds, in_register, constant}
use ucas_cplab.Rv64.Isel.Correct.{translate_binary-fold}
use ucas_cplab.Rv64.Isel.ConstReg.{int_const_reg-gt_wrong}
use ucas_cplab.Rv64.Isel.UnaryCorrect.{Translated, translate_unary-fold}
use ucas_cplab.Rv64.Isel.Frame.{outgoing_arg_area, compute_frame}
use ucas_cplab.Rv64.Isel.Frame.Layout.{Consecutive, in_memory, incoming, compute_frame-Consecutive}
use ucas_cplab.Rv64.Isel.Exit.{block_label, translate_exit, translate_exit-branch}
use ucas_cplab.Examples.Machine.{host, machine}

abbrev register_of : LeftValue → Option ℕ
register_of (temp_value func id) = some (10 + id)
register_of x = none

abbrev int_alloc : Alloc
int_alloc = record {
  name = "x";
  alloc_type = primitive Primitive.int32;
  comptime = false;
  reference = true;
  init = none;
}

abbrev context : Context
context = record {
  regs = register_of;
  type_of_left = λ x. primitive Primitive.int32;
  type_of_bytes = λ bs. unit;
  alloc = λ a. int_alloc;
  spill_offsets = λ a. none;
  name_of = λ d. "f";
  literal_label = λ k. "l";
}

abbrev external : String → Machine → Result Machine
external f s = ok s

abbrev temp : ℕ → LeftValue
temp i = temp_value 0 i

temp-Holds : Holds context machine (left_value (temp 0)) (int_const 8)
unfolding extract_imm type_of_const
temp-Holds = in_register (temp 0) 10 (int_const 8) refl (omega arith) refl (omega arith) refl refl

abbrev machine_one : Machine
machine_one = record machine { regs = λ r. 1 }

-- `8 >= 5` with the constant on the right.
translate_binary-fold_example :
    (v : ℕ) × (code : List Inst) × (extract_imm (bool_const true) ≡ some v)
    × (translate_binary context InstOp.geq_op
          (some (temp 2))
          (left_value (temp 0))
          (const_value (int_const 5))
          []
        ≡ some (code, []))
    × Computes host external code machine 12 v
unfolding extract_imm fold_binary fold_int
translate_binary-fold_example =
    translate_binary-fold host external context machine InstOp.geq_op (temp 2) (left_value (temp 0))
      (const_value (int_const 5)) [] (int_const 8) (int_const 5) (bool_const true) 12 8 5 refl
      (omega arith) temp-Holds (constant (int_const 5)) (omega arith) (omega arith) refl refl refl
      refl

translate_unary-fold_example :
    Translated host external context machine
      (temp 2)
      (left_value (temp 0))
      []
      12
      UnaryInstOp.neg_op
      (int_const (2 ^ 32 - 8))
unfolding extract_imm fold_unary type_of_const
translate_unary-fold_example =
    translate_unary-fold host external context machine (temp 2) (left_value (temp 0)) [] 12
      UnaryInstOp.neg_op (int_const 8) (int_const (2 ^ 32 - 8)) 8 refl (omega arith) refl temp-Holds
      (omega arith) tt refl refl

abbrev no_blocks : Func
no_blocks = record { blocks = [] }

compute_frame-Consecutive_example :
    (slots : List (ℕ × ℕ)) × (total : ℕ) × (compute_frame
        (λ a. int_alloc)
        no_blocks
        (0 ∷ 1 ∷ [])
        (2 ∷ [])
      ≡ some (record {
        total_size = total;
        spill_offsets = slots ++ incoming (λ a. int_alloc) (2 ∷ []) total;
      }))
    × (map (λ p. p.0) slots ≡ in_memory (λ a. int_alloc) (0 ∷ 1 ∷ []))
    × Consecutive (λ a. int_alloc) (outgoing_arg_area no_blocks) slots total
    × (total % 16 ≡ 0)
unfolding abi_size outgoing_arg_area
compute_frame-Consecutive_example =
    compute_frame-Consecutive (λ a. int_alloc) no_blocks (0 ∷ 1 ∷ []) (2 ∷ []) 16 refl (omega arith)

abbrev eights : Env
eights x = int_const 8

abbrev add_zero : Inst.Inst
add_zero =
    binary_inst InstOp.add_op (some (temp 2)) (left_value (temp 0)) (const_value (int_const 0))

abbrev move_x : Inst.Inst
move_x = unary_inst UnaryInstOp.mov_op (some (temp 2)) (left_value (temp 0))

fold_inst-value_example : inst_value host eights 0 move_x ≡ folded (int_const 8)
unfolding fold_inst fold_binary fold_int
fold_inst-value_example =
    fold_inst-value host eights (λ a b. false) 0 add_zero move_x (int_const 8) refl
      (omega arith, omega arith) (omega arith) refl

int_const_reg-gt_wrong_example :
    (u : ℕ) × Selects host external (int_const_reg InstOp.gt_op true 12 10 5000) machine 12 u
    × (u ≢ 1)
unfolding fits_i12 op_word
int_const_reg-gt_wrong_example =
    int_const_reg-gt_wrong host external machine true 12 10 5000 1 refl (omega arith) (omega arith)
      refl (omega arith) refl

translate_exit-branch_example :
    (code : List Inst) × (translate_exit context "f"
        (λ b. "l")
        (branch_exit (left_value (temp 0)) 1 2)
      ≡ some code)
    × (exec_block host external code machine_one ≡ ok (jumped (block_label "f" "l") machine_one))
translate_exit-branch_example =
    translate_exit-branch host external context machine_one "f" (λ b. "l") (temp 0) 1 2 10 true refl
      (omega arith) refl
