-- ===== src/Lib.antt =====
-- The back end of a compiler for a small C-like language, as far as it is modelled here: the type
-- algebra of its intermediate representation (IR); of the IR its control flow graph, the data-flow
-- analyses, the removal of dead blocks, constant folding and strength reduction; the RV64 calling
-- convention, the instruction selector, the RV64 instructions and the passes on them that run before
-- the assembly is written; and the virtual machine that executes them. The passes on the IR rewrite
-- functions; the instruction selector translates them to functions of blocks of instructions; the passes
-- on these rewrite the blocks; the virtual machine flattens them into one list, resolves the labels,
-- and runs the list. The types decide sizes in memory and the registers of arguments.
--
-- Which file models which part:
-- Types: src/backend/ir/type.hpp. `IrType` is the variant `Type`, with `TypeBox` left out. `decay`,
--   `borrow`, `flatten`, `size_of` and `dim_array` are the functions of those names; Types.Subtype has
--   `operator<=` (`subtype`), `operator==` (`type_eq`), `Sum::append` and its constructor (`append_item`,
--   `make_sum`), `Sum::index_of`, `operator|` (`union`) and `constructable`.
-- Abi: src/backend/ir/lowering/abi.hpp (`is_fp`, `reg_of`, `assign_call_regs`) and
--   src/backend/rv64/abi.hpp (`gpr`, `fpr`, `abi_size`, `rv64_abi`).
-- Ir.Inst, Ir.Vars, Ir.Cfg: src/backend/ir/ir.h, src/backend/ir/analysis/utils.hpp and
--   src/backend/ir/analysis/cfg.hpp. A pointer to a block is its number in the function.
-- Ir.Flow: src/backend/ir/analysis/dataflow/framework.hpp. `solve` is the solver, for a `FlowTrait`; Ir.Flow.Set
--   are the sets. The analyses are its clients: Ir.Flow.Termination has the laws of a trait that make the
--   loop end, and Ir.Flow.Rules how to show what holds at its end.
-- Ir.Dominance: src/backend/ir/analysis/dataflow/dominance.hpp, with the tree of src/backend/ir/analysis/dominance.hpp.
-- Ir.Liveness: src/backend/ir/analysis/dataflow/liveness.hpp.
-- Ir.DeadBlock: `DeadBlockElimination` of src/backend/ir/transform/optim/dead_block.hpp.
-- Ir.ConstantFold: src/backend/ir/transform/optim/constant_fold.hpp. `fold_binary` and `fold_unary` are `ConstexprFolder::fold`;
--   Ir.ConstantFold.Pass is `ConstantFolding::propagate` on the blocks of a function.
-- Ir.StrengthReduce: src/backend/ir/transform/optim/strength_reduce.hpp.
-- Ir.Colors: `assign_colors` of src/backend/ir/lowering/regalloc/colorize.hpp, for an interference graph that is a
--   parameter, as are the stack and the coalesced nodes.
-- Rv64.Op, Rv64.Inst: src/backend/rv64/op.hpp and src/backend/rv64/inst.hpp.
-- Rv64.Words: the arithmetic that src/backend/rv64/vm/exec.cpp does on registers.
-- Rv64.Memory: `load` and `store` of src/backend/rv64/vm/vm.hpp and the two memory builtins.
-- Rv64.Vm: `VirtualMachine` as the record `Machine`; Builtin, Float, Exec, Program and Run are the
--   functions of src/backend/rv64/vm/exec.cpp, under their names.
-- Rv64.Isel: src/backend/rv64/isel.hpp. Binary and Translate are `translate_binary`, Unary is `translate_unary`, Frame is
--   `compute_frame`, Exit is `translate_exit`, and Function has `translate_call`, `translate_inst` and
--   `translate_func`. OpWord gives each operator the word that its code leaves in a register, which ties
--   the code to `fold_binary`; Runs, RegReg, Loaded, Immediate, RegConst and ConstReg follow the forms.
-- Rv64.Peephole: src/backend/rv64/optim/peephole.hpp. Rv64.Peephole.Run describes what a block does.
-- Rv64.DeadLabels: src/backend/rv64/optim/label.hpp, `eliminate_labels`.
-- Common has the shared helpers, Examples the theorems at concrete inputs.
--
-- A register, a memory cell and a `size_t` are natural numbers, with the wrap-around of the source
-- written out. An exception is `none` or `err`; an access that passes a bounds check and leaves the
-- memory, which C++ leaves undefined, is the error `outside_memory`. Hash maps are association lists.
--
-- Bounds and fuel: subtyping is recursion on fuel, which `subtype` sets to the sum of the depths of its
-- arguments: each step enters one of them. A run has the instruction limit of the source as its fuel, and
-- the error of the source when it is spent.
-- The rounds of `solve` are fuel as well: a round with a change makes the sum of the ranks of the outputs
-- smaller, so that one round more than this sum is enough. The worklist of `DeadBlockElimination` has one
-- iteration for each block and a last one. The loop of `log2_pow2_impl` halves the value, which is its fuel.
--
-- Not modelled: `place_globals` of the virtual machine (the memory and the symbols that it leaves are
-- inputs of `execute`); floating-point arithmetic, the input stream and `std::stof`, which are the
-- record `Host`; text output. Of the IR, the types of values, the dominance frontier,
-- the other transformations, the use-def chains and what constant folding replaces through them, the
-- lowering, the register allocation but for the choice of the colors, and its virtual machine are outside
-- of this model, as is the front end. Of the instruction selector, the colors, the types of values, the
-- labels of blocks and literals and the reverse post-order of the blocks are arguments, and `lower`, which
-- collects the globals, is left out. Signed overflow of +, - and * in constant folding and in
-- the virtual machine (`exec_r`), which C++ leaves undefined, wraps here. The copies of libraries in deps are not part of the program.
pub mod Common
pub mod Types
pub mod Abi
pub mod Ir
pub mod Rv64
pub mod Examples
