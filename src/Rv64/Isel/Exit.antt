-- ===== src/Rv64/Isel/Exit.antt =====
-- `translate_exit` (src/backend/rv64/isel.hpp), and where the code goes.

use Prim.Native.String.{String, ◌++◌}
use ucas_cplab.Common.{
  ℕ, ◌<◌, ◌≡◌, refl, Bool, true, false, Option, some, List, [], ◌∷◌, if◌then◌else◌, ◌>>=◌,
}
use ucas_cplab.Ir.Inst.{LeftValue, left_value, Exit, return_exit, branch_exit, jump_exit}
use ucas_cplab.Rv64.Inst.{Inst, pseudo_b, pseudo_j, PseudoBOp, PseudoJOp, general_reg}
use ucas_cplab.Rv64.Words.{bool_word}
use ucas_cplab.Rv64.Memory.{Result, ok}
use ucas_cplab.Rv64.Vm.{Host, Machine}
use ucas_cplab.Rv64.Peephole.Run.{jumped, exec_then, exec_block}
use ucas_cplab.Rv64.Isel.{Context, lookup_reg, gpr}
use ucas_cplab.Rv64.Isel.Operands.{gpr-lt}

-- The label of a block, and those of the first and the last block of a function.
abbrev pub block_label : String → String → String
block_label func label = ".L" ++ func ++ "_" ++ label

abbrev pub epilogue_label : String → String
epilogue_label func = ".L" ++ func ++ "_epilogue"

-- `label` gives the label of the block with a number.
unfoldable pub translate_exit : Context → String → (ℕ → String) → Exit → Option (List Inst)
unfolding general_reg
translate_exit cx func label (return_exit exp) =
    some (pseudo_j PseudoJOp.j (epilogue_label func) ∷ [])
translate_exit cx func label (jump_exit target) =
    some (pseudo_j PseudoJOp.j (block_label func (label target)) ∷ [])
translate_exit cx func label (branch_exit cond true_target false_target) = do
  id ← lookup_reg cx cond
  rs ← gpr id
  some (
      pseudo_b PseudoBOp.bnez rs (block_label func (label true_target))
      ∷ pseudo_j PseudoJOp.j (block_label func (label false_target))
      ∷ [])

-- A branch on a variable whose register has the word of `b`: there is code, and it jumps to the block of
-- the first target if `b` holds, to that of the second if not, and changes nothing.
pub translate_exit-branch :
    (host : Host) (call : String → Machine → Result Machine) (cx : Context) (s : Machine)
    (func : String) (label : ℕ → String) (x : LeftValue) (t f r : ℕ) (b : Bool)
    → cx.regs x ≡ some r
    → r < 32
    → s.regs r ≡ bool_word b
    → (code : List Inst) × (translate_exit cx func label (branch_exit (left_value x) t f)
        ≡ some code)
      × (exec_block host call code s
          ≡ ok (jumped (block_label func (label (if b then t else f))) s))
unfolding translate_exit exec_block exec_then
translate_exit-branch host call cx s func label x t f r true e lt w = (
  pseudo_b PseudoBOp.bnez r (block_label func (label t))
      ∷ pseudo_j PseudoJOp.j (block_label func (label f))
      ∷ [],
  rw (e, gpr-lt r lt) refl,
  rw w refl,
)
translate_exit-branch host call cx s func label x t f r false e lt w = (
  pseudo_b PseudoBOp.bnez r (block_label func (label t))
      ∷ pseudo_j PseudoJOp.j (block_label func (label f))
      ∷ [],
  rw (e, gpr-lt r lt) refl,
  rw w refl,
)
