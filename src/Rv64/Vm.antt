-- ===== src/Rv64/Vm.antt =====
-- The state of the RV64 virtual machine (src/backend/rv64/vm/vm.hpp) and what it takes from its
-- host: floating-point arithmetic, by bit patterns, and the reading of numbers from the input.
use Prim.Native.String.{String}
use text.Mathlib.Text.{◌==◌ as str_eq}
use ucas_cplab.Common.{
  ℕ, zero, suc, ◌+◌, ◌-◌, ◌*◌, ◌/◌, ◌%◌, ◌^◌, Bool, true, false, Option, none, some, List, [], ◌∷◌,
  ◌++◌, if◌then◌else◌,
}
use ucas_cplab.Rv64.Inst.{Inst, AnyReg, float, general}
use ucas_cplab.Rv64.Memory.{Memory, Result, ok, err, invalid_register, update, ◌>>=◌}
pub mod Float
pub mod Builtin
pub mod Exec
pub mod Program
pub mod Run
pub mod Calls
pub mod Arith

-- IEEE arithmetic and conversions, on the bit patterns of `float` and `double`, and the parts of
-- `std::istream` and `std::stof` that the builtins call: they are not part of the program.
pub record Host : Type 0 where
  pub add_s : ℕ → ℕ → ℕ
  pub sub_s : ℕ → ℕ → ℕ
  pub mul_s : ℕ → ℕ → ℕ
  pub div_s : ℕ → ℕ → ℕ
  pub sqrt_s : ℕ → ℕ
  pub eq_s : ℕ → ℕ → Bool
  pub lt_s : ℕ → ℕ → Bool
  pub le_s : ℕ → ℕ → Bool
  pub add_d : ℕ → ℕ → ℕ
  pub sub_d : ℕ → ℕ → ℕ
  pub mul_d : ℕ → ℕ → ℕ
  pub div_d : ℕ → ℕ → ℕ
  pub sqrt_d : ℕ → ℕ
  pub eq_d : ℕ → ℕ → Bool
  pub lt_d : ℕ → ℕ → Bool
  pub le_d : ℕ → ℕ → Bool
  pub s_to_int32 : ℕ → ℕ
  pub s_to_int64 : ℕ → ℕ
  pub d_to_int32 : ℕ → ℕ
  pub d_to_int64 : ℕ → ℕ
  pub int32_to_s : ℕ → ℕ
  pub int64_to_s : ℕ → ℕ
  pub int32_to_d : ℕ → ℕ
  pub int64_to_d : ℕ → ℕ
  pub d_to_s : ℕ → ℕ
  pub s_to_d : ℕ → ℕ
  -- What is read, and the input that is left.
  pub read_int : List ℕ → ℕ × List ℕ
  pub read_double : List ℕ → ℕ × List ℕ
  pub read_token : List ℕ → List ℕ × List ℕ
  pub stof : List ℕ → ℕ

-- What a builtin prints; the text is the business of the stream.
pub data Output : Type 0 where
  printed_int : ℕ → Output
  printed_float : ℕ → Output
  printed_double : ℕ → Output
  printed_bool : Bool → Output

pub record FlatInst : Type 0 where
  pub inst : Inst
  pub is_call_builtin : Bool
  pub branch_target : ℕ

pub record Machine : Type 0 where
  pub regs : ℕ → ℕ
  pub fregs : ℕ → ℕ
  pub memory : Memory
  pub flat_insts : List FlatInst
  pub label_map : List (String × ℕ)
  pub symbol_map : List (String × ℕ)
  pub call_stack : List ℕ
  pub input : List ℕ
  pub output : List Output
  pub num_insts : ℕ
  pub pc : ℕ

-- The hash maps, as association lists: `find`, and assignment through `operator[]`.
module _ {ℓ} {V : Type ℓ} where
  unfoldable pub lookup : String → List (String × V) → Option V
  lookup k [] = none
  lookup k ((j, v) ∷ m) = if str_eq j k then some v else lookup k m

  unfoldable pub assign : String → V → List (String × V) → List (String × V)
  assign k v [] = (k, v) ∷ []
  assign k v ((j, w) ∷ m) = if str_eq j k then (k, v) ∷ m else (j, w) ∷ assign k v m

abbrev pub set_reg : Machine → ℕ → ℕ → Machine
set_reg s rd v = record s { regs = update s.regs rd v }

-- `get_f`, `get_d`, `set_f`, `set_d`: a `float` is the lower half of its register.
abbrev pub get_f : Machine → ℕ → ℕ
get_f s id = s.fregs id % 2 ^ 32

abbrev pub get_d : Machine → ℕ → ℕ
get_d s id = s.fregs id

abbrev pub set_f : Machine → ℕ → ℕ → Machine
set_f s id v = record s { fregs = update s.fregs id (s.fregs id / 2 ^ 32 * 2 ^ 32 + v % 2 ^ 32) }

abbrev pub set_d : Machine → ℕ → ℕ → Machine
set_d s id v = record s { fregs = update s.fregs id v }

-- The lambda `id` of `exec_fr`.
abbrev pub reg_id : AnyReg → ℕ
reg_id (float r) = r
reg_id (general r) = r

unfoldable pub optional_id : Option AnyReg → Result ℕ
optional_id none = err invalid_register
optional_id (some r) = ok (reg_id r)
