-- ===== src/Rv64/Vm/Builtin.antt =====
-- The builtin functions of src/backend/rv64/vm/exec.cpp.
use Prim.Native.String.{String}
use ucas_cplab.Common.{ℕ, not, ◌||◌, Option, List, [], ◌∷◌, ◌++◌, if◌then◌else◌, ◌==◌}
use ucas_cplab.Rv64.Words.{sext}
use ucas_cplab.Rv64.Memory.{Result, ok, err, empty_token, copy_memory, set_memory, ◌>>=◌}
use ucas_cplab.Rv64.Vm.{
  Host, Machine, Output, printed_int, printed_float, printed_double, printed_bool, set_reg, get_f,
  get_d, set_f, set_d, lookup,
}

pub data Builtin : Type 0 where
  print_int print_float print_double print_bool : Builtin
  get_int get_float get_double : Builtin
  memcpy memset : Builtin

abbrev pub print : Machine → Output → Machine
print s o = record s { output = s.output ++ o ∷ [] }

-- The last character, `str.back()`, and what stands before it.
abbrev pub split_last : ℕ → List ℕ → List ℕ × ℕ
split_last c [] = ([], c)
split_last c (d ∷ ds) = let (front, last) = split_last d ds in (c ∷ front, last)

-- `builtin_get_float` drops a suffix `f` or `F` before it reads the number.
unfoldable pub read_float : Host → List ℕ → Result ℕ
read_float h [] = err empty_token
read_float h (c ∷ cs) =
    let (front, last) = split_last c cs in
    ok (if last == b'f' || last == b'F' then h.stof front else h.stof (c ∷ cs))

unfoldable pub call_builtin : Host → Builtin → Machine → Result Machine
unfolding read_float
call_builtin h print_int s = ok (print s (printed_int (s.regs 10)))
call_builtin h print_float s = ok (print s (printed_float (get_f s 10)))
call_builtin h print_double s = ok (print s (printed_double (get_d s 10)))
call_builtin h print_bool s = ok (print s (printed_bool (not (s.regs 10 == 0))))
call_builtin h get_int s =
    let (v, rest) = h.read_int s.input in ok (set_reg (record s { input = rest }) 10 (sext 32 v))
call_builtin h get_float s =
    let (token, rest) = h.read_token s.input in
    do v ← read_float h token; ok (set_f (record s { input = rest }) 10 v)
call_builtin h get_double s =
    let (v, rest) = h.read_double s.input in ok (set_d (record s { input = rest }) 10 v)
call_builtin h memcpy s = do
  m ← copy_memory s.memory (s.regs 10) (s.regs 11) (s.regs 12)
  ok (record s { memory = m })
call_builtin h memset s = do
  m ← set_memory s.memory (s.regs 10) (s.regs 11) (s.regs 12)
  ok (record s { memory = m })

-- The table that `init_builtins` fills.
abbrev pub builtins : List (String × Builtin)
builtins =
    ("print_int", print_int)
    ∷ ("print_float", print_float)
    ∷ ("print_double", print_double)
    ∷ ("print_bool", print_bool)
    ∷ ("get_int", get_int)
    ∷ ("get_float", get_float)
    ∷ ("get_double", get_double)
    ∷ ("memcpy", memcpy)
    ∷ ("memset", memset)
    ∷ []

unfoldable pub find_builtin : String → Option Builtin
find_builtin name = lookup name builtins
