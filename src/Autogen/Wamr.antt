-- ===== src/Autogen/Wamr.antt =====
-- `gen_wamr_stubs` of scripts/autogen.py: the stubs of the runtime WAMR.
pub mod Arity
pub mod Success
use wali_lib.Base.{
  ℕ, suc, ◌+◌, Str, lit, ◌||◌, List, [], ◌∷◌, ◌++◌, map, nat_eq, ◌==◌, length, Result, ok, ◌>>=◌,
  if◌then◌else◌,
}
use wali_lib.Base.Files.{Run, ◌>>◌}
use wali_lib.Text.{join, ends_with, pad_left}
use wali_lib.Text.Decimal.{show}
use wali_lib.Autogen.Types.{Types}
use wali_lib.Autogen.Args.{Row, last_char}
use wali_lib.Autogen.Stubs.{Stub, enumerate, gen_and_write}

-- `', long a{}'.format(i+1)`
unfoldable pub long_param : ℕ → Str → Str
long_param i _ = lit ", long a" ++ show (i + 1)

unfoldable pub declr_stub : Stub
declr_stub nr nargs name fn_name args = ok (
    lit "long wali_syscall_"
    ++ (fn_name
        ++ (lit " (wasm_exec_env_t exec_env"
            ++ (join [] (enumerate 0 long_param args) ++ lit ");"))))

-- `f", a{i+1}" if argty[-1] != '*' else f", MADDR(a{i+1})"`, from the number `i` on.
unfoldable pub call_args : ℕ → List Str → Result (List Str)
call_args i [] = ok []
call_args i (argty ∷ args) = do
  c ← last_char argty
  rest ← call_args (suc i) args
  ok (
      (if c == b'*'
        then lit ", MADDR(a" ++ (show (i + 1) ++ lit ")")
        else lit ", a" ++ show (i + 1))
      ∷ rest)

unfoldable pub impl_stub : Stub
impl_stub nr [] name fn_name args = ok (join (lit "\n") ([] ∷ []))
impl_stub nr (_ ∷ _) name fn_name args = do
  arglist ← call_args 0 args
  ok (
      join (lit "\n") (
        (lit "// " ++ (nr ++ lit " TODO"))
        ∷ (lit "long wali_syscall_"
            ++ (fn_name
                ++ (lit " (wasm_exec_env_t exec_env"
                    ++ (join [] (enumerate 0 long_param args) ++ lit ") {"))))
        ∷ (lit "\tSC(" ++ (nr ++ (lit " ," ++ (fn_name ++ lit ");"))))
        ∷ (lit "\tERRSC(" ++ (fn_name ++ lit ");"))
        ∷ (lit "\tRETURN(__syscall"
            ++ (show (length args) ++ (lit "(SYS_" ++ (fn_name ++ (join [] arglist ++ lit "));")))))
        ∷ lit "}\n"
        ∷ []))

-- The letter of a parameter in the signature of a native symbol: 64 or 32 bits wide.
unfoldable pub param_letter : Str → Str
param_letter x =
    if ends_with x (lit "long long") || ends_with x (lit "long") then lit "I" else lit "i"

unfoldable pub gen_native_args : List Str → Str
gen_native_args args =
    lit "\"(" ++ (join [] (map param_letter args) ++ (lit ")" ++ (lit "I" ++ lit "\"")))

unfoldable pub symbols_stub : Stub
symbols_stub nr [] name fn_name args = ok []
symbols_stub nr (_ ∷ _) name fn_name args = ok (
    lit "\tNSYMBOL ( "
    ++ (pad_left 20 (lit "SYS_" ++ fn_name)
        ++ (lit ", "
            ++ (pad_left 30 (lit "wali_syscall_" ++ fn_name)
                ++ (lit ", " ++ (pad_left 12 (gen_native_args args) ++ lit " ),"))))))

module _ (types : Types) where
  unfoldable pub gen_wamr_stubs : Str → List Row → Run (Unit {0})
  gen_wamr_stubs spath syscall_info =
      gen_and_write types declr_stub syscall_info (spath ++ lit "/declr.out") [] []
      >> gen_and_write types impl_stub syscall_info (spath ++ lit "/impl.out") [] []
      >> gen_and_write types symbols_stub syscall_info (spath ++ lit "/symbols.out") [] []
