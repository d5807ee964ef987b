-- ===== src/Autogen/Stubs.antt =====
-- `syscall_iter` and `gen_and_write` of scripts/autogen.py: one stub for each row of the table.
pub mod Laws
pub mod Success
use wali_lib.Base.{
  ℕ, zero, suc, ◌+◌, Str, lit, Bool, true, false, List, [], ◌∷◌, ◌++◌, str_eq, keep, Result, ok,
  err, traverse, ◌>>=◌, if◌then◌else◌,
}
use wali_lib.Base.Files
use wali_lib.Base.Files.{Run, lift, write_file}
use wali_lib.Text.{join}
use wali_lib.Autogen.Types.{Types}
use wali_lib.Autogen.Args.{Row, fn_name_of, get_scargs}

-- A stub function, on `nr`, `nargs`, `name`, `fn_name` and `args`.
abbrev pub Stub : Type 0
Stub = Str → Str → Str → Str → List Str → Result Str

-- The truth value of a text.
abbrev pub truthy : Str → Bool
truthy [] = false
truthy (c ∷ s) = true

-- `[f(i, x) for i, x in enumerate(xs)]`, from the number `i` on.
unfoldable pub enumerate : ℕ → (ℕ → Str → Str) → List Str → List Str
enumerate i f [] = []
enumerate i f (x ∷ xs) = f i x ∷ enumerate (suc i) f xs

module _ (types : Types) where
  -- The stub of one row.
  unfoldable pub row_stub : Stub → Row → Result Str
  row_stub stub row = do
    args ← get_scargs types row true
    stub row.nr row.nargs row.syscall (fn_name_of row) args

  unfoldable pub syscall_iter : List Row → Stub → Result (List Str)
  syscall_iter syscall_info stub = do
    buf ← traverse (row_stub stub) syscall_info
    ok (keep truthy buf)

  -- The stubs are made before the file is opened.
  unfoldable pub gen_and_write : Stub → List Row → Str → Str → Str → Run (Unit {0})
  gen_and_write stub syscall_info outpath prelude postlude =
      Files.◌>>=◌ (lift (syscall_iter syscall_info stub))
        λ buf. write_file outpath (prelude ++ (join (lit "\n") buf ++ postlude))
