-- ===== src/Autogen/Stubs/Success.antt =====
-- The stubs of a table of fit rows can be made and written.
use wali_lib.Base.{Str, List, ◌≡◌, refl, ap, ok, All, All-map, Returns, traverse-Returns, keep}
use wali_lib.Base.Files.{Finishes}
use wali_lib.Autogen.Types.{Types}
use wali_lib.Autogen.Args.{Row, fn_name_of}
use wali_lib.Autogen.Args.Fit.{IsFitTypes, HasArgs, IsResolved, get_scargs-IsResolved}
use wali_lib.Autogen.Stubs.{Stub, truthy, row_stub, syscall_iter, gen_and_write}
use wali_lib.Autogen.Stubs.Laws.{gen_and_write-ok}

-- A stub function that takes all resolved arguments.
abbrev pub IsTotal : Types → Stub → Type 0
IsTotal types stub =
    (nr nargs name fn_name : Str) (args : List Str)
    → All (IsResolved types) args
    → Returns (stub nr nargs name fn_name args)

module _ (types : Types) (fit : IsFitTypes types) (stub : Stub) (total : IsTotal types stub) where
  pub row_stub-HasArgs :
      (row : Row) → HasArgs types row → (s : Str) × (row_stub types stub row ≡ ok s) × Unit {0}
  unfolding row_stub
  row_stub-HasArgs row h =
      let (args, read, resolved) = get_scargs-IsResolved types fit row h in
      let (s, e) = total row.nr row.nargs row.syscall (fn_name_of row) args resolved in
      (s, rw (row_stub, read) e, tt)

  pub syscall_iter-Returns :
      (rows : List Row) → All (HasArgs types) rows → Returns (syscall_iter types rows stub)
  unfolding syscall_iter
  syscall_iter-Returns rows h =
      let (buf, e, _) =
        traverse-Returns (λ _. Unit {0}) (row_stub types stub) rows
          (All-map (HasArgs types) _ row_stub-HasArgs rows h) in
      (keep truthy buf, rw (syscall_iter, e) refl)

  pub gen_and_write-Finishes :
      (rows : List Row) (path prelude postlude : Str)
      → All (HasArgs types) rows
      → Finishes (gen_and_write types stub rows path prelude postlude)
  gen_and_write-Finishes rows path prelude postlude h files =
      let (buf, e) = syscall_iter-Returns rows h in
      ap (λ p. p.0) (gen_and_write-ok types stub rows path prelude postlude files buf e)
