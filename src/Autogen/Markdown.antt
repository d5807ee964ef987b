-- ===== src/Autogen/Markdown.antt =====
-- `gen_markdown_stubs` of scripts/autogen.py: the list of the supported and unsupported system calls.
pub mod Support
pub mod Success
use wali_lib.Base.{
  ℕ, zero, suc, Str, lit, Bool, true, false, not, Option, none, some, List, [], ◌∷◌, ◌++◌, map,
  str_eq, ◌==◌, if◌then◌else◌, contains, add, add_all, keep, difference, length, Result, ok, err,
  key_error, traverse, ◌>>=◌,
}
use wali_lib.Base.Dict.{Dict, lookup}
use wali_lib.Base.Files
use wali_lib.Base.Files.{Run, lift, read_file, write_file}
use wali_lib.Text.{join, replace}
use wali_lib.Text.Decimal.{show}
use wali_lib.Autogen.Args.{Row, cells}
use wali_lib.Autogen.Stubs.{truthy}
use wali_lib.Autogen.Wit.{sorted}

-- What the generator takes from other packages: the names of the calls of an architecture by the
-- package `system_calls` (`none` for one that it does not know), and the table that `to_markdown`
-- prints of the rows of a data frame.
pub record Packages : Type 0 where
  pub calls_of : Str → Option (List Str)
  pub to_markdown : List (List Str) → Str

-- `arch_remap[x] if x in arch_remap else x`
unfoldable pub remapped : Str → Str
remapped x = if x == lit "aarch64" then lit "arm64" else x

-- The set of the architectures, under the names of the package.
unfoldable pub arch_supp : List Str → List Str
arch_supp archs = add_all [] (map remapped (archs ++ lit "x86_64" ∷ []))

-- `supp_set`: the calls that a row with a count has.
unfoldable pub counted_calls : List Row → List Str
counted_calls [] = []
counted_calls (s ∷ rows) =
    let rest = counted_calls rows in if truthy s.nargs then s.syscall ∷ rest else rest

unfoldable pub supp_set : List Row → List Str
supp_set syscall_info = add_all [] (counted_calls syscall_info)

-- `set().union(*sets)`
unfoldable pub union : List Str → List (List Str) → List Str
union s [] = s
union s (t ∷ sets) = union (add_all s t) sets

-- `df[df['Syscall'].isin(supp_set)]`
unfoldable pub supp_rows : List Row → List Row
supp_rows syscall_info = keep (λ row. contains (supp_set syscall_info) row.syscall) syscall_info

-- The columns `Syscall`, `# Args` and `a1` to `a6` of a row.
unfoldable pub format_row : Row → Result (List Str)
format_row row = do args ← cells 6 row.args; ok (row.syscall ∷ row.nargs ∷ args)

-- The data frame of no rows has no columns; the columns of the others are those of each row.
unfoldable pub supp_format : List Row → Result (List (List Str))
supp_format [] = err key_error
supp_format (row ∷ rows) = do
  all ← traverse format_row (row ∷ rows)
  traverse format_row (supp_rows (row ∷ rows))

-- `"* {}".format(x)`
unfoldable pub bullet : Str → Str
bullet x = lit "* " ++ x

module _ (packages : Packages) where
  unfoldable pub arch_calls : Str → Result (List Str)
  arch_calls v = elim (packages.calls_of v) [ none ↦ err key_error | some calls ↦ ok calls ]

  -- `sorted(unsupp_set)`
  unfoldable pub unsupported : List Row → List Str → Result (List Str)
  unsupported syscall_info archs = do
    calls ← traverse arch_calls (arch_supp archs)
    ok (sorted (difference (union [] calls) (supp_set syscall_info)))

  unfoldable pub fill_support : Str → List (List Str) → List Str → Str
  fill_support template supp unsupp =
      replace (lit "[[UNSUPPORTED_SYSCALLS_STUB]]")
        (replace (lit "_") (lit "\\_") (join (lit "\n") (map bullet unsupp)))
        (replace (lit "[[SUPPORTED_SYSCALLS_STUB]]")
          (replace (lit "_") (lit "\\_")
            (replace (lit "*") (lit "\\*") (packages.to_markdown supp)))
          (replace (lit "[[NUM_SUPPORTED_SYSCALLS_STUB]]") (show (length supp)) template))

  unfoldable pub gen_markdown_stubs : Str → List Row → List Str → Run (Unit {0})
  gen_markdown_stubs spath syscall_info archs =
      Files.◌>>=◌ (lift (unsupported syscall_info archs)) λ unsupp.
        Files.◌>>=◌ (lift (supp_format syscall_info)) λ supp.
          Files.◌>>=◌ (read_file (lit "templates/support.md.template"))
            λ template. write_file (spath ++ lit "/support.md") (fill_support template supp unsupp)
