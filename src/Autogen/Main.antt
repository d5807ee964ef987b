-- ===== src/Autogen/Main.antt =====
-- The script scripts/autogen.py: its command line, its table and its generators.
pub mod Confined
pub mod Frame
pub mod Outcome
pub mod Success
use wali_lib.Base.{
  ℕ, zero, suc, Str, lit, Bool, true, false, not, ◌||◌, ◌&&◌, Option, none, some, List, [], ◌∷◌,
  ◌++◌, map, nat_eq, str_eq, ◌==◌, if◌then◌else◌, contains, keep, Result, ok, err, key_error, ◌>>=◌,
}
use wali_lib.Base.Files
use wali_lib.Base.Files.{Run, lift, read_file, ◌>>◌}
use wali_lib.Text.{starts_with, but_last}
use wali_lib.Autogen.Types.{Types, load_types}
use wali_lib.Autogen.Args.{Row}
use wali_lib.Autogen.Stubs.{truthy}
use wali_lib.Autogen.Libc.{gen_libc_stubs}
use wali_lib.Autogen.Wamr.{gen_wamr_stubs}
use wali_lib.Autogen.Wit.{gen_wit_stubs}
use wali_lib.Autogen.ArchDiff.{gen_arch_diff_stubs}
use wali_lib.Autogen.Markdown.{Packages, gen_markdown_stubs}

-- A table as `read_csv` gives it: the names of the columns, and the rows.
abbrev pub Frame : Type 0
Frame = List Str × List Row

-- Whether `.+_NR` is found in the name of a column.
unfoldable pub is_arch_column : Str → Bool
is_arch_column [] = false
is_arch_column (c ∷ s) =
    let rest = is_arch_column s in not (c == b'\n') && starts_with s (lit "_NR") || rest

-- `k[:-3]`
unfoldable pub arch_name : Str → Str
arch_name k = but_last (but_last (but_last k))

-- `parse_csv`, from the data frame: the rows that name a system call, and the architectures.
unfoldable pub parse_csv : Frame → List Row × List Str
parse_csv (columns, rows) =
    (keep (λ x. truthy x.syscall) rows, map arch_name (keep is_arch_column columns))

-- The keys of `stub_classes`.
abbrev pub stub_names : List Str
stub_names = lit "libc" ∷ lit "wamr" ∷ lit "wit" ∷ lit "arch-diff" ∷ lit "markdown" ∷ []

-- The stubs of `parse_args`: `none` is the default `'all'`, where none is named.
unfoldable pub parse_stubs : Option (List Str) → List Str
parse_stubs none = stub_names
parse_stubs (some stubs) = if contains stubs (lit "all") then stub_names else stubs

-- `pd.read_csv` reads a content.
module _ (packages : Packages) (read_csv : Str → Result Frame) where
  -- `stub_classes[stub](Path(stub), syscall_info, archs)`
  unfoldable pub generate : Types → List Row → List Str → Str → Run (Unit {0})
  generate types syscall_info archs stub =
      if stub == lit "libc"
      then gen_libc_stubs types stub syscall_info
      else if stub == lit "wamr"
      then gen_wamr_stubs types stub syscall_info
      else if stub == lit "wit"
      then gen_wit_stubs types stub syscall_info
      else if stub == lit "arch-diff"
      then gen_arch_diff_stubs stub syscall_info archs
      else if stub == lit "markdown"
      then gen_markdown_stubs packages stub syscall_info archs
      else lift (err key_error)

  unfoldable pub generate_all : Types → List Row → List Str → List Str → Run (Unit {0})
  generate_all types syscall_info archs [] = lift (ok tt)
  generate_all types syscall_info archs (stub ∷ stubs) =
      generate types syscall_info archs stub >> generate_all types syscall_info archs stubs

  unfoldable pub main : Types → Str → Option (List Str) → Run (Unit {0})
  main types file stubs = Files.◌>>=◌ (read_file file) λ content.
      Files.◌>>=◌ (lift (read_csv content))
        λ frame. generate_all types (parse_csv frame).0 (parse_csv frame).1 (parse_stubs stubs)

  -- The script: the tables are read when it starts.
  unfoldable pub autogen : Str → Option (List Str) → Run (Unit {0})
  autogen file stubs =
      Files.◌>>=◌ (read_file (lit "templates/primitives.wit.template")) λ primitives.
        Files.◌>>=◌ (read_file (lit "templates/complex.wit.template"))
          λ complex. main (load_types primitives complex) file stubs
