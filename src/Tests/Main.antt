-- ===== src/Tests/Main.antt =====
-- Runs of scripts/autogen.py on a small table.
use wali_lib.Base.{
  difference, ℕ, Str, lit, not, ◌&&◌, Option, none, some, List, [], ◌∷◌, map, ◌≡◌, refl, str_eq,
  nat_eq, ◌==◌, if◌then◌else◌, contains, keep, add, add_all, Result, ok, err, key_error, traverse,
}
use wali_lib.Base.Members.{any}
use wali_lib.Base.Dict.{lookup, insert, has}
use wali_lib.Base.Files.{Files}
use wali_lib.Text.{strip, is_space, starts_with, but_last, join, replace}
use wali_lib.Text.Decimal.{show, read_int, read_digits}
use wali_lib.Autogen.Types.{Types}
use wali_lib.Autogen.Args.{Row, cells}
use wali_lib.Autogen.Wit.{before, insert_text, sorted}
use wali_lib.Autogen.Wit.Sorted.{Ascending}
use wali_lib.Autogen.Markdown.{
  Packages, remapped, arch_supp, counted_calls, supp_set, union, supp_rows, format_row, supp_format,
  bullet, arch_calls, unsupported, fill_support, gen_markdown_stubs,
}
use wali_lib.Autogen.Markdown.Support.{on_some, has_count, unsupported-members}
use wali_lib.Autogen.Main.{
  Frame, is_arch_column, arch_name, parse_csv, parse_stubs, generate, generate_all, main, autogen,
}
use wali_lib.Autogen.Main.Frame.{autogen_frame}
use wali_lib.Autogen.ArchDiff.{
  is_undefined, append_to, scan_archs, scan_rows, empty_bufs_onto, empty_bufs, write_bufs,
  gen_arch_diff_stubs,
}
use wali_lib.Autogen.Main.Outcome.Contents.{main_contents}
use wali_lib.Autogen.Main.Outcome.{first_failure, main_outcome}

-- Two architectures, and a table of the names only.
abbrev calls_of : Str → Option (List Str)
calls_of v =
    if v == lit "arm64"
    then some (lit "openat" ∷ lit "read" ∷ [])
    else if v == lit "x86_64"
    then some (lit "open" ∷ lit "read" ∷ lit "fork" ∷ [])
    else none

abbrev first_cell : List Str → Str
first_cell [] = []
first_cell (c ∷ cells) = c

abbrev packages : Packages
packages = record {
  calls_of = calls_of;
  to_markdown = λ rows. join (lit "\n") (map first_cell rows);
}

abbrev row_of : Str → Str → Row
row_of name count = record {
  nr = lit "1";
  syscall = name;
  nargs = count;
  args = [] ∷ [] ∷ [] ∷ [] ∷ [] ∷ [] ∷ [];
  aliases = [];
  arch_nrs = (lit "aarch64", lit "-1") ∷ [];
}

abbrev frame : Frame
frame = (
  lit "NR" ∷ lit "Syscall" ∷ lit "aarch64_NR" ∷ [],
  row_of (lit "read") (lit "0") ∷ row_of (lit "fork") [] ∷ row_of [] [] ∷ [],
)

-- One table is known.
abbrev read_csv : Str → Result Frame
read_csv content = if content == lit "the table" then ok frame else err key_error

abbrev files : Files
files =
    (lit "table.csv", lit "the table")
    ∷ (lit "templates/primitives.wit.template", [])
    ∷ (lit "templates/complex.wit.template", [])
    ∷ (
      lit "templates/support.md.template",
      lit
          "[[NUM_SUPPORTED_SYSCALLS_STUB]]: [[SUPPORTED_SYSCALLS_STUB]]\n[[UNSUPPORTED_SYSCALLS_STUB]]",
    )
    ∷ []

abbrev none_known : Types
none_known = record { basic = []; complex = [] }

opened : ℕ
unfolding str_eq nat_eq lit lookup insert has contains keep add add_all traverse any starts_with
    strip is_space but_last join replace show read_int read_digits cells before insert_text sorted
    remapped arch_supp counted_calls supp_set union difference supp_rows format_row supp_format
    bullet arch_calls unsupported fill_support gen_markdown_stubs is_arch_column arch_name parse_csv
    parse_stubs generate generate_all main autogen is_undefined append_to scan_archs scan_rows
    empty_bufs_onto empty_bufs write_bufs gen_arch_diff_stubs
opened = 0

parsed :
    parse_csv frame
    ≡ (row_of (lit "read") (lit "0") ∷ row_of (lit "fork") [] ∷ [], lit "aarch64" ∷ [])
unfolding opened
parsed = refl

markdown_run :
    lookup
      (lit "markdown/support.md")
      (autogen packages read_csv (lit "table.csv") (some (lit "markdown" ∷ [])) files).1
    ≡ some (lit "1: read\n* fork\n* open\n* openat")
unfolding opened
markdown_run = refl

autogen_frame_example :
    lookup
      (lit "table.csv")
      (autogen packages read_csv
        (lit "table.csv")
        (some (lit "libc" ∷ lit "markdown" ∷ []))
        files).1
    ≡ some (lit "the table")
unfolding opened
autogen_frame_example =
    autogen_frame packages read_csv (lit "table.csv") (lit "table.csv")
      (some (lit "libc" ∷ lit "markdown" ∷ [])) files (refl, (refl, tt))

-- The template of the interface is missing.
main_outcome_example :
    (main packages read_csv none_known
      (lit "table.csv")
      (some (lit "markdown" ∷ lit "wit" ∷ lit "arch-diff" ∷ []))
      files).0
    ≡ first_failure (
        map
          (λ stub.
            (generate packages read_csv none_known
              (parse_csv frame).0
              (parse_csv frame).1
              stub
              files).0)
          (parse_stubs (some (lit "markdown" ∷ lit "wit" ∷ lit "arch-diff" ∷ []))))
unfolding opened
main_outcome_example =
    main_outcome packages read_csv none_known (lit "table.csv")
      (lit "markdown" ∷ lit "wit" ∷ lit "arch-diff" ∷ []) (lit "the table") frame files refl refl
      (refl, (refl, (refl, tt)))

unsupported-members_example :
    (names : List Str) × (unsupported packages (parse_csv frame).0 (lit "aarch64" ∷ []) ≡ ok names)
    × Ascending names
    × ((x : Str)
        → contains names x ≡ (
            on_some packages x (map remapped (lit "aarch64" ∷ lit "x86_64" ∷ []))
            && not (has_count x (parse_csv frame).0)))
unfolding opened
unsupported-members_example =
    unsupported-members packages (parse_csv frame).0 (lit "aarch64" ∷ []) (refl, (refl, tt))

main_contents_example :
    lookup
      (lit "markdown/support.md")
      (main packages read_csv none_known
        (lit "table.csv")
        (some (lit "markdown" ∷ lit "arch-diff" ∷ []))
        files).1
    ≡ lookup
        (lit "markdown/support.md")
        (generate packages read_csv none_known
          (parse_csv frame).0
          (parse_csv frame).1
          (lit "markdown")
          files).1
unfolding opened
main_contents_example =
    main_contents packages read_csv none_known (lit "table.csv")
      (lit "markdown" ∷ lit "arch-diff" ∷ []) (lit "the table") frame files refl refl
      (refl, (refl, tt)) (refl, (refl, tt)) (refl, (refl, tt)) (lit "markdown") refl
      (lit "markdown/support.md") refl
