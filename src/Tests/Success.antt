-- ===== src/Tests/Success.antt =====
-- A table and templates with which scripts/autogen.py finishes.
use wali_lib.Base.{
  All, ◌++◌, false, diverges, traverse, ℕ, Str, lit, true, List, none, some, [], ◌∷◌, ◌≡◌, inl, inr,
  refl, arith, str_eq, nat_eq, ◌==◌, if◌then◌else◌, contains, keep, add, add_all, Result, ok, err,
  key_error,
}
use wali_lib.Base.Dict.{lookup, has, insert, update, keys, values}
use wali_lib.Base.Files.{Files}
use wali_lib.Text.{
  join, is_space, last?, but_last, starts_with, strip, strip_left, strip_right, replace_char,
}
use wali_lib.Text.Decimal.{read_int, signed, digit_run, negate, pos}
use wali_lib.Autogen.Types.{
  Types, load_types, parse_type_file, find_types, match_type, drop_prefix, name_group, name_run,
  skip_spaces, to_last_semicolon, sub, basic_types_onto, complex_value, complex_types_onto,
  combined_types, wit_primitives,
}
use wali_lib.Autogen.Args.{
  Row, cells, is_primitive, get_scargs, row_args, resolve_arg, last_char, get_or_undef,
}
use wali_lib.Autogen.Args.Fit.{primitive, entry, IsFitTypes, IsCounted}
use wali_lib.Autogen.Stubs.Laws.{StubsOf}
use wali_lib.Autogen.Libc.{def_stub, case_stub, rust_def_stub, rust_match_stub, gen_libc_stubs}
use wali_lib.Autogen.Libc.Laws.{is_counted}
use wali_lib.Autogen.Libc.Outcome.{with_stubs, gen_libc_stubs-StubsOf}
use wali_lib.Autogen.Libc.Partial.{HasCells, MeetsUnknown, gen_libc_stubs_partial}
use wali_lib.Autogen.Markdown.{Packages, remapped}
use wali_lib.Autogen.Main.{Frame, is_arch_column, arch_name, parse_csv, parse_stubs, autogen}
use wali_lib.Autogen.Main.Success.{IsFitTable, HasTemplates, autogen_succeeds}

abbrev packages : Packages
packages = record {
  calls_of = λ v. if v == lit "arm64" then some (lit "openat" ∷ []) else some (lit "open" ∷ []);
  to_markdown = λ rows. [];
}

abbrev primitives : Str
primitives = lit "type int = s32;\ntype unsigned-int = u32;\n"

abbrev complex : Str
complex = lit "type size-t = unsigned-int;\n"

abbrev counted : Row
counted = record {
  nr = lit "0";
  syscall = lit "read";
  nargs = lit "3";
  args = lit "int" ∷ lit "void*" ∷ lit "size_t" ∷ [] ∷ [] ∷ [] ∷ [];
  aliases = [];
  arch_nrs = (lit "aarch64", lit "63") ∷ [];
}

abbrev uncounted : Row
uncounted = record {
  nr = lit "57";
  syscall = lit "fork";
  nargs = [];
  args = [] ∷ [] ∷ [] ∷ [] ∷ [] ∷ [] ∷ [];
  aliases = [];
  arch_nrs = (lit "aarch64", []) ∷ [];
}

abbrev frame : Frame
frame = (lit "NR" ∷ lit "aarch64_NR" ∷ [], counted ∷ uncounted ∷ [])

abbrev read_csv : Str → Result Frame
read_csv content = if content == lit "the table" then ok frame else err key_error

abbrev files : Files
files =
    (lit "table.csv", lit "the table")
    ∷ (lit "templates/primitives.wit.template", primitives)
    ∷ (lit "templates/complex.wit.template", complex)
    ∷ (lit "templates/records.wit.template", [])
    ∷ (lit "templates/wali.wit.template", [])
    ∷ (lit "templates/support.md.template", [])
    ∷ []

opened : ℕ
unfolding str_eq nat_eq lit lookup has insert update keys values contains keep add add_all is_space
    last? but_last starts_with strip strip_left strip_right replace_char read_int signed digit_run
    negate load_types parse_type_file find_types match_type drop_prefix name_group name_run
    skip_spaces to_last_semicolon sub basic_types_onto complex_value complex_types_onto
    combined_types wit_primitives cells is_primitive remapped is_arch_column arch_name parse_csv
    parse_stubs
opened = 0

fit_types : IsFitTypes (load_types primitives complex)
unfolding opened
fit_types = record { named = refl; apart = (refl, (refl, tt)) }

fit_counted : IsCounted (load_types primitives complex) counted
unfolding opened
fit_counted = record {
  count = 3;
  counted = refl;
  args = lit "int" ∷ lit "void*" ∷ lit "size_t" ∷ [];
  listed = refl;
  fit = (
    ((λ e. cc), inr (inl refl)),
    (
      ((λ e. cc), inl refl),
      (
        (
          (λ e. cc),
          inr (
              inr (
                lit "unsigned int",
                refl,
                (λ e. cc),
                entry (lit "unsigned int") (lit "u32") refl (primitive (lit "u32") refl),
              )),
        ),
        tt,
      ),
    ),
  );
}

fit_table :
    IsFitTable packages (load_types primitives complex) (parse_csv frame).0 (parse_csv frame).1
unfolding opened
fit_table = record {
  nonempty = λ e. cc;
  args = (inr fit_counted, (inl refl, tt));
  columns = (omega arith, (omega arith, tt));
  numbered = (((lit "63", refl, inr (pos 63, refl)), tt), ((([], refl, inl refl), tt), tt));
  known = (refl, (refl, tt));
}

templates : HasTemplates files
unfolding opened
templates = record {
  record_content = [];
  records_at = refl;
  template = [];
  template_at = refl;
  support = [];
  support_at = refl;
}

autogen_succeeds_example : (autogen packages read_csv (lit "table.csv") none files).0 ≡ ok tt
unfolding opened
autogen_succeeds_example =
    autogen_succeeds packages read_csv (lit "table.csv") primitives complex (lit "the table") frame
      none files refl refl refl refl fit_types fit_table templates tt

abbrev types : Types
types = load_types primitives complex

gen_libc_stubs-StubsOf_example :
    (defs cases rust_defs matches : List Str) × StubsOf types
      (def_stub types)
      (λ _. true)
      (counted ∷ uncounted ∷ [])
      defs
    × StubsOf types (case_stub types) is_counted (counted ∷ uncounted ∷ []) cases
    × StubsOf types (rust_def_stub types) is_counted (counted ∷ uncounted ∷ []) rust_defs
    × StubsOf types (rust_match_stub types) (λ _. true) (counted ∷ uncounted ∷ []) matches
    × (gen_libc_stubs types (lit "libc") (counted ∷ uncounted ∷ []) files
        ≡ (ok tt, with_stubs types (lit "libc") defs cases rust_defs matches files))
gen_libc_stubs-StubsOf_example =
    gen_libc_stubs-StubsOf types (lit "libc") (counted ∷ uncounted ∷ []) files fit_types
      (inr fit_counted, (inl refl, tt))

-- Its type is in no template.
abbrev strange : Row
strange = record {
  nr = lit "68";
  syscall = lit "msgget";
  nargs = lit "2";
  args = lit "int" ∷ lit "key_t" ∷ [] ∷ [] ∷ [] ∷ [] ∷ [];
  aliases = [];
  arch_nrs = (lit "aarch64", lit "186") ∷ [];
}

undef_facts :
    (lookup (lit "UNDEF") (combined_types types) ≡ none)
    × (is_primitive types (lit "UNDEF") ≡ false)
unfolding opened
undef_facts = (refl, refl)

readable : All (HasCells types) (counted ∷ strange ∷ uncounted ∷ [])
unfolding opened get_scargs row_args traverse resolve_arg last_char get_or_undef
readable = (
  (_, refl, ((λ e. cc), ((λ e. cc), ((λ e. cc), tt)))),
  ((_, refl, ((λ e. cc), ((λ e. cc), tt))), (([], refl, tt), tt)),
)

meets : MeetsUnknown types strange
unfolding opened get_scargs row_args traverse resolve_arg last_char get_or_undef
meets = record {
  given = λ e. cc;
  known = lit "int" ∷ [];
  unknown = lit "UNDEF";
  others = [];
  read = refl;
  are_known =
      (((λ e. cc), inr (entry (lit "int") (lit "s32") refl (primitive (lit "s32") refl))), tt);
  is_unknown = ((b'F', refl, (λ e. cc)), undef_facts.0, undef_facts.1);
}

gen_libc_stubs_partial_example :
    (defs cases : List Str) × StubsOf types
      (def_stub types)
      (λ _. true)
      (counted ∷ strange ∷ uncounted ∷ [])
      defs
    × StubsOf types (case_stub types) is_counted (counted ∷ strange ∷ uncounted ∷ []) cases
    × (gen_libc_stubs types (lit "libc") (counted ∷ strange ∷ uncounted ∷ []) files ≡ (
      err diverges,
      insert
          (lit "libc" ++ lit "/case.out")
          (join (lit "\n") cases ++ [])
          (insert (lit "libc" ++ lit "/defs.out") (join (lit "\n") defs ++ []) files),
    ))
gen_libc_stubs_partial_example =
    gen_libc_stubs_partial types fit_types undef_facts.0 undef_facts.1 (lit "libc") (counted ∷ [])
      strange (uncounted ∷ []) files readable (inr fit_counted, tt) meets
