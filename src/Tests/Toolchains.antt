-- ===== src/Tests/Toolchains.antt =====
-- The theorems on toolchains/gen_toolchains.py at an abridged configuration: the tables of
-- toolchains/wali.toml with some of its flags.
use wali_lib.Base.{
  ℕ, Str, lit, Bool, true, false, ◌||◌, none, some, List, [], ◌∷◌, ◌++◌, ◌≡◌, ◌≢◌, ◌↔◌, ◌⊎◌, inl,
  refl, nat_eq, str_eq, ◌==◌, if◌then◌else◌, All, Error, ok, err, system_exit, key_error, traverse,
  arith,
}
use wali_lib.Base.Dict.{lookup, insert}
use wali_lib.Base.Files.{Files}
use wali_lib.Text.{join, split}
use wali_lib.Text.Split.{occurrences}
use wali_lib.Text.Format.{format, format_from, step, name_step, field, is_number, is_elaborate}
use wali_lib.Text.Dedent.{is_blank_char, is_blank, indent_of, indents}
use wali_lib.Toml.{text, flag, other, array, table, Table, empty, end, entry, get, elements}
use wali_lib.Toolchains.{Texts, make_texts, loaded, main, write_texts, write_text}
use wali_lib.Toolchains.Config.{
  Outside, without_vendor, target_novendor, index, get_or, iterate, as_list, as_text, sh_join,
  split_triple, str_of, link_flag, link_flags, ldflags, ldflags_of, warning_flag, read_flags,
  read_settings,
}
use wali_lib.Toolchains.Templates.{makefile_lines, bash_lines, cmake_lines}
use wali_lib.Toolchains.Triple.{
  Parts, AreParts, full, short, target_novendor_iff, target_novendor_exit,
}
use wali_lib.Toolchains.Reading.{Content, IsConfig, array_of, cflags_of}
use wali_lib.Toolchains.Outcome.{with_texts, IsRead, main_atomic}
use wali_lib.Toolchains.Generates.{mk_lines, sh_lines, cm_lines, IsSimple, texts, main_generates}

abbrev triple : Str
triple = lit "wasm32-unknown-linux-muslwali"

triple_run : target_novendor triple ≡ ok (lit "wasm32-linux-muslwali")
unfolding target_novendor without_vendor split join lit nat_eq
triple_run = refl

target_novendor_iff_example :
    (target_novendor triple ≡ ok (lit "wasm32-linux-muslwali"))
    ↔ ((t : Parts) × AreParts t × (triple ≡ full t) × (lit "wasm32-linux-muslwali" ≡ short t))
target_novendor_iff_example = target_novendor_iff triple (lit "wasm32-linux-muslwali")

two_parts : occurrences b'-' (lit "wasm32-wasi") ≢ 3
unfolding occurrences lit nat_eq
two_parts e = cc e

target_novendor_exit_example : target_novendor (lit "wasm32-wasi") ≡ err (system_exit 1)
target_novendor_exit_example = target_novendor_exit (lit "wasm32-wasi") two_parts

-- The table `flags.link`.
abbrev link : Table
link = entry (lit "shared-memory") (flag true) (
    entry (lit "max-memory") (other (lit "2147483648"))
      (entry (lit "undefined") (array (array_of (lit "__walirt_wasm_memory_size" ∷ []))) end))

abbrev target_table : Table
target_table = entry (lit "triple") (text triple) end

abbrev paths : Table
paths = entry (lit "root") (text (lit "build")) (
    entry (lit "llvm") (text (lit "llvm")) (
      entry (lit "sysroot") (text (lit "sysroot"))
        (entry (lit "libcxx") (text (lit "libcxx")) end)))

abbrev flags : Table
flags = entry (lit "extra_cflags") (array (array_of (lit "-O0" ∷ lit "-pthread" ∷ []))) (
    entry (lit "extra_cxxflags") (array empty) (
      entry (lit "warning_cflags") (array (array_of (lit "no-int-conversion" ∷ []))) (
        entry (lit "wasm_features") (array (array_of (lit "-matomics" ∷ [])))
          (entry (lit "link") (table link) end))))

abbrev excerpt : Table
excerpt = entry (lit "target") (table target_table) (
    entry (lit "build_dirs") (table paths)
      (entry (lit "features") (table end) (entry (lit "flags") (table flags) end)))

abbrev content : Content
content = record {
  triple = record {
    arch = lit "wasm32";
    vendor = lit "unknown";
    os = lit "linux";
    env = lit "muslwali";
  };
  root = lit "build";
  llvm = lit "llvm";
  sysroot = lit "sysroot";
  libcxx = lit "libcxx";
  warning_cflags = lit "no-int-conversion" ∷ [];
  wasm_features = lit "-matomics" ∷ [];
  extra_cflags = lit "-O0" ∷ lit "-pthread" ∷ [];
  link = link;
}

abbrev outside : Outside
outside = record {
  parse = λ s. if s == lit "excerpt" then some excerpt else none;
  str_of_list = λ vs. lit "[...]";
  str_of_dict = λ t. lit "{...}";
  format_rest = λ values s. err key_error;
  child = λ directory name. directory ++ b'/' ∷ name;
  filepath = lit "toolchains";
}

opened : ℕ
unfolding str_eq nat_eq lit lookup insert get elements join split traverse is_number is_elaborate
    format format_from step name_step field main write_texts write_text loaded make_texts
    without_vendor target_novendor index get_or iterate as_list as_text sh_join split_triple str_of
    link_flag link_flags ldflags ldflags_of warning_flag read_flags read_settings makefile_lines
    bash_lines cmake_lines is_blank_char is_blank indent_of indents
opened = 0

ldflags_run :
    ldflags outside link
    ≡ lit "-Wl,--shared-memory"
      ∷ lit "-Wl,--max-memory=2147483648"
      ∷ lit "-Wl,--undefined=__walirt_wasm_memory_size"
      ∷ []
unfolding opened
ldflags_run = refl

excerpt-IsConfig : IsConfig excerpt content
unfolding opened
excerpt-IsConfig = record {
  target_table = target_table;
  target_at = refl;
  triple_at = refl;
  triple_parts = ground arith;
  paths = paths;
  paths_at = refl;
  root_at = refl;
  llvm_at = refl;
  sysroot_at = refl;
  libcxx_at = refl;
  flags = flags;
  flags_at = refl;
  warnings_at = inl refl;
  wasm_at = inl refl;
  extra_at = inl refl;
  link_at = inl refl;
}

-- A test of every character.
all_of : (ℕ → Bool) → Str → Bool
all_of p [] = true
all_of p (c ∷ s) = if p c then false else all_of p s

all_of_sound : (p : ℕ → Bool) (s : Str) → all_of p s ≡ true → All (λ c. p c ≡ false) s
unfolding all_of
all_of_sound p [] h = tt
all_of_sound p (c ∷ s) h = (ground arith, all_of_sound p s (ground arith))

every_of : (ℕ → Bool) → List Str → Bool
every_of p [] = true
every_of p (s ∷ ss) = if all_of p s then every_of p ss else false

every_of_sound :
    (p : ℕ → Bool) (ss : List Str) → every_of p ss ≡ true → All (λ s. All (λ c. p c ≡ false) s) ss
unfolding every_of
every_of_sound p [] h = tt
every_of_sound p (s ∷ ss) h = (all_of_sound p s (ground arith), every_of_sound p ss (ground arith))

abbrev is_brace : ℕ → Bool
is_brace c = c == b'{' || c == b'}'

abbrev is_newline : ℕ → Bool
is_newline c = c == b'\n'

checked :
    (all_of is_brace (full content.triple) ≡ true)
    × (every_of is_brace (cflags_of content) ≡ true)
    × (every_of is_brace (ldflags outside link) ≡ true)
    × (every_of is_newline (mk_lines outside content) ≡ true)
    × (every_of is_newline (sh_lines outside content) ≡ true)
    × (every_of is_newline (cm_lines outside content) ≡ true)
unfolding opened all_of every_of
checked = (refl, refl, refl, refl, refl, refl)

excerpt-IsSimple : IsSimple outside content
excerpt-IsSimple = record {
  triple_plain = all_of_sound is_brace (full content.triple) checked.0;
  cflags_plain = every_of_sound is_brace (cflags_of content) checked.1;
  ldflags_plain = every_of_sound is_brace (ldflags outside link) checked.2;
  mk_ok = every_of_sound is_newline (mk_lines outside content) checked.3;
  sh_ok = every_of_sound is_newline (sh_lines outside content) checked.4;
  cm_ok = every_of_sound is_newline (cm_lines outside content) checked.5;
}

abbrev files : Files
files = (lit "toolchains/wali.toml", lit "excerpt") ∷ []

excerpt_facts :
    (lookup (outside.child outside.filepath (lit "wali.toml")) files ≡ some (lit "excerpt"))
    × (outside.parse (lit "excerpt") ≡ some excerpt)
unfolding opened
excerpt_facts = (refl, refl)

main_generates_example :
    main outside files ≡ (ok tt, with_texts outside (texts outside content) files)
main_generates_example =
    main_generates outside content files (lit "excerpt") excerpt excerpt_facts.0 excerpt_facts.1
      excerpt-IsConfig excerpt-IsSimple

main_atomic_example :
    ((e : Error) × (main outside files ≡ (err e, files)))
    ⊎ ((t : Texts) × IsRead outside
          (lookup (outside.child outside.filepath (lit "wali.toml")) files)
          t
        × (main outside files ≡ (ok tt, with_texts outside t files)))
main_atomic_example = main_atomic outside files

-- No configuration.
missing_run : main outside [] ≡ (err (system_exit 1), [])
unfolding opened
missing_run = refl
