-- ===== src/Tests/Wit.antt =====
-- `gen_wit_stubs` of scripts/autogen.py at a row made up for it and small templates.
use wali_lib.Base.{
  true, ◌↔◌, difference, ℕ, ◌+◌, Str, lit, false, none, some, List, [], ◌∷◌, ◌++◌, ◌≡◌, ◌≢◌, ◌⊎◌,
  refl, arith, str_eq, nat_eq, contains, keep, add, add_all, All, Error, ok, err, traverse,
}
use wali_lib.Base.Dict.{lookup, insert, has, update, values, keys}
use wali_lib.Base.Files.{Files}
use wali_lib.Text.{
  is_space, join, last?, but_last, starts_with, ends_with, strip, split, replace, replace_char,
}
use wali_lib.Text.Decimal.{show, read_int, read_digits}
use wali_lib.Autogen.Types.{Types, combined_types, drop_prefix, skip_spaces}
use wali_lib.Autogen.Args.{Row, get_scargs, row_args, cells, last_char, fn_name_of}
use wali_lib.Autogen.Stubs.{truthy, enumerate}
use wali_lib.Autogen.Wit.{
  dashed, ptr_name, is_ptr_type, rep, rep_value, rep_onto, before, insert_text, sorted, type_lines,
  type_if, ptr_line, sc_if, fill_template, wit_param, wit_sc_def, wit_args, scan_methods,
  comp_types, wit_text, gen_wit_stubs,
}
use wali_lib.Autogen.Wit.Arrays.{
  is_digit, digits_from, number_group, close_group, match_array, copies, matchrep, sub_from,
  sub_arrays,
}
use wali_lib.Autogen.Wit.Arrays.Tuples.{HasNoArray, IsType, array_text, sub_arrays-array_text}
use wali_lib.Autogen.Wit.Sorted.{Ascending}
use wali_lib.Autogen.Wit.Methods.{Methods, uses_pointer, scan_methods-uses_pointer}
use wali_lib.Autogen.Wit.Records.{
  word_run, match_record, find_records, record_types, wants_record, sc_ptr_types, missing_types,
}
use wali_lib.Autogen.Wit.Records.Missing.{pointer_to, declared, missing_types_iff}
use wali_lib.Autogen.Wit.Records.Blocks.{Block, IsBlock, IsFree, template_of, names}
use wali_lib.Autogen.Wit.Outcome.{IsMade, gen_wit_stubs_atomic}
use wali_lib.Autogen.Wit.Names.{IsDashed, wit_names-IsDashed}

abbrev excerpt : Types
excerpt = record {
  basic = (lit "int", lit "s32") ∷ [];
  complex = (lit "size_t", lit "unsigned int") ∷ (lit "sigset_t", lit "Array[3, u8]") ∷ [];
}

abbrev row_of : Str → Str → List Str → Row
row_of name count args = record {
  nr = lit "1";
  syscall = name;
  nargs = count;
  args = args;
  aliases = [];
  arch_nrs = [];
}

abbrev read_row : Row
read_row = row_of (lit "read_at") (lit "3") (lit "int" ∷ lit "struct stat*" ∷ lit "size_t" ∷ [])

abbrev rows : List Row
rows = read_row ∷ row_of (lit "mincore") [] [] ∷ []

abbrev files : Files
files =
    (lit "templates/records.wit.template", lit "record stat {}\n")
    ∷ (lit "templates/wali.wit.template", lit "[[TYPES_STUB]]\n[[SYSCALLS_STUB]]\n")
    ∷ []

opened : ℕ
unfolding str_eq nat_eq lit insert lookup has update values keys contains keep add add_all traverse
    is_space join last? but_last starts_with ends_with strip split replace replace_char show
    read_int read_digits combined_types drop_prefix skip_spaces get_scargs row_args cells last_char
    fn_name_of enumerate dashed ptr_name is_ptr_type rep rep_value rep_onto before insert_text
    sorted type_lines type_if ptr_line sc_if fill_template wit_param wit_sc_def wit_args
    scan_methods comp_types wit_text gen_wit_stubs is_digit digits_from number_group close_group
    match_array copies matchrep sub_from sub_arrays difference word_run match_record find_records
    record_types wants_record sc_ptr_types missing_types
opened = 0

wit_run :
    lookup (lit "wit/wali.wit") (gen_wit_stubs excerpt (lit "wit") rows files).1
    ≡ some (
        lit
          "interface types {\n\ttype syscall-result = s64;\n\ttype int = s32;\n\ttype size-t = unsigned-int;\n\ttype sigset-t = tuple<u8,u8,u8>;\n}\ninterface syscalls {\n\tuse types.{syscall-result, int, size-t, sigset-t};\n\t/// Readable pointer types\n\ttype ptr-struct-stat = ptr;\n\n\t/// Record types\n\trecord stat {}\n\t\n\n\t/// Syscall methods\n\t// [1] read_at(int, struct stat*, size_t)\n\tSYS-read-at: func(a1: s32, a2: ptr-struct-stat, a3: size-t) -> syscall-result;\n}\n")
unfolding opened
wit_run = refl

abbrev orig_args : List Str
orig_args = lit "int" ∷ lit "struct stat*" ∷ lit "size_t" ∷ []

abbrev args : List Str
args = lit "int" ∷ lit "ptr-struct-stat" ∷ lit "size-t" ∷ []

read_args : wit_args excerpt read_row ≡ ok (orig_args, args)
unfolding opened
read_args = refl

basic-IsDashed : All IsDashed (values excerpt.basic)
unfolding opened
basic-IsDashed = ground arith

wit_names-IsDashed_example :
    All
      (λ arg.
        (i : ℕ)
        → (ty : Str) × IsDashed ty
          × (wit_param excerpt i arg ≡ lit "a" ++ (show (i + 1) ++ (lit ": " ++ ty))))
      args
    × All IsDashed (keys (comp_types excerpt))
wit_names-IsDashed_example =
    wit_names-IsDashed excerpt basic-IsDashed read_row orig_args args read_args

abbrev methods : List Str
methods =
    lit
      "\t// [1] read_at(int, struct stat*, size_t)\n\tSYS-read-at: func(a1: s32, a2: ptr-struct-stat, a3: size-t) -> syscall-result;"
    ∷ []
    ∷ []

abbrev pointers : List Str
pointers = lit "ptr-struct-stat" ∷ []

rows_scanned : scan_methods excerpt rows [] ≡ ok (methods, pointers)
unfolding opened
rows_scanned = refl

scan_methods-uses_pointer_example :
    Methods excerpt rows (keep truthy methods)
    × Ascending (sorted pointers)
    × ((x : Str) → contains (sorted pointers) x ≡ uses_pointer excerpt rows x)
scan_methods-uses_pointer_example =
    scan_methods-uses_pointer excerpt rows methods pointers rows_scanned

gen_wit_stubs_atomic_example :
    ((e : Error) × (gen_wit_stubs excerpt (lit "wit") rows files ≡ (err e, files)))
    ⊎ ((made : Str) × IsMade excerpt rows files made
        × (gen_wit_stubs excerpt (lit "wit") rows files
            ≡ (ok tt, insert (lit "wit" ++ lit "/wali.wit") made files)))
gen_wit_stubs_atomic_example = gen_wit_stubs_atomic excerpt (lit "wit") rows files

-- A text before the array that has letters `A` of its own.
abbrev heading : Str
heading = lit "// WALI\n\ttype t = "

heading-HasNoArray : HasNoArray heading
unfolding opened
heading-HasNoArray = (
  (λ rest. refl),
  (
    (λ rest. refl),
    (
      (λ rest. refl),
      (
        (λ rest. refl),
        (
          (λ rest. refl),
          (
            (λ rest. refl),
            (
              (λ rest. refl),
              (
                (λ rest. refl),
                (
                  (λ rest. refl),
                  (
                    (λ rest. refl),
                    (
                      (λ rest. refl),
                      (
                        (λ rest. refl),
                        (
                          (λ rest. refl),
                          (
                            (λ rest. refl),
                            (
                              (λ rest. refl),
                              ((λ rest. refl), ((λ rest. refl), ((λ rest. refl), tt))),
                            ),
                          ),
                        ),
                      ),
                    ),
                  ),
                ),
              ),
            ),
          ),
        ),
      ),
    ),
  ),
)

array_facts :
    (lit "128" ≢ [])
    × (read_digits 0 (lit "128") ≡ some 128)
    × IsType (lit "u8")
    × (drop_prefix (lit "]") (skip_spaces (lit "}")) ≡ none)
unfolding opened
array_facts = (λ e. cc e, refl, (λ e. cc e, ground arith), refl)

sub_arrays-array_text_example :
    sub_arrays (heading ++ (array_text (lit "128") (lit "u8") ++ (lit ";\n" ++ lit "}")))
    ≡ heading ++ (matchrep 128 (lit "u8") ++ (lit ";\n" ++ sub_arrays (lit "}")))
sub_arrays-array_text_example =
    sub_arrays-array_text heading (lit "128") (lit "u8") (lit "}") 128 heading-HasNoArray
      array_facts.0 array_facts.1 array_facts.2 array_facts.3

-- The record of the template has another name than the pointer.
no_struct : missing_types excerpt pointers (lit "record stat {\n}\n") ≡ lit "struct-stat" ∷ []
unfolding opened
no_struct = refl

bound : missing_types excerpt pointers (lit "// a record\nrecord struct-stat {\n}\n") ≡ []
unfolding opened
bound = refl

abbrev blocks : List Block
blocks = (lit "//", lit "stat") ∷ (lit "\n}", lit "fd-set") ∷ []

parts-IsFree : IsFree (lit "//") × IsFree (lit "\n}")
unfolding opened
parts-IsFree = (((λ rest. refl), ((λ rest. refl), tt)), ((λ rest. refl), ((λ rest. refl), tt)))

are_blocks : All IsBlock blocks
unfolding opened
are_blocks = (
  (parts-IsFree.0, ((λ e. cc), (refl, (refl, (refl, (refl, tt)))))),
  ((parts-IsFree.1, ((λ e. cc), (refl, (refl, (refl, (refl, (refl, (refl, tt)))))))), tt),
)

missing_types_iff_example :
    (contains (missing_types excerpt pointers (template_of blocks (lit "\n}"))) (lit "struct-stat")
      ≡ true)
    ↔ ((uses_pointer excerpt rows (pointer_to (lit "struct-stat")) ≡ true)
        × (has (lit "struct-stat") excerpt.basic ≡ false)
        × (contains (declared excerpt) (lit "struct-stat") ≡ false)
        × (lit "struct-stat" ≢ lit "void")
        × (lit "struct-stat" ≢ lit "char")
        × (contains (names blocks) (lit "struct-stat") ≡ false))
missing_types_iff_example =
    missing_types_iff excerpt rows methods pointers blocks (lit "\n}") rows_scanned are_blocks
      parts-IsFree.1 (lit "struct-stat")
