-- ===== src/Tests/Stubs.antt =====
-- The theorems on scripts/autogen.py at rows with names and arguments as the table has them.
use wali_lib.Base.{
  map, ℕ, Str, lit, true, false, none, some, List, [], ◌∷◌, ◌≡◌, ◌≢◌, refl, arith, str_eq, nat_eq,
  contains, keep, All, Each, length, Distinct, ok, err, diverges, traverse,
}
use wali_lib.Base.Dict.{Dict, lookup, insert, has, update, values}
use wali_lib.Text.{is_space, join, last?, but_last, ends_with, strip}
use wali_lib.Text.Decimal.{show, pos, read_int}
use wali_lib.Autogen.Types.{Types, combined_types, wit_primitives, parse_type_file}
use wali_lib.Autogen.Types.RoundTrip.{IsEntry, render_all, parse_type_file-render_all}
use wali_lib.Autogen.Args.{
  Row, get_scargs, ptr_anonymize, anonymize, rustify_args, rustify, rs_simplify, rust_name,
  simplify_loop, simplify_fuel, row_args, cells, resolve_arg, last_char, get_or_undef, fn_name_of,
  is_primitive, next_type,
}
use wali_lib.Autogen.Args.Halting.{simplify_loop_enough}
use wali_lib.Autogen.Args.Kinds.{
  IsArgType, IsRustType, get_scargs-IsArgType, rustify_args-IsRustType, simplify_loop-unknown,
}
use wali_lib.Autogen.Args.Laws.{length-get_scargs}
use wali_lib.Autogen.Stubs.{syscall_iter, row_stub, enumerate}
use wali_lib.Autogen.Libc.{
  def_stub, case_stub, case_arg, rust_def_stub, rust_param, rust_match_stub, match_arg,
}
use wali_lib.Autogen.Wamr.{declr_stub, impl_stub, symbols_stub}
use wali_lib.Autogen.Wamr.Arity.{declaration, implementation, symbol, passed, letter_of, wamr_arity}
use wali_lib.Autogen.ArchDiff.{scan_rows, scan_archs, is_undefined, append_to, empty_bufs}
use wali_lib.Autogen.ArchDiff.Laws.{undefined_names, scan_rows-undefined_names}

abbrev excerpt : Types
excerpt = record {
  basic =
      (lit "int", lit "s32") ∷ (lit "long long", lit "s64") ∷ (lit "unsigned int", lit "u32") ∷ [];
  complex = (lit "off_t", lit "long long") ∷ (lit "size_t", lit "unsigned int") ∷ [];
}

abbrev row_of : Str → Str → List Str → Row
row_of name count args = record {
  nr = lit "1";
  syscall = name;
  nargs = count;
  args = args;
  aliases = [];
  arch_nrs = (lit "aarch64", lit "-1") ∷ (lit "riscv64", lit "64") ∷ [];
}

abbrev write_row : Row
write_row = row_of (lit "write") (lit "3") (lit "int" ∷ lit "void*" ∷ lit "size_t" ∷ [] ∷ [])

abbrev mincore_row : Row
mincore_row = row_of (lit "mincore") [] ([] ∷ [])

-- Its type is in no template.
abbrev strange_row : Row
strange_row = row_of (lit "strange") (lit "1") (lit "key_t" ∷ [])

-- The functions with all that they call, for the evaluations below.
opened : ℕ
unfolding str_eq nat_eq lit insert lookup has update values contains keep traverse join last?
    but_last ends_with strip show read_int combined_types wit_primitives syscall_iter row_stub
    enumerate get_scargs row_args cells resolve_arg last_char get_or_undef fn_name_of ptr_anonymize
    anonymize rustify_args rustify rs_simplify rust_name simplify_fuel simplify_loop is_primitive
    next_type def_stub case_stub case_arg rust_def_stub rust_param rust_match_stub match_arg
    scan_rows scan_archs is_undefined append_to empty_bufs
opened = 0

abbrev entries : Dict Str Str
entries = (lit "off-t", lit "long-long") ∷ (lit "sigset-t", lit "Array[128, u8]") ∷ []

entries-IsEntry : All IsEntry entries
unfolding lit is_space nat_eq
entries-IsEntry = ground arith

parse_type_file-render_all_example : parse_type_file (render_all entries) ≡ update [] entries
parse_type_file-render_all_example = parse_type_file-render_all entries entries-IsEntry

off_t_ends : simplify_loop excerpt 9 (lit "off_t") ≡ ok (lit "s64")
unfolding opened
off_t_ends = refl

simplify_loop_enough_example :
    simplify_loop excerpt (simplify_fuel excerpt) (lit "off_t") ≡ ok (lit "s64")
simplify_loop_enough_example = simplify_loop_enough excerpt 9 (lit "off_t") (lit "s64") off_t_ends

abbrev write_args : List Str
write_args = lit "int" ∷ lit "void*" ∷ lit "unsigned int" ∷ []

write_resolved : get_scargs excerpt write_row true ≡ ok write_args
unfolding opened
write_resolved = refl

write_count : read_int (lit "3") ≡ some (pos 3)
unfolding opened
write_count = refl

write_given : lit "3" ≢ []
unfolding opened
write_given = λ e. cc e

length-get_scargs_example : length write_args ≡ 3
length-get_scargs_example =
    length-get_scargs excerpt write_row true write_args 3 write_given write_count write_resolved

abbrev write_columns : List Str
write_columns = lit "int" ∷ lit "void*" ∷ lit "size_t" ∷ []

get_scargs-IsArgType_example : Each (IsArgType excerpt) write_columns write_args
get_scargs-IsArgType_example =
    get_scargs-IsArgType excerpt write_row write_columns ([] ∷ []) write_args refl write_count
      write_resolved

abbrev write_rust_args : List Str
write_rust_args = lit "i32" ∷ lit "i32" ∷ lit "u32" ∷ []

write_rust : rustify_args excerpt write_args ≡ ok write_rust_args
unfolding opened
write_rust = refl

rustify_args-IsRustType_example : Each (IsRustType excerpt) write_args write_rust_args
rustify_args-IsRustType_example =
    rustify_args-IsRustType excerpt write_args write_rust_args write_rust

unknown_facts :
    (lookup (lit "UNDEF") (combined_types excerpt) ≡ none)
    × (is_primitive excerpt (lit "UNDEF") ≡ false)
unfolding opened
unknown_facts = (refl, refl)

simplify_loop-unknown_example : simplify_loop excerpt 1000 (lit "UNDEF") ≡ err diverges
simplify_loop-unknown_example =
    simplify_loop-unknown excerpt 1000 (lit "UNDEF") unknown_facts.0 unknown_facts.1 unknown_facts.0
      unknown_facts.1

abbrev anonymous : List Str
anonymous = lit "void*" ∷ lit "int*" ∷ lit "int" ∷ []

ptr_run : ptr_anonymize excerpt (lit "struct stat*" ∷ lit "int*" ∷ lit "int" ∷ []) ≡ ok anonymous
unfolding opened
ptr_run = refl

abbrev table : List Row
table = write_row ∷ mincore_row ∷ []

abbrev table_defs : List Str
table_defs =
    lit "WALI_SYSCALL_DEF (write, int,void*,unsigned int);"
    ∷ lit "WALI_SYSCALL_DEF (mincore, );"
    ∷ []

abbrev table_cases : List Str
table_cases = lit "\t\tCASE_SYSCALL (write, write, (int)a1,(void*)a2,(unsigned int)a3);" ∷ []

abbrev table_rust : List Str
table_rust =
    lit
      "\t/* 1 */\n\t#[link_name = \"SYS_write\"]\n\tpub fn __syscall_SYS_write(a1: i32, a2: i32, a3: u32) -> ::c_long;"
    ∷ []

abbrev table_matches : List Str
table_matches =
    lit "\t\tsuper::SYS_write => syscall_match_arm!(SYS_write, args, a0, a1, a2),"
    ∷ lit "\t\tsuper::SYS_mincore => unimplemented!(\"WALI syscall 'mincore' (1) unimplemented!\"),"
    ∷ []

table_runs :
    (syscall_iter excerpt table (def_stub excerpt) ≡ ok table_defs)
    × (syscall_iter excerpt table (case_stub excerpt) ≡ ok table_cases)
    × (syscall_iter excerpt table (rust_def_stub excerpt) ≡ ok table_rust)
    × (syscall_iter excerpt table (rust_match_stub excerpt) ≡ ok table_matches)
unfolding opened
table_runs = (refl, refl, refl, refl)

write_named : All (λ x. x ≢ []) write_args
unfolding opened
write_named = ((λ e. cc e), ((λ e. cc e), ((λ e. cc e), tt)))

wamr_arity_example :
    (length write_args ≡ 3)
    × (row_stub excerpt declr_stub write_row ≡ ok (declaration (fn_name_of write_row) 3))
    × (row_stub excerpt impl_stub write_row
        ≡ ok (implementation (lit "1") (fn_name_of write_row) 3 (passed 1 write_args)))
    × (row_stub excerpt symbols_stub write_row
        ≡ ok (symbol (fn_name_of write_row) (map letter_of write_args)))
wamr_arity_example =
    wamr_arity excerpt write_row write_args 3 write_given write_count write_resolved write_named

abbrev both_archs : List Str
both_archs = lit "aarch64" ∷ lit "riscv64" ∷ []

abbrev scanned : Dict Str (List Str)
scanned = (lit "aarch64", lit "write" ∷ lit "mincore" ∷ []) ∷ (lit "riscv64", []) ∷ []

arch_facts :
    (scan_rows table both_archs (empty_bufs both_archs) ≡ ok scanned)
    × Distinct both_archs
    × (contains both_archs (lit "riscv64") ≡ true)
unfolding opened
arch_facts = (refl, (refl, (refl, tt)), refl)

scan_rows-undefined_names_example :
    lookup (lit "riscv64") scanned ≡ some (undefined_names (lit "riscv64") table)
scan_rows-undefined_names_example =
    scan_rows-undefined_names table both_archs scanned (lit "riscv64") arch_facts.0 arch_facts.1
      arch_facts.2
