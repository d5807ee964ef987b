-- ===== src/Tests/Autogen.antt =====
-- scripts/autogen.py on a few rows, with parts of the shipped templates.
use wali_lib.Base.{
  Str, lit, List, [], ◌∷◌, ◌≡◌, refl, str_eq, nat_eq, contains, keep, ok, Result, traverse,
}
use wali_lib.Base.Dict.{lookup, insert, has, update, values}
use wali_lib.Base.Files.{Files, Run}
use wali_lib.Text.{join, last?, but_last, ends_with, pad_left, strip}
use wali_lib.Text.Decimal.{show, read_int}
use wali_lib.Autogen.Types.{Types, load_types, combined_types, wit_primitives}
use wali_lib.Autogen.Args.{
  Row, get_scargs, ptr_anonymize, rustify_args, simplify_loop, row_args, cells, resolve_arg,
  last_char, get_or_undef, fn_name_of, anonymize, rustify, rs_simplify, rust_name, simplify_fuel,
  is_primitive, next_type,
}
use wali_lib.Autogen.Stubs.{gen_and_write, syscall_iter, row_stub, enumerate}
use wali_lib.Autogen.Libc.{
  gen_libc_stubs, def_stub, case_stub, case_arg, rust_def_stub, rust_param, rust_match_stub,
  match_arg,
}
use wali_lib.Autogen.Wamr.{
  gen_wamr_stubs, declr_stub, long_param, impl_stub, call_args, symbols_stub, gen_native_args,
  param_letter,
}
use wali_lib.Autogen.ArchDiff.{
  gen_arch_diff_stubs, scan_rows, scan_archs, is_undefined, append_to, empty_bufs, write_bufs,
}

abbrev primitives : Str
primitives =
    lit
      "/// Primitive types (64-bit Linux)\n\ntype int = s32;\ntype long = s64;\ntype long-long = s64;\ntype unsigned-int = u32;\ntype unsigned-long = u64;\n"

abbrev complex : Str
complex =
    lit
      "/// Syscall arg types\ntype off-t = long-long;\ntype size-t = unsigned-int;\ntype sigset-t = Array[128, u8];\n"

abbrev excerpt : Types
excerpt = load_types primitives complex

tables : excerpt ≡ record {
  basic =
      (lit "int", lit "s32")
      ∷ (lit "long", lit "s64")
      ∷ (lit "long long", lit "s64")
      ∷ (lit "unsigned int", lit "u32")
      ∷ (lit "unsigned long", lit "u64")
      ∷ [];
  complex =
      (lit "off_t", lit "long long")
      ∷ (lit "size_t", lit "unsigned int")
      ∷ (lit "sigset_t", lit "Array[128, u8]")
      ∷ [];
}
unfolding load_types lit str_eq nat_eq
tables = refl

abbrev read_row : Row
read_row = record {
  nr = lit "0";
  syscall = lit "read";
  nargs = lit "3";
  args = lit "int" ∷ lit "void*" ∷ lit "size_t" ∷ [] ∷ [] ∷ [] ∷ [];
  aliases = [];
  arch_nrs = (lit "aarch64", lit "63") ∷ (lit "riscv64", lit "63") ∷ [];
}

abbrev open_row : Row
open_row = record {
  nr = lit "2";
  syscall = lit "open";
  nargs = lit "2";
  args = lit "char*" ∷ lit "int" ∷ [] ∷ [] ∷ [] ∷ [] ∷ [];
  aliases = lit "open64";
  arch_nrs = (lit "aarch64", lit "-1") ∷ (lit "riscv64", lit "-1") ∷ [];
}

abbrev mincore_row : Row
mincore_row = record {
  nr = lit "27";
  syscall = lit "mincore";
  nargs = [];
  args = [] ∷ [] ∷ [] ∷ [] ∷ [] ∷ [] ∷ [];
  aliases = [];
  arch_nrs = (lit "aarch64", lit "232") ∷ (lit "riscv64", []) ∷ [];
}

abbrev rows : List Row
rows = read_row ∷ open_row ∷ mincore_row ∷ []

-- The functions with all that they call.
generate : (Types → Str → List Row → Run (Unit {0})) → Str → List Row → Result (Unit {0}) × Files
unfolding load_types str_eq nat_eq lit insert lookup has update values contains keep traverse join
    last? but_last ends_with pad_left strip show read_int combined_types wit_primitives
    gen_and_write syscall_iter row_stub enumerate get_scargs row_args cells resolve_arg last_char
    get_or_undef fn_name_of ptr_anonymize anonymize rustify_args rustify rs_simplify rust_name
    simplify_fuel simplify_loop is_primitive next_type
generate gen spath syscall_info = gen excerpt spath syscall_info []

libc_run : (generate gen_libc_stubs (lit "libc") rows) ≡ (
  ok tt,
  (
    lit "libc/defs.out",
    lit
        "WALI_SYSCALL_DEF (read, int,void*,unsigned int);\nWALI_SYSCALL_DEF (open64, void*,int);\nWALI_SYSCALL_DEF (mincore, );",
  )
      ∷ (
        lit "libc/case.out",
        lit
            "\t\tCASE_SYSCALL (read, read, (int)a1,(void*)a2,(unsigned int)a3);\n\t\tCASE_SYSCALL (open, open64, (void*)a1,(int)a2);",
      )
      ∷ (
        lit "libc/rust/defs.out",
        lit
            "// --- Autogenerated from WALI/scripts/autogen.py ---\n#[link(wasm_import_module = \"wali\")]\nextern \"C\" {\n\t/* 0 */\n\t#[link_name = \"SYS_read\"]\n\tpub fn __syscall_SYS_read(a1: i32, a2: i32, a3: u32) -> ::c_long;\n\t/* 2 */\n\t#[link_name = \"SYS_open64\"]\n\tpub fn __syscall_SYS_open64(a1: i32, a2: i32) -> ::c_long;\n}",
      )
      ∷ (
        lit "libc/rust/match.out",
        lit
            "#[no_mangle]\npub unsafe extern \"C\" fn syscall(num: ::c_long, mut args: ...) -> ::c_long {\n\tuse core::unimplemented;\n\tmatch num {\n\t\tsuper::SYS_read => syscall_match_arm!(SYS_read, args, a0, a1, a2),\n\t\tsuper::SYS_open => syscall_match_arm!(SYS_open64, args, a0, a1),\n\t\tsuper::SYS_mincore => unimplemented!(\"WALI syscall 'mincore' (27) unimplemented!\"),\n\t\t_ => unimplemented!(\"WALI syscall number {} out-of-scope!\", num),\n\t}\n}",
      )
      ∷ [],
)
unfolding generate gen_libc_stubs def_stub case_stub case_arg rust_def_stub rust_param
    rust_match_stub match_arg
libc_run = refl

wamr_run : generate gen_wamr_stubs (lit "wamr") (read_row ∷ mincore_row ∷ []) ≡ (
  ok tt,
  (
    lit "wamr/declr.out",
    lit
        "long wali_syscall_read (wasm_exec_env_t exec_env, long a1, long a2, long a3);\nlong wali_syscall_mincore (wasm_exec_env_t exec_env);",
  )
      ∷ (
        lit "wamr/impl.out",
        lit
            "// 0 TODO\nlong wali_syscall_read (wasm_exec_env_t exec_env, long a1, long a2, long a3) {\n\tSC(0 ,read);\n\tERRSC(read);\n\tRETURN(__syscall3(SYS_read, a1, MADDR(a2), a3));\n}\n",
      )
      ∷ (
        lit "wamr/symbols.out",
        lit "\tNSYMBOL (             SYS_read,              wali_syscall_read,     \"(iii)I\" ),",
      )
      ∷ [],
)
unfolding generate gen_wamr_stubs declr_stub long_param impl_stub call_args symbols_stub
    gen_native_args param_letter
wamr_run = refl

arch_run :
    generate
      (λ types spath syscall_info.
        gen_arch_diff_stubs spath syscall_info (lit "aarch64" ∷ lit "riscv64" ∷ []))
      (lit "arch-diff")
      rows
    ≡ (
      ok tt,
      (lit "arch-diff/aarch64_undefined.out", lit "open")
          ∷ (lit "arch-diff/riscv64_undefined.out", lit "open")
          ∷ [],
    )
unfolding generate gen_arch_diff_stubs scan_rows scan_archs is_undefined append_to empty_bufs
    write_bufs
arch_run = refl
