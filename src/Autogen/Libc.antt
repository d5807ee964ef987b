-- ===== src/Autogen/Libc.antt =====
-- `gen_libc_stubs` of scripts/autogen.py: the C and Rust stubs of the C library.
pub mod Laws
pub mod Success
pub mod Outcome
pub mod Partial
use wali_lib.Base.{ℕ, ◌+◌, Str, lit, List, [], ◌∷◌, ◌++◌, ok, ◌>>=◌}
use wali_lib.Base.Files.{Run, ◌>>◌}
use wali_lib.Text.{join}
use wali_lib.Text.Decimal.{show}
use wali_lib.Autogen.Types.{Types}
use wali_lib.Autogen.Args.{Row, ptr_anonymize, rustify_args}
use wali_lib.Autogen.Stubs.{Stub, enumerate, gen_and_write}

module _ (types : Types) where
  unfoldable pub def_stub : Stub
  def_stub nr nargs name fn_name args = do
    tys ← ptr_anonymize types args
    ok (lit "WALI_SYSCALL_DEF (" ++ (fn_name ++ (lit ", " ++ (join (lit ",") tys ++ lit ");"))))

  -- `'({})a{}'.format(j, i+1)`
  unfoldable pub case_arg : ℕ → Str → Str
  case_arg i ty = lit "(" ++ (ty ++ (lit ")a" ++ show (i + 1)))

  unfoldable pub case_stub : Stub
  case_stub nr [] name fn_name args = ok []
  case_stub nr (_ ∷ _) name fn_name args = do
    tys ← ptr_anonymize types args
    ok (
        lit "\t\tCASE_SYSCALL ("
        ++ (name
            ++ (lit ", "
                ++ (fn_name
                    ++ (lit ", " ++ (join (lit ",") (enumerate 0 case_arg tys) ++ lit ");"))))))

  -- `'a{}: {}'.format(i+1, j)`
  unfoldable pub rust_param : ℕ → Str → Str
  rust_param i ty = lit "a" ++ (show (i + 1) ++ (lit ": " ++ ty))

  unfoldable pub rust_def_stub : Stub
  rust_def_stub nr [] name fn_name args = ok []
  rust_def_stub nr (_ ∷ _) name fn_name args = do
    tys ← rustify_args types args
    ok (
        join (lit "\n") (
          (lit "\t/* " ++ (nr ++ lit " */"))
          ∷ (lit "\t#[link_name = \"SYS_" ++ (fn_name ++ lit "\"]"))
          ∷ (lit "\tpub fn __syscall_SYS_"
              ++ (fn_name
                  ++ (lit "("
                      ++ (join (lit ", ") (enumerate 0 rust_param tys) ++ lit ") -> ::c_long;"))))
          ∷ []))

  -- `f"a{x}"`
  unfoldable pub match_arg : ℕ → Str → Str
  match_arg x _ = lit "a" ++ show x

  unfoldable pub rust_match_stub : Stub
  rust_match_stub nr (_ ∷ _) name fn_name args = ok (
      lit "\t\tsuper::SYS_"
      ++ (name
          ++ (lit " => syscall_match_arm!(SYS_"
              ++ (fn_name
                  ++ (lit ", args, "
                      ++ (join (lit ", ") (enumerate 0 match_arg args) ++ lit "),"))))))
  rust_match_stub nr [] name fn_name args = ok (
      lit "\t\tsuper::SYS_"
      ++ (name
          ++ (lit " => unimplemented!("
              ++ (lit "\"WALI syscall '"
                  ++ (name ++ (lit "' (" ++ (nr ++ (lit ") unimplemented!\"" ++ lit "),"))))))))

  abbrev pub def_prelude : Str
  def_prelude = join (lit "\n") (
      lit "// --- Autogenerated from WALI/scripts/autogen.py ---"
      ∷ lit "#[link(wasm_import_module = \"wali\")]"
      ∷ lit "extern \"C\" {"
      ∷ lit ""
      ∷ [])

  abbrev pub def_postlude : Str
  def_postlude = lit "\n}"

  abbrev pub match_prelude : Str
  match_prelude = join (lit "\n") (
      lit "#[no_mangle]"
      ∷ lit "pub unsafe extern \"C\" fn syscall(num: ::c_long, mut args: ...) -> ::c_long {"
      ∷ lit "\tuse core::unimplemented;"
      ∷ lit "\tmatch num {"
      ∷ lit ""
      ∷ [])

  abbrev pub match_postlude : Str
  match_postlude = join (lit "\n") (
      lit ""
      ∷ lit "\t\t_ => unimplemented!(\"WALI syscall number {} out-of-scope!\", num),"
      ∷ lit "\t}"
      ∷ lit "}"
      ∷ [])

  unfoldable pub gen_libc_stubs : Str → List Row → Run (Unit {0})
  gen_libc_stubs spath syscall_info =
      gen_and_write types def_stub syscall_info (spath ++ lit "/defs.out") [] []
      >> gen_and_write types case_stub syscall_info (spath ++ lit "/case.out") [] []
      >> gen_and_write types rust_def_stub syscall_info (spath ++ lit "/rust/defs.out") def_prelude
          def_postlude
      >> gen_and_write types rust_match_stub syscall_info (spath ++ lit "/rust/match.out")
          match_prelude match_postlude
