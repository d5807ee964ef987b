-- ===== src/Autogen/Libc/Laws.antt =====
-- The stub functions of `gen_libc_stubs` that leave a row out.
use wali_lib.Base.{Str, lit, Bool, true, List, [], ◌∷◌, ◌≡◌, sym, ap, ok, ok-injective, returned}
use wali_lib.Text.{join}
use wali_lib.Autogen.Types.{Types}
use wali_lib.Autogen.Args.{Row, ptr_anonymize, rustify_args}
use wali_lib.Autogen.Stubs.{truthy}
use wali_lib.Autogen.Libc.{def_stub, case_stub, rust_def_stub, rust_match_stub}

-- The rows that have a count of arguments.
abbrev pub is_counted : Row → Bool
is_counted row = truthy row.nargs

module _ (types : Types) where
  pub truthy-def_stub :
      (nr nargs name fn_name : Str) (args : List Str) (s : Str)
      → def_stub types nr nargs name fn_name args ≡ ok s
      → truthy s ≡ true
  unfolding def_stub lit
  truthy-def_stub nr nargs name fn_name args s h =
      let (tys, ht, e) = returned (ptr_anonymize types args) _ h in ap truthy (sym (ok-injective e))

  pub truthy-case_stub :
      (nr nargs name fn_name : Str) (args : List Str) (s : Str)
      → case_stub types nr nargs name fn_name args ≡ ok s
      → truthy s ≡ truthy nargs
  unfolding case_stub lit
  truthy-case_stub nr [] name fn_name args s h = ap truthy (sym (ok-injective h))
  truthy-case_stub nr (_ ∷ _) name fn_name args s h =
      let (tys, ht, e) = returned (ptr_anonymize types args) _ h in ap truthy (sym (ok-injective e))

  pub truthy-rust_def_stub :
      (nr nargs name fn_name : Str) (args : List Str) (s : Str)
      → rust_def_stub types nr nargs name fn_name args ≡ ok s
      → truthy s ≡ truthy nargs
  unfolding rust_def_stub lit join
  truthy-rust_def_stub nr [] name fn_name args s h = ap truthy (sym (ok-injective h))
  truthy-rust_def_stub nr (_ ∷ _) name fn_name args s h =
      let (tys, ht, e) = returned (rustify_args types args) _ h in ap truthy (sym (ok-injective e))

  pub truthy-rust_match_stub :
      (nr nargs name fn_name : Str) (args : List Str) (s : Str)
      → rust_match_stub types nr nargs name fn_name args ≡ ok s
      → truthy s ≡ true
  unfolding rust_match_stub lit
  truthy-rust_match_stub nr [] name fn_name args s h = ap truthy (sym (ok-injective h))
  truthy-rust_match_stub nr (_ ∷ _) name fn_name args s h = ap truthy (sym (ok-injective h))
