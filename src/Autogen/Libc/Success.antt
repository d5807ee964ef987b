-- ===== src/Autogen/Libc/Success.antt =====
-- The stubs of the C library can be made of a table of fit rows.
use wali_lib.Base.{
  Str, lit, List, [], ◌∷◌, ◌++◌, refl, All, All-map, Returns, Returns-bind, Result, traverse,
  traverse-Returns,
}
use wali_lib.Base.Files.{Finishes, seq-Finishes}
use wali_lib.Autogen.Types.{Types}
use wali_lib.Autogen.Args.{Row, ptr_anonymize, rustify_args, anonymize, rustify}
use wali_lib.Autogen.Args.Fit.{
  IsFitTypes, HasArgs, IsResolved, anonymize-IsResolved, rustify-IsResolved,
}
use wali_lib.Autogen.Stubs.Success.{IsTotal, gen_and_write-Finishes}
use wali_lib.Autogen.Libc.{
  def_stub, case_stub, rust_def_stub, rust_match_stub, def_prelude, def_postlude, match_prelude,
  match_postlude, gen_libc_stubs,
}

module _ (types : Types) (fit : IsFitTypes types) where
  traverse_total :
      (f : Str → Result Str)
      → ((y : Str) → IsResolved types y → Returns (f y))
      → (args : List Str) → All (IsResolved types) args
      → Returns (traverse f args)
  traverse_total f total args h =
      let (ys, e, _) =
        traverse-Returns (λ _. Unit {0}) f args
          (All-map (IsResolved types) _ (λ y r. let (z, e) = total y r in (z, e, tt)) args h) in
      (ys, e)

  ptr_anonymize-Returns :
      (args : List Str) → All (IsResolved types) args → Returns (ptr_anonymize types args)
  unfolding ptr_anonymize
  ptr_anonymize-Returns = traverse_total (anonymize types) (anonymize-IsResolved types)

  rustify_args-Returns :
      (args : List Str) → All (IsResolved types) args → Returns (rustify_args types args)
  unfolding rustify_args
  rustify_args-Returns = traverse_total (rustify types) (rustify-IsResolved types fit)

  pub def_stub-IsTotal : IsTotal types (def_stub types)
  unfolding def_stub
  def_stub-IsTotal nr nargs name fn_name args h =
      Returns-bind (ptr_anonymize types args) _ (ptr_anonymize-Returns args h) λ tys e. (_, refl)

  pub case_stub-IsTotal : IsTotal types (case_stub types)
  unfolding case_stub
  case_stub-IsTotal nr [] name fn_name args h = ([], refl)
  case_stub-IsTotal nr (_ ∷ _) name fn_name args h =
      Returns-bind (ptr_anonymize types args) _ (ptr_anonymize-Returns args h) λ tys e. (_, refl)

  pub rust_def_stub-IsTotal : IsTotal types (rust_def_stub types)
  unfolding rust_def_stub
  rust_def_stub-IsTotal nr [] name fn_name args h = ([], refl)
  rust_def_stub-IsTotal nr (_ ∷ _) name fn_name args h =
      Returns-bind (rustify_args types args) _ (rustify_args-Returns args h) λ tys e. (_, refl)

  pub rust_match_stub-IsTotal : IsTotal types (rust_match_stub types)
  unfolding rust_match_stub
  rust_match_stub-IsTotal nr [] name fn_name args h = (_, refl)
  rust_match_stub-IsTotal nr (_ ∷ _) name fn_name args h = (_, refl)

  pub gen_libc_stubs-Finishes :
      (spath : Str) (rows : List Row)
      → All (HasArgs types) rows
      → Finishes (gen_libc_stubs types spath rows)
  unfolding gen_libc_stubs
  gen_libc_stubs-Finishes spath rows h =
      let defs =
        gen_and_write-Finishes types fit (def_stub types) def_stub-IsTotal rows
          (spath ++ lit "/defs.out") [] [] h in
      let cases =
        gen_and_write-Finishes types fit (case_stub types) case_stub-IsTotal rows
          (spath ++ lit "/case.out") [] [] h in
      let rust_defs =
        gen_and_write-Finishes types fit (rust_def_stub types) rust_def_stub-IsTotal rows
          (spath ++ lit "/rust/defs.out") (def_prelude types) (def_postlude types) h in
      let matches =
        gen_and_write-Finishes types fit (rust_match_stub types) rust_match_stub-IsTotal rows
          (spath ++ lit "/rust/match.out") (match_prelude types) (match_postlude types) h in
      seq-Finishes _ _ (seq-Finishes _ _ (seq-Finishes _ _ defs cases) rust_defs) matches
