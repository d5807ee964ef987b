-- ===== src/Autogen/Wamr/Success.antt =====
-- The stubs of WAMR can be made of a table of fit rows.
use wali_lib.Base.{ℕ, suc, Str, lit, List, [], ◌∷◌, ◌++◌, refl, All, Returns, Returns-bind}
use wali_lib.Base.Files.{Finishes, seq-Finishes}
use wali_lib.Autogen.Types.{Types}
use wali_lib.Autogen.Args.{Row, last_char}
use wali_lib.Autogen.Args.Fit.{IsFitTypes, HasArgs, IsResolved, last_char-nonempty}
use wali_lib.Autogen.Stubs.Success.{IsTotal, gen_and_write-Finishes}
use wali_lib.Autogen.Wamr.{declr_stub, call_args, impl_stub, symbols_stub, gen_wamr_stubs}

module _ (types : Types) (fit : IsFitTypes types) where
  call_args-Returns :
      (i : ℕ) (args : List Str) → All (IsResolved types) args → Returns (call_args i args)
  unfolding call_args
  call_args-Returns i [] h = ([], refl)
  call_args-Returns i (argty ∷ args) ((ne, _), h) =
      let (rest, e) = call_args-Returns (suc i) args h in
      Returns-bind (last_char argty) _ (last_char-nonempty argty ne)
        λ c _. Returns-bind (call_args (suc i) args) _ (rest, e) λ _ _. (_, refl)

  declr_stub-IsTotal : IsTotal types declr_stub
  unfolding declr_stub
  declr_stub-IsTotal nr nargs name fn_name args h = (_, refl)

  impl_stub-IsTotal : IsTotal types impl_stub
  unfolding impl_stub
  impl_stub-IsTotal nr [] name fn_name args h = (_, refl)
  impl_stub-IsTotal nr (_ ∷ _) name fn_name args h =
      Returns-bind (call_args 0 args) _ (call_args-Returns 0 args h) λ arglist e. (_, refl)

  symbols_stub-IsTotal : IsTotal types symbols_stub
  unfolding symbols_stub
  symbols_stub-IsTotal nr [] name fn_name args h = (_, refl)
  symbols_stub-IsTotal nr (_ ∷ _) name fn_name args h = (_, refl)

  pub gen_wamr_stubs-Finishes :
      (spath : Str) (rows : List Row)
      → All (HasArgs types) rows
      → Finishes (gen_wamr_stubs types spath rows)
  unfolding gen_wamr_stubs
  gen_wamr_stubs-Finishes spath rows h =
      let declrs =
        gen_and_write-Finishes types fit declr_stub declr_stub-IsTotal rows
          (spath ++ lit "/declr.out") [] [] h in
      let impls =
        gen_and_write-Finishes types fit impl_stub impl_stub-IsTotal rows (spath ++ lit "/impl.out")
          [] [] h in
      let symbols =
        gen_and_write-Finishes types fit symbols_stub symbols_stub-IsTotal rows
          (spath ++ lit "/symbols.out") [] [] h in
      seq-Finishes _ _ (seq-Finishes _ _ declrs impls) symbols
