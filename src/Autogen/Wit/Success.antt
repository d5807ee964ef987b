-- ===== src/Autogen/Wit/Success.antt =====
-- The WIT interface can be made of a table of fit rows.
use wali_lib.Base.{
  ℕ, Str, some, List, [], ◌∷◌, map, ◌≡◌, ◌≢◌, refl, str_eq, ok, All, keep, add_all, Returns,
  Returns-bind, traverse-Returns,
}
use wali_lib.Base.Dict.{lookup}
use wali_lib.Base.Files.{Files}
use wali_lib.Text.{strip, replace_char}
use wali_lib.Autogen.Types.{Types}
use wali_lib.Autogen.Args.{Row, last_char}
use wali_lib.Autogen.Args.Fit.{IsArg, HasArgs, get_scargs-HasArgs, last_char-nonempty}
use wali_lib.Autogen.Wit.{dashed, ptr_name, is_ptr_type, wit_args, scan_methods, gen_wit_stubs}
use wali_lib.Autogen.Wit.Outcome.{records_path, template_path}

replace_char-nonempty : (a b : ℕ) (s : Str) → s ≢ [] → replace_char a b s ≢ []
unfolding replace_char
replace_char-nonempty a b [] ne e = ne refl
replace_char-nonempty a b (c ∷ s) ne e = cc

dashed-nonempty : (x : Str) → strip x ≢ [] → dashed x ≢ []
unfolding dashed
dashed-nonempty x ne = replace_char-nonempty _ _ _ (replace_char-nonempty _ _ (strip x) ne)

ptr_name-nonempty : (x : Str) → x ≢ [] → Returns (ptr_name x)
unfolding ptr_name
ptr_name-nonempty x ne = Returns-bind (last_char x) _ (last_char-nonempty x ne) λ c _. (_, refl)

module _ (types : Types) where
  dashed-IsArg :
      (args : List Str)
      → All (IsArg types) args
      → All (λ x. (y : Str) × (ptr_name x ≡ ok y) × Unit {0}) (map dashed args)
  dashed-IsArg [] h = tt
  dashed-IsArg (x ∷ args) ((stripped, _), h) =
      let (y, e) = ptr_name-nonempty (dashed x) (dashed-nonempty x stripped) in
      ((y, e, tt), dashed-IsArg args h)

  wit_args-HasArgs : (row : Row) → HasArgs types row → Returns (wit_args types row)
  unfolding wit_args
  wit_args-HasArgs row h =
      let (orig_args, e, fit) = get_scargs-HasArgs types row h in
      let (args, e', _) =
        traverse-Returns (λ _. Unit {0}) ptr_name (map dashed orig_args)
          (dashed-IsArg orig_args fit) in
      ((orig_args, args), rw (wit_args, e, e') refl)

  scan_methods-HasArgs :
      (rows : List Row) (uniq : List Str)
      → All (HasArgs types) rows
      → Returns (scan_methods types rows uniq)
  unfolding scan_methods
  scan_methods-HasArgs [] uniq h = (_, refl)
  scan_methods-HasArgs (sc ∷ rows) uniq (fit, h) =
      let rest = λ (u : List Str). scan_methods-HasArgs rows u h in
      Returns-bind (wit_args types sc) _ (wit_args-HasArgs sc fit) λ (orig_args, args) _.
        Returns-bind (scan_methods types rows (add_all uniq (keep is_ptr_type args))) _
          (rest (add_all uniq (keep is_ptr_type args))) λ q _. (_, refl)

  pub gen_wit_stubs-succeeds :
      (spath : Str) (rows : List Row) (record_content template : Str) (files : Files)
      → All (HasArgs types) rows
      → lookup records_path files ≡ some record_content
      → lookup template_path files ≡ some template
      → (gen_wit_stubs types spath rows files).0 ≡ ok tt
  unfolding gen_wit_stubs lookup
  gen_wit_stubs-succeeds spath rows record_content template files fit r t =
      let ((buf, uniq), h) = scan_methods-HasArgs rows [] fit in rw (h, r, t) refl
