-- ===== src/Autogen/Markdown/Success.antt =====
-- The list of the supported calls can be made.
use wali_lib.Base.{
  ℕ, zero, suc, ◌≤◌, Str, lit, Bool, true, false, some, List, [], ◌∷◌, ◌++◌, ◌≡◌, ◌≢◌, refl, str_eq,
  ok, All, All-map, arith, length, keep, map, contains, if◌then◌else◌, Returns, Returns-bind,
  traverse, traverse-Returns,
}
use wali_lib.Base.Dict.{lookup}
use wali_lib.Base.Files.{Files}
use wali_lib.Autogen.Args.{Row, cells}
use wali_lib.Autogen.Markdown.{
  Packages, remapped, supp_set, supp_rows, format_row, supp_format, gen_markdown_stubs,
}
use wali_lib.Autogen.Markdown.Support.{IsKnown, unsupported-members}

cells-Returns : (n : ℕ) (columns : List Str) → n ≤ length columns → Returns (cells n columns)
unfolding cells
cells-Returns zero columns h = ([], refl)
cells-Returns (suc n) [] h = absurd (ground arith)
cells-Returns (suc n) (a ∷ columns) h =
    Returns-bind (cells n columns) _ (cells-Returns n columns (omega arith)) λ rest _. (_, refl)

-- The six columns of the arguments are there.
abbrev pub HasColumns : Row → Type 0
HasColumns row = 6 ≤ length row.args

format_row-HasColumns :
    (row : Row) → HasColumns row → (out : List Str) × (format_row row ≡ ok out) × Unit {0}
unfolding format_row
format_row-HasColumns row h =
    let (args, e) = cells-Returns 6 row.args h in
    (row.syscall ∷ row.nargs ∷ args, rw (format_row, e) refl, tt)

keep-All : {A : Type 0} (P : A → Type 0) (p : A → Bool) (xs : List A) → All P xs → All P (keep p xs)
unfolding keep
keep-All P p [] h = tt
keep-All P p (x ∷ xs) (px, h) = kept (p x) (keep-All P p xs h)
  where
    kept : (b : Bool) → All P (keep p xs) → All P (if b then x ∷ keep p xs else keep p xs)
    kept true rest = (px, rest)
    kept false rest = rest

formatted : (rows : List Row) → All HasColumns rows → Returns (traverse format_row rows)
formatted rows h =
    let (out, e, _) =
      traverse-Returns (λ _. Unit {0}) format_row rows
        (All-map HasColumns _ format_row-HasColumns rows h) in
    (out, e)

supp_format-Returns :
    (rows : List Row) → rows ≢ [] → All HasColumns rows → Returns (supp_format rows)
unfolding supp_format supp_rows
supp_format-Returns [] ne h = absurd (ne refl)
supp_format-Returns (row ∷ rows) ne h =
    Returns-bind (traverse format_row (row ∷ rows)) _ (formatted (row ∷ rows) h) λ _ _.
      formatted (supp_rows (row ∷ rows)) (
        keep-All HasColumns (λ (row' : Row). contains (supp_set (row ∷ rows)) row'.syscall)
          (row ∷ rows) h)

module _ (packages : Packages) where
  pub gen_markdown_stubs-succeeds :
      (spath : Str) (rows : List Row) (archs : List Str) (template : Str) (files : Files)
      → rows ≢ []
      → All HasColumns rows
      → All (IsKnown packages) (map remapped (archs ++ lit "x86_64" ∷ []))
      → lookup (lit "templates/support.md.template") files ≡ some template
      → (gen_markdown_stubs packages spath rows archs files).0 ≡ ok tt
  unfolding gen_markdown_stubs lookup
  gen_markdown_stubs-succeeds spath rows archs template files ne columns known found =
      let (unsupp, he, _, _) = unsupported-members packages rows archs known in
      let (supp, hs) = supp_format-Returns rows ne columns in rw (he, hs, found) refl
