-- ===== src/Autogen/Main/Success.antt =====
-- A run of the script on a table of fit rows finishes well.
use wali_lib.Base.{
  Str, lit, Option, none, some, List, [], ◌∷◌, ◌++◌, map, ◌≡◌, ◌≢◌, refl, ap, ◌∙◌, str_eq, nat_eq,
  All, Result, ok, contains,
}
use wali_lib.Base.Dict.{lookup}
use wali_lib.Base.Sets.{contains-All}
use wali_lib.Base.Files
use wali_lib.Base.Files.{Files, Run, lift, read_file, read_file-found, lift-ok}
use wali_lib.Autogen.Types.{Types, load_types}
use wali_lib.Autogen.Args.{Row}
use wali_lib.Autogen.Args.Fit.{IsFitTypes, HasArgs}
use wali_lib.Autogen.Libc.Success.{gen_libc_stubs-Finishes}
use wali_lib.Autogen.Wamr.Success.{gen_wamr_stubs-Finishes}
use wali_lib.Autogen.Wit.Success.{gen_wit_stubs-succeeds}
use wali_lib.Autogen.Wit.Outcome.{records_path, template_path}
use wali_lib.Autogen.ArchDiff.Success.{IsNumbered, gen_arch_diff_stubs-Finishes}
use wali_lib.Autogen.Markdown.{Packages, remapped}
use wali_lib.Autogen.Markdown.Support.{IsKnown}
use wali_lib.Autogen.Markdown.Success.{HasColumns, gen_markdown_stubs-succeeds}
use wali_lib.Autogen.Main.{Frame, parse_csv, stub_names, parse_stubs, generate, main, autogen}
use wali_lib.Autogen.Main.Outcome.{
  IsChoice, IsStub, parse_stubs-IsStub, first_failure, generate_all_outcome, main-found,
}

-- A table of which every generator can read the rows.
pub record IsFitTable (packages : Packages) (types : Types) (rows : List Row) (archs : List Str)
    : Type 0 where
  pub nonempty : rows ≢ []
  pub args : All (HasArgs types) rows
  pub columns : All HasColumns rows
  pub numbered : All (λ row. All (IsNumbered row) archs) rows
  pub known : All (IsKnown packages) (map remapped (archs ++ lit "x86_64" ∷ []))

-- The templates that the generators fill are there.
pub record HasTemplates (files : Files) : Type 0 where
  pub record_content : Str
  pub records_at : lookup records_path files ≡ some record_content
  pub template : Str
  pub template_at : lookup template_path files ≡ some template
  pub support : Str
  pub support_at : lookup (lit "templates/support.md.template") files ≡ some support

-- The stubs that the command line admits: none is named, or each named one is a choice.
abbrev pub IsSelection : Option (List Str) → Type 0
IsSelection none = Unit
IsSelection (some stubs) = All IsChoice stubs

IsSelection-IsStub :
    (stubs : Option (List Str)) → IsSelection stubs → All IsStub (parse_stubs stubs)
unfolding parse_stubs contains lit str_eq nat_eq
IsSelection-IsStub none h = (refl, (refl, (refl, (refl, (refl, tt)))))
IsSelection-IsStub (some stubs) h = parse_stubs-IsStub stubs h

first_failure-ok :
    (results : Str → Result (Unit {0})) (stubs : List Str)
    → All (λ s. results s ≡ ok tt) stubs
    → first_failure (map results stubs) ≡ ok tt
first_failure-ok results [] h = refl
first_failure-ok results (s ∷ stubs) (hs, h) = rw hs (first_failure-ok results stubs h)

module _ (packages : Packages) (read_csv : Str → Result Frame) where
  module _ (types : Types) (rows : List Row) (archs : List Str) (files : Files) where
    generate-succeeds :
        IsFitTypes types
        → IsFitTable packages types rows archs
        → HasTemplates files
        → (stub : Str) → IsStub stub
        → (generate packages read_csv types rows archs stub files).0 ≡ ok tt
    unfolding generate lit str_eq nat_eq
    generate-succeeds fit table templates =
        contains-All (λ stub. (generate packages read_csv types rows archs stub files).0 ≡ ok tt)
          stub_names
          (
            gen_libc_stubs-Finishes types fit (lit "libc") rows table.args files,
            (
              gen_wamr_stubs-Finishes types fit (lit "wamr") rows table.args files,
              (
                gen_wit_stubs-succeeds types (lit "wit") rows templates.record_content
                    templates.template files table.args templates.records_at templates.template_at,
                (
                  gen_arch_diff_stubs-Finishes (lit "arch-diff") rows archs table.numbered files,
                  (
                    gen_markdown_stubs-succeeds packages (lit "markdown") rows archs
                        templates.support files table.nonempty table.columns table.known
                        templates.support_at,
                    tt,
                  ),
                ),
              ),
            ),
          )

    all_succeed :
        IsFitTypes types
        → IsFitTable packages types rows archs
        → HasTemplates files
        → (stubs : List Str) → All IsStub stubs
        → All (λ stub. (generate packages read_csv types rows archs stub files).0 ≡ ok tt) stubs
    all_succeed fit table templates [] h = tt
    all_succeed fit table templates (stub ∷ stubs) (k, h) =
        (generate-succeeds fit table templates stub k, all_succeed fit table templates stubs h)

  -- Where the templates and the table are there and the table has at least one row that it gives to
  -- the generators; where no primitive type is empty and no complex type has the name of a basic one;
  -- where every row has no count, or a count that can be read and as many arguments, each with a
  -- letter other than white space, and a pointer, a basic type, or a complex type whose value is not
  -- empty and leads to a primitive type; where every row has at least six columns for arguments, and a number
  -- that can be read, or none, for every architecture; where the package knows the architectures and
  -- x86_64; and where the command line admits the stubs, the script finishes without an exception.
  pub autogen_succeeds :
      (file primitives complex content : Str) (frame : Frame) (stubs : Option (List Str))
      (files : Files)
      → lookup (lit "templates/primitives.wit.template") files ≡ some primitives
      → lookup (lit "templates/complex.wit.template") files ≡ some complex
      → lookup file files ≡ some content
      → read_csv content ≡ ok frame
      → IsFitTypes (load_types primitives complex)
      → IsFitTable packages (load_types primitives complex) (parse_csv frame).0 (parse_csv frame).1
      → HasTemplates files
      → IsSelection stubs
      → (autogen packages read_csv file stubs files).0 ≡ ok tt
  unfolding autogen
  autogen_succeeds file primitives complex content frame stubs files hp hc found read fit table
        templates selection =
      let types = load_types primitives complex in
      let rows = (parse_csv frame).0 in
      let archs = (parse_csv frame).1 in
      let selected = parse_stubs stubs in
      let known = IsSelection-IsStub stubs selection in
      let begun : Str → Str → Run (Unit {0}) =
        λ p c. main packages read_csv (load_types p c) file stubs in
      let tables : Str → Run (Unit {0}) =
        λ p. Files.◌>>=◌ (read_file (lit "templates/complex.wit.template")) (begun p) in
      ap (λ p. p.0)
        (read_file-found (lit "templates/primitives.wit.template") primitives tables files hp)
      ∙ ap (λ p. p.0)
          (read_file-found (lit "templates/complex.wit.template") complex (begun primitives) files
            hc)
      ∙ ap (λ p. p.0) (main-found packages read_csv types file stubs content frame files found read)
      ∙ generate_all_outcome packages read_csv types rows archs files selected files known
          (λ q h. refl)
      ∙ first_failure-ok (λ stub. (generate packages read_csv types rows archs stub files).0)
          selected (all_succeed types rows archs files fit table templates selected known)
