-- ===== src/Autogen/Main/Outcome/Contents.antt =====
-- A run of several stubs writes what each of them writes alone.
use wali_lib.Base.{
  Str, lit, some, List, [], ◌∷◌, ◌++◌, Bool, true, false, not, ◌≡◌, ◌≢◌, refl, sym, ◌∙◌, ap, arith,
  nat_eq, str_eq, ◌==◌, ◌||◌, contains, Distinct, All, Result, ok,
}
use wali_lib.Base.Dict.{lookup}
use wali_lib.Base.Sets.{contains-All}
use wali_lib.Base.Files.{Files, Run, seq-ok}
use wali_lib.Base.Files.Confined.{Agree}
use wali_lib.Text.{starts_with}
use wali_lib.Autogen.Types.{Types}
use wali_lib.Autogen.Args.{Row}
use wali_lib.Autogen.Markdown.{Packages}
use wali_lib.Autogen.Main.{Frame, parse_csv, stub_names, parse_stubs, generate, generate_all, main}
use wali_lib.Autogen.Main.Confined.{in_templates, inside, generate-Confined}
use wali_lib.Autogen.Main.Frame.{IsOutside, generate_all-Keeps}
use wali_lib.Autogen.Main.Outcome.{
  IsChoice, IsStub, parse_stubs-IsStub, templates_elsewhere, main-found,
}

-- Whether two texts differ at a position that both have.
unfoldable clash : Str → Str → Bool
unfolding nat_eq
clash [] s = false
clash (c ∷ s) [] = false
clash (c ∷ s) (d ∷ t) = let rest = clash s t in not (c == d) || rest

starts_with-clash :
    (q s t : Str) → clash s t ≡ true → starts_with q s ≡ true → starts_with q t ≡ false
unfolding clash starts_with
starts_with-clash q [] t h k = cc
starts_with-clash q (c ∷ s) [] h k = cc
starts_with-clash [] (c ∷ s) (d ∷ t) h k = refl
starts_with-clash (x ∷ q) (c ∷ s) (d ∷ t) h k = ground (arith, starts_with-clash q s t)

abbrev Apart : Str → Str → Type 0
Apart stub other = (stub == other || clash (stub ++ lit "/") (other ++ lit "/")) ≡ true

-- No path is in the directories of two stubs.
stubs-Apart : (stub : Str) → IsStub stub → (other : Str) → IsStub other → Apart stub other
unfolding clash lit str_eq nat_eq
stubs-Apart stub known other known' =
    contains-All (λ s. Apart s other) stub_names
      (
        at (lit "libc") (refl, (refl, (refl, (refl, (refl, tt))))),
        (
          at (lit "wamr") (refl, (refl, (refl, (refl, (refl, tt))))),
          (
            at (lit "wit") (refl, (refl, (refl, (refl, (refl, tt))))),
            (
              at (lit "arch-diff") (refl, (refl, (refl, (refl, (refl, tt))))),
              (at (lit "markdown") (refl, (refl, (refl, (refl, (refl, tt))))), tt),
            ),
          ),
        ),
      )
      stub known
  where
    at : (s : Str) → All (λ t. Apart s t) stub_names → Apart s other
    at s all = contains-All (λ t. Apart s t) stub_names all other known'

inside_one :
    (stub other q : Str)
    → IsStub stub
    → IsStub other
    → stub ≢ other
    → inside stub q ≡ true
    → inside other q ≡ false
inside_one stub other q known known' ne within =
    let apart = stubs-Apart stub known other known' in
    starts_with-clash q (stub ++ lit "/") (other ++ lit "/") (ground arith) within

others-IsOutside :
    (stub q : Str) (others : List Str)
    → IsStub stub
    → inside stub q ≡ true
    → All IsStub others
    → contains others stub ≡ false
    → All (IsOutside q) others
unfolding contains
others-IsOutside stub q [] known within all fresh = tt
others-IsOutside stub q (other ∷ others) known within (known', all) fresh = (
  inside_one stub other q known known' (λ p. ground arith) within,
  others-IsOutside stub q others known within all (ground arith),
)

module _ (packages : Packages) (read_csv : Str → Result Frame) where
  module _ (types : Types) (rows : List Row) (archs : List Str) (start : Files) where
    abbrev alone : Str → Result (Unit {0}) × Files
    alone stub = generate packages read_csv types rows archs stub start

    generate_all_contents :
        (stubs : List Str) (files : Files)
        → All IsStub stubs
        → Distinct stubs
        → All (λ s. (alone s).0 ≡ ok tt) stubs
        → Agree in_templates start files
        → (stub : Str) → contains stubs stub ≡ true
        → (q : Str) → inside stub q ≡ true
        → lookup q start ≡ lookup q files
        → lookup q (generate_all packages read_csv types rows archs stubs files).1
          ≡ lookup q (alone stub).1
    unfolding generate_all contains
    generate_all_contents [] files known distinct good agree stub member q within untouched = cc
    generate_all_contents (s ∷ stubs) files (k, known) (fresh, distinct) (g, good) agree stub member
          q within untouched =
        let confined = generate-Confined s packages read_csv types rows archs in
        let elsewhere = templates_elsewhere s k in
        let first : Run (Unit {0}) = generate packages read_csv types rows archs s in
        let others : Run (Unit {0}) = generate_all packages read_csv types rows archs stubs in
        ap (λ p. lookup q p.1)
          (seq-ok first others files (sym (confined.same start files elsewhere agree) ∙ g))
        ∙ elim (str_eq.dec stub s) [
          | yes p ↦
              (generate_all-Keeps packages read_csv q types rows archs stubs (
                  others-IsOutside s q stubs k (ap (λ x. inside x q) (sym p) ∙ within) known
                    fresh)).same
                (first files).1
              ∙ sym (confined.wrote start files elsewhere agree q untouched)
              ∙ ap (λ x. lookup q (alone x).1) (sym p)
          | no n ↦
              let member' : contains stubs stub ≡ true = ground arith in
              let known_stub = contains-All IsStub stubs known stub member' in
              generate_all_contents stubs (first files).1 known distinct good
                (λ r h. agree r h ∙ sym ((confined.keeps r (elsewhere r h)).same files)) stub
                member' q within
                (untouched
                  ∙ sym ((confined.keeps q (inside_one stub s q known_stub k n within)).same files))
        ]

  -- Where the table can be read, the stubs are admitted by the command line and none is selected
  -- twice, and each would succeed alone on the files that the run starts with, then the run leaves
  -- in the directory of each stub what that stub alone would leave there.
  pub main_contents :
      (types : Types) (file : Str) (stubs : List Str) (content : Str) (frame : Frame)
      (files : Files)
      → lookup file files ≡ some content
      → read_csv content ≡ ok frame
      → All IsChoice stubs
      → Distinct (parse_stubs (some stubs))
      → All
          (λ s.
            (generate packages read_csv types (parse_csv frame).0 (parse_csv frame).1 s files).0
            ≡ ok tt)
          (parse_stubs (some stubs))
      → (stub : Str) → contains (parse_stubs (some stubs)) stub ≡ true
      → (q : Str) → inside stub q ≡ true
      → lookup q (main packages read_csv types file (some stubs) files).1
        ≡ lookup q
            (generate packages read_csv types (parse_csv frame).0 (parse_csv frame).1 stub files).1
  main_contents types file stubs content frame files found read choices distinct good stub member q
        within =
      ap (λ p. lookup q p.1)
        (main-found packages read_csv types file (some stubs) content frame files found read)
      ∙ generate_all_contents types (parse_csv frame).0 (parse_csv frame).1 files
          (parse_stubs (some stubs)) files (parse_stubs-IsStub stubs choices) distinct good
          (λ r h. refl) stub member q within refl
