-- ===== src/Autogen/Main/Outcome.antt =====
-- The stubs of a run do not depend on each other.
pub mod Contents
use wali_lib.Base.{
  ℕ, Str, lit, Option, some, List, [], ◌∷◌, map, Bool, true, false, ◌≡◌, refl, sym, ◌∙◌, ap, subst,
  arith, nat_eq, str_eq, ◌==◌, if◌then◌else◌, contains, All, Result, ok, err,
}
use wali_lib.Base.Dict.{lookup}
use wali_lib.Base.Sets.{contains-All}
use wali_lib.Base.Files
use wali_lib.Base.Files.{Files, Run, lift, read_file, read_file-found, lift-ok, ◌>>◌}
use wali_lib.Base.Files.Confined.{Agree}
use wali_lib.Text.{starts_with}
use wali_lib.Autogen.Types.{Types}
use wali_lib.Autogen.Args.{Row}
use wali_lib.Autogen.Markdown.{Packages}
use wali_lib.Autogen.Main.{Frame, parse_csv, stub_names, parse_stubs, generate, generate_all, main}
use wali_lib.Autogen.Main.Confined.{in_templates, inside, generate-Confined}

-- What the command line admits as a stub.
abbrev pub IsChoice : Str → Type 0
IsChoice stub = contains (lit "all" ∷ stub_names) stub ≡ true

abbrev pub IsStub : Str → Type 0
IsStub stub = contains stub_names stub ≡ true

contains-head : (x : Str) (xs : List Str) → contains (x ∷ xs) x ≡ true
unfolding contains
contains-head x xs = ground arith

-- Where one text is not chosen, what is chosen is one of the others.
contains-others :
    (x : Str) (others chosen : List Str)
    → contains chosen x ≡ false
    → All (λ y. contains (x ∷ others) y ≡ true) chosen
    → All (λ y. contains others y ≡ true) chosen
unfolding contains
contains-others x others [] h all = tt
contains-others x others (y ∷ chosen) h (c, all) = elim (str_eq.dec y x) [
  | yes p ↦
      let found : contains (y ∷ chosen) x ≡ true =
        subst (λ z. contains (y ∷ chosen) z ≡ true) p (contains-head y chosen) in
      cc
  | no n ↦ (ground arith, contains-others x others chosen (ground arith) all)
]

pub parse_stubs-IsStub :
    (stubs : List Str) → All IsChoice stubs → All IsStub (parse_stubs (some stubs))
unfolding parse_stubs contains lit str_eq
parse_stubs-IsStub stubs choices = chosen (contains stubs (lit "all")) refl
  where
    chosen :
        (b : Bool) → contains stubs (lit "all") ≡ b → All IsStub (if b then stub_names else stubs)
    chosen true h = (refl, (refl, (refl, (refl, (refl, tt)))))
    chosen false h = contains-others (lit "all") stub_names stubs h choices

starts_with_apart :
    (c d : ℕ) (s p : Str)
    → (c == d) ≡ false
    → (q : Str) → starts_with q (c ∷ s) ≡ true
    → starts_with q (d ∷ p) ≡ false
unfolding starts_with
starts_with_apart c d s p ne [] h = refl
starts_with_apart c d s p ne (x ∷ q) h = ground arith

-- No template is in the directory of a stub.
pub templates_elsewhere :
    (stub : Str) → IsStub stub → (q : Str) → in_templates q ≡ true → inside stub q ≡ false
unfolding lit nat_eq
templates_elsewhere =
    contains-All (λ stub. (q : Str) → in_templates q ≡ true → inside stub q ≡ false) stub_names
      (
        starts_with_apart _ _ _ _ refl,
        (
          starts_with_apart _ _ _ _ refl,
          (
            starts_with_apart _ _ _ _ refl,
            (starts_with_apart _ _ _ _ refl, (starts_with_apart _ _ _ _ refl, tt)),
          ),
        ),
      )

-- The result of the first run that failed.
abbrev pub first_failure : List (Result (Unit {0})) → Result (Unit {0})
first_failure [] = ok tt
first_failure (err e ∷ results) = err e
first_failure (ok _ ∷ results) = first_failure results

first_failure-seq :
    (r : Result (Unit {0})) (results : List (Result (Unit {0}))) (rest : Run (Unit {0}))
    (after files : Files)
    → (rest after).0 ≡ first_failure results
    → (((λ (_ : Files). (r, after)) >> rest) files).0 ≡ first_failure (r ∷ results)
first_failure-seq (err e) results rest after files h = refl
first_failure-seq (ok tt) results rest after files h = h

module _ (packages : Packages) (read_csv : Str → Result Frame) where
  module _ (types : Types) (rows : List Row) (archs : List Str) (start : Files) where
    -- What a stub would give if it were the only one.
    abbrev alone : Str → Result (Unit {0})
    alone stub = (generate packages read_csv types rows archs stub start).0

    pub generate_all_outcome :
        (stubs : List Str) (files : Files)
        → All IsStub stubs
        → Agree in_templates start files
        → (generate_all packages read_csv types rows archs stubs files).0
          ≡ first_failure (map alone stubs)
    unfolding generate_all
    generate_all_outcome [] files known agree = refl
    generate_all_outcome (stub ∷ stubs) files (known, rest) agree =
        let confined = generate-Confined stub packages read_csv types rows archs in
        let elsewhere = templates_elsewhere stub known in
        let after : Files = (generate packages read_csv types rows archs stub files).1 in
        let others : Run (Unit {0}) = generate_all packages read_csv types rows archs stubs in
        ap (λ r. (((λ (_ : Files). (r, after)) >> others) files).0)
          (sym (confined.same start files elsewhere agree))
        ∙ first_failure-seq (alone stub) (map alone stubs) others after files (
            generate_all_outcome stubs after rest
              λ q h. agree q h ∙ sym ((confined.keeps q (elsewhere q h)).same files))

  -- Where the table can be read, the stubs are what is left of a run.
  pub main-found :
      (types : Types) (file : Str) (stubs : Option (List Str)) (content : Str) (frame : Frame)
      (files : Files)
      → lookup file files ≡ some content
      → read_csv content ≡ ok frame
      → main packages read_csv types file stubs files
        ≡ generate_all packages read_csv types
            (parse_csv frame).0
            (parse_csv frame).1
            (parse_stubs stubs)
            files
  unfolding main
  main-found types file stubs content frame files found read =
      let generated : Frame → Run (Unit {0}) = λ frame.
        generate_all packages read_csv types (parse_csv frame).0 (parse_csv frame).1
          (parse_stubs stubs) in
      let parsed : Str → Run (Unit {0}) =
        λ content. Files.◌>>=◌ (lift (read_csv content)) generated in
      read_file-found file content parsed files found
      ∙ lift-ok (read_csv content) frame generated files read

  -- Where the table can be read, a run of the stubs that the command line admits ends as the first
  -- of them that fails ends, and well where none fails, as if each were run alone on the files that
  -- the run started with.
  pub main_outcome :
      (types : Types) (file : Str) (stubs : List Str) (content : Str) (frame : Frame)
      (files : Files)
      → lookup file files ≡ some content
      → read_csv content ≡ ok frame
      → All IsChoice stubs
      → (main packages read_csv types file (some stubs) files).0
        ≡ first_failure (
            map
              (λ stub.
                (generate packages read_csv types
                  (parse_csv frame).0
                  (parse_csv frame).1
                  stub
                  files).0)
              (parse_stubs (some stubs)))
  main_outcome types file stubs content frame files found read choices =
      let selected = parse_stubs (some stubs) in
      ap (λ p. p.0) (main-found types file (some stubs) content frame files found read)
      ∙ generate_all_outcome types (parse_csv frame).0 (parse_csv frame).1 files selected files
          (parse_stubs-IsStub stubs choices) λ q h. refl
