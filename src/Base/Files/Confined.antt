-- ===== src/Base/Files/Confined.antt =====
-- Runs that read and write only some files.
use native.Mathlib.Omega.{arith}
use mathlib.Core.Path.{◌≡◌, refl, ◌∙◌, ap}
use mathlib.Core.Logic.{◌≢◌}
use mathlib.Core.Bool.{Bool, true, false}
use wali_lib.Base.Equality.{Str, str_eq, if◌then◌else◌}
use wali_lib.Base.Dict.{lookup, lookup-insert}
use mathlib.Core.Option.{Option, none, some}
use wali_lib.Base.Results.{Result, ok, err, file_not_found}
use wali_lib.Base.Files.Keeps.{Keeps, Keeps-lift, Keeps-read_file, Keeps-write_file, Keeps-bind}
use wali_lib.Base.Files.{Files, Run, lift, read_file, write_file, ◌>>=◌, ◌>>◌}

-- Two states with the same contents under the paths of a test.
abbrev pub Agree : (Str → Bool) → Files → Files → Type 0
Agree reads files files' = (q : Str) → reads q ≡ true → lookup q files ≡ lookup q files'

abbrev pub Disjoint : (Str → Bool) → (Str → Bool) → Type 0
Disjoint reads writes = (q : Str) → reads q ≡ true → writes q ≡ false

-- The run leaves a file as it is, also where it fails, unless its path has `writes`; and what it
-- returns and writes depends only on the files that have `reads`, where it writes none of those.
pub record Confined {A : Type 0} (reads writes : Str → Bool) (run : Run A) : Type 0 where
  pub keeps : (q : Str) → writes q ≡ false → Keeps q run
  pub same :
      (files files' : Files)
      → Disjoint reads writes
      → Agree reads files files'
      → (run files).0 ≡ (run files').0
  pub wrote :
      (files files' : Files)
      → Disjoint reads writes
      → Agree reads files files'
      → (q : Str) → lookup q files ≡ lookup q files'
      → lookup q (run files).1 ≡ lookup q (run files').1

module _ {reads writes : Str → Bool} where
  pub Confined-lift : {A : Type 0} (r : Result A) → Confined reads writes (lift r)
  Confined-lift r = record {
    keeps = λ q h. Keeps-lift r;
    same = λ files files' d agree. refl;
    wrote = λ files files' d agree q h. h;
  }

  pub Confined-read_file : (path : Str) → reads path ≡ true → Confined reads writes (read_file path)
  Confined-read_file path h = record {
    keeps = λ q h. Keeps-read_file path;
    same = λ files files' d agree.
        ap
          (λ (found : Option Str). elim found [
            | none ↦ err file_not_found
            | some content ↦ ok content
          ])
          (agree path h);
    wrote = λ files files' d agree q h. h;
  }

  pub Confined-write_file :
      (path content : Str) → writes path ≡ true → Confined reads writes (write_file path content)
  Confined-write_file path content h = record {
    keeps = λ q outside. let ne : q ≢ path = λ e. cc in Keeps-write_file path content ne;
    same = λ files files' d agree. refl;
    wrote = λ files files' d agree q h.
        ground (arith, lookup-insert q path content files, lookup-insert q path content files');
  }

  module _ {A B : Type 0} {run : Run A} {next : A → Run B} where
    pub Confined-bind :
        Confined reads writes run
        → ((a : A) → Confined reads writes (next a))
        → Confined reads writes (run >>= next)
    Confined-bind k kn = record {
      keeps = λ q h. Keeps-bind (k.keeps q h) λ a. (kn a).keeps q h;
      same = λ files files' d agree.
          ap (λ r. (((λ (_ : Files). (r, (run files).1)) >>= next) files).0)
            (k.same files files' d agree)
          ∙ same_after d (run files').0 (run files).1 (run files').1
              (still_agree d files files' agree);
      wrote = λ files files' d agree q h.
          ap (λ r. lookup q (((λ (_ : Files). (r, (run files).1)) >>= next) files).1)
            (k.same files files' d agree)
          ∙ wrote_after d (run files').0 (run files).1 (run files').1
              (still_agree d files files' agree) q (k.wrote files files' d agree q h);
    }
      where
        still_agree :
            Disjoint reads writes
            → (files files' : Files) → Agree reads files files'
            → Agree reads (run files).1 (run files').1
        still_agree d files files' agree q h = k.wrote files files' d agree q (agree q h)

        same_after :
            Disjoint reads writes
            → (r : Result A) (files files' : Files) → Agree reads files files'
            → (((λ (_ : Files). (r, files)) >>= next) files).0
              ≡ (((λ (_ : Files). (r, files')) >>= next) files').0
        same_after d (err e) files files' agree = refl
        same_after d (ok a) files files' agree = (kn a).same files files' d agree

        wrote_after :
            Disjoint reads writes
            → (r : Result A) (files files' : Files) → Agree reads files files'
            → (q : Str) → lookup q files ≡ lookup q files'
            → lookup q (((λ (_ : Files). (r, files)) >>= next) files).1
              ≡ lookup q (((λ (_ : Files). (r, files')) >>= next) files').1
        wrote_after d (err e) files files' agree q h = h
        wrote_after d (ok a) files files' agree q h = (kn a).wrote files files' d agree q h

  pub Confined-seq :
      {B : Type 0} {first : Run (Unit {0})} {second : Run B}
      → Confined reads writes first
      → Confined reads writes second
      → Confined reads writes (first >> second)
  Confined-seq {B} {first} {second} k₁ k₂ =
      Confined-bind {run = first} {next = λ _. second} k₁ (λ _. k₂)

  pub Confined-if :
      {A : Type 0} {run other : Run A} (b : Bool)
      → Confined reads writes run
      → Confined reads writes other
      → Confined reads writes (if b then run else other)
  Confined-if true k k' = k
  Confined-if false k k' = k'
