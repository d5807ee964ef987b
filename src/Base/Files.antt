-- ===== src/Base/Files.antt =====
-- Steps that write files and may raise: what was written before an exception stays written.
pub mod Keeps
pub mod Confined
use mathlib.Core.Path.{◌≡◌, ap, ◌∙◌}
use wali_lib.Base.Equality.{Str, str_eq}
use mathlib.Core.Option.{Option, none, some}
use wali_lib.Base.Dict.{Dict, insert, lookup}
use wali_lib.Base.Results.{Result, ok, err, file_not_found}

-- The contents of files by their paths.
abbrev pub Files : Type 0
Files = Dict Str Str

abbrev pub Run : Type 0 → Type 0
Run A = Files → Result A × Files

module _ {A B : Type 0} where
  abbrev resume : Result A → (A → Run B) → Run B
  resume (err e) next files = (err e, files)
  resume (ok a) next files = next a files

  infixl 5 ◌>>=◌
  abbrev pub ◌>>=◌ : Run A → (A → Run B) → Run B
  ◌>>=◌ run next files = let (r, files') = run files in resume r next files'

infixl 5 ◌>>◌
abbrev pub ◌>>◌ : {B : Type 0} → Run (Unit {0}) → Run B → Run B
first >> second = first >>= λ _. second

-- A computation that touches no file.
abbrev pub lift : {A : Type 0} → Result A → Run A
lift r files = (r, files)

-- `with open(path, 'w') as f: f.write(content)`
abbrev pub write_file : Str → Str → Run (Unit {0})
write_file path content files = (ok tt, insert path content files)

-- `with open(path, 'r') as f: f.read()`
abbrev pub read_file : Str → Run Str
read_file path files =
    (elim (lookup path files) [ none ↦ err file_not_found | some content ↦ ok content ], files)

pub read_file-found :
    {B : Type 0} (path content : Str) (next : Str → Run B) (files : Files)
    → lookup path files ≡ some content
    → (read_file path >>= next) files ≡ next content files
read_file-found path content next files found =
    ap
      (λ (o : Option Str).
        resume (elim o [ none ↦ err file_not_found | some content ↦ ok content ]) next files)
      found

pub lift-ok :
    {A B : Type 0} (r : Result A) (a : A) (next : A → Run B) (files : Files)
    → r ≡ ok a
    → (lift r >>= next) files ≡ next a files
lift-ok r a next files found = ap (λ r. resume r next files) found

pub seq-ok :
    {B : Type 0} (first : Run (Unit {0})) (rest : Run B) (files : Files)
    → (first files).0 ≡ ok tt
    → (first >> rest) files ≡ rest (first files).1
seq-ok first rest files h = ap (λ r. resume r (λ _. rest) (first files).1) h

-- Whatever the files are, the run does not fail.
abbrev pub Finishes : Run (Unit {0}) → Type 0
Finishes run = (files : Files) → (run files).0 ≡ ok tt

pub seq-Finishes :
    (first second : Run (Unit {0})) → Finishes first → Finishes second → Finishes (first >> second)
seq-Finishes first second h k files =
    ap (λ p. p.0) (seq-ok first second files (h files)) ∙ k (first files).1
