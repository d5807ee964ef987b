-- ===== src/Base/Files/Keeps.antt =====
-- Runs that leave a file as it is.
use mathlib.Core.Path.{◌≡◌, refl, ◌∙◌}
use mathlib.Core.Logic.{◌≢◌}
use native.Mathlib.Omega.{arith}
use wali_lib.Base.Equality.{Str, str_eq}
use wali_lib.Base.Dict.{lookup, lookup-insert}
use wali_lib.Base.Results.{Result, ok, err}
use wali_lib.Base.Files.{Files, Run, lift, read_file, write_file, ◌>>=◌}

-- Whatever the files are, the run leaves the file at the path as it is, also where it fails.
pub record Keeps {A : Type 0} (q : Str) (run : Run A) : Type 0 where
  pub same : (files : Files) → lookup q (run files).1 ≡ lookup q files

module _ {q : Str} where
  pub Keeps-lift : {A : Type 0} (r : Result A) → Keeps q (lift r)
  Keeps-lift r = record { same = λ files. refl }

  pub Keeps-read_file : (path : Str) → Keeps q (read_file path)
  Keeps-read_file path = record { same = λ files. refl }

  pub Keeps-write_file : (path content : Str) → q ≢ path → Keeps q (write_file path content)
  Keeps-write_file path content ne = record {
    same = λ files. ground (arith, lookup-insert q path content files);
  }

  pub Keeps-bind :
      {A B : Type 0} {run : Run A} {next : A → Run B}
      → Keeps q run
      → ((a : A) → Keeps q (next a))
      → Keeps q (run >>= next)
  Keeps-bind {A} {B} {run} {next} k kn = record {
    same = λ files. after files (run files) (k.same files);
  }
    where
      after :
          (files : Files) (p : Result A × Files)
          → lookup q p.1 ≡ lookup q files
          → lookup q (((λ (_ : Files). p) >>= next) files).1 ≡ lookup q files
      after files (err e, between) h = h
      after files (ok a, between) h = (kn a).same between ∙ h
