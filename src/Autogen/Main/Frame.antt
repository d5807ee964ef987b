-- ===== src/Autogen/Main/Frame.antt =====
-- The script changes files only in the directories of its stubs.
use wali_lib.Base.{Str, str_eq, Option, List, [], ◌∷◌, false, ◌≡◌, All, Result, ok}
use wali_lib.Base.Dict.{lookup}
use wali_lib.Base.Files.{Files}
use wali_lib.Base.Files.Keeps.{Keeps, Keeps-lift, Keeps-read_file, Keeps-bind}
use wali_lib.Autogen.Types.{Types, load_types}
use wali_lib.Autogen.Args.{Row}
use wali_lib.Autogen.Markdown.{Packages}
use wali_lib.Autogen.Main.{Frame, parse_csv, parse_stubs, generate_all, main, autogen}
use wali_lib.Autogen.Main.Confined.{inside, generate-Confined}

-- A path that is not in the directory.
abbrev pub IsOutside : Str → Str → Type 0
IsOutside q directory = inside directory q ≡ false

module _ (packages : Packages) (read_csv : Str → Result Frame) (q : Str) where
  pub generate_all-Keeps :
      (types : Types) (rows : List Row) (archs : List Str) (stubs : List Str)
      → All (IsOutside q) stubs
      → Keeps q (generate_all packages read_csv types rows archs stubs)
  unfolding generate_all
  generate_all-Keeps types rows archs [] h = Keeps-lift (ok tt)
  generate_all-Keeps types rows archs (stub ∷ stubs) (h, hs) =
      Keeps-bind ((generate-Confined stub packages read_csv types rows archs).keeps q h)
        λ _. generate_all-Keeps types rows archs stubs hs

  main-Keeps :
      (types : Types) (file : Str) (stubs : Option (List Str))
      → All (IsOutside q) (parse_stubs stubs)
      → Keeps q (main packages read_csv types file stubs)
  unfolding main
  main-Keeps types file stubs h = Keeps-bind (Keeps-read_file file) λ content.
      Keeps-bind (Keeps-lift (read_csv content)) λ frame.
        generate_all-Keeps types (parse_csv frame).0 (parse_csv frame).1 (parse_stubs stubs) h

  autogen-Keeps :
      (file : Str) (stubs : Option (List Str))
      → All (IsOutside q) (parse_stubs stubs)
      → Keeps q (autogen packages read_csv file stubs)
  unfolding autogen
  autogen-Keeps file stubs h = Keeps-bind (Keeps-read_file _) λ primitives.
      Keeps-bind (Keeps-read_file _)
        λ complex. main-Keeps (load_types primitives complex) file stubs h

  -- A run of the script, whether it finishes or raises, leaves every file as it was whose path is
  -- not in the directory of a stub that is selected.
  pub autogen_frame :
      (file : Str) (stubs : Option (List Str)) (files : Files)
      → All (IsOutside q) (parse_stubs stubs)
      → lookup q (autogen packages read_csv file stubs files).1 ≡ lookup q files
  autogen_frame file stubs files h = (autogen-Keeps file stubs h).same files
