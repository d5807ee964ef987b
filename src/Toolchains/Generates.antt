-- ===== src/Toolchains/Generates.antt =====
-- From a configuration of the expected form the script makes the three files of their templates.
use wali_lib.Base.{Str, lit, some, List, [], ◌∷◌, ◌++◌, All, ok, ◌≡◌, refl, ap, str_eq}
use wali_lib.Base.Dict.{lookup}
use wali_lib.Base.Files.{Files}
use wali_lib.Text.{join}
use wali_lib.Text.Format.Pieces.{IsPlain}
use wali_lib.Text.Dedent.Block.{IsLine}
use wali_lib.Toml.{Table}
use wali_lib.Toolchains.{Texts, make_texts, main}
use wali_lib.Toolchains.Config.{Outside, ldflags}
use wali_lib.Toolchains.Templates.{makefile_lines, bash_lines, cmake_lines, makefile, bash, cmake}
use wali_lib.Toolchains.Triple.{full}
use wali_lib.Toolchains.Layout.{text_of_lines, dedent-makefile, dedent-bash, dedent-cmake}
use wali_lib.Toolchains.Formats.{format-cflags, format-ldflags, format-cxxflags}
use wali_lib.Toolchains.Reading.{Content, IsConfig, cflags_of, settings_of, read_settings-IsConfig}
use wali_lib.Toolchains.Outcome.{with_texts, main-loaded}

module _ (outside : Outside) (c : Content) where
  -- The flags with the names that a file gives to the directories.
  abbrev pub cflags : Str → Str
  cflags v =
      join (lit " ") ((lit "--target=" ++ full c.triple) ∷ (lit "--sysroot=" ++ v) ∷ cflags_of c)

  abbrev pub cxxflags : Str → Str → Str
  cxxflags cf libcxx =
      join (lit " ")
        (lit "-stdlib=libc++" ∷ cf ∷ (lit "-I" ++ (libcxx ++ lit "/include/c++/v1")) ∷ [])

  abbrev pub linker_flags : Str → Str → Str
  linker_flags sysroot libcxx = join (lit " ") (
      (lit "-L" ++ (sysroot ++ lit "/lib"))
      ∷ (lit "-L" ++ (libcxx ++ lit "/lib"))
      ∷ ldflags outside c.link)

  abbrev pub mk_lines : List Str
  mk_lines =
      makefile_lines (settings_of outside c) (cflags (lit "$(WALI_SYSROOT_DIR)"))
        (cxxflags (lit "$(WALI_COMMON_CFLAGS)") (lit "$(WALI_LIBCXX_DIR)"))
        (linker_flags (lit "$(WALI_SYSROOT_DIR)") (lit "$(WALI_LIBCXX_DIR)"))

  abbrev pub sh_lines : List Str
  sh_lines =
      bash_lines (settings_of outside c) (cflags (lit "${WALI_SYSROOT_DIR}"))
        (cxxflags (lit "${WALI_COMMON_CFLAGS}") (lit "${WALI_LIBCXX_DIR}"))
        (linker_flags (lit "${WALI_SYSROOT_DIR}") (lit "${WALI_LIBCXX_DIR}"))

  abbrev pub cm_lines : List Str
  cm_lines =
      cmake_lines (settings_of outside c) (cflags (lit "${CMAKE_SYSROOT}"))
        (cxxflags (lit "${CMAKE_C_FLAGS}") (lit "${WALI_LIBCXX_DIR}"))
        (linker_flags (lit "${CMAKE_SYSROOT}") (lit "${WALI_LIBCXX_DIR}"))

  -- No brace stands in the triple or in a flag, and no newline in a line of a file.
  pub record IsSimple : Type 0 where
    pub triple_plain : IsPlain (full c.triple)
    pub cflags_plain : All IsPlain (cflags_of c)
    pub ldflags_plain : All IsPlain (ldflags outside c.link)
    pub mk_ok : All IsLine mk_lines
    pub sh_ok : All IsLine sh_lines
    pub cm_ok : All IsLine cm_lines

  abbrev pub texts : Texts
  texts = record {
    mk = text_of_lines mk_lines;
    sh = text_of_lines sh_lines;
    cmake = text_of_lines cm_lines;
  }

  makefile-IsSimple :
      IsSimple → makefile outside (settings_of outside c) ≡ ok (text_of_lines mk_lines)
  unfolding makefile
  makefile-IsSimple h =
      rw
        (
          format-cflags outside.format_rest (full c.triple) (lit "$(WALI_SYSROOT_DIR)")
              (cflags_of c) h.triple_plain h.cflags_plain,
          format-cxxflags outside.format_rest (lit "$(WALI_COMMON_CFLAGS)")
              (lit "$(WALI_LIBCXX_DIR)"),
          format-ldflags outside.format_rest (lit "$(WALI_SYSROOT_DIR)") (lit "$(WALI_LIBCXX_DIR)")
              (ldflags outside c.link) h.ldflags_plain,
        )
        (ap ok (dedent-makefile _ _ _ _ h.mk_ok))

  bash-IsSimple : IsSimple → bash outside (settings_of outside c) ≡ ok (text_of_lines sh_lines)
  unfolding bash
  bash-IsSimple h =
      rw
        (
          format-cflags outside.format_rest (full c.triple) (lit "${WALI_SYSROOT_DIR}")
              (cflags_of c) h.triple_plain h.cflags_plain,
          format-cxxflags outside.format_rest (lit "${WALI_COMMON_CFLAGS}")
              (lit "${WALI_LIBCXX_DIR}"),
          format-ldflags outside.format_rest (lit "${WALI_SYSROOT_DIR}") (lit "${WALI_LIBCXX_DIR}")
              (ldflags outside c.link) h.ldflags_plain,
        )
        (ap ok (dedent-bash _ _ _ _ h.sh_ok))

  cmake-IsSimple : IsSimple → cmake outside (settings_of outside c) ≡ ok (text_of_lines cm_lines)
  unfolding cmake
  cmake-IsSimple h =
      rw
        (
          format-cflags outside.format_rest (full c.triple) (lit "${CMAKE_SYSROOT}") (cflags_of c)
              h.triple_plain h.cflags_plain,
          format-cxxflags outside.format_rest (lit "${CMAKE_C_FLAGS}") (lit "${WALI_LIBCXX_DIR}"),
          format-ldflags outside.format_rest (lit "${CMAKE_SYSROOT}") (lit "${WALI_LIBCXX_DIR}")
              (ldflags outside c.link) h.ldflags_plain,
        )
        (ap ok (dedent-cmake _ _ _ _ h.cm_ok))

  make_texts-IsSimple :
      (cfg : Table) → IsConfig cfg c → IsSimple → make_texts outside cfg ≡ ok texts
  unfolding make_texts
  make_texts-IsSimple cfg h simple =
      rw
        (
          read_settings-IsConfig outside cfg c h,
          makefile-IsSimple simple,
          bash-IsSimple simple,
          cmake-IsSimple simple,
        )
        refl

  -- Where wali.toml is there and can be parsed to a configuration of the expected form, whose triple
  -- and flags have no braces and whose values have no newlines, the run succeeds: each of the three
  -- files is written with the lines of its template, in which the flags name the file's own
  -- variables and the directories and the triple are those of the configuration.
  pub main_generates :
      (files : Files) (content : Str) (cfg : Table)
      → lookup (outside.child outside.filepath (lit "wali.toml")) files ≡ some content
      → outside.parse content ≡ some cfg
      → IsConfig cfg c
      → IsSimple
      → main outside files ≡ (ok tt, with_texts outside texts files)
  main_generates files content cfg there parsed h simple =
      main-loaded outside files content cfg there parsed texts (make_texts-IsSimple cfg h simple)
