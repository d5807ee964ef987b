-- ===== src/Toolchains.antt =====
-- toolchains/gen_toolchains.py: the toolchain files that are made from wali.toml.
pub mod Config
pub mod Templates
pub mod Triple
pub mod Layout
pub mod Formats
pub mod Reading
pub mod Generates
pub mod Outcome
use wali_lib.Base.{Str, lit, none, some, Result, ok, err, value_error, system_exit, str_eq, ◌>>=◌}
use wali_lib.Base.Dict.{lookup}
use wali_lib.Base.Files
use wali_lib.Base.Files.{Run, Files, lift, write_file, ◌>>◌}
use wali_lib.Toml.{Table}
use wali_lib.Toolchains.Config.{Outside, Settings, read_settings}
use wali_lib.Toolchains.Templates.{makefile, bash, cmake}

-- The texts of the three files.
pub record Texts : Type 0 where
  pub mk : Str
  pub sh : Str
  pub cmake : Str

module _ (outside : Outside) where
  unfoldable pub make_texts : Table → Result Texts
  make_texts cfg = do
    settings ← read_settings outside cfg
    mk ← makefile outside settings
    sh ← bash outside settings
    cm ← cmake outside settings
    ok (record { mk = mk; sh = sh; cmake = cm })

  unfoldable pub loaded : Str → Result Texts
  loaded content = elim (outside.parse content) [
    | none ↦ err value_error
    | some cfg ↦ make_texts cfg
  ]

  -- `(filepath / name).write_text(text)`
  unfoldable pub write_text : Str → Str → Run (Unit {0})
  write_text name text = write_file (outside.child outside.filepath name) text

  unfoldable pub write_texts : Texts → Run (Unit {0})
  write_texts t =
      write_text (lit "wali.mk") t.mk
      >> write_text (lit "wali.sh") t.sh
      >> write_text (lit "wali.cmake") t.cmake

  -- Without a configuration the script ends with `sys.exit(1)`.
  unfoldable pub main : Run (Unit {0})
  main files = elim (lookup (outside.child outside.filepath (lit "wali.toml")) files) [
    | none ↦ (err (system_exit 1), files)
    | some content ↦ Files.◌>>=◌ (lift (loaded content)) write_texts files
  ]
