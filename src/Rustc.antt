-- ===== src/Rustc.antt =====
-- scripts/rustc_config.py: the configuration of the Rust compiler for the target.
-- What the script takes from outside is the record `Outside`.
pub mod Sections
pub mod Laws
pub mod Patches
pub mod Runs
pub mod Outcome
pub mod Linker
use wali_lib.Base.{
  Str, lit, true, Option, none, some, List, [], ◌∷◌, ◌++◌, Result, ok, err, value_error, type_error,
  str_eq, ◌>>=◌,
}
use wali_lib.Base.Dict.{lookup}
use wali_lib.Base.Files
use wali_lib.Base.Files.{Run, lift, write_file, read_file, ◌>>◌}
use wali_lib.Text.{strip}
use wali_lib.Toml.{Value, text, flag, array, item, empty, other, table, Table, end, entry, get, put}
use wali_lib.Rustc.Sections.{ensure, section}

-- `toml.load` of a content (`none` for a `TomlDecodeError`, which is a `ValueError`), `toml.dump`,
-- `/` and `resolve` of pathlib, the output of a shell command, and the home directory.
pub record Outside : Type 0 where
  pub parse : Str → Option Table
  pub print : Table → Str
  pub child : Str → Str → Str
  pub absresolve : Str → Str
  pub check_output : Str → Result Str
  pub home : Str

module _ (outside : Outside) where
  unfoldable pub loaded : Str → Result Table
  loaded content = elim (outside.parse content) [ none ↦ err value_error | some t ↦ ok t ]

  -- `toml.load` of a file that is opened for reading.
  unfoldable pub load : Str → Run Table
  load path = Files.◌>>=◌ (read_file path) λ content. lift (loaded content)

  -- `toml.dump` to a file that is opened for writing.
  unfoldable pub dump : Table → Str → Run (Unit {0})
  dump t path = write_file path (outside.print t)

  unfoldable pub host_platform : Str → Result Str
  host_platform llvmbin = do
    output ← outside.check_output (llvmbin ++ lit "/llvm-config --host-target")
    ok (strip output)

  -- `absresolve(llvmbin / name)`
  unfoldable pub tool : Str → Str → Value
  tool llvmbin name = text (outside.absresolve (outside.child llvmbin name))

  unfoldable pub build_config : Str → Str → Table
  build_config host rtarget =
      entry (lit "target") (array (item (text host) (item (text rtarget) empty))) end

  unfoldable pub target_config : Str → Str → Table
  target_config muslroot llvmbin = entry (lit "musl-root") (text (outside.absresolve muslroot)) (
      entry (lit "llvm-config") (tool llvmbin (lit "llvm-config")) (
        entry (lit "llvm-libunwind") (text (lit "system")) (
          entry (lit "crt-static") (flag true) (
            entry (lit "cc") (tool llvmbin (lit "clang")) (
              entry (lit "cxx") (tool llvmbin (lit "clang++")) (
                entry (lit "ar") (tool llvmbin (lit "llvm-ar"))
                  (entry (lit "ranlib") (tool llvmbin (lit "llvm-ranlib")) end)))))))

  unfoldable pub host_config : Str → Table
  host_config llvmbin = entry (lit "llvm-config") (tool llvmbin (lit "llvm-config")) end

  -- The host replaces a target of the same name.
  unfoldable pub wali_config : Str → Str → Str → Str → Table
  wali_config muslroot llvmbin rtarget host =
      put host (table (host_config llvmbin))
        (entry rtarget (table (target_config muslroot llvmbin)) end)

  -- What `update_config_toml` makes of the configuration.
  unfoldable pub configured : Str → Str → Str → Str → Table → Result Table
  configured muslroot llvmbin rtarget host config = do
    config₁ ← section (lit "build") (build_config host rtarget) config
    section (lit "target") (wali_config muslroot llvmbin rtarget host) config₁

  unfoldable pub update_config_toml : Str → Str → Str → Str → Run (Unit {0})
  update_config_toml rust muslroot llvmbin rtarget =
      Files.◌>>=◌ (load (outside.child rust (lit "config.toml"))) λ config.
        Files.◌>>=◌
          (lift (do host ← host_platform llvmbin; configured muslroot llvmbin rtarget host config))
          λ config'. dump config' (outside.child rust (lit "config.toml"))

  unfoldable pub libc_patch : Table
  libc_patch =
      entry (lit "libc")
        (table (
          entry (lit "git") (text (lit "https://github.com/arjunr2/rust-libc.git"))
            (entry (lit "branch") (text (lit "libc-0.2")) end)))
        end

  unfoldable pub cc_patch : Table
  cc_patch =
      entry (lit "cc")
        (table (entry (lit "git") (text (lit "https://github.com/arjunr2/rust-cc.git")) end)) end

  -- The patch of the crates at the value of `patch`, put back into the table around it. A value that
  -- is no table raises a `TypeError` when it is tested for `crates-io` or indexed with it.
  unfoldable pub patch_crates : Table → Value → Table → Result Table
  patch_crates pairs (table p) cargo = do
    p' ← section (lit "crates-io") pairs p
    ok (put (lit "patch") (table p') cargo)
  patch_crates pairs (text _) cargo = err type_error
  patch_crates pairs (flag _) cargo = err type_error
  patch_crates pairs (array _) cargo = err type_error
  patch_crates pairs (other _) cargo = err type_error

  -- What `update_base_cargo_toml` and `update_bootstrap_cargo_toml` make of a Cargo.toml.
  unfoldable pub patched : Table → Table → Result Table
  patched pairs cargo = elim (get (lit "patch") cargo) [
    | none ↦ patch_crates pairs (table end) cargo
    | some v ↦ patch_crates pairs v cargo
  ]

  unfoldable pub patch_cargo_toml : Table → Str → Run (Unit {0})
  patch_cargo_toml pairs directory =
      Files.◌>>=◌ (load (outside.child directory (lit "Cargo.toml"))) λ cargo.
        Files.◌>>=◌ (lift (patched pairs cargo))
          λ cargo'. dump cargo' (outside.child directory (lit "Cargo.toml"))

  unfoldable pub update_base_cargo_toml : Str → Run (Unit {0})
  update_base_cargo_toml rust = patch_cargo_toml libc_patch rust

  unfoldable pub update_bootstrap_cargo_toml : Str → Run (Unit {0})
  update_bootstrap_cargo_toml bootstrap = patch_cargo_toml cc_patch bootstrap

  unfoldable pub wasm_linker : Str → Str → Table
  wasm_linker llvmbin rtarget =
      entry rtarget (table (entry (lit "linker") (tool llvmbin (lit "wasm-ld")) end)) end

  -- The configuration of Cargo, from the content of its file if there is one.
  unfoldable pub with_linker : Table → Option Str → Result Table
  with_linker linker none = ok (entry (lit "target") (table linker) end)
  with_linker linker (some content) = do
    config ← loaded content
    section (lit "target") linker config

  unfoldable pub add_wasm_linker_to_cargo : Str → Str → Run (Unit {0})
  add_wasm_linker_to_cargo llvmbin rtarget files =
      let path = outside.child outside.home (lit ".cargo/config.toml") in
      Files.◌>>=◌ (lift (with_linker (wasm_linker llvmbin rtarget) (lookup path files)))
        (λ config. dump config path) files

  unfoldable pub main : Str → Str → Str → Str → Run (Unit {0})
  main rust muslroot llvmbin rtarget =
      update_config_toml rust muslroot llvmbin rtarget
      >> update_base_cargo_toml rust
      >> update_bootstrap_cargo_toml (outside.child rust (lit "src/bootstrap"))
      >> add_wasm_linker_to_cargo llvmbin rtarget
