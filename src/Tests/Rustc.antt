-- ===== src/Tests/Rustc.antt =====
-- The theorems on scripts/rustc_config.py at small files, and a run of the script.
use wali_lib.Base.{
  Str, lit, none, some, [], ◌∷◌, ◌++◌, ◌≡◌, ◌≢◌, refl, str_eq, nat_eq, ◌==◌, if◌then◌else◌, ok, err,
  inl, inr, Option, ℕ, attribute_error,
}
use wali_lib.Base.Dict.{lookup, insert}
use wali_lib.Base.Files.{Files}
use wali_lib.Text.{strip}
use wali_lib.Rustc.{
  Outside, loaded, load, dump, host_platform, configured, update_config_toml, build_config,
  wali_config, target_config, host_config, tool, libc_patch, cc_patch, patch_crates, patched,
  patch_cargo_toml, update_base_cargo_toml, update_bootstrap_cargo_toml, wasm_linker, with_linker,
  add_wasm_linker_to_cargo, main,
}
use wali_lib.Toml.{text, other, table, Table, end, entry, get, put, merge}
use wali_lib.Rustc.Sections.{section, update_at, ensure, update_value}
use wali_lib.Rustc.Laws.{IsConfigured, configured_idem}
use wali_lib.Rustc.Patches.{patched_idem}
use wali_lib.Rustc.Outcome.{
  Patches, update_config_toml-IsConfigured, update_cargo_toml-Patches, failed_update-unchanged,
  main_frame,
}
use wali_lib.Rustc.Linker.{IsLinked, add_wasm_linker-IsLinked}

abbrev rtarget : Str
rtarget = lit "wasm32-wali-linux-musl"

abbrev host : Str
host = lit "x86_64-unknown-linux-gnu"

-- A configuration that knows the host, and a Cargo.toml with a patch of its own.
abbrev config : Table
config = entry (lit "change-id") (other (lit "102579")) (
    entry (lit "target") (table (entry host (table (entry (lit "cc") (text (lit "gcc")) end)) end))
      end)

abbrev cargo : Table
cargo =
    entry (lit "patch")
      (table (
        entry (lit "crates-io")
          (table
            (entry (lit "libc") (text (lit "0.1")) (entry (lit "memchr") (text (lit "2")) end)))
          end))
      end

-- A file is named by what it holds.
abbrev parse : Str → Option Table
parse content =
    if content == lit "config"
    then some config
    else if content == lit "cargo"
    then some cargo
    else if content == lit "number"
    then some (entry (lit "build") (other (lit "1")) end)
    else none

abbrev print : Table → Str
print end = []
print (entry k v t) = k ++ b'\n' ∷ print t

abbrev outside : Outside
outside = record {
  parse = parse;
  print = print;
  child = λ directory name. directory ++ b'/' ∷ name;
  absresolve = λ path. b'/' ∷ path;
  check_output = λ command. ok (host ++ b'\n' ∷ []);
  home = lit "home";
}

abbrev files : Files
files =
    (lit "rust/config.toml", lit "config")
    ∷ (lit "rust/Cargo.toml", lit "cargo")
    ∷ (lit "rust/src/bootstrap/Cargo.toml", lit "cargo")
    ∷ []

opened : ℕ
unfolding str_eq nat_eq lit lookup insert strip loaded load dump host_platform configured
    update_config_toml build_config wali_config target_config host_config tool libc_patch cc_patch
    patch_crates patched patch_cargo_toml update_base_cargo_toml update_bootstrap_cargo_toml
    wasm_linker with_linker add_wasm_linker_to_cargo main get put merge section update_at ensure
    update_value
opened = 0

-- The script writes four files.
main_run : main outside (lit "rust") (lit "musl") (lit "llvm") rtarget files ≡ (
  ok tt,
  (lit "rust/config.toml", lit "change-id\ntarget\nbuild\n")
      ∷ (lit "rust/Cargo.toml", lit "patch\n")
      ∷ (lit "rust/src/bootstrap/Cargo.toml", lit "patch\n")
      ∷ (lit "home/.cargo/config.toml", lit "target\n")
      ∷ [],
)
unfolding opened
main_run = refl

abbrev targets_before : Table
targets_before = entry host (table (entry (lit "cc") (text (lit "gcc")) end)) end

config_facts :
    (lookup (outside.child (lit "rust") (lit "config.toml")) files ≡ some (lit "config"))
    × (parse (lit "config") ≡ some config)
    × (host_platform outside (lit "llvm") ≡ ok host)
    × (get (lit "build") config ≡ none)
    × (get (lit "target") config ≡ some (table targets_before))
unfolding opened
config_facts = (refl, refl, refl, refl, refl)

update_config_toml-IsConfigured_example :
    (config' : Table) × IsConfigured outside (lit "musl") (lit "llvm") rtarget host config config'
    × (update_config_toml outside (lit "rust") (lit "musl") (lit "llvm") rtarget files
        ≡ (ok tt, insert (outside.child (lit "rust") (lit "config.toml")) (print config') files))
update_config_toml-IsConfigured_example =
    update_config_toml-IsConfigured outside (lit "rust") (lit "musl") (lit "llvm") rtarget
      (lit "config") host files config end targets_before config_facts.0 config_facts.1
      config_facts.2 (inr (config_facts.3, refl)) (inl config_facts.4)

abbrev configured_config : Table
configured_config = entry (lit "change-id") (other (lit "102579")) (
    entry (lit "target")
      (table (
        entry host (table (host_config outside (lit "llvm")))
          (entry rtarget (table (target_config outside (lit "musl") (lit "llvm"))) end)))
      (entry (lit "build") (table (build_config outside host rtarget)) end))

config_made :
    configured outside (lit "musl") (lit "llvm") rtarget host config ≡ ok configured_config
unfolding opened
config_made = refl

configured_idem_example :
    configured outside (lit "musl") (lit "llvm") rtarget host configured_config
    ≡ ok configured_config
configured_idem_example =
    configured_idem outside (lit "musl") (lit "llvm") rtarget host config configured_config
      config_made

abbrev patch_before : Table
patch_before =
    entry (lit "crates-io")
      (table (entry (lit "libc") (text (lit "0.1")) (entry (lit "memchr") (text (lit "2")) end)))
      end

abbrev crates_before : Table
crates_before = entry (lit "libc") (text (lit "0.1")) (entry (lit "memchr") (text (lit "2")) end)

cargo_facts :
    (lookup (outside.child (lit "rust") (lit "Cargo.toml")) files ≡ some (lit "cargo"))
    × (parse (lit "cargo") ≡ some cargo)
    × (get (lit "patch") cargo ≡ some (table patch_before))
    × (get (lit "crates-io") patch_before ≡ some (table crates_before))
unfolding opened
cargo_facts = (refl, refl, refl, refl)

update_cargo_toml-Patches_example :
    Patches outside
      (libc_patch outside)
      cargo
      (lit "rust")
      files
      (update_base_cargo_toml outside (lit "rust") files)
    × Patches outside
        (cc_patch outside)
        cargo
        (lit "rust")
        files
        (update_bootstrap_cargo_toml outside (lit "rust") files)
update_cargo_toml-Patches_example =
    update_cargo_toml-Patches outside cargo patch_before crates_before (lit "rust") (lit "cargo")
      files cargo_facts.0 cargo_facts.1 (inl cargo_facts.2) (inl cargo_facts.3)

abbrev crate : Table
crate = entry (lit "libc") (text (lit "0.2")) end

abbrev patched_cargo : Table
patched_cargo =
    entry (lit "patch")
      (table (
        entry (lit "crates-io")
          (table
            (entry (lit "libc") (text (lit "0.2")) (entry (lit "memchr") (text (lit "2")) end)))
          end))
      end

cargo_made : patched outside crate cargo ≡ ok patched_cargo
unfolding opened
cargo_made = refl

patched_idem_example : patched outside crate patched_cargo ≡ ok patched_cargo
patched_idem_example =
    patched_idem outside crate cargo patched_cargo (unfold get in (refl, tt)) cargo_made

abbrev numbered : Files
numbered = (lit "rust/config.toml", lit "number") ∷ []

-- The section `build` is a number.
number_fails :
    update_config_toml outside (lit "rust") (lit "musl") (lit "llvm") rtarget numbered
    ≡ (err attribute_error, numbered)
unfolding opened
number_fails = refl

failed_update-unchanged_example : numbered ≡ numbered
failed_update-unchanged_example =
    failed_update-unchanged outside (lit "rust") (lit "musl") (lit "llvm") rtarget numbered numbered
      (inl number_fails)

abbrev readme : Str
readme = lit "README"

readme_facts :
    (readme ≢ outside.child (lit "rust") (lit "config.toml"))
    × (readme ≢ outside.child (lit "rust") (lit "Cargo.toml"))
    × (readme ≢ outside.child (outside.child (lit "rust") (lit "src/bootstrap")) (lit "Cargo.toml"))
    × (readme ≢ outside.child (lit "home") (lit ".cargo/config.toml"))
unfolding opened
readme_facts = (λ e. cc e, λ e. cc e, λ e. cc e, λ e. cc e)

main_frame_example :
    lookup readme (main outside (lit "rust") (lit "musl") (lit "llvm") rtarget files).1
    ≡ lookup readme files
main_frame_example =
    main_frame outside (lit "rust") (lit "musl") (lit "llvm") rtarget readme files readme_facts.0
      readme_facts.1 readme_facts.2 readme_facts.3

linker_facts :
    (lookup (outside.child (lit "home") (lit ".cargo/config.toml")) files ≡ none)
    × (get (lit "target") end ≡ none)
unfolding opened
linker_facts = (refl, refl)

add_wasm_linker-IsLinked_example :
    (config' : Table) × IsLinked outside (lit "llvm") rtarget end config'
    × (add_wasm_linker_to_cargo outside (lit "llvm") rtarget files ≡ (
      ok tt,
      insert (outside.child (lit "home") (lit ".cargo/config.toml")) (print config') files,
    ))
add_wasm_linker-IsLinked_example =
    add_wasm_linker-IsLinked outside (lit "llvm") rtarget files end end (inl (linker_facts.0, refl))
      (inr (linker_facts.1, refl))
