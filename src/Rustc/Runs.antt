-- ===== src/Rustc/Runs.antt =====
-- The four updates on the files.
use wali_lib.Base.{
  Error, Str, lit, Option, none, some, Result, ok, err, file_not_found, ◌≡◌, ◌≢◌, refl, sym, ◌∙◌,
  ap, arith, str_eq, ◌>>=◌,
}
use wali_lib.Base.Dict.{lookup, insert, lookup-insert}
use wali_lib.Base.Files
use wali_lib.Base.Files.{Files, Run, lift, read_file, write_file, ◌>>◌}
use wali_lib.Rustc.{
  Outside, loaded, load, dump, host_platform, configured, update_config_toml, patched,
  patch_cargo_toml, wasm_linker, with_linker, add_wasm_linker_to_cargo,
}
use wali_lib.Toml.{Table}

module _ (outside : Outside) where
  -- What the script makes of the content of a file.
  abbrev pub remade : (Table → Result Table) → Option Str → Result Table
  remade f none = err file_not_found
  remade f (some content) = loaded outside content >>= f

  pub loaded-parsed :
      (content : Str) (t : Table) → outside.parse content ≡ some t → loaded outside content ≡ ok t
  unfolding loaded
  loaded-parsed content t h = rw (loaded, h) refl

  pub remade-parsed :
      (f : Table → Result Table) (o : Option Str) (content : Str) (t t' : Table)
      → o ≡ some content
      → outside.parse content ≡ some t
      → f t ≡ ok t'
      → remade f o ≡ ok t'
  remade-parsed f o content t t' there parsed made = rw (there, loaded-parsed content t parsed) made

  -- What the writing of a remade table leaves.
  abbrev pub settled : Result Table → Str → Files → Result (Unit {0}) × Files
  settled (err e) path files = (err e, files)
  settled (ok t) path files = (ok tt, insert path (outside.print t) files)

  -- Loading, remaking and dumping in one step.
  rewritten :
      (path : Str) (f : Table → Result Table) (files : Files)
      → Files.◌>>=◌
          (load outside path)
          (λ config. Files.◌>>=◌ (lift (f config)) λ config'. dump outside config' path)
          files
        ≡ settled (remade f (lookup path files)) path files
  unfolding load dump
  rewritten path f files = by_content (lookup path files)
    where
      by_table :
          (r : Result Table)
          → Files.◌>>=◌
              (lift r)
              (λ config.
                Files.◌>>=◌ (lift (f config)) λ config'. write_file path (outside.print config'))
              files
            ≡ settled (r >>= f) path files
      by_table (err e) = refl
      by_table (ok config) = by_result (f config)
        where
          by_result :
              (r : Result Table)
              → Files.◌>>=◌ (lift r) (λ config'. write_file path (outside.print config')) files
                ≡ settled r path files
          by_result (err e) = refl
          by_result (ok config') = refl

      by_content :
          (o : Option Str)
          → Files.◌>>=◌
              (Files.◌>>=◌
                (lift (elim o [ none ↦ err file_not_found | some content ↦ ok content ]))
                (λ content. lift (loaded outside content)))
              (λ config.
                Files.◌>>=◌ (lift (f config)) λ config'. write_file path (outside.print config'))
              files
            ≡ settled (remade f o) path files
      by_content none = refl
      by_content (some content) = by_table (loaded outside content)

  pub settled-failed :
      (r : Result Table) (path : Str) (files files' : Files) {e : Error}
      → settled r path files ≡ (err e, files')
      → files' ≡ files
  settled-failed (err _) path files files' h = sym (ap (λ p. p.1) h)
  settled-failed (ok t) path files files' h = absurd (cc)

  pub settled_frame :
      (r : Result Table) (path q : Str) (files : Files)
      → q ≢ path
      → lookup q (settled r path files).1 ≡ lookup q files
  settled_frame (err _) path q files ne = refl
  settled_frame (ok t) path q files ne =
      ground (arith, lookup-insert q path (outside.print t) files)

  -- Two runs in a row keep what each of them keeps.
  pub frame_seq :
      (q : Str) (first second : Run (Unit {0}))
      → ((files : Files) → lookup q (first files).1 ≡ lookup q files)
      → ((files : Files) → lookup q (second files).1 ≡ lookup q files)
      → (files : Files) → lookup q ((first >> second) files).1 ≡ lookup q files
  frame_seq q first second f s files = after (first files) (f files)
    where
      after :
          (p : Result (Unit {0}) × Files)
          → lookup q p.1 ≡ lookup q files
          → lookup q (Files.◌>>=◌ (λ _. p) (λ _. second) files).1 ≡ lookup q files
      after (err e, between) h = h
      after (ok _, between) h = s between ∙ h

  pub update_config_toml_lem :
      (rust muslroot llvmbin rtarget : Str) (files : Files)
      → update_config_toml outside rust muslroot llvmbin rtarget files
        ≡ settled
            (remade
              (λ config. do
                host ← host_platform outside llvmbin
                configured outside muslroot llvmbin rtarget host config)
              (lookup (outside.child rust (lit "config.toml")) files))
            (outside.child rust (lit "config.toml"))
            files
  unfolding update_config_toml
  update_config_toml_lem rust muslroot llvmbin rtarget files =
      rewritten (outside.child rust (lit "config.toml")) _ files

  pub patch_cargo_toml_lem :
      (pairs : Table) (directory : Str) (files : Files)
      → patch_cargo_toml outside pairs directory files
        ≡ settled
            (remade
              (patched outside pairs)
              (lookup (outside.child directory (lit "Cargo.toml")) files))
            (outside.child directory (lit "Cargo.toml"))
            files
  unfolding patch_cargo_toml
  patch_cargo_toml_lem pairs directory files =
      rewritten (outside.child directory (lit "Cargo.toml")) _ files

  dumped :
      (r : Result Table) (path : Str) (files : Files)
      → Files.◌>>=◌ (lift r) (λ config. dump outside config path) files ≡ settled r path files
  unfolding dump
  dumped (err e) path files = refl
  dumped (ok t) path files = refl

  abbrev pub cargo_config : Str
  cargo_config = outside.child outside.home (lit ".cargo/config.toml")

  pub add_wasm_linker_to_cargo_lem :
      (llvmbin rtarget : Str) (files : Files)
      → add_wasm_linker_to_cargo outside llvmbin rtarget files
        ≡ settled
            (with_linker outside (wasm_linker outside llvmbin rtarget) (lookup cargo_config files))
            cargo_config
            files
  unfolding add_wasm_linker_to_cargo
  add_wasm_linker_to_cargo_lem llvmbin rtarget files =
      dumped (with_linker outside (wasm_linker outside llvmbin rtarget) (lookup cargo_config files))
        cargo_config files
