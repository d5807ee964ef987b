-- ===== src/Rustc/Outcome.antt =====
-- The four updates of scripts/rustc_config.py and the whole script, as runs on the files.
use wali_lib.Base.{
  Error, Str, lit, some, Result, ok, err, ◌≡◌, ◌≢◌, ◌⊎◌, inl, inr, refl, sym, ◌∙◌, ap, str_eq,
}
use wali_lib.Base.Dict.{lookup, insert}
use wali_lib.Base.Files.{Files, ◌>>◌}
use wali_lib.Rustc.{
  Outside, host_platform, update_config_toml, libc_patch, cc_patch, patched, patch_cargo_toml,
  update_base_cargo_toml, update_bootstrap_cargo_toml, add_wasm_linker_to_cargo, main,
}
use wali_lib.Toml.{Table, get}
use wali_lib.Toml.Laws.{NodupKeys}
use wali_lib.Rustc.Sections.Laws.{IsSection}
use wali_lib.Rustc.Laws.{IsConfigured, configured-IsConfigured, configured_total}
use wali_lib.Rustc.Patches.{IsPatched, patched-IsPatched, patched_total}
use wali_lib.Rustc.Runs.{
  settled, remade-parsed, settled-failed, settled_frame, frame_seq, update_config_toml_lem,
  patch_cargo_toml_lem, add_wasm_linker_to_cargo_lem,
}

module _ (outside : Outside) where
  -- Where config.toml is there and can be parsed, llvm-config answers, and the sections `build` and
  -- `target` are tables or missing, the update succeeds and writes a configured table to the file.
  pub update_config_toml-IsConfigured :
      (rust muslroot llvmbin rtarget content host : Str) (files : Files) (config b t : Table)
      → lookup (outside.child rust (lit "config.toml")) files ≡ some content
      → outside.parse content ≡ some config
      → host_platform outside llvmbin ≡ ok host
      → IsSection (lit "build") config b
      → IsSection (lit "target") config t
      → (config' : Table) × IsConfigured outside muslroot llvmbin rtarget host config config'
        × (update_config_toml outside rust muslroot llvmbin rtarget files ≡ (
          ok tt,
          insert (outside.child rust (lit "config.toml")) (outside.print config') files,
        ))
  update_config_toml-IsConfigured rust muslroot llvmbin rtarget content host files config b t there
        parsed answer is_b is_t =
      let (config', made) =
        configured_total outside muslroot llvmbin rtarget host config b t is_b is_t in
      (
        config',
        configured-IsConfigured outside muslroot llvmbin rtarget host config config' made,
        update_config_toml_lem outside rust muslroot llvmbin rtarget files
            ∙ ap (λ r. settled outside r (outside.child rust (lit "config.toml")) files)
                (remade-parsed outside _ _ content config config' there parsed (rw answer made)),
      )

  libc_patch-NodupKeys : NodupKeys (libc_patch outside)
  unfolding libc_patch get
  libc_patch-NodupKeys = (refl, tt)

  cc_patch-NodupKeys : NodupKeys (cc_patch outside)
  unfolding cc_patch get
  cc_patch-NodupKeys = (refl, tt)

  -- A run that writes a patched Cargo.toml of a directory.
  abbrev pub Patches : Table → Table → Str → Files → Result (Unit {0}) × Files → Type 0
  Patches pairs cargo directory files after =
      (cargo' : Table) × IsPatched outside pairs cargo cargo'
      × (after ≡ (
        ok tt,
        insert (outside.child directory (lit "Cargo.toml")) (outside.print cargo') files,
      ))

  patch_cargo_toml-Patches :
      (pairs cargo p c : Table) (directory content : Str) (files : Files)
      → NodupKeys pairs
      → lookup (outside.child directory (lit "Cargo.toml")) files ≡ some content
      → outside.parse content ≡ some cargo
      → IsSection (lit "patch") cargo p
      → IsSection (lit "crates-io") p c
      → Patches pairs cargo directory files (patch_cargo_toml outside pairs directory files)
  patch_cargo_toml-Patches pairs cargo p c directory content files u there parsed is_p is_c =
      let (cargo', made) = patched_total outside pairs cargo p c is_p is_c in
      (
        cargo',
        patched-IsPatched outside pairs cargo cargo' u made,
        patch_cargo_toml_lem outside pairs directory files
            ∙ ap (λ r. settled outside r (outside.child directory (lit "Cargo.toml")) files)
                (remade-parsed outside (patched outside pairs) _ content cargo cargo' there parsed
                  made),
      )

  -- Where the Cargo.toml of a directory is there and can be parsed, and its `patch` and the
  -- `crates-io` in it are tables or missing, both updates succeed on it: the one for the compiler
  -- writes it with the patch of libc, the one for the bootstrap compiler with the patch of cc.
  pub update_cargo_toml-Patches :
      (cargo p c : Table) (directory content : Str) (files : Files)
      → lookup (outside.child directory (lit "Cargo.toml")) files ≡ some content
      → outside.parse content ≡ some cargo
      → IsSection (lit "patch") cargo p
      → IsSection (lit "crates-io") p c
      → Patches
          (libc_patch outside)
          cargo
          directory
          files
          (update_base_cargo_toml outside directory files)
        × Patches
            (cc_patch outside)
            cargo
            directory
            files
            (update_bootstrap_cargo_toml outside directory files)
  unfolding update_base_cargo_toml update_bootstrap_cargo_toml
  update_cargo_toml-Patches cargo p c directory content files there parsed is_p is_c = (
    patch_cargo_toml-Patches (libc_patch outside) cargo p c directory content files
        libc_patch-NodupKeys there parsed is_p is_c,
    patch_cargo_toml-Patches (cc_patch outside) cargo p c directory content files cc_patch-NodupKeys
        there parsed is_p is_c,
  )

  -- An update that fails leaves every file as it was.
  pub failed_update-unchanged :
      (rust muslroot llvmbin rtarget : Str) (files files' : Files) {e : Error}
      → (update_config_toml outside rust muslroot llvmbin rtarget files ≡ (err e, files'))
        ⊎ (update_base_cargo_toml outside rust files ≡ (err e, files'))
        ⊎ (update_bootstrap_cargo_toml outside rust files ≡ (err e, files'))
        ⊎ (add_wasm_linker_to_cargo outside llvmbin rtarget files ≡ (err e, files'))
      → files' ≡ files
  unfolding update_base_cargo_toml update_bootstrap_cargo_toml
  failed_update-unchanged rust muslroot llvmbin rtarget files files' (inl h) =
      settled-failed outside _ _ files files'
        (sym (update_config_toml_lem outside rust muslroot llvmbin rtarget files) ∙ h)
  failed_update-unchanged rust muslroot llvmbin rtarget files files' (inr (inl h)) =
      settled-failed outside _ _ files files'
        (sym (patch_cargo_toml_lem outside (libc_patch outside) rust files) ∙ h)
  failed_update-unchanged rust muslroot llvmbin rtarget files files' (inr (inr (inl h))) =
      settled-failed outside _ _ files files'
        (sym (patch_cargo_toml_lem outside (cc_patch outside) rust files) ∙ h)
  failed_update-unchanged rust muslroot llvmbin rtarget files files' (inr (inr (inr h))) =
      settled-failed outside _ _ files files'
        (sym (add_wasm_linker_to_cargo_lem outside llvmbin rtarget files) ∙ h)

  -- Whether it succeeds or fails, the script changes no file but the four that it configures.
  pub main_frame :
      (rust muslroot llvmbin rtarget q : Str) (files : Files)
      → q ≢ outside.child rust (lit "config.toml")
      → q ≢ outside.child rust (lit "Cargo.toml")
      → q ≢ outside.child (outside.child rust (lit "src/bootstrap")) (lit "Cargo.toml")
      → q ≢ outside.child outside.home (lit ".cargo/config.toml")
      → lookup q (main outside rust muslroot llvmbin rtarget files).1 ≡ lookup q files
  unfolding main update_base_cargo_toml update_bootstrap_cargo_toml
  main_frame rust muslroot llvmbin rtarget q files n₁ n₂ n₃ n₄ =
      let bootstrap = outside.child rust (lit "src/bootstrap") in
      let first = update_config_toml outside rust muslroot llvmbin rtarget in
      let second = patch_cargo_toml outside (libc_patch outside) rust in
      let third = patch_cargo_toml outside (cc_patch outside) bootstrap in
      let k₁ : (fs : Files) → lookup q (first fs).1 ≡ lookup q fs = λ fs.
        ap (λ p. lookup q p.1) (update_config_toml_lem outside rust muslroot llvmbin rtarget fs)
        ∙ settled_frame outside _ _ q fs n₁ in
      let k₂ : (fs : Files) → lookup q (second fs).1 ≡ lookup q fs = λ fs.
        ap (λ p. lookup q p.1) (patch_cargo_toml_lem outside (libc_patch outside) rust fs)
        ∙ settled_frame outside _ _ q fs n₂ in
      let k₃ : (fs : Files) → lookup q (third fs).1 ≡ lookup q fs = λ fs.
        ap (λ p. lookup q p.1) (patch_cargo_toml_lem outside (cc_patch outside) bootstrap fs)
        ∙ settled_frame outside _ _ q fs n₃ in
      let k₄ : (fs : Files)
          → lookup q (add_wasm_linker_to_cargo outside llvmbin rtarget fs).1 ≡ lookup q fs =
        λ fs.
          ap (λ p. lookup q p.1) (add_wasm_linker_to_cargo_lem outside llvmbin rtarget fs)
          ∙ settled_frame outside _ _ q fs n₄ in
      frame_seq outside q (first >> second >> third)
        (add_wasm_linker_to_cargo outside llvmbin rtarget)
        (frame_seq outside q (first >> second) third (frame_seq outside q first second k₁ k₂) k₃) k₄
        files
