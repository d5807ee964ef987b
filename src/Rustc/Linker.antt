-- ===== src/Rustc/Linker.antt =====
-- `add_wasm_linker_to_cargo` of scripts/rustc_config.py: the linker in the configuration of Cargo.
use wali_lib.Base.{
  Str, lit, Option, none, some, ok, ◌≡◌, ◌≢◌, ◌⊎◌, inl, inr, refl, ◌∙◌, ap, arith, str_eq,
}
use wali_lib.Base.Dict.{lookup, insert}
use wali_lib.Base.Files.{Files}
use wali_lib.Rustc.{Outside, tool, wasm_linker, with_linker, add_wasm_linker_to_cargo}
use wali_lib.Toml.{table, Table, end, entry, get, put, merge}
use wali_lib.Toml.Laws.{NodupKeys, get-merge, get-merge_absent}
use wali_lib.Rustc.Sections.{section, update_at, ensure, update_value}
use wali_lib.Rustc.Sections.Laws.{IsSection, section-result, section_total}
use wali_lib.Rustc.Runs.{settled, loaded-parsed, cargo_config, add_wasm_linker_to_cargo_lem}

module _ (outside : Outside) (llvmbin rtarget : Str) where
  -- The configuration of Cargo before and after: the target has its linker, and its settings before
  -- are replaced; the other targets and the other keys are kept.
  pub record IsLinked (config config' : Table) : Type 0 where
    pub target : Table
    pub target' : Table
    pub target_before : IsSection (lit "target") config target
    pub target_after : get (lit "target") config' ≡ some (table target')
    pub linked :
        get rtarget target'
        ≡ some (table (entry (lit "linker") (tool outside llvmbin (lit "wasm-ld")) end))
    pub others : (k : Str) → k ≢ rtarget → get k target' ≡ get k target
    pub kept : (k : Str) → k ≢ lit "target" → get k config' ≡ get k config

  linker-NodupKeys : NodupKeys (wasm_linker outside llvmbin rtarget)
  unfolding wasm_linker get
  linker-NodupKeys = (refl, tt)

  section-IsLinked :
      (config config' : Table)
      → section (lit "target") (wasm_linker outside llvmbin rtarget) config ≡ ok config'
      → IsLinked config config'
  unfolding wasm_linker get
  section-IsLinked config config' h =
      let linker = wasm_linker outside llvmbin rtarget in
      let ((t, is_t, at_t), keep) = section-result (lit "target") linker config config' h in
      record {
        target = t;
        target' = merge t linker;
        target_before = is_t;
        target_after = at_t;
        linked = get-merge rtarget t linker _ linker-NodupKeys (ground arith);
        others = λ k ne. get-merge_absent k t linker (ground arith);
        kept = keep;
      }

  -- A file that is missing counts as an empty one.
  with_linker-missing :
      with_linker outside (wasm_linker outside llvmbin rtarget) none
      ≡ section (lit "target") (wasm_linker outside llvmbin rtarget) end
  unfolding with_linker wasm_linker section update_at ensure update_value get put merge
  with_linker-missing = ground arith

  -- The content of the file: none, for an empty configuration, or one that can be parsed.
  abbrev pub IsRead : Option Str → Table → Type 0
  IsRead found config =
      ((found ≡ none) × (config ≡ end))
      ⊎ ((content : Str) × (found ≡ some content) × (outside.parse content ≡ some config))

  with_linker-read :
      (found : Option Str) (config : Table)
      → IsRead found config
      → with_linker outside (wasm_linker outside llvmbin rtarget) found
        ≡ section (lit "target") (wasm_linker outside llvmbin rtarget) config
  unfolding with_linker
  with_linker-read found config (inl (missing, empty)) = rw (missing, empty) with_linker-missing
  with_linker-read found config (inr (content, there, parsed)) =
      rw (there, loaded-parsed outside content config parsed) refl

  -- Where the configuration of Cargo is missing, or can be parsed and its `target` is a table or
  -- missing, the update succeeds: it writes a configuration in which the target has its linker and
  -- the other targets and keys are as they were.
  pub add_wasm_linker-IsLinked :
      (files : Files) (config t : Table)
      → IsRead (lookup (outside.child outside.home (lit ".cargo/config.toml")) files) config
      → IsSection (lit "target") config t
      → (config' : Table) × IsLinked config config'
        × (add_wasm_linker_to_cargo outside llvmbin rtarget files ≡ (
          ok tt,
          insert
              (outside.child outside.home (lit ".cargo/config.toml"))
              (outside.print config')
              files,
        ))
  add_wasm_linker-IsLinked files config t is_read is_t =
      let (config', made) =
        section_total (lit "target") (wasm_linker outside llvmbin rtarget) config t is_t in
      (
        config',
        section-IsLinked config config' made,
        add_wasm_linker_to_cargo_lem outside llvmbin rtarget files
            ∙ ap (λ r. settled outside r (cargo_config outside) files)
                (with_linker-read (lookup (cargo_config outside) files) config is_read ∙ made),
      )
