-- ===== src/Rustc/Laws.antt =====
-- What the script makes of a configuration and of a Cargo.toml.
use wali_lib.Base.{
  Str, lit, none, some, ok, returned, ◌≡◌, ◌≢◌, refl, sym, ◌∙◌, arith, str_eq, ◌==◌, if◌then◌else◌,
}
use wali_lib.Rustc.{Outside, build_config, wali_config, target_config, host_config, configured}
use wali_lib.Toml.{text, array, item, empty, table, Table, end, entry, get, merge}
use wali_lib.Toml.Laws.{NodupKeys, get-put, put-NodupKeys, merge_idem, get-merge, get-merge_absent}
use wali_lib.Rustc.Sections.{section}
use wali_lib.Rustc.Sections.Laws.{
  IsSection, section-result, section-settled, section_idem, section_total,
}

build≢target : lit "build" ≢ lit "target"
unfolding lit
build≢target e = cc e

module _ (outside : Outside) (muslroot llvmbin rtarget host : Str) where
  build_config-NodupKeys : NodupKeys (build_config outside host rtarget)
  unfolding build_config get
  build_config-NodupKeys = (refl, tt)

  wali_config-NodupKeys : NodupKeys (wali_config outside muslroot llvmbin rtarget host)
  unfolding wali_config get
  wali_config-NodupKeys = put-NodupKeys host _ _ (refl, tt)

  -- The section `build`, before and after: its targets are the two, its other keys are kept.
  abbrev pub IsBuilt : Table → Table → Type 0
  IsBuilt old new =
      (get (lit "target") new ≡ some (array (item (text host) (item (text rtarget) empty))))
      × ((k : Str) → k ≢ lit "target" → get k new ≡ get k old)

  -- The section `target`, before and after: the two targets have their settings, others are kept.
  pub record IsTargeted (old new : Table) : Type 0 where
    pub at_host : get host new ≡ some (table (host_config outside llvmbin))
    pub at_target :
        rtarget ≢ host → get rtarget new ≡ some (table (target_config outside muslroot llvmbin))
    pub others : (k : Str) → k ≢ rtarget → k ≢ host → get k new ≡ get k old

  -- A configured table beside the one it was made of: a missing section counts as an empty one.
  pub record IsConfigured (config config' : Table) : Type 0 where
    pub build : Table
    pub build' : Table
    pub target : Table
    pub target' : Table
    pub build_before : IsSection (lit "build") config build
    pub build_after : get (lit "build") config' ≡ some (table build')
    pub built : IsBuilt build build'
    pub target_before : IsSection (lit "target") config target
    pub target_after : get (lit "target") config' ≡ some (table target')
    pub targeted : IsTargeted target target'
    pub kept : (k : Str) → k ≢ lit "build" → k ≢ lit "target" → get k config' ≡ get k config

  merge-IsBuilt : (b : Table) → IsBuilt b (merge b (build_config outside host rtarget))
  unfolding build_config get
  merge-IsBuilt b = (
    get-merge (lit "target") b (build_config outside host rtarget) _ (refl, tt) (ground arith),
    λ k ne. get-merge_absent k b (build_config outside host rtarget) (ground arith),
  )

  get-wali_config :
      (k : Str)
      → get k (wali_config outside muslroot llvmbin rtarget host) ≡ (
          if k == host
          then some (table (host_config outside llvmbin))
          else if k == rtarget
          then some (table (target_config outside muslroot llvmbin))
          else none)
  unfolding wali_config get
  get-wali_config k = ground (
    arith,
    get-put k host (table (host_config outside llvmbin))
        (entry rtarget (table (target_config outside muslroot llvmbin)) end),
  )

  merge-IsTargeted :
      (t : Table) → IsTargeted t (merge t (wali_config outside muslroot llvmbin rtarget host))
  merge-IsTargeted t =
      let pairs = wali_config outside muslroot llvmbin rtarget host in
      record {
        at_host =
            get-merge host t pairs _ wali_config-NodupKeys (ground (arith, get-wali_config host));
        at_target = λ ne.
            get-merge rtarget t pairs _ wali_config-NodupKeys
              (ground (arith, get-wali_config rtarget));
        others = λ k nt nh. get-merge_absent k t pairs (ground (arith, get-wali_config k));
      }

  other_section :
      (t t' s : Table) (k : Str) → get k t' ≡ get k t → IsSection k t' s → IsSection k t s
  other_section t t' s k e h = rw e at h

  configured-parts :
      (config config' : Table)
      → configured outside muslroot llvmbin rtarget host config ≡ ok config'
      → (config₁ : Table) × (section (lit "build") (build_config outside host rtarget) config
          ≡ ok config₁)
        × (section (lit "target") (wali_config outside muslroot llvmbin rtarget host) config₁
            ≡ ok config')
  unfolding configured
  configured-parts config config' =
      returned (section (lit "build") (build_config outside host rtarget) config)
        (section (lit "target") (wali_config outside muslroot llvmbin rtarget host))

  -- Where `update_config_toml` can update a configuration, it ends with the two targets in the
  -- section `build`, the settings of the host and, unless it is the host, of the new target in the
  -- section `target`, and every other key of the two sections and of the configuration as it was.
  pub configured-IsConfigured :
      (config config' : Table)
      → configured outside muslroot llvmbin rtarget host config ≡ ok config'
      → IsConfigured config config'
  configured-IsConfigured config config' h =
      let (config₁, h₁, h₂) = configured-parts config config' h in
      let ((b, is_b, at_b), keep₁) = section-result (lit "build") _ config config₁ h₁ in
      let ((t, is_t, at_t), keep₂) = section-result (lit "target") _ config₁ config' h₂ in
      record {
        build = b;
        build' = merge b (build_config outside host rtarget);
        target = t;
        target' = merge t (wali_config outside muslroot llvmbin rtarget host);
        build_before = is_b;
        build_after = keep₂ (lit "build") build≢target ∙ at_b;
        built = merge-IsBuilt b;
        target_before =
            other_section config config₁ t (lit "target")
              (keep₁ (lit "target") λ e. build≢target (sym e)) is_t;
        target_after = at_t;
        targeted = merge-IsTargeted t;
        kept = λ k nb nt. keep₂ k nt ∙ keep₁ k nb;
      }

  -- A configuration whose sections `build` and `target` are tables or missing can be updated.
  pub configured_total :
      (config b t : Table)
      → IsSection (lit "build") config b
      → IsSection (lit "target") config t
      → (config' : Table) × (configured outside muslroot llvmbin rtarget host config ≡ ok config')
  unfolding configured
  configured_total config b t is_b is_t =
      let (config₁, h₁) =
        section_total (lit "build") (build_config outside host rtarget) config b is_b in
      let (_, keep₁) = section-result (lit "build") _ config config₁ h₁ in
      let (config', h₂) =
        section_total (lit "target") (wali_config outside muslroot llvmbin rtarget host) config₁ t (
          other_section config₁ config t (lit "target")
            (sym (keep₁ (lit "target") λ e. build≢target (sym e))) is_t) in
      (config', rw h₁ h₂)

  -- To configure a configured table changes nothing.
  pub configured_idem :
      (config config' : Table)
      → configured outside muslroot llvmbin rtarget host config ≡ ok config'
      → configured outside muslroot llvmbin rtarget host config' ≡ ok config'
  unfolding configured
  configured_idem config config' h =
      let (config₁, h₁, h₂) = configured-parts config config' h in
      let ((b, _, at_b), _) = section-result (lit "build") _ config config₁ h₁ in
      let (_, keep₂) = section-result (lit "target") _ config₁ config' h₂ in
      let pairs = build_config outside host rtarget in
      rw
        (section-settled (lit "build") pairs config' (merge b pairs)
          (keep₂ (lit "build") build≢target ∙ at_b) (merge_idem b pairs build_config-NodupKeys))
        (section_idem (lit "target") _ config₁ config' wali_config-NodupKeys h₂)
