-- ===== src/Toolchains/Outcome.antt =====
-- The whole run of toolchains/gen_toolchains.py on the files.
use wali_lib.Base.{
  Str, lit, Option, none, some, str_eq, nat_eq, Result, ok, err, Error, system_exit, value_error,
  ◌≡◌, ◌⊎◌, inl, inr, refl, ◌∙◌, ap, Option-cases, Result-cases,
}
use wali_lib.Base.Dict.{lookup, insert}
use wali_lib.Base.Files
use wali_lib.Base.Files.{Files, Run, lift, write_file, ◌>>◌}
use wali_lib.Toml.{Table}
use wali_lib.Toolchains.{Texts, make_texts, loaded, write_text, write_texts, main}
use wali_lib.Toolchains.Config.{Outside}

module _ (outside : Outside) where
  -- The files after the texts are written.
  abbrev pub with_texts : Texts → Files → Files
  with_texts t files = insert (outside.child outside.filepath (lit "wali.cmake")) t.cmake (
      insert (outside.child outside.filepath (lit "wali.sh")) t.sh
        (insert (outside.child outside.filepath (lit "wali.mk")) t.mk files))

  abbrev pub settled : Result Texts → Files → Result (Unit {0}) × Files
  settled (err e) files = (err e, files)
  settled (ok t) files = (ok tt, with_texts t files)

  abbrev pub read : Option Str → Result Texts
  read none = err (system_exit 1)
  read (some content) = loaded outside content

  main_lem :
      (files : Files)
      → main outside files
        ≡ settled (read (lookup (outside.child outside.filepath (lit "wali.toml")) files)) files
  unfolding main write_texts write_text
  main_lem files = by_content (lookup (outside.child outside.filepath (lit "wali.toml")) files)
    where
      by_texts :
          (r : Result Texts) → Files.◌>>=◌ (lift r) (write_texts outside) files ≡ settled r files
      by_texts (err e) = refl
      by_texts (ok t) = refl

      by_content :
          (o : Option Str)
          → elim o as (λ _. Result (Unit {0}) × Files) [
            | none ↦ (err (system_exit 1), files)
            | some content ↦ Files.◌>>=◌ (lift (loaded outside content)) (write_texts outside) files
          ]
            ≡ settled (read o) files
      by_content none = refl
      by_content (some content) = by_texts (loaded outside content)

  loaded-parsed :
      (content : Str) (cfg : Table)
      → outside.parse content ≡ some cfg
      → loaded outside content ≡ make_texts outside cfg
  unfolding loaded
  loaded-parsed content cfg h = rw (loaded, h) refl

  loaded-unparsed :
      (content : Str) → outside.parse content ≡ none → loaded outside content ≡ err value_error
  unfolding loaded
  loaded-unparsed content h = rw (loaded, h) refl

  -- The texts that are read, and what they are made of.
  abbrev pub IsRead : Option Str → Texts → Type 0
  IsRead found t =
      (content : Str) × (cfg : Table) × (found ≡ some content)
      × (outside.parse content ≡ some cfg)
      × (make_texts outside cfg ≡ ok t)

  read_cases :
      (found : Option Str)
      → ((e : Error) × (read found ≡ err e)) ⊎ ((t : Texts) × (read found ≡ ok t) × IsRead found t)
  read_cases none = inl (system_exit 1, refl)
  read_cases (some content) = elim (Option-cases (outside.parse content)) [
    | inl e ↦ inl (value_error, loaded-unparsed content e)
    | inr (cfg, e) ↦ elim (Result-cases (make_texts outside cfg)) [
      | inl (x, h) ↦ inl (x, loaded-parsed content cfg e ∙ h)
      | inr (t, h) ↦ inr (t, loaded-parsed content cfg e ∙ h, (content, cfg, refl, e, h))
    ]
  ]

  -- A run writes all three files or, where it ends with an error, changes none: whatever can fail,
  -- the reading, the triple, a missing key or the formatting of a flag, does so before the writing.
  pub main_atomic :
      (files : Files)
      → ((e : Error) × (main outside files ≡ (err e, files)))
        ⊎ ((t : Texts) × IsRead (lookup (outside.child outside.filepath (lit "wali.toml")) files) t
            × (main outside files ≡ (ok tt, with_texts t files)))
  main_atomic files =
      elim (read_cases (lookup (outside.child outside.filepath (lit "wali.toml")) files)) [
        | inl (e, h) ↦ inl (e, main_lem files ∙ ap (λ r. settled r files) h)
        | inr (t, h, is_read) ↦ inr (t, is_read, main_lem files ∙ ap (λ r. settled r files) h)
      ]

  -- The run on a configuration from which the texts can be made.
  pub main-loaded :
      (files : Files) (content : Str) (cfg : Table)
      → lookup (outside.child outside.filepath (lit "wali.toml")) files ≡ some content
      → outside.parse content ≡ some cfg
      → (t : Texts) → make_texts outside cfg ≡ ok t
      → main outside files ≡ (ok tt, with_texts t files)
  main-loaded files content cfg there parsed t made =
      main_lem files
      ∙ ap (λ o. settled (read o) files) there
      ∙ ap (λ r. settled r files) (loaded-parsed content cfg parsed ∙ made)
