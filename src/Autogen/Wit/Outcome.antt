-- ===== src/Autogen/Wit/Outcome.antt =====
-- The run of `gen_wit_stubs` on the files.
use wali_lib.Base.{
  Str, lit, Option-cases, some, List, [], ◌++◌, ◌≡◌, refl, str_eq, ◌⊎◌, inl, inr, Error, ok, err,
  Result-cases, file_not_found,
}
use wali_lib.Base.Dict.{lookup, insert}
use wali_lib.Base.Files.{Files}
use wali_lib.Autogen.Types.{Types}
use wali_lib.Autogen.Args.{Row}
use wali_lib.Autogen.Wit.{scan_methods, wit_text, gen_wit_stubs}

abbrev pub records_path : Str
records_path = lit "templates/records.wit.template"

abbrev pub template_path : Str
template_path = lit "templates/wali.wit.template"

module _ (types : Types) where
  -- What the interface is made of: the rows can be read, and both templates are there.
  pub record IsMade (rows : List Row) (files : Files) (text : Str) : Type 0 where
    pub buf : List Str
    pub uniq : List Str
    pub scanned : scan_methods types rows [] ≡ ok (buf, uniq)
    pub record_content : Str
    pub records_at : lookup records_path files ≡ some record_content
    pub template : Str
    pub template_at : lookup template_path files ≡ some template
    pub made : text ≡ wit_text types buf uniq record_content template

  -- `gen_wit_stubs` writes `wali.wit`, made of the rows and the two templates, and no other file; or
  -- it ends with an error and changes none, as when a template is missing.
  pub gen_wit_stubs_atomic :
      (spath : Str) (rows : List Row) (files : Files)
      → ((e : Error) × (gen_wit_stubs types spath rows files ≡ (err e, files)))
        ⊎ ((text : Str) × IsMade rows files text
            × (gen_wit_stubs types spath rows files
                ≡ (ok tt, insert (spath ++ lit "/wali.wit") text files)))
  unfolding gen_wit_stubs lookup
  gen_wit_stubs_atomic spath rows files = elim (Result-cases (scan_methods types rows [])) [
    | inl (e, h) ↦ inl (e, rw h refl)
    | inr ((buf, uniq), h) ↦ elim (Option-cases (lookup records_path files)) [
      | inl e ↦ inl (file_not_found, rw (h, e) refl)
      | inr (record_content, r) ↦ elim (Option-cases (lookup template_path files)) [
        | inl e ↦ inl (file_not_found, rw (h, r, e) refl)
        | inr (template, t) ↦ inr (
          wit_text types buf uniq record_content template,
          record {
            buf = buf;
            uniq = uniq;
            scanned = h;
            record_content = record_content;
            records_at = r;
            template = template;
            template_at = t;
            made = refl;
          },
          rw (h, r, t) refl,
        )
      ]
    ]
  ]
