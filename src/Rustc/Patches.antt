-- ===== src/Rustc/Patches.antt =====
-- What the script makes of a Cargo.toml.
use wali_lib.Base.{
  Str, lit, Option-cases, none, some, ok, returned, ok-injective, ◌≡◌, ◌≢◌, inl, inr, refl, ◌∙◌, ap,
  subst, arith, str_eq,
}
use wali_lib.Rustc.{Outside, patch_crates, patched}
use wali_lib.Toml.{Value, text, flag, array, other, table, Table, end, get, put, merge}
use wali_lib.Toml.Laws.{NodupKeys, get-put, get-put_same, put-get_self, get-merge, get-merge_absent}
use wali_lib.Rustc.Sections.{section}
use wali_lib.Rustc.Sections.Laws.{IsSection, section-result, section_idem, section_total}

module _ (outside : Outside) where
  -- A Cargo.toml before and after: the crates of the patch are replaced, the other crates, the other
  -- registries and the other keys are kept.
  pub record IsPatched (pairs cargo cargo' : Table) : Type 0 where
    pub patch : Table
    pub patch' : Table
    pub crates : Table
    pub crates' : Table
    pub patch_before : IsSection (lit "patch") cargo patch
    pub patch_after : get (lit "patch") cargo' ≡ some (table patch')
    pub crates_before : IsSection (lit "crates-io") patch crates
    pub crates_after : get (lit "crates-io") patch' ≡ some (table crates')
    pub replaced : (k : Str) (v : Value) → get k pairs ≡ some v → get k crates' ≡ some v
    pub other_crates : (k : Str) → get k pairs ≡ none → get k crates' ≡ get k crates
    pub registries : (k : Str) → k ≢ lit "crates-io" → get k patch' ≡ get k patch
    pub kept : (k : Str) → k ≢ lit "patch" → get k cargo' ≡ get k cargo

  patch_crates-parts :
      (pairs : Table) (v : Value) (cargo cargo' : Table)
      → patch_crates outside pairs v cargo ≡ ok cargo'
      → (p p' : Table) × (v ≡ table p)
        × (section (lit "crates-io") pairs p ≡ ok p')
        × (put (lit "patch") (table p') cargo ≡ cargo')
  unfolding patch_crates
  patch_crates-parts pairs (table p) cargo cargo' h =
      let (p', hp, e) = returned (section (lit "crates-io") pairs p) _ h in
      (p, p', refl, hp, ok-injective e)
  patch_crates-parts pairs (text _) cargo cargo' h = absurd (cc)
  patch_crates-parts pairs (flag _) cargo cargo' h = absurd (cc)
  patch_crates-parts pairs (array _) cargo cargo' h = absurd (cc)
  patch_crates-parts pairs (other _) cargo cargo' h = absurd (cc)

  patched-parts :
      (pairs cargo cargo' : Table)
      → patched outside pairs cargo ≡ ok cargo'
      → (p p' : Table) × IsSection (lit "patch") cargo p
        × (section (lit "crates-io") pairs p ≡ ok p')
        × (put (lit "patch") (table p') cargo ≡ cargo')
  unfolding patched
  patched-parts pairs cargo cargo' h = elim (Option-cases (get (lit "patch") cargo)) [
    | inl e ↦
        let (p, p', is, hp, made) =
          patch_crates-parts pairs (table end) cargo cargo' (ground arith) in
        (
          end,
          p',
          inr (e, refl),
          (subst (λ t. section (lit "crates-io") pairs t ≡ ok p') (cc) hp),
          made,
        )
    | inr (v, e) ↦
        let (p, p', is, hp, made) = patch_crates-parts pairs v cargo cargo' (ground arith) in
        (p, p', inl (e ∙ ap some is), hp, made)
  ]

  -- Where a Cargo.toml can be patched, the crates of the patch stand in its `crates-io` as the patch
  -- gives them, and the other crates, registries and keys are as they were.
  pub patched-IsPatched :
      (pairs cargo cargo' : Table)
      → NodupKeys pairs
      → patched outside pairs cargo ≡ ok cargo'
      → IsPatched pairs cargo cargo'
  patched-IsPatched pairs cargo cargo' u h =
      let (p, p', is_p, hp, made) = patched-parts pairs cargo cargo' h in
      let ((c, is_c, at_c), keep_p) = section-result (lit "crates-io") pairs p p' hp in
      record {
        patch = p;
        patch' = p';
        crates = c;
        crates' = merge c pairs;
        patch_before = is_p;
        patch_after =
            subst (λ t. get (lit "patch") t ≡ some (table p')) made
              (get-put_same (lit "patch") (table p') cargo);
        crates_before = is_c;
        crates_after = at_c;
        replaced = λ k v. get-merge k c pairs v u;
        other_crates = λ k. get-merge_absent k c pairs;
        registries = keep_p;
        kept = λ k ne.
            subst (λ t. get k t ≡ get k cargo) made
              (ground (arith, get-put k (lit "patch") (table p') cargo));
      }

  patched-absent :
      (pairs cargo p' : Table)
      → get (lit "patch") cargo ≡ none
      → section (lit "crates-io") pairs end ≡ ok p'
      → patched outside pairs cargo ≡ ok (put (lit "patch") (table p') cargo)
  unfolding patched patch_crates
  patched-absent pairs cargo p' h e = rw (h, patched, e) refl

  patched-present :
      (pairs cargo p p' : Table)
      → get (lit "patch") cargo ≡ some (table p)
      → section (lit "crates-io") pairs p ≡ ok p'
      → patched outside pairs cargo ≡ ok (put (lit "patch") (table p') cargo)
  unfolding patched patch_crates
  patched-present pairs cargo p p' h e = rw (h, patched, e) refl

  -- A Cargo.toml whose `patch` and whose `crates-io` in it are tables or missing can be patched.
  pub patched_total :
      (pairs cargo p c : Table)
      → IsSection (lit "patch") cargo p
      → IsSection (lit "crates-io") p c
      → (cargo' : Table) × (patched outside pairs cargo ≡ ok cargo')
  patched_total pairs cargo p c is_p is_c =
      let (p', hp) = section_total (lit "crates-io") pairs p c is_c in
      elim is_p [
        | inl h ↦ (put (lit "patch") (table p') cargo, patched-present pairs cargo p p' h hp)
        | inr (h, e) ↦ (
          put (lit "patch") (table p') cargo,
          patched-absent pairs cargo p' h
              (subst (λ t. section (lit "crates-io") pairs t ≡ ok p') e hp),
        )
      ]

  -- To patch a patched Cargo.toml changes nothing.
  pub patched_idem :
      (pairs cargo cargo' : Table)
      → NodupKeys pairs
      → patched outside pairs cargo ≡ ok cargo'
      → patched outside pairs cargo' ≡ ok cargo'
  patched_idem pairs cargo cargo' u h =
      let (p, p', _, hp, made) = patched-parts pairs cargo cargo' h in
      let found : get (lit "patch") cargo' ≡ some (table p') =
        subst (λ t. get (lit "patch") t ≡ some (table p')) made
          (get-put_same (lit "patch") (table p') cargo) in
      patched-present pairs cargo' p' p' found (section_idem (lit "crates-io") pairs p p' u hp)
      ∙ ap ok (put-get_self (lit "patch") (table p') cargo' found)
