-- ===== src/Toolchains/Triple.antt =====
-- The split of the target triple.
use wali_lib.Base.{
  ℕ, Str, lit, false, List, [], ◌∷◌, ◌++◌, ◌≡◌, ◌≢◌, refl, sym, ◌∙◌, ap, subst, arith, nat_eq, ◌==◌,
  All, length, ok, err, system_exit, if◌then◌else◌, ok-injective, ◌↔◌,
}
use mathlib.Core.Logic.{if_pos, if_neg}
use wali_lib.Text.{join, split}
use wali_lib.Text.Split.{
  occurrences, length-split, split-cons, join-split, split-append, split-whole,
}
use wali_lib.Toolchains.Config.{without_vendor, target_novendor}

-- A part of a triple.
abbrev pub IsPart : Str → Type 0
IsPart p = All (λ c. (c == b'-') ≡ false) p

prepend-IsPart :
    (c : ℕ) (p : Str) (rest : List Str)
    → All IsPart (p ∷ rest)
    → All IsPart (if c == b'-' then [] ∷ p ∷ rest else (c ∷ p) ∷ rest)
prepend-IsPart c p rest (hp, h) = elim (nat_eq.dec c b'-') [
  | yes e ↦ rw (if_pos _ e) (tt, (hp, h))
  | no n ↦ rw (if_neg _ n) ((ground arith, hp), h)
]

split-IsPart : (s : Str) → All IsPart (split b'-' s)
unfolding split
split-IsPart [] = (tt, tt)
split-IsPart (c ∷ s) =
    let (p, rest, e) = split-cons b'-' s in
    rw e (prepend-IsPart c p rest (rw e at (split-IsPart s)))

-- The four parts of a triple, and their text.
pub record Parts : Type 0 where
  pub arch : Str
  pub vendor : Str
  pub os : Str
  pub env : Str

abbrev pub AreParts : Parts → Type 0
AreParts t = IsPart t.arch × IsPart t.vendor × IsPart t.os × IsPart t.env

abbrev pub full : Parts → Str
full t = t.arch ++ b'-' ∷ (t.vendor ++ b'-' ∷ (t.os ++ b'-' ∷ t.env))

abbrev pub short : Parts → Str
short t = t.arch ++ b'-' ∷ (t.os ++ b'-' ∷ t.env)

split-full : (t : Parts) → AreParts t → split b'-' (full t) ≡ t.arch ∷ t.vendor ∷ t.os ∷ t.env ∷ []
split-full t (ha, hv, ho, he) =
    split-append b'-' t.arch (t.vendor ++ b'-' ∷ (t.os ++ b'-' ∷ t.env)) ha
    ∙ ap (λ l. t.arch ∷ l)
        (split-append b'-' t.vendor (t.os ++ b'-' ∷ t.env) hv
          ∙ ap (λ l. t.vendor ∷ l)
              (split-append b'-' t.os t.env ho ∙ ap (λ l. t.os ∷ l) (split-whole b'-' t.env he)))

without_vendor_iff :
    (parts : List Str) (short : Str)
    → without_vendor parts ≡ ok short
    → (t : Parts) × (parts ≡ t.arch ∷ t.vendor ∷ t.os ∷ t.env ∷ [])
      × (short ≡ t.arch ++ b'-' ∷ (t.os ++ b'-' ∷ t.env))
unfolding without_vendor join lit
without_vendor_iff (a ∷ v ∷ o ∷ e ∷ []) short h =
    (record { arch = a; vendor = v; os = o; env = e }, refl, sym (ok-injective h))
without_vendor_iff [] short h = absurd (cc)
without_vendor_iff (a ∷ []) short h = absurd (cc)
without_vendor_iff (a ∷ v ∷ []) short h = absurd (cc)
without_vendor_iff (a ∷ v ∷ o ∷ []) short h = absurd (cc)
without_vendor_iff (a ∷ v ∷ o ∷ e ∷ f ∷ rest) short h = absurd (cc)

-- The triple without its vendor is given exactly for a text of four parts with dashes between them,
-- and it is the text of the first, the third and the fourth part.
pub target_novendor_iff :
    (target novendor : Str)
    → (target_novendor target ≡ ok novendor)
      ↔ ((t : Parts) × AreParts t × (target ≡ full t) × (novendor ≡ short t))
unfolding target_novendor
target_novendor_iff target novendor = (
  λ h.
      let (t, e, s) = without_vendor_iff (split b'-' target) novendor h in
      let (ha, (hv, (ho, (he, _)))) = subst (All IsPart) e (split-IsPart target) in
      let parts : AreParts t = (ha, hv, ho, he) in
      (t, parts, sym (join-split b'-' target) ∙ ap (join (b'-' ∷ [])) e ∙ (unfold join in refl), s),
  λ (t, parts, e, s). rw (e, s, split-full t parts) (unfold without_vendor join lit in refl),
)

not_four : (parts : List Str) → length parts ≢ 4 → without_vendor parts ≡ err (system_exit 1)
unfolding without_vendor
not_four [] h = refl
not_four (a ∷ []) h = refl
not_four (a ∷ v ∷ []) h = refl
not_four (a ∷ v ∷ o ∷ []) h = refl
not_four (a ∷ v ∷ o ∷ e ∷ []) h = absurd (h refl)
not_four (a ∷ v ∷ o ∷ e ∷ f ∷ rest) h = refl

-- A text that has not exactly three dashes ends the script with status 1.
pub target_novendor_exit :
    (target : Str) → occurrences b'-' target ≢ 3 → target_novendor target ≡ err (system_exit 1)
unfolding target_novendor
target_novendor_exit target h =
    not_four (split b'-' target) (λ e. h (omega (arith, length-split b'-' target, e)))
