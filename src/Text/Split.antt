-- ===== src/Text/Split.antt =====
-- `str.split` at one character, and `str.join` with it.
use wali_lib.Base.{
  ℕ, suc, Str, false, List, [], ◌∷◌, ◌++◌, ◌≡◌, refl, ◌∙◌, ap, arith, nat_eq, ◌==◌, All, length,
  if◌then◌else◌,
}
use wali_lib.Text.{join, split}

-- How often a character stands in a text.
unfoldable pub occurrences : ℕ → Str → ℕ
occurrences sep [] = 0
occurrences sep (c ∷ s) = let rest = occurrences sep s in if c == sep then suc rest else rest

-- A text has one part more than separators.
pub length-split : (sep : ℕ) (s : Str) → length (split sep s) ≡ suc (occurrences sep s)
unfolding split occurrences
length-split sep [] = refl
length-split sep (c ∷ s) = ground (arith, length-split sep s)

first_part :
    {n : ℕ} (parts : List Str)
    → length parts ≡ suc n
    → (p : Str) × (rest : List Str) × (parts ≡ p ∷ rest)
first_part [] h = absurd (omega arith)
first_part (p ∷ rest) h = (p, rest, refl)

pub split-cons : (sep : ℕ) (s : Str) → (p : Str) × (rest : List Str) × (split sep s ≡ p ∷ rest)
split-cons sep s = first_part (split sep s) (length-split sep s)

join-prepend :
    (sep c : ℕ) (p : Str) (rest : List Str)
    → join (sep ∷ []) ((c ∷ p) ∷ rest) ≡ c ∷ join (sep ∷ []) (p ∷ rest)
unfolding join
join-prepend sep c p [] = refl
join-prepend sep c p (q ∷ rest) = refl

-- The parts of a text, with the separator between them, are the text.
pub join-split : (sep : ℕ) (s : Str) → join (sep ∷ []) (split sep s) ≡ s
unfolding split join
join-split sep [] = refl
join-split sep (c ∷ s) =
    let (p, rest, e) = split-cons sep s in
    ground (arith, e, join-split sep s, join-prepend sep c p rest)

-- A part that has no separator is split off.
pub split-append :
    (sep : ℕ) (p s : Str)
    → All (λ c. (c == sep) ≡ false) p
    → split sep (p ++ sep ∷ s) ≡ p ∷ split sep s
unfolding split
split-append sep [] s h = let (p, rest, e) = split-cons sep s in ground (arith, e)
split-append sep (c ∷ p) s (hc, h) = ground (arith, split-append sep p s h)

pub split-whole : (sep : ℕ) (p : Str) → All (λ c. (c == sep) ≡ false) p → split sep p ≡ p ∷ []
unfolding split
split-whole sep [] h = refl
split-whole sep (c ∷ p) (hc, h) = ground (arith, split-whole sep p h)

-- The parts that are joined are split again.
pub split-join :
    (sep : ℕ) (p : Str) (parts : List Str)
    → All (λ q. All (λ c. (c == sep) ≡ false) q) (p ∷ parts)
    → split sep (join (sep ∷ []) (p ∷ parts)) ≡ p ∷ parts
unfolding join
split-join sep p [] (hp, _) = split-whole sep p hp
split-join sep p (q ∷ parts) (hp, h) =
    split-append sep p (join (sep ∷ []) (q ∷ parts)) hp ∙ ap (λ l. p ∷ l) (split-join sep q parts h)
