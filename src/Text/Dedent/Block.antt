-- ===== src/Text/Dedent/Block.antt =====
-- The text of an indented block of lines is dedented to the lines.
use wali_lib.Base.{
  Str, true, false, List, [], ◌∷◌, ◌++◌, map, keep, nat_eq, ◌==◌, drop, length, ◌≡◌, refl, ◌∙◌, ap,
  ap₂, arith, All, ◌⊎◌, inl, inr, append-nil,
}
use wali_lib.Text.{join, starts_with}
use wali_lib.Text.Split.{split-join}
use wali_lib.Text.Dedent.{
  is_blank_char, indent_of, is_blank, clean, common_prefix, margin_from, margin, indents,
  remove_margin, dedent_lines, dedent,
}

-- A run of blanks.
abbrev pub IsPad : Str → Type 0
IsPad pad = All (λ c. is_blank_char c ≡ true) pad

is_blank-append : (pad l : Str) → IsPad pad → is_blank (pad ++ l) ≡ is_blank l
unfolding is_blank
is_blank-append [] l h = refl
is_blank-append (c ∷ pad) l (hc, h) = ground (arith, is_blank-append pad l h)

indent_of-append : (pad l : Str) → IsPad pad → indent_of (pad ++ l) ≡ pad ++ indent_of l
unfolding indent_of
indent_of-append [] l h = refl
indent_of-append (c ∷ pad) l (hc, h) = ground (arith, indent_of-append pad l h)

common_prefix-append :
    (pad a b : Str) → common_prefix (pad ++ a) (pad ++ b) ≡ pad ++ common_prefix a b
unfolding common_prefix
common_prefix-append [] a b = refl
common_prefix-append (c ∷ pad) a b = ground (arith, common_prefix-append pad a b)

common_prefix-nil : (a : Str) → common_prefix a [] ≡ []
unfolding common_prefix
common_prefix-nil [] = refl
common_prefix-nil (c ∷ a) = refl

margin_from-append :
    (pad m : Str) (is : List Str)
    → margin_from (pad ++ m) (map (λ i. pad ++ i) is) ≡ pad ++ margin_from m is
unfolding margin_from
margin_from-append pad m [] = refl
margin_from-append pad m (i ∷ is) =
    ap (λ n. margin_from n (map (λ j. pad ++ j) is)) (common_prefix-append pad m i)
    ∙ margin_from-append pad (common_prefix m i) is

margin_from-nil : (is : List Str) → margin_from [] is ≡ []
unfolding margin_from common_prefix
margin_from-nil [] = refl
margin_from-nil (i ∷ is) = margin_from-nil is

-- One of the indents is empty.
abbrev pub HasFlush : List Str → Type 0
HasFlush [] = ⊥
HasFlush (i ∷ is) = (i ≡ []) ⊎ HasFlush is

margin_from-flush : (m : Str) (is : List Str) → HasFlush is → margin_from m is ≡ []
unfolding margin_from
margin_from-flush m [] h = elim h [ ]
margin_from-flush m (i ∷ is) (inl e) =
    ap (λ j. margin_from (common_prefix m j) is) e
    ∙ ap (λ n. margin_from n is) (common_prefix-nil m)
    ∙ margin_from-nil is
margin_from-flush m (i ∷ is) (inr h) = margin_from-flush (common_prefix m i) is h

margin-append :
    (pad : Str) (is : List Str) → HasFlush is → margin (map (λ i. pad ++ i) is) ≡ pad ++ margin is
unfolding margin
margin-append pad [] h = elim h [ ]
margin-append pad (i ∷ is) h = margin_from-append pad i is

margin-flush : (is : List Str) → HasFlush is → margin is ≡ []
unfolding margin
margin-flush [] h = elim h [ ]
margin-flush (i ∷ is) (inl e) = ap (λ j. margin_from j is) e ∙ margin_from-nil is
margin-flush (i ∷ is) (inr h) = margin_from-flush i is h

-- The lines of a block beside the same lines indented: a line of blanks stands for an empty one.
abbrev pub IsIndented : Str → List Str → List Str → Type 0
IsIndented pad [] [] = Unit
IsIndented pad (d ∷ deep) (l ∷ lines) =
    (((is_blank d ≡ true) × (l ≡ [])) ⊎ ((is_blank l ≡ false) × (d ≡ pad ++ l)))
    × IsIndented pad deep lines
IsIndented pad _ _ = ⊥

indents-IsIndented :
    (pad : Str) (deep lines : List Str)
    → IsPad pad
    → IsIndented pad deep lines
    → indents deep ≡ map (λ i. pad ++ i) (indents lines)
unfolding indents keep is_blank
indents-IsIndented pad [] [] hp h = refl
indents-IsIndented pad (d ∷ deep) (l ∷ lines) hp (inl (blank, e), h) =
    rw (blank, e) (indents-IsIndented pad deep lines hp h)
indents-IsIndented pad (d ∷ deep) (l ∷ lines) hp (inr (full, e), h) =
    rw (e, is_blank-append pad l hp, full)
      (ap₂ (λ i is. i ∷ is) (indent_of-append pad l hp) (indents-IsIndented pad deep lines hp h))
indents-IsIndented pad [] (l ∷ lines) hp h = elim h [ ]
indents-IsIndented pad (d ∷ deep) [] hp h = elim h [ ]

starts_with-append : (p s : Str) → starts_with (p ++ s) p ≡ true
unfolding starts_with
starts_with-append [] s = refl
starts_with-append (c ∷ p) s = ground (arith, starts_with-append p s)

drop_prefix_length : (p s : Str) → drop (length p) (p ++ s) ≡ s
drop_prefix_length [] s = refl
drop_prefix_length (c ∷ p) s = drop_prefix_length p s

remove_margin-nil : (m : Str) → remove_margin m [] ≡ []
unfolding remove_margin starts_with
remove_margin-nil [] = refl
remove_margin-nil (c ∷ m) = refl

remove_margin-append : (m l : Str) → remove_margin m (m ++ l) ≡ l
unfolding remove_margin
remove_margin-append m l = rw (starts_with-append m l) (drop_prefix_length m l)

remove_margin-IsIndented :
    (pad : Str) (deep lines : List Str)
    → IsPad pad
    → IsIndented pad deep lines
    → map (remove_margin pad) (map clean deep) ≡ lines
unfolding clean
remove_margin-IsIndented pad [] [] hp h = refl
remove_margin-IsIndented pad (d ∷ deep) (l ∷ lines) hp (inl (blank, e), h) =
    rw (blank, e)
      (ap₂ (λ a rest. a ∷ rest) (remove_margin-nil pad)
        (remove_margin-IsIndented pad deep lines hp h))
remove_margin-IsIndented pad (d ∷ deep) (l ∷ lines) hp (inr (full, e), h) =
    rw (e, is_blank-append pad l hp, full)
      (ap₂ (λ a rest. a ∷ rest) (remove_margin-append pad l)
        (remove_margin-IsIndented pad deep lines hp h))
remove_margin-IsIndented pad [] (l ∷ lines) hp h = elim h [ ]
remove_margin-IsIndented pad (d ∷ deep) [] hp h = elim h [ ]

append-nil_of : (pad i : Str) → i ≡ [] → pad ++ i ≡ pad
append-nil_of pad i e = ap (λ j. pad ++ j) e ∙ append-nil pad

dedent_lines-IsIndented :
    (pad : Str) (deep lines : List Str)
    → IsPad pad
    → IsIndented pad deep lines
    → HasFlush (indents lines)
    → dedent_lines deep ≡ lines
unfolding dedent_lines
dedent_lines-IsIndented pad deep lines hp h flush =
    let found : margin (indents deep) ≡ pad =
      ap margin (indents-IsIndented pad deep lines hp h)
      ∙ margin-append pad (indents lines) flush
      ∙ append-nil_of pad (margin (indents lines)) (margin-flush (indents lines) flush) in
    ap (λ m. map (remove_margin m) (map clean deep)) found
    ∙ remove_margin-IsIndented pad deep lines hp h

-- A text without a newline.
abbrev pub IsLine : Str → Type 0
IsLine l = All (λ c. (c == b'\n') ≡ false) l

-- The text of indented lines, of which one has no indent of its own, is dedented to the lines: the
-- indent goes, and a line of blanks becomes empty.
pub dedent-IsIndented :
    (pad d : Str) (deep lines : List Str)
    → IsPad pad
    → All IsLine (d ∷ deep)
    → IsIndented pad (d ∷ deep) lines
    → HasFlush (indents lines)
    → dedent (join (b'\n' ∷ []) (d ∷ deep)) ≡ join (b'\n' ∷ []) lines
unfolding dedent
dedent-IsIndented pad d deep lines hp hl h flush =
    ap (λ ls. join (b'\n' ∷ []) (dedent_lines ls)) (split-join b'\n' d deep hl)
    ∙ ap (join (b'\n' ∷ [])) (dedent_lines-IsIndented pad (d ∷ deep) lines hp h flush)
