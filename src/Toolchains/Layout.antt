-- ===== src/Toolchains/Layout.antt =====
-- The generated files are the lines of their templates, without the indent of the source.
use wali_lib.Base.{
  ℕ, Str, lit, Bool, true, false, not, List, [], ◌∷◌, ◌++◌, map, nat_eq, All, All-append, ◌≡◌, refl,
  arith, inl, inr, keep,
}
use wali_lib.Text.{join}
use wali_lib.Text.Dedent.{is_blank_char, is_blank, indent_of, indents, dedent}
use wali_lib.Text.Dedent.Block.{IsPad, IsLine, IsIndented, HasFlush, dedent-IsIndented}
use wali_lib.Toolchains.Config.{Settings}
use wali_lib.Toolchains.Templates.{indented, block, makefile_lines, bash_lines, cmake_lines}

-- An empty line, or one that does not begin with a blank.
unfoldable is_flush : Str → Bool
is_flush [] = true
is_flush (c ∷ l) = not (is_blank_char c)

abbrev pad : Str
pad = lit "        "

pad-IsPad : IsPad pad
unfolding lit is_blank_char nat_eq
pad-IsPad = ground arith

flush_not_blank : (c : ℕ) (l : Str) → is_flush (c ∷ l) ≡ true → is_blank (c ∷ l) ≡ false
unfolding is_flush is_blank
flush_not_blank c l h = ground arith

block-IsIndented :
    (lines : List Str)
    → All (λ l. is_flush l ≡ true) lines
    → IsIndented pad (map indented lines ++ lit "    " ∷ []) (lines ++ [] ∷ [])
unfolding indented is_blank
block-IsIndented [] h = (inl (unfold lit is_blank is_blank_char nat_eq in refl, refl), tt)
block-IsIndented ([] ∷ lines) (_, h) = (inl (refl, refl), block-IsIndented lines h)
block-IsIndented ((c ∷ l) ∷ lines) (hc, h) =
    (inr (flush_not_blank c l hc, refl), block-IsIndented lines h)

indented-IsLine : (l : Str) → IsLine l → IsLine (indented l)
unfolding indented lit nat_eq
indented-IsLine [] h = tt
indented-IsLine (c ∷ l) h = (refl, (refl, (refl, (refl, (refl, (refl, (refl, (refl, h))))))))

map-indented-IsLine : (lines : List Str) → All IsLine lines → All IsLine (map indented lines)
map-indented-IsLine [] h = tt
map-indented-IsLine (l ∷ lines) (hl, h) = (indented-IsLine l hl, map-indented-IsLine lines h)

flush-indent_of : (c : ℕ) (l : Str) → is_flush (c ∷ l) ≡ true → indent_of (c ∷ l) ≡ []
unfolding is_flush indent_of
flush-indent_of c l h = ground arith

first_flush :
    (c : ℕ) (l : Str) (lines : List Str)
    → is_flush (c ∷ l) ≡ true
    → HasFlush (indents ((c ∷ l) ∷ lines))
unfolding indents keep
first_flush c l lines h = rw (flush_not_blank c l h) (inl (flush-indent_of c l h))

last_blanks : IsLine (lit "    ")
unfolding lit nat_eq
last_blanks = (refl, (refl, (refl, (refl, tt))))

-- The text of a template whose first line is not empty is dedented to its lines.
dedent-block :
    (c : ℕ) (l : Str) (lines : List Str)
    → All (λ l. is_flush l ≡ true) ((c ∷ l) ∷ lines)
    → All IsLine ((c ∷ l) ∷ lines)
    → dedent (block ((c ∷ l) ∷ lines)) ≡ join (lit "\n") (((c ∷ l) ∷ lines) ++ [] ∷ [])
unfolding block lit
dedent-block c l lines h hl =
    let all : List Str = (c ∷ l) ∷ lines in
    dedent-IsIndented pad (indented (c ∷ l)) (map indented lines ++ lit "    " ∷ [])
      (all ++ [] ∷ []) pad-IsPad
      (All-append IsLine (map indented all) (lit "    " ∷ []) (map-indented-IsLine all hl)
        (last_blanks, tt))
      (block-IsIndented all h) (first_flush c l (lines ++ [] ∷ []) (h.0))

-- The lines of a file, each with its newline.
abbrev pub text_of_lines : List Str → Str
text_of_lines lines = join (lit "\n") (lines ++ [] ∷ [])

module _ (s : Settings) (cflags cxxflags ldflags : Str) where
  makefile-flush : All (λ l. is_flush l ≡ true) (makefile_lines s cflags cxxflags ldflags)
  unfolding makefile_lines is_flush lit is_blank_char nat_eq
  makefile-flush = ground arith

  bash-flush : All (λ l. is_flush l ≡ true) (bash_lines s cflags cxxflags ldflags)
  unfolding bash_lines is_flush lit is_blank_char nat_eq
  bash-flush = ground arith

  cmake-flush : All (λ l. is_flush l ≡ true) (cmake_lines s cflags cxxflags ldflags)
  unfolding cmake_lines is_flush lit is_blank_char nat_eq
  cmake-flush = ground arith

  pub dedent-makefile :
      All IsLine (makefile_lines s cflags cxxflags ldflags)
      → dedent (block (makefile_lines s cflags cxxflags ldflags))
        ≡ text_of_lines (makefile_lines s cflags cxxflags ldflags)
  unfolding makefile_lines lit
  dedent-makefile h = dedent-block _ _ _ makefile-flush h

  pub dedent-bash :
      All IsLine (bash_lines s cflags cxxflags ldflags)
      → dedent (block (bash_lines s cflags cxxflags ldflags))
        ≡ text_of_lines (bash_lines s cflags cxxflags ldflags)
  unfolding bash_lines lit
  dedent-bash h = dedent-block _ _ _ bash-flush h

  pub dedent-cmake :
      All IsLine (cmake_lines s cflags cxxflags ldflags)
      → dedent (block (cmake_lines s cflags cxxflags ldflags))
        ≡ text_of_lines (cmake_lines s cflags cxxflags ldflags)
  unfolding cmake_lines lit
  dedent-cmake h = dedent-block _ _ _ cmake-flush h
