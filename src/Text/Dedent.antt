-- ===== src/Text/Dedent.antt =====
-- Python's `textwrap.dedent`.
pub mod Block
use wali_lib.Base.{
  ℕ, Str, Bool, true, false, ◌||◌, ◌&&◌, not, List, [], ◌∷◌, ◌++◌, map, keep, nat_eq, ◌==◌, drop,
  length, if◌then◌else◌,
}
use wali_lib.Text.{split, join, starts_with}

-- `[ \t]`
unfoldable pub is_blank_char : ℕ → Bool
unfolding nat_eq
is_blank_char c = c == b' ' || c == b'\t'

-- The blanks at the start of a line.
unfoldable pub indent_of : Str → Str
indent_of [] = []
indent_of (c ∷ s) = let rest = indent_of s in if is_blank_char c then c ∷ rest else []

-- A line of blanks, or an empty one.
unfoldable pub is_blank : Str → Bool
is_blank [] = true
is_blank (c ∷ s) = let rest = is_blank s in is_blank_char c && rest

-- A line of blanks becomes empty.
unfoldable pub clean : Str → Str
clean line = if is_blank line then [] else line

unfoldable pub common_prefix : Str → Str → Str
unfolding nat_eq
common_prefix [] t = []
common_prefix (c ∷ s) [] = []
common_prefix (c ∷ s) (d ∷ t) = let rest = common_prefix s t in if c == d then c ∷ rest else []

unfoldable pub margin_from : Str → List Str → Str
margin_from m [] = m
margin_from m (i ∷ indents) = margin_from (common_prefix m i) indents

-- The blanks that every line with other characters starts with.
unfoldable pub margin : List Str → Str
unfolding margin_from
margin [] = []
margin (i ∷ indents) = margin_from i indents

unfoldable pub indents : List Str → List Str
unfolding keep
indents lines = map indent_of (keep (λ line. not (is_blank line)) lines)

unfoldable pub remove_margin : Str → Str → Str
remove_margin m line = if starts_with line m then drop (length m) line else line

unfoldable pub dedent_lines : List Str → List Str
dedent_lines lines = map (remove_margin (margin (indents lines))) (map clean lines)

unfoldable pub dedent : Str → Str
dedent text = join (b'\n' ∷ []) (dedent_lines (split b'\n' text))
