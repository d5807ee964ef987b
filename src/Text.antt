-- ===== src/Text.antt =====
-- The methods of Python's `str` that the scripts call, on texts as lists of code points.
pub mod Decimal
pub mod Split
pub mod Format
pub mod Dedent
use wali_lib.Base.{
  ℕ, zero, suc, ◌-◌, Str, lit, Bool, true, false, ◌||◌, ◌&&◌, Option, none, some, List, [], ◌∷◌,
  ◌++◌, map, ltb, leb, length, nat_eq, ◌==◌, if◌then◌else◌,
}

-- `str.isspace` and the `\s` of `re`.
unfoldable pub is_space : ℕ → Bool
unfolding nat_eq
is_space c =
    leb 9 c && leb c 13
    || leb 28 c && leb c 32
    || c == 133
    || c == 160
    || c == 5760
    || leb 8192 c && leb c 8202
    || c == 8232
    || c == 8233
    || c == 8239
    || c == 8287
    || c == 12288

-- `s.startswith(p)`
unfoldable pub starts_with : Str → Str → Bool
unfolding nat_eq
starts_with s [] = true
starts_with [] (p ∷ ps) = false
starts_with (c ∷ s) (p ∷ ps) = let rest = starts_with s ps in if c == p then rest else false

-- `s.endswith(p)`
unfoldable pub ends_with : Str → Str → Bool
unfolding starts_with
ends_with [] p = starts_with [] p
ends_with (c ∷ s) p =
    let rest = ends_with s p in
    if starts_with (c ∷ s) p && starts_with p (c ∷ s) then true else rest

-- `s[-1]`
unfoldable pub last? : Str → Option ℕ
last? [] = none
last? (c ∷ []) = some c
last? (c ∷ d ∷ s) = last? (d ∷ s)

-- `s[:-1]`
unfoldable pub but_last : Str → Str
but_last [] = []
but_last (c ∷ []) = []
but_last (c ∷ d ∷ s) = c ∷ but_last (d ∷ s)

-- `s.replace(a, b)` for one character each.
unfoldable pub replace_char : ℕ → ℕ → Str → Str
unfolding nat_eq
replace_char a b = map (λ c. if c == a then b else c)

-- `sep.join(parts)`
unfoldable pub join : Str → List Str → Str
join sep [] = []
join sep (p ∷ []) = p
join sep (p ∷ q ∷ parts) = p ++ (sep ++ join sep (q ∷ parts))

-- `s.lstrip()`
unfoldable pub strip_left : Str → Str
unfolding is_space
strip_left [] = []
strip_left (c ∷ s) = let rest = strip_left s in if is_space c then rest else c ∷ s

-- `s.rstrip()`
unfoldable pub strip_right : Str → Str
unfolding is_space
strip_right [] = []
strip_right (c ∷ s) = elim (strip_right s) [
  | [] ↦ if is_space c then [] else c ∷ []
  | d ∷ t ↦ c ∷ d ∷ t
]

-- `s.strip()`
unfoldable pub strip : Str → Str
unfolding strip_left strip_right
strip s = strip_right (strip_left s)

-- `s.split()`: the runs of characters that are no white space. `word` is the run being read.
unfoldable pub words_from : Str → Str → List Str
unfolding is_space
words_from [] [] = []
words_from [] (w ∷ word) = (w ∷ word) ∷ []
words_from (c ∷ s) [] = words_from s (if is_space c then [] else c ∷ [])
words_from (c ∷ s) (w ∷ word) =
    let stop = (w ∷ word) ∷ words_from s [] in
    let more = words_from s (w ∷ (word ++ c ∷ [])) in if is_space c then stop else more

unfoldable pub words : Str → List Str
unfolding words_from
words s = words_from s []

-- `s.split(sep)` for one character; it always gives at least one part.
unfoldable pub split : ℕ → Str → List Str
unfolding nat_eq
split sep [] = [] ∷ []
split sep (c ∷ s) = elim (split sep s) [
  | [] ↦ []
  | p ∷ parts ↦ if c == sep then [] ∷ p ∷ parts else (c ∷ p) ∷ parts
]

-- `s.replace(old, new)` for an `old` that is not empty: from left to right, without overlaps.
-- The number counts the characters of a match that are still to be passed over.
unfoldable pub replace_from : Str → Str → ℕ → Str → Str
unfolding starts_with
replace_from old new n [] = []
replace_from old new (suc n) (c ∷ s) = replace_from old new n s
replace_from old new zero (c ∷ s) =
    let hit = new ++ replace_from old new (length old - 1) s in
    let miss = c ∷ replace_from old new zero s in if starts_with (c ∷ s) old then hit else miss

unfoldable pub replace : Str → Str → Str → Str
unfolding replace_from
replace old new s = replace_from old new zero s

-- `n * s`, and the padding of `{: >width}`.
unfoldable pub repeat : ℕ → Str → Str
repeat zero s = []
repeat (suc n) s = s ++ repeat n s

unfoldable pub pad_left : ℕ → Str → Str
unfolding repeat
pad_left width s = repeat (width - length s) (b' ' ∷ []) ++ s
