-- ===== src/Text/Format.antt =====
-- Python's `str.format` with named values that are texts.
pub mod Pieces
use wali_lib.Base.{
  Error, ℕ, zero, suc, Str, lit, Bool, true, false, ◌||◌, ◌&&◌, Option, none, some, List, [], ◌∷◌,
  ◌++◌, nat_eq, str_eq, ◌==◌, leb, if◌then◌else◌, Result, ok, err, value_error, key_error,
  index_error, ◌>>=◌,
}
use wali_lib.Base.Dict.{Dict, lookup}

-- Where the reader stands: in literal text, behind a brace, or in the name of a field.
pub data Mode : Type 0 where
  literal : Mode
  opened : Mode
  closed : Mode
  naming : Str → Mode

-- What a character leads to: an error, some text, or a field that is more than a name.
pub data Step : Type 0 where
  stop : Error → Step
  emit : Str → Mode → Step
  elaborate : Str → Step

unfoldable pub is_number : Str → Bool
is_number [] = true
is_number (c ∷ s) = let rest = is_number s in leb b'0' c && leb c b'9' && rest

-- The value of a field. A name that is empty or a number is a position, and there is none.
unfoldable pub field : Dict Str Str → Str → Step
field values name =
    if is_number name
    then stop index_error
    else elim (lookup name values) [ none ↦ stop key_error | some v ↦ emit v literal ]

-- An attribute, an index, a conversion or a format.
unfoldable pub is_elaborate : ℕ → Bool
is_elaborate c = c == b'.' || c == b'[' || c == b'!' || c == b':'

unfoldable pub name_step : Dict Str Str → Str → ℕ → Step
name_step values name c =
    if c == b'}'
    then field values name
    else if c == b'{'
    then stop value_error
    else if is_elaborate c
    then elaborate name
    else emit [] (naming (name ++ c ∷ []))

unfoldable pub step : Dict Str Str → Mode → ℕ → Step
step values literal c =
    if c == b'{'
    then emit [] opened
    else if c == b'}'
    then emit [] closed
    else emit (c ∷ []) literal
step values opened c = if c == b'{' then emit (c ∷ []) literal else name_step values [] c
step values closed c = if c == b'}' then emit (c ∷ []) literal else stop value_error
step values (naming name) c = name_step values name c

-- `format_rest` formats a text from a field on that is more than a name.
module _ (format_rest : Dict Str Str → Str → Result Str) where
  unfoldable pub format_from : Dict Str Str → Mode → Str → Result Str
  format_from values literal [] = ok []
  format_from values opened [] = err value_error
  format_from values closed [] = err value_error
  format_from values (naming _) [] = err value_error
  format_from values mode (c ∷ s) = elim (step values mode c) [
    | stop e ↦ err e
    | emit out next ↦ do rest ← format_from values next s; ok (out ++ rest)
    | elaborate name ↦ format_rest values (name ++ c ∷ s)
  ]

  -- `s.format(**values)`
  unfoldable pub format : Dict Str Str → Str → Result Str
  format values s = format_from values literal s
