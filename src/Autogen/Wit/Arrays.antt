-- ===== src/Autogen/Wit/Arrays.antt =====
-- The replacement of arrays by tuples at the end of `gen_wit_stubs` of scripts/autogen.py.
pub mod Tuples
use wali_lib.Base.{
  ℕ, zero, suc, ◌+◌, ◌-◌, ◌*◌, Str, lit, Bool, true, false, ◌&&◌, Option, none, some, List, [], ◌∷◌,
  ◌++◌, nat_eq, ◌==◌, leb, if◌then◌else◌, length,
}
use wali_lib.Base.Options.{◌>>=◌}
use wali_lib.Text.{is_space, join}
use wali_lib.Autogen.Types.{drop_prefix, skip_spaces}

unfoldable pub is_digit : ℕ → Bool
is_digit c = leb b'0' c && leb c b'9'

-- The number that the digits at the start of a text spell behind `n`, and the rest: `\d*`.
unfoldable pub digits_from : ℕ → Str → ℕ × Str
digits_from n [] = (n, [])
digits_from n (c ∷ s) =
    let more = digits_from (n * 10 + (c - b'0')) s in if is_digit c then more else (n, c ∷ s)

-- `int` of the group `(\d+)`, and the rest.
unfoldable pub number_group : Str → Option (ℕ × Str)
number_group [] = none
number_group (c ∷ s) = if is_digit c then some (digits_from 0 (c ∷ s)) else none

-- `(\S+)\s*\]`: the longest group behind which, after white space, a bracket closes, and the rest.
unfoldable pub close_group : Str → Option (Str × Str)
close_group [] = none
close_group (c ∷ s) =
    let shortest : Option (Str × Str) = elim (drop_prefix (lit "]") (skip_spaces s)) [
      | none ↦ none
      | some rest ↦ some (c ∷ [], rest)
    ] in
    let longest : Option (Str × Str) = elim (close_group s) [
      | none ↦ shortest
      | some (group, rest) ↦ some (c ∷ group, rest)
    ] in
    if is_space c then none else longest

-- The regular expression `Array\[\s*(\d+),\s*(\S+)\s*\]` at the start of a text: the two groups and
-- the rest. Its other runs take as much as there is, since none holds what must follow it.
unfoldable pub match_array : Str → Option (ℕ × Str × Str)
match_array s = do
  s₁ ← drop_prefix (lit "Array[") s
  (num_elem, s₂) ← number_group (skip_spaces s₁)
  s₃ ← drop_prefix (lit ",") s₂
  (ty, rest) ← close_group (skip_spaces s₃)
  some (num_elem, ty, rest)

-- `[ty] * num_elem`
unfoldable pub copies : ℕ → Str → List Str
copies zero ty = []
copies (suc n) ty = ty ∷ copies n ty

-- `"tuple<{}>".format(','.join([ty] * int(num_elem)))`
unfoldable pub matchrep : ℕ → Str → Str
matchrep num_elem ty = lit "tuple<" ++ (join (lit ",") (copies num_elem ty) ++ lit ">")

-- `re.sub`, from left to right. The number counts the characters of the last match that are still
-- to be passed over.
unfoldable pub sub_from : ℕ → Str → Str
sub_from n [] = []
sub_from (suc n) (c ∷ s) = sub_from n s
sub_from zero (c ∷ s) = elim (match_array (c ∷ s)) [
  | none ↦ c ∷ sub_from zero s
  | some (num_elem, ty, rest) ↦ matchrep num_elem ty ++ sub_from (length s - length rest) s
]

unfoldable pub sub_arrays : Str → Str
sub_arrays s = sub_from zero s
