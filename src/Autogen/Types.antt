-- ===== src/Autogen/Types.antt =====
-- The type tables that scripts/autogen.py reads from its templates: `parse_type_file`, `sub`,
-- `BASIC_TYPES`, `COMPLEX_TYPES`, `COMBINED_TYPES` and `WIT_PRIMITIVE_SET`.
pub mod RoundTrip
use wali_lib.Base.{
  ℕ, zero, suc, ◌-◌, Str, lit, Bool, true, false, ◌||◌, Option, none, some, List, [], ◌∷◌, nat_eq,
  str_eq, ◌==◌, if◌then◌else◌, length,
}
use wali_lib.Base.Options.{◌>>=◌}
use wali_lib.Base.Dict.{Dict, insert, update, has, values}
use wali_lib.Text.{is_space, replace_char}

-- What is left behind a literal prefix.
unfoldable pub drop_prefix : Str → Str → Option Str
unfolding nat_eq
drop_prefix [] s = some s
drop_prefix (p ∷ ps) [] = none
drop_prefix (p ∷ ps) (c ∷ s) = if c == p then drop_prefix ps s else none

-- `[^\s=]*`, as much as there is, and the rest.
unfoldable pub name_run : Str → Str × Str
unfolding is_space
name_run [] = ([], [])
name_run (c ∷ s) =
    let (run, rest) = name_run s in if is_space c || c == b'=' then ([], c ∷ s) else (c ∷ run, rest)

-- `\s*`, as much as there is: the rest.
unfoldable pub skip_spaces : Str → Str
unfolding is_space
skip_spaces [] = []
skip_spaces (c ∷ s) = if is_space c then skip_spaces s else c ∷ s

-- `(.*);`: the text before the last semicolon of the line, and the rest behind it.
unfoldable pub to_last_semicolon : Str → Option (Str × Str)
unfolding nat_eq
to_last_semicolon [] = none
to_last_semicolon (c ∷ s) =
    let here = if c == b';' then some ([], s) else none in
    let there : Option (Str × Str) = elim (to_last_semicolon s) [
      | none ↦ here
      | some (v, rest) ↦ some (c ∷ v, rest)
    ] in
    if c == b'\n' then none else there

-- `([^\s=]+)`
unfoldable pub name_group : Str → Option (Str × Str)
name_group s = elim (name_run s).0 [ [] ↦ none | c ∷ k ↦ some (name_run s) ]

-- The regular expression `type ([^\s=]+)\s*=\s*(.*);` at the start of a text: the two groups and
-- the rest. Each of its runs takes as much as there is; to give back a character never helps, since
-- what follows a run is a character that the run does not take, and white space holds no semicolon.
unfoldable pub match_type : Str → Option (Str × Str × Str)
match_type s = do
  s₁ ← drop_prefix (lit "type ") s
  (k, s₂) ← name_group s₁
  s₃ ← drop_prefix (lit "=") (skip_spaces s₂)
  (v, rest) ← to_last_semicolon (skip_spaces s₃)
  some (k, v, rest)

-- `prog.findall`: the groups of the matches from left to right. The number counts the characters of
-- the last match that are still to be passed over.
unfoldable pub find_types : ℕ → Str → Dict Str Str
find_types n [] = []
find_types (suc n) (c ∷ s) = find_types n s
find_types zero (c ∷ s) = elim (match_type (c ∷ s)) [
  | none ↦ find_types zero s
  | some (k, v, rest) ↦ (k, v) ∷ find_types (length s - length rest) s
]

-- `parse_type_file`, from the content of the file.
unfoldable pub parse_type_file : Str → Dict Str Str
unfolding find_types match_type drop_prefix name_group name_run skip_spaces to_last_semicolon update
    insert
parse_type_file content = update [] (find_types zero content)

-- `sub(k, ch)` replaces the dashes.
unfoldable pub sub : Str → ℕ → Str
unfolding replace_char
sub k ch = replace_char b'-' ch k

-- `{ sub(k, ' '): v for k, v in … }`, onto the entries before.
unfoldable pub basic_types_onto : Dict Str Str → Dict Str Str → Dict Str Str
unfolding sub insert
basic_types_onto d [] = d
basic_types_onto d ((k, v) ∷ parsed) = basic_types_onto (insert (sub k b' ') v d) parsed

-- The value of a complex type: the name of a basic type if there is one, else a C name.
unfoldable pub complex_value : Dict Str Str → Str → Str
unfolding sub has
complex_value basic v = if has (sub v b' ') basic then sub v b' ' else sub v b'_'

unfoldable pub complex_types_onto : Dict Str Str → Dict Str Str → Dict Str Str → Dict Str Str
unfolding complex_value sub insert
complex_types_onto basic d [] = d
complex_types_onto basic d ((k, v) ∷ parsed) =
    complex_types_onto basic (insert (sub k b'_') (complex_value basic v) d) parsed

-- The tables of the module.
pub record Types : Type 0 where
  pub basic : Dict Str Str
  pub complex : Dict Str Str

-- From the contents of the two templates.
unfoldable pub load_types : Str → Str → Types
unfolding parse_type_file basic_types_onto complex_types_onto
load_types primitives_template complex_template =
    let basic = basic_types_onto [] (parse_type_file primitives_template) in
    record {
      basic = basic;
      complex = complex_types_onto basic [] (parse_type_file complex_template);
    }

-- `{**BASIC_TYPES, **COMPLEX_TYPES}`
unfoldable pub combined_types : Types → Dict Str Str
unfolding update insert
combined_types types = update types.basic types.complex

-- `set(BASIC_TYPES.values())`
unfoldable pub wit_primitives : Types → List Str
unfolding values
wit_primitives types = values types.basic
