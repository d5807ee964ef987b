-- ===== src/Autogen/Types/RoundTrip.antt =====
-- `parse_type_file` reads back every table that is written in its format.
use wali_lib.Base.{
  length-sub, str_eq, ℕ, Str, lit, true, false, ◌||◌, none, some, [], ◌∷◌, ◌++◌, append_assoc, ◌≡◌,
  ◌≢◌, refl, ◌∙◌, ap, arith, nat_eq, ◌==◌, All, length,
}
use wali_lib.Base.Dict.{Dict, update}
use wali_lib.Text.{is_space}
use wali_lib.Autogen.Types.{
  drop_prefix, name_run, name_group, skip_spaces, to_last_semicolon, match_type, find_types,
  parse_type_file,
}

-- A type's name: white space and `=` end it.
abbrev pub IsName : Str → Type 0
IsName k = (k ≢ []) × All (λ c. (is_space c || c == b'=') ≡ false) k

abbrev pub NoSpaceFirst : Str → Type 0
NoSpaceFirst [] = Unit
NoSpaceFirst (c ∷ s) = is_space c ≡ false

-- A type's value: what stands on one line and begins with no white space.
abbrev pub IsValue : Str → Type 0
IsValue v = NoSpaceFirst v × All (λ c. c ≢ b'\n') v

-- `type k = v;` and the end of the line.
pub render : Str × Str → Str
render (k, v) = lit "type " ++ (k ++ (lit " = " ++ (v ++ lit ";\n")))

pub render_all : Dict Str Str → Str
unfolding render
render_all [] = []
render_all (e ∷ entries) = render e ++ render_all entries

name_run-append :
    (k : Str) (c : ℕ) (s : Str)
    → All (λ d. (is_space d || d == b'=') ≡ false) k
    → (is_space c || c == b'=') ≡ true
    → name_run (k ++ c ∷ s) ≡ (k, c ∷ s)
unfolding name_run
name_run-append [] c s h stop = rw stop
name_run-append (d ∷ k) c s (hd, h) stop = rw (hd, name_run-append k c s h stop)

to_last_semicolon-newline : (s : Str) → to_last_semicolon (b'\n' ∷ s) ≡ none
unfolding to_last_semicolon
to_last_semicolon-newline s = ground arith

to_last_semicolon-append :
    (v s : Str)
    → All (λ c. c ≢ b'\n') v
    → to_last_semicolon (v ++ b';' ∷ b'\n' ∷ s) ≡ some (v, b'\n' ∷ s)
unfolding to_last_semicolon
to_last_semicolon-append [] s h = ground (arith, to_last_semicolon-newline s)
to_last_semicolon-append (c ∷ v) s (hc, h) = ground (arith, to_last_semicolon-append v s h)

pub drop_prefix-append : (p s : Str) → drop_prefix p (p ++ s) ≡ some s
unfolding drop_prefix
drop_prefix-append [] s = refl
drop_prefix-append (c ∷ p) s = ground (arith, drop_prefix-append p s)

skip_spaces-value : (v s : Str) → NoSpaceFirst v → skip_spaces (v ++ b';' ∷ s) ≡ v ++ b';' ∷ s
unfolding skip_spaces
skip_spaces-value [] s h = refl
skip_spaces-value (c ∷ v) s h = rw h

name_group-append : (k : Str) (s : Str) → IsName k → name_group (k ++ b' ' ∷ s) ≡ some (k, b' ' ∷ s)
unfolding name_group is_space nat_eq
name_group-append [] s (ne, h) = absurd (ne refl)
name_group-append (c ∷ k) s (ne, h) =
    let run = name_run-append (c ∷ k) b' ' s h refl in rw (run, name_group) (ap some run)

match_type_by :
    (s s₁ s₂ s₃ k v rest : Str)
    → drop_prefix (lit "type ") s ≡ some s₁
    → name_group s₁ ≡ some (k, s₂)
    → drop_prefix (lit "=") (skip_spaces s₂) ≡ some s₃
    → to_last_semicolon (skip_spaces s₃) ≡ some (v, rest)
    → match_type s ≡ some (k, v, rest)
unfolding match_type
match_type_by s s₁ s₂ s₃ k v rest h₁ h₂ h₃ h₄ = rw (h₁, h₂, h₃, h₄)

skip_spaces_before : (s : Str) → skip_spaces (lit " = " ++ s) ≡ lit "= " ++ s
unfolding skip_spaces is_space nat_eq lit
skip_spaces_before s = refl

skip_spaces_one : (s : Str) → skip_spaces (lit " " ++ s) ≡ skip_spaces s
unfolding skip_spaces is_space nat_eq lit
skip_spaces_one s = refl

match_type-render :
    (k v s : Str)
    → IsName k
    → IsValue v
    → match_type (lit "type " ++ (k ++ (lit " = " ++ (v ++ b';' ∷ b'\n' ∷ s))))
      ≡ some (k, v, b'\n' ∷ s)
match_type-render k v s hk (first, line) =
    let tail : Str = v ++ b';' ∷ b'\n' ∷ s in
    match_type_by _ (k ++ (lit " = " ++ tail)) (lit " = " ++ tail) (lit " " ++ tail) k v (b'\n' ∷ s)
      (drop_prefix-append (lit "type ") _) (unfold lit in name_group-append k _ hk)
      (rw skip_spaces_before (unfold lit in drop_prefix-append (lit "=") (lit " " ++ tail)))
      (rw (skip_spaces_one tail, skip_spaces-value v (b'\n' ∷ s) first)
        (to_last_semicolon-append v s line))

find_types_past : (m s : Str) → find_types (length m) (m ++ s) ≡ find_types 0 s
unfolding find_types
find_types_past [] s = refl
find_types_past (c ∷ m) s = find_types_past m s

find_types_at :
    (c : ℕ) (m k v rest : Str)
    → match_type (c ∷ (m ++ rest)) ≡ some (k, v, rest)
    → find_types 0 (c ∷ (m ++ rest)) ≡ (k, v) ∷ find_types 0 rest
unfolding find_types
find_types_at c m k v rest h =
    rw (h, find_types, length-sub m rest) (ap (λ d. (k, v) ∷ d) (find_types_past m rest))

-- A match begins with a `t`.
match_type_newline : (s : Str) → match_type (b'\n' ∷ s) ≡ none
unfolding match_type drop_prefix lit nat_eq
match_type_newline s = refl

-- An entry of a type table that can be written in the format.
abbrev pub IsEntry : Str × Str → Type 0
IsEntry e = IsName e.0 × IsValue e.1

-- An entry without its first character and without the end of its line.
middle : Str → Str → Str
middle k v = lit "ype " ++ (k ++ (lit " = " ++ (v ++ b';' ∷ [])))

render_split : (k v s : Str) → render (k, v) ++ s ≡ b't' ∷ (middle k v ++ b'\n' ∷ s)
unfolding render middle lit
render_split k v s = simp append_assoc

middle_split :
    (k v s : Str) → b't' ∷ (middle k v ++ s) ≡ lit "type " ++ (k ++ (lit " = " ++ (v ++ b';' ∷ s)))
unfolding middle lit
middle_split k v s = simp append_assoc

find_types-newline : (s : Str) → find_types 0 (b'\n' ∷ s) ≡ find_types 0 s
unfolding find_types
find_types-newline s = rw (match_type_newline s, find_types)

find_types-render :
    (k v s : Str) → IsEntry (k, v) → find_types 0 (render (k, v) ++ s) ≡ (k, v) ∷ find_types 0 s
find_types-render k v s (hk, hv) = rw render_split (
    find_types_at b't' (middle k v) k v (b'\n' ∷ s)
      (rw middle_split (match_type-render k v s hk hv))
    ∙ ap (λ d. (k, v) ∷ d) (find_types-newline s))

find_types-render_all :
    (entries : Dict Str Str) → All IsEntry entries → find_types 0 (render_all entries) ≡ entries
unfolding render_all
find_types-render_all [] h = unfold find_types in refl
find_types-render_all ((k, v) ∷ entries) (h, hs) =
    find_types-render k v (render_all entries) h
    ∙ ap (λ d. (k, v) ∷ d) (find_types-render_all entries hs)

-- The table that is read from a file with a line `type k = v;` for each entry holds the entries,
-- where a later entry of a name replaces the value of an earlier one.
pub parse_type_file-render_all :
    (entries : Dict Str Str)
    → All IsEntry entries
    → parse_type_file (render_all entries) ≡ update [] entries
unfolding parse_type_file
parse_type_file-render_all entries h = ap (update []) (find_types-render_all entries h)
