-- ===== src/Autogen/Wit/Arrays/Tuples.antt =====
-- An array type in the interface `types` becomes a tuple with as many copies of its element type.
use wali_lib.Base.{
  length-sub, ℕ, ◌+◌, ◌-◌, ◌*◌, Str, lit, true, false, none, some, [], ◌∷◌, ◌++◌, append_assoc, ◌≡◌,
  ◌≢◌, refl, ◌∙◌, ap, arith, nat_eq, All, length,
}
use wali_lib.Text.{is_space}
use wali_lib.Text.Decimal.{read_digits}
use wali_lib.Autogen.Types.{drop_prefix, skip_spaces}
use wali_lib.Autogen.Wit.Arrays.{
  is_digit, digits_from, number_group, close_group, match_array, matchrep, sub_from, sub_arrays,
}

digits_from-read_digits :
    (m n : ℕ) (num s : Str)
    → read_digits m num ≡ some n
    → digits_from m (num ++ b',' ∷ s) ≡ (n, b',' ∷ s)
unfolding digits_from read_digits is_digit
digits_from-read_digits m n [] s h = ground arith
digits_from-read_digits m n (c ∷ num) s h =
    ground (arith, digits_from-read_digits (m * 10 + (c - b'0')) n num s)

number_group-read_digits :
    (n c : ℕ) (num s : Str)
    → read_digits 0 (c ∷ num) ≡ some n
    → number_group ((c ∷ num) ++ b',' ∷ s) ≡ some (n, b',' ∷ s)
unfolding number_group
number_group-read_digits n c num s h =
    let digit : is_digit c ≡ true = unfold read_digits is_digit in ground arith in
    rw (digit, digits_from-read_digits 0 n (c ∷ num) s h) refl

-- An element type: characters that are no white space.
abbrev pub IsType : Str → Type 0
IsType ty = (ty ≢ []) × All (λ c. is_space c ≡ false) ty

-- A group of one character, where no longer one closes.
close_group-one :
    (c : ℕ) (s : Str)
    → is_space c ≡ false
    → close_group s ≡ none
    → close_group (c ∷ s) ≡ elim (drop_prefix (lit "]") (skip_spaces s)) [
      | none ↦ none
      | some rest ↦ some (c ∷ [], rest)
    ]
unfolding close_group
close_group-one c s hc h = rw (hc, h) refl

close_group-more :
    (c : ℕ) (s group rest : Str)
    → is_space c ≡ false
    → close_group s ≡ some (group, rest)
    → close_group (c ∷ s) ≡ some (c ∷ group, rest)
unfolding close_group
close_group-more c s group rest hc h = rw (hc, h) refl

closing : (t : Str) → drop_prefix (lit "]") (skip_spaces (b']' ∷ t)) ≡ some t
unfolding drop_prefix skip_spaces is_space lit nat_eq
closing t = refl

close_group-append :
    (c : ℕ) (ty t : Str)
    → All (λ d. is_space d ≡ false) (c ∷ ty)
    → close_group (b']' ∷ t) ≡ none
    → close_group ((c ∷ ty) ++ b']' ∷ t) ≡ some (c ∷ ty, t)
close_group-append c [] t (hc, _) last =
    close_group-one c (b']' ∷ t) hc last ∙ (rw (closing t) refl)
close_group-append c (d ∷ ty) t (hc, h) last =
    close_group-more c ((d ∷ ty) ++ b']' ∷ t) (d ∷ ty) t hc (close_group-append d ty t h last)

close_group-none :
    (c : ℕ) (s : Str)
    → is_space c ≡ false
    → close_group s ≡ none
    → drop_prefix (lit "]") (skip_spaces s) ≡ none
    → close_group (c ∷ s) ≡ none
close_group-none c s hc h k = close_group-one c s hc h ∙ (rw k refl)

line_end :
    (s : Str)
    → (is_space b']' ≡ false)
      × (is_space b';' ≡ false)
      × (close_group (b'\n' ∷ s) ≡ none)
      × (skip_spaces (b'\n' ∷ s) ≡ skip_spaces s)
      × (drop_prefix (lit "]") (skip_spaces (b';' ∷ b'\n' ∷ s)) ≡ none)
unfolding drop_prefix skip_spaces is_space lit nat_eq close_group
line_end s = (refl, refl, refl, refl, refl)

-- Behind the bracket of a line of the interface no other bracket closes the group.
no_later_bracket :
    (s : Str)
    → drop_prefix (lit "]") (skip_spaces s) ≡ none
    → close_group (b']' ∷ b';' ∷ b'\n' ∷ s) ≡ none
no_later_bracket s h =
    let (bracket, semicolon, newline, skipped, other) = line_end s in
    close_group-none b']' (b';' ∷ b'\n' ∷ s) bracket
      (close_group-none b';' (b'\n' ∷ s) semicolon newline (rw skipped h)) other

drop_prefix-append : (p s : Str) → drop_prefix p (p ++ s) ≡ some s
unfolding drop_prefix
drop_prefix-append [] s = refl
drop_prefix-append (c ∷ p) s = ground (arith, drop_prefix-append p s)

sub_from_past : (m s : Str) → sub_from (length m) (m ++ s) ≡ sub_from 0 s
unfolding sub_from
sub_from_past [] s = refl
sub_from_past (c ∷ m) s = sub_from_past m s

sub_from_at :
    (c : ℕ) (m ty rest : Str) (n : ℕ)
    → match_array (c ∷ (m ++ rest)) ≡ some (n, ty, rest)
    → sub_from 0 (c ∷ (m ++ rest)) ≡ matchrep n ty ++ sub_from 0 rest
unfolding sub_from
sub_from_at c m ty rest n h =
    rw (h, sub_from, length-sub m rest) (ap (λ t. matchrep n ty ++ t) (sub_from_past m rest))

-- A text in which no array begins, whatever follows.
abbrev pub HasNoArray : Str → Type 0
HasNoArray [] = Unit
HasNoArray (c ∷ s) = ((rest : Str) → match_array (c ∷ (s ++ rest)) ≡ none) × HasNoArray s

sub_from-before : (pre s : Str) → HasNoArray pre → sub_from 0 (pre ++ s) ≡ pre ++ sub_from 0 s
unfolding sub_from
sub_from-before [] s h = refl
sub_from-before (c ∷ pre) s (hc, h) =
    rw (hc s, sub_from) (ap (λ t. c ∷ t) (sub_from-before pre s h))

digit_not_space : (c : ℕ) → is_digit c ≡ true → is_space c ≡ false
unfolding is_digit is_space
digit_not_space c h = ground arith

skip_spaces-stop : (c : ℕ) (s : Str) → is_space c ≡ false → skip_spaces (c ∷ s) ≡ c ∷ s
unfolding skip_spaces
skip_spaces-stop c s h = rw h refl

skip_one : (s : Str) → skip_spaces (b' ' ∷ s) ≡ skip_spaces s
unfolding skip_spaces is_space
skip_one s = refl

first_digit : (c n : ℕ) (num : Str) → read_digits 0 (c ∷ num) ≡ some n → is_digit c ≡ true
unfolding read_digits is_digit
first_digit c n num h = ground arith

comma : (s : Str) → drop_prefix (lit ",") (b',' ∷ s) ≡ some s
unfolding drop_prefix lit nat_eq
comma s = refl

-- The text of an array.
abbrev pub array_text : Str → Str → Str
array_text num ty = lit "Array[" ++ (num ++ (lit ", " ++ (ty ++ lit "]")))

match_array-text :
    (n c d : ℕ) (num ty s : Str)
    → read_digits 0 (c ∷ num) ≡ some n
    → All (λ e. is_space e ≡ false) (d ∷ ty)
    → drop_prefix (lit "]") (skip_spaces s) ≡ none
    → match_array
        (lit "Array[" ++ ((c ∷ num) ++ (b',' ∷ b' ' ∷ ((d ∷ ty) ++ b']' ∷ b';' ∷ b'\n' ∷ s))))
      ≡ some (n, d ∷ ty, b';' ∷ b'\n' ∷ s)
unfolding match_array
match_array-text n c d num ty s hn (hd, ht) last =
    let behind = b' ' ∷ ((d ∷ ty) ++ b']' ∷ b';' ∷ b'\n' ∷ s) in
    rw
      (
        drop_prefix-append (lit "Array[") ((c ∷ num) ++ b',' ∷ behind),
        skip_spaces-stop c (num ++ b',' ∷ behind) (digit_not_space c (first_digit c n num hn)),
        number_group-read_digits n c num behind hn,
        comma behind,
        skip_one ((d ∷ ty) ++ b']' ∷ b';' ∷ b'\n' ∷ s),
        skip_spaces-stop d (ty ++ b']' ∷ b';' ∷ b'\n' ∷ s) hd,
        close_group-append d ty (b';' ∷ b'\n' ∷ s) (hd, ht) (no_later_bracket s last),
      )
      refl

middle : Str → Str → Str
middle num ty = lit "rray[" ++ (num ++ (lit ", " ++ (ty ++ lit "]")))

array_split :
    (num ty s : Str)
    → array_text num ty ++ (lit ";\n" ++ s) ≡ b'A' ∷ (middle num ty ++ (b';' ∷ b'\n' ∷ s))
unfolding middle lit
array_split num ty s = refl

middle_split :
    (num ty s : Str)
    → b'A' ∷ (middle num ty ++ (b';' ∷ b'\n' ∷ s))
      ≡ lit "Array[" ++ (num ++ (b',' ∷ b' ' ∷ (ty ++ b']' ∷ b';' ∷ b'\n' ∷ s)))
unfolding middle lit
middle_split num ty s = simp append_assoc

line_end-HasNoArray : HasNoArray (lit ";\n")
unfolding match_array drop_prefix lit nat_eq
line_end-HasNoArray = ((λ rest. refl), ((λ rest. refl), tt))

line_end_stays : (s : Str) → sub_from 0 (b';' ∷ b'\n' ∷ s) ≡ lit ";\n" ++ sub_from 0 s
unfolding lit
line_end_stays s = sub_from-before (lit ";\n") s line_end-HasNoArray

pub sub_arrays-array_text :
    (pre num ty s : Str) (n : ℕ)
    → HasNoArray pre
    → num ≢ []
    → read_digits 0 num ≡ some n
    → IsType ty
    → drop_prefix (lit "]") (skip_spaces s) ≡ none
    → sub_arrays (pre ++ (array_text num ty ++ (lit ";\n" ++ s)))
      ≡ pre ++ (matchrep n ty ++ (lit ";\n" ++ sub_arrays s))
unfolding sub_arrays
sub_arrays-array_text pre [] ty s n hp some_digit hn ht last = absurd (some_digit refl)
sub_arrays-array_text pre (c ∷ num) [] s n hp some_digit hn ht last = absurd (ht.0 refl)
sub_arrays-array_text pre (c ∷ num) (d ∷ ty) s n hp some_digit hn ht last =
    let matched : match_array (b'A' ∷ (middle (c ∷ num) (d ∷ ty) ++ (b';' ∷ b'\n' ∷ s)))
        ≡ some (n, d ∷ ty, b';' ∷ b'\n' ∷ s) =
      ap match_array (middle_split (c ∷ num) (d ∷ ty) s)
      ∙ match_array-text n c d num ty s hn ht.1 last in
    sub_from-before pre (array_text (c ∷ num) (d ∷ ty) ++ (lit ";\n" ++ s)) hp
    ∙ ap (λ t. pre ++ t)
        (ap (sub_from 0) (array_split (c ∷ num) (d ∷ ty) s)
          ∙ sub_from_at b'A' (middle (c ∷ num) (d ∷ ty)) (d ∷ ty) (b';' ∷ b'\n' ∷ s) n matched
          ∙ ap (λ t. matchrep n (d ∷ ty) ++ t) (line_end_stays s))
