-- ===== src/Text/Decimal.antt =====
-- `str(n)` and `int(text)` in base ten.
use mathlib.Core.Option
use wali_lib.Text.{strip}
use wali_lib.Base.{
  true, false, Bool, ◌==◌, ℕ, zero, suc, ◌+◌, ◌-◌, ◌*◌, ◌/◌, ◌%◌, ◌<◌, Str, ◌&&◌, Option, none,
  some, [], ◌∷◌, ltb, leb, nat_eq, if◌then◌else◌, ◌≡◌, arith,
}

-- The digits of `n` before `out`, by one round for each digit; the fuel bounds the rounds.
unfoldable pub digits : ℕ → ℕ → Str → Str
digits zero n out = out
digits (suc f) n out =
    let d = (b'0' + n % 10) ∷ out in let more = digits f (n / 10) d in if ltb n 10 then d else more

-- `str(n)`: a number has no more digits than its successor counts.
unfoldable pub show : ℕ → Str
unfolding digits
show n = digits (suc n) n []

-- The number that decimal digits spell, behind `n`.
unfoldable pub read_digits : ℕ → Str → Option ℕ
read_digits n [] = some n
read_digits n (c ∷ s) =
    let rest = read_digits (n * 10 + (c - b'0')) s in
    if leb b'0' c && leb c b'9' then rest else none

read_digits-digits :
    (f n : ℕ) (out : Str) → n < f → read_digits 0 (digits f n out) ≡ read_digits n out
unfolding digits read_digits
read_digits-digits zero n out h = elim h [ ]
read_digits-digits (suc f) n out h =
    ground (arith, read_digits-digits f (n / 10) ((b'0' + n % 10) ∷ out))

-- A printed number is read back.
pub read_digits-show : (n : ℕ) → read_digits 0 (show n) ≡ some n
unfolding show read_digits
read_digits-show n = read_digits-digits (suc n) n [] (omega arith)

-- A Python integer: `negsuc n` is -(n + 1).
pub data ℤ : Type 0 where
  pos : ℕ → ℤ
  negsuc : ℕ → ℤ

-- The digits of an `int` literal, where one underscore may stand between two digits. The flag says
-- whether the character before was a digit.
unfoldable pub digit_run : ℕ → Bool → Str → Option ℕ
unfolding nat_eq
digit_run n after_digit [] = if after_digit then some n else none
digit_run n after_digit (c ∷ s) =
    let more = digit_run (n * 10 + (c - b'0')) true s in
    let skip = digit_run n false s in
    if leb b'0' c && leb c b'9' then more else if c == b'_' && after_digit then skip else none

unfoldable pub negate : ℕ → ℤ
negate zero = pos zero
negate (suc n) = negsuc n

unfoldable pub signed : Str → Option ℤ
unfolding digit_run negate nat_eq
signed [] = none
signed (c ∷ s) =
    if c == b'-'
    then Option.map negate (digit_run 0 false s)
    else if c == b'+'
    then Option.map pos (digit_run 0 false s)
    else Option.map pos (digit_run 0 false (c ∷ s))

-- `int(text)`, over the ASCII digits; `none` is a `ValueError`.
unfoldable pub read_int : Str → Option ℤ
unfolding signed strip
read_int s = signed (strip s)
