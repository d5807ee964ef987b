-- ===== src/Profile/RoundTrip.antt =====
-- A profile of numbers is read back.
use wali_lib.Base.{
  ℕ, zero, suc, ◌+◌, ◌-◌, ◌*◌, ◌/◌, ◌%◌, Str, lit, true, false, nat_eq, str_eq, ◌==◌, some, List,
  [], ◌∷◌, ◌++◌, map, All, All-append, ok, traverse, ◌≡◌, ◌≢◌, refl, ◌∙◌, ap, arith,
}
use wali_lib.Text.{join}
use wali_lib.Text.Split.{split-join}
use wali_lib.Text.Decimal.{digits, show, read_digits, read_digits-show}
use wali_lib.Autogen.Wit.Arrays.{is_digit}
use wali_lib.Profile.{
  Groups, digit_group, behind, match_groups, search_groups, int_of, Feat, read_feat, read_feats,
}

digits_nonempty : (f n d : ℕ) (out : Str) → digits f n (d ∷ out) ≢ []
unfolding digits
digits_nonempty zero n d out e = cc
digits_nonempty (suc f) n d out e =
    ground (arith, digits_nonempty f (n / 10) (b'0' + n % 10) (d ∷ out))

show_nonempty : (n : ℕ) → show n ≢ []
unfolding show digits
show_nonempty n e = ground (arith, digits_nonempty n (n / 10) (b'0' + n % 10) [])

read_digits-All : (m n : ℕ) (s : Str) → read_digits m s ≡ some n → All (λ c. is_digit c ≡ true) s
unfolding read_digits is_digit
read_digits-All m n [] h = tt
read_digits-All m n (c ∷ s) h =
    (ground arith, read_digits-All (m * 10 + (c - b'0')) n s (ground arith))

show-All : (n : ℕ) → All (λ c. is_digit c ≡ true) (show n)
show-All n = read_digits-All 0 n (show n) (read_digits-show n)

int_of-nonempty : (s : Str) (n : ℕ) → s ≢ [] → read_digits 0 s ≡ some n → int_of s ≡ ok n
unfolding int_of
int_of-nonempty [] n ne h = absurd (ne refl)
int_of-nonempty (c ∷ s) n ne h = rw (int_of, h) refl

int_of-show : (n : ℕ) → int_of (show n) ≡ ok n
int_of-show n = int_of-nonempty (show n) n (show_nonempty n) (read_digits-show n)

digit_group-stop :
    (ds : Str) (c : ℕ) (s : Str)
    → All (λ c. is_digit c ≡ true) ds
    → is_digit c ≡ false
    → digit_group (ds ++ c ∷ s) ≡ (ds, c ∷ s)
unfolding digit_group
digit_group-stop [] c s h stop = rw stop refl
digit_group-stop (d ∷ ds) c s (hd, h) stop = rw (digit_group-stop ds c s h stop, hd) refl

digit_group-end : (ds : Str) → All (λ c. is_digit c ≡ true) ds → digit_group ds ≡ (ds, [])
unfolding digit_group
digit_group-end [] h = refl
digit_group-end (d ∷ ds) (hd, h) = rw (digit_group-end ds h, hd) refl

-- What the profile has for a call.
abbrev pub feat_text : Feat → Str
feat_text feat = show feat.count ++ b':' ∷ (show feat.native ++ b'/' ∷ show feat.virtual)

match_groups-feat_text :
    (feat : Feat)
    → match_groups (feat_text feat) ≡ some (show feat.count, show feat.native, show feat.virtual)
unfolding match_groups behind is_digit nat_eq
match_groups-feat_text feat =
    let first =
      digit_group-stop (show feat.count) b':' (show feat.native ++ b'/' ∷ show feat.virtual)
        (show-All feat.count) refl in
    let second =
      digit_group-stop (show feat.native) b'/' (show feat.virtual) (show-All feat.native) refl in
    rw
      (
        match_groups,
        first,
        second,
        digit_group-end (show feat.virtual) (show-All feat.virtual),
        first,
        second,
      )
      refl

search_groups-match :
    (s : Str) (groups : Groups) → match_groups s ≡ some groups → search_groups s ≡ some groups
unfolding search_groups
search_groups-match [] groups h = h
search_groups-match (c ∷ s) groups h = rw (search_groups, h) refl

read_feat-feat_text : (feat : Feat) → read_feat (feat_text feat) ≡ ok feat
unfolding read_feat
read_feat-feat_text feat =
    rw
      (
        read_feat,
        search_groups-match (feat_text feat) _ (match_groups-feat_text feat),
        int_of-show feat.count,
        int_of-show feat.native,
        int_of-show feat.virtual,
      )
      refl

digits_no_comma : (ds : Str) → All (λ c. is_digit c ≡ true) ds → All (λ c. (c == b',') ≡ false) ds
unfolding is_digit nat_eq
digits_no_comma [] h = tt
digits_no_comma (c ∷ ds) (hc, h) = (ground arith, digits_no_comma ds h)

feat_text_no_comma : (feat : Feat) → All (λ c. (c == b',') ≡ false) (feat_text feat)
unfolding nat_eq
feat_text_no_comma feat =
    let no_comma = λ (n : ℕ). digits_no_comma (show n) (show-All n) in
    All-append (λ c. (c == b',') ≡ false) (show feat.count)
      (b':' ∷ (show feat.native ++ b'/' ∷ show feat.virtual)) (no_comma feat.count)
      (
        refl,
        All-append (λ c. (c == b',') ≡ false) (show feat.native) (b'/' ∷ show feat.virtual)
            (no_comma feat.native) (refl, no_comma feat.virtual),
      )

All-feats : (feats : List Feat) → All (λ q. All (λ c. (c == b',') ≡ false) q) (map feat_text feats)
All-feats [] = tt
All-feats (feat ∷ feats) = (feat_text_no_comma feat, All-feats feats)

traverse-feat_text : (feats : List Feat) → traverse read_feat (map feat_text feats) ≡ ok feats
unfolding traverse
traverse-feat_text [] = refl
traverse-feat_text (feat ∷ feats) = rw (read_feat-feat_text feat, traverse-feat_text feats) refl

-- A profile of one call or more, each with its count and its two times, and with commas between
-- them, is read back to these numbers.
pub read_feats-feat_text :
    (feat : Feat) (feats : List Feat)
    → read_feats (join (lit ",") (map feat_text (feat ∷ feats))) ≡ ok (feat ∷ feats)
unfolding read_feats lit
read_feats-feat_text feat feats =
    ap (traverse read_feat)
      (split-join b',' (feat_text feat) (map feat_text feats) (All-feats (feat ∷ feats)))
    ∙ traverse-feat_text (feat ∷ feats)
