-- ===== src/Convert/Sorted.antt =====
-- The rows between the two replacements of convert_syscalls.py.
use wali_lib.Base.{
  Str, lit, Bool, true, false, nat_eq, str_eq, if◌then◌else◌, contains, List, [], ◌∷◌, map, length,
  ok, traverse, returned, ok-injective, ◌≡◌, refl, sym, ◌∙◌, ap, ap₂, subst, arith, inl, inr,
  Option-cases, Bool-cases, ◌≢◌,
}
use mathlib.Core.Logic.{if_pos, if_neg}
use wali_lib.Text.Decimal.{ℤ, read_int}
use wali_lib.Convert.{Cell, string, number, minus_one}
use wali_lib.Convert.Cells.{
  is_int64, same_cell, replaced, int_cell, by_column, int_row, number_of, number_at, HasNumber,
  dash, restored, clean_cell, clean_row,
}

-- `replace('-', -1)` on one cell.
abbrev pub marked : Cell → Cell
marked = replaced dash (number minus_one)

marked-dash : (s : Str) → s ≡ lit "-" → marked (string s) ≡ number minus_one
unfolding same_cell
marked-dash s e = ap (λ b. if b then number minus_one else string s) (if_pos _ e true false)

marked-other : (s : Str) → s ≢ lit "-" → marked (string s) ≡ string s
unfolding same_cell
marked-other s n = ap (λ b. if b then number minus_one else string s) (if_neg _ n true false)

restored-minus_one : restored (number minus_one) ≡ dash
unfolding same_cell nat_eq
restored-minus_one = refl

-- The mark of a dash is taken back.
restored-marked : (c : Cell) → restored (marked c) ≡ restored c
restored-marked (number n) = unfold same_cell in refl
restored-marked (string s) = elim (str_eq.dec s (lit "-")) [
  | yes e ↦
      ap restored (marked-dash s e) ∙ restored-minus_one ∙ unfold same_cell in ap string (sym e)
  | no n ↦ ap restored (marked-other s n)
]

minus_one-is_int64 : is_int64 minus_one ≡ true
unfolding is_int64
minus_one-is_int64 = ground arith

-- The cell between the two replacements.
middle_string :
    (s : Str) (r : Cell)
    → clean_cell (string s) ≡ ok r
    → (m : Cell) × (int_cell (marked (string s)) ≡ ok m) × (restored m ≡ r)
unfolding clean_cell int_cell
middle_string s r h = elim (str_eq.dec s (lit "-")) [
  | yes e ↦ (
    number minus_one,
    rw (marked-dash s e, int_cell, minus_one-is_int64) refl,
    restored-minus_one ∙ ok-injective (rw (clean_cell, if_pos _ e) at h),
  )
  | no n ↦ elim (Option-cases (read_int s)) [
    | inl e ↦ absurd (ground arith)
    | inr (k, e) ↦ elim (Bool-cases (is_int64 k)) [
      | inl fits ↦ (
        number k,
        rw (marked-other s n, int_cell, e, fits) refl,
        ok-injective (rw (clean_cell, if_neg _ n, e, fits) at h),
      )
      | inr wide ↦ absurd (ground arith)
    ]
  ]
]

middle_number :
    (n : ℤ) (r : Cell)
    → clean_cell (number n) ≡ ok r
    → (m : Cell) × (int_cell (marked (number n)) ≡ ok m) × (restored m ≡ r)
unfolding clean_cell int_cell
middle_number n r h = elim (Bool-cases (is_int64 n)) [
  | inl fits ↦ (
    number n,
    unfold same_cell in rw (int_cell, fits) refl,
    ok-injective (rw (clean_cell, fits) at h),
  )
  | inr wide ↦ absurd (ground arith)
]

middle_cell :
    (int : Bool) (c r : Cell)
    → (if int then clean_cell c else ok (restored c)) ≡ ok r
    → (m : Cell) × ((if int then int_cell (marked c) else ok (marked c)) ≡ ok m) × (restored m ≡ r)
middle_cell true (number n) r h = middle_number n r h
middle_cell true (string s) r h = middle_string s r h
middle_cell false c r h = (marked c, refl, restored-marked c ∙ ok-injective h)

middle_row :
    (names columns : List Str) (row out : List Cell)
    → clean_row names columns row ≡ ok out
    → (mid : List Cell) × (int_row names columns (map marked row) ≡ ok mid)
      × (map restored mid ≡ out)
unfolding by_column
middle_row names columns [] out h = ([], refl, ok-injective h)
middle_row names [] (c ∷ row) out h = ([], refl, ok-injective h)
middle_row names (k ∷ columns) (c ∷ row) out h =
    let (r, hr, h₁) = returned (if contains names k then clean_cell c else ok (restored c)) _ h in
    let (rest, hrest, h₂) = returned (clean_row names columns row) _ h₁ in
    let (m, hm, back) = middle_cell (contains names k) c r hr in
    let (mid, hmid, backs) = middle_row names columns row rest hrest in
    (m ∷ mid, rw (by_column, hm, hmid) refl, ap₂ (λ x xs. x ∷ xs) back backs ∙ ok-injective h₂)

-- The rows between the two replacements.
pub middle_rows :
    (names columns : List Str) (rows out : List (List Cell))
    → traverse (clean_row names columns) rows ≡ ok out
    → (mid : List (List Cell)) × (traverse (int_row names columns) (map (map marked) rows) ≡ ok mid)
      × (map (map restored) mid ≡ out)
unfolding traverse
middle_rows names columns [] out h = ([], refl, ok-injective h)
middle_rows names columns (row ∷ rows) out h =
    let (r, hr, h₁) = returned (clean_row names columns row) _ h in
    let (rest, hrest, h₂) = returned (traverse (clean_row names columns) rows) _ h₁ in
    let (m, hm, back) = middle_row names columns row r hr in
    let (mid, hmid, backs) = middle_rows names columns rows rest hrest in
    (m ∷ mid, rw (hm, hmid) refl, ap₂ (λ x xs. x ∷ xs) back backs ∙ ok-injective h₂)

int_cell-number : (c m : Cell) → int_cell c ≡ ok m → (n : ℤ) × (m ≡ number n)
unfolding int_cell
int_cell-number (number n) m h = elim (Bool-cases (is_int64 n)) [
  | inl fits ↦ (n, sym (ok-injective (rw (int_cell, fits) at h)))
  | inr wide ↦ absurd (ground arith)
]
int_cell-number (string s) m h = elim (Option-cases (read_int s)) [
  | inl e ↦ absurd (ground arith)
  | inr (k, e) ↦ elim (Bool-cases (is_int64 k)) [
    | inl fits ↦ (k, sym (ok-injective (rw (int_cell, e, fits) at h)))
    | inr wide ↦ absurd (ground arith)
  ]
]

pub number_at-here :
    (j k : Str) (columns : List Str) (m : Cell) (rest : List Cell)
    → j ≡ k
    → number_at k (j ∷ columns) (m ∷ rest) ≡ number_of m
unfolding number_at
number_at-here j k columns m rest e =
    ap (λ b. if b then number_of m else number_at k columns rest)
      (if_pos (str_eq.dec j k) e true false)

pub number_at-later :
    (j k : Str) (columns : List Str) (m : Cell) (rest : List Cell)
    → j ≢ k
    → number_at k (j ∷ columns) (m ∷ rest) ≡ number_at k columns rest
unfolding number_at
number_at-later j k columns m rest ne = rw (number_at, if_neg _ ne) refl

-- A column of numbers has a number in every row that is as long as the columns.
pub int_row-HasNumber :
    (k : Str) (names columns : List Str) (row mid : List Cell)
    → contains names k ≡ true
    → contains columns k ≡ true
    → length row ≡ length columns
    → int_row names columns row ≡ ok mid
    → HasNumber k columns mid
unfolding by_column number_at contains
int_row-HasNumber k names [] row mid named found long h = cc
int_row-HasNumber k names (j ∷ columns) [] mid named found long h = absurd (ground arith)
int_row-HasNumber k names (j ∷ columns) (c ∷ row) mid named found long h =
    let (m, hm, h₁) = returned (if contains names j then int_cell c else ok c) _ h in
    let (rest, hrest, h₂) = returned (int_row names columns row) _ h₁ in
    subst (HasNumber k (j ∷ columns)) (ok-injective h₂) (elim (str_eq.dec j k) [
      | yes e ↦
          let named_j : contains names j ≡ true = ap (contains names) e ∙ named in
          let (n, is_n) =
            int_cell-number c m (ap (λ b. if b then int_cell c else ok c) (sym named_j) ∙ hm) in
          (n, number_at-here j k columns m rest e ∙ ap number_of is_n)
      | no ne ↦
          let others : contains columns k ≡ true = found_later ne found in
          let (n, later) =
            int_row-HasNumber k names columns row rest named others (omega arith) hrest in
          (n, number_at-later j k columns m rest ne ∙ later)
    ])
  where
    found_later : j ≢ k → contains (j ∷ columns) k ≡ true → contains columns k ≡ true
    found_later ne found = let ne' : k ≢ j = λ p. ne (sym p) in ground arith
