-- ===== src/Convert/Cells.antt =====
-- What pandas does with the cells of a data frame, and what the conversion makes of one.
use wali_lib.Base.{
  Str, lit, Bool, true, false, nat_eq, str_eq, ◌==◌, leb, ltb, length, if◌then◌else◌, contains,
  Option, none, some, List, [], ◌∷◌, map, All, Result, ok, err, value_error, traverse, ◌>>=◌, ◌≡◌,
}
use mathlib.Core.List.{Perm}
use wali_lib.Text.Decimal.{ℤ, pos, negsuc, read_int}
use wali_lib.Convert.{Cell, string, number, minus_one, Pandas}

same_int : ℤ → ℤ → Bool
same_int (pos m) (pos n) = m == n
same_int (negsuc m) (negsuc n) = m == n
same_int (pos m) (negsuc n) = false
same_int (negsuc m) (pos n) = false

unfoldable pub same_cell : Cell → Cell → Bool
unfolding same_int
same_cell (string s) (string t) = s == t
same_cell (number m) (number n) = same_int m n
same_cell (string s) (number n) = false
same_cell (number n) (string s) = false

-- `replace` on one cell.
abbrev pub replaced : Cell → Cell → Cell → Cell
replaced a b c = if same_cell c a then b else c

-- The numbers of 64 bits with a sign, which `astype('int')` can hold.
unfoldable pub is_int64 : ℤ → Bool
is_int64 (pos n) = ltb n 9223372036854775808
is_int64 (negsuc n) = ltb n 9223372036854775808

-- `astype('int')` on one cell.
unfoldable pub int_cell : Cell → Result Cell
int_cell (number n) = if is_int64 n then ok (number n) else err value_error
int_cell (string s) = elim (read_int s) [
  | none ↦ err value_error
  | some n ↦ if is_int64 n then ok (number n) else err value_error
]

-- A step on the cells in some of the columns, and another on the others.
unfoldable pub by_column :
    (Cell → Result Cell)
    → (Cell → Result Cell)
    → List Str
    → List Str
    → List Cell
    → Result (List Cell)
by_column f g names columns [] = ok []
by_column f g names [] (c ∷ row) = ok []
by_column f g names (k ∷ columns) (c ∷ row) = do
  c' ← if contains names k then f c else g c
  rest ← by_column f g names columns row
  ok (c' ∷ rest)

abbrev pub int_row : List Str → List Str → List Cell → Result (List Cell)
int_row = by_column int_cell ok

-- The number of a cell.
abbrev pub number_of : Cell → Option ℤ
number_of (string s) = none
number_of (number n) = some n

-- The number in a column.
unfoldable pub number_at : Str → List Str → List Cell → Option ℤ
number_at k columns [] = none
number_at k [] (c ∷ row) = none
number_at k (j ∷ columns) (c ∷ row) = if j == k then number_of c else number_at k columns row

-- The place of a row: a row without a number stands where -1 does.
unfoldable pub key : Str → List Str → List Cell → ℤ
key k columns row = elim (number_at k columns row) [ none ↦ minus_one | some n ↦ n ]

unfoldable pub le_int : ℤ → ℤ → Bool
le_int (pos m) (pos n) = leb m n
le_int (pos m) (negsuc n) = false
le_int (negsuc m) (pos n) = true
le_int (negsuc m) (negsuc n) = leb n m

abbrev pub Ascending : Str → List Str → List (List Cell) → Type 0
Ascending k columns [] = Unit
Ascending k columns (row ∷ rows) =
    All (λ r. le_int (key k columns row) (key k columns r) ≡ true) rows × Ascending k columns rows

abbrev pub HasNumber : Str → List Str → List Cell → Type 0
HasNumber k columns row = (n : ℤ) × (number_at k columns row ≡ some n)

-- The lines of a table with a label before each row.
unfoldable pub labelled : List Cell → List (List Cell) → List (List Cell)
labelled [] rows = []
labelled (label ∷ labels) [] = []
labelled (label ∷ labels) (row ∷ rows) = (label ∷ row) ∷ labelled labels rows

-- What pandas documents of the operations, by the rows of a data frame and the labels of its index.
-- `csv` is the text of the lines of a table: `to_csv` writes the index as a first column without a
-- name.
pub record IsPandas {F : Type 0} (pandas : Pandas F) (rows : F → List (List Cell))
    (index : F → List Cell) (csv : List (List Cell) → Str) : Type 0 where
  pub length-index : (df : F) → length (index df) ≡ length (rows df)
  pub to_csv-labelled :
      (df : F)
      → pandas.to_csv df ≡ csv (map string ([] ∷ pandas.columns df) ∷ labelled (index df) (rows df))
  pub replace-columns :
      (a b : Cell) (df : F) → pandas.columns (pandas.replace a b df) ≡ pandas.columns df
  pub replace-rows :
      (a b : Cell) (df : F) → rows (pandas.replace a b df) ≡ map (map (replaced a b)) (rows df)
  pub astype_int-ok :
      (names : List Str) (df : F) (out : List (List Cell))
      → traverse (int_row names (pandas.columns df)) (rows df) ≡ ok out
      → (df' : F) × (pandas.astype_int names df ≡ ok df')
        × (pandas.columns df' ≡ pandas.columns df)
        × (rows df' ≡ out)
  pub sort_values-ok :
      (k : Str) (df : F)
      → contains (pandas.columns df) k ≡ true
      → All (HasNumber k (pandas.columns df)) (rows df)
      → (df' : F) × (pandas.sort_values k df ≡ ok df')
        × (pandas.columns df' ≡ pandas.columns df)
        × Perm (rows df') (rows df)
        × Ascending k (pandas.columns df) (rows df')

-- A number that the frame lacks is a dash again.
abbrev pub dash : Cell
dash = string (lit "-")

abbrev pub restored : Cell → Cell
restored = replaced (number minus_one) dash

-- What a cell of a column of numbers becomes: a dash stays, and so does a number of 64 bits but for
-- -1.
unfoldable pub clean_cell : Cell → Result Cell
clean_cell (number n) = if is_int64 n then ok (restored (number n)) else err value_error
clean_cell (string s) = if s == lit "-" then ok dash else elim (read_int s) [
  | none ↦ err value_error
  | some n ↦ if is_int64 n then ok (restored (number n)) else err value_error
]

-- The cells of the other columns, where -1 becomes a dash too.
abbrev pub clean_row : List Str → List Str → List Cell → Result (List Cell)
clean_row = by_column clean_cell (λ c. ok (restored c))
