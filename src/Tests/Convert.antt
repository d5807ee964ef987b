-- ===== src/Tests/Convert.antt =====
-- A run of scripts/convert_syscalls.py, with data frames that are the columns and the rows.
use wali_lib.Base.{
  ℕ, Str, lit, true, false, nat_eq, str_eq, ◌==◌, if◌then◌else◌, contains, keep, List, [], ◌∷◌,
  ◌++◌, map, length, length-map, All, ok, err, key_error, traverse, ◌>>=◌, ◌≡◌, refl, arith, inl,
  inr, Bool-cases,
}
use mathlib.Core.List.{Perm}
use mathlib.Core.List.Perm
use wali_lib.Base.Dict.{lookup, insert}
use wali_lib.Base.Files.{Files}
use wali_lib.Text.{strip, strip_left, strip_right, is_space, join}
use wali_lib.Text.Decimal.{ℤ, pos, negsuc, read_int, signed, digit_run, negate}
use wali_lib.Convert.{Cell, string, number, Pandas, int_columns, convert, main}
use wali_lib.Convert.Cells.{
  same_cell, replaced, int_cell, by_column, int_row, number_at, key, le_int, Ascending, IsPandas,
  labelled, is_int64, clean_cell,
}
use wali_lib.Convert.Written.{IsConverted, main-IsConverted}

abbrev Frame : Type 0
Frame = List Str × List (List Cell)

le_int_total : (m n : ℤ) → le_int m n ≡ false → le_int n m ≡ true
unfolding le_int
le_int_total (pos m) (pos n) h = ground arith
le_int_total (pos m) (negsuc n) h = refl
le_int_total (negsuc m) (pos n) h = cc
le_int_total (negsuc m) (negsuc n) h = ground arith

le_int_trans : (l m n : ℤ) → le_int l m ≡ true → le_int m n ≡ true → le_int l n ≡ true
unfolding le_int
le_int_trans (pos l) (pos m) (pos n) h k = ground arith
le_int_trans (pos l) (pos m) (negsuc n) h k = cc
le_int_trans (pos l) (negsuc m) n h k = cc
le_int_trans (negsuc l) (pos m) (pos n) h k = refl
le_int_trans (negsuc l) (pos m) (negsuc n) h k = cc
le_int_trans (negsuc l) (negsuc m) (pos n) h k = refl
le_int_trans (negsuc l) (negsuc m) (negsuc n) h k = ground arith

module _ (k : Str) (columns : List Str) where
  unfoldable insert_row : List Cell → List (List Cell) → List (List Cell)
  insert_row x [] = x ∷ []
  insert_row x (y ∷ ys) =
      let later = insert_row x ys in
      if le_int (key k columns x) (key k columns y) then x ∷ y ∷ ys else y ∷ later

  unfoldable sort_rows : List (List Cell) → List (List Cell)
  sort_rows [] = []
  sort_rows (x ∷ xs) = insert_row x (sort_rows xs)

  insert_row-perm : (x : List Cell) (ys : List (List Cell)) → Perm (insert_row x ys) (x ∷ ys)
  unfolding insert_row
  insert_row-perm x [] = Perm.rfl
  insert_row-perm x (y ∷ ys) = elim (Bool-cases (le_int (key k columns x) (key k columns y))) [
    | inl h ↦ rw h Perm.rfl
    | inr h ↦ rw h (Perm.trans (Perm.cons y (insert_row-perm x ys)) (Perm.swap x y ys))
  ]

  sort_rows-perm : (xs : List (List Cell)) → Perm (sort_rows xs) xs
  unfolding sort_rows
  sort_rows-perm [] = Perm.rfl
  sort_rows-perm (x ∷ xs) =
      Perm.trans (insert_row-perm x (sort_rows xs)) (Perm.cons x (sort_rows-perm xs))

  abbrev Above : List Cell → List (List Cell) → Type 0
  Above x ys = All (λ y. le_int (key k columns x) (key k columns y) ≡ true) ys

  Above-trans :
      (x y : List Cell) (ys : List (List Cell))
      → le_int (key k columns x) (key k columns y) ≡ true
      → Above y ys
      → Above x ys
  Above-trans x y [] h a = tt
  Above-trans x y (z ∷ ys) h (hz, a) = (
    le_int_trans (key k columns x) (key k columns y) (key k columns z) h hz,
    Above-trans x y ys h a,
  )

  insert_row-Above :
      (z x : List Cell) (ys : List (List Cell))
      → le_int (key k columns z) (key k columns x) ≡ true
      → Above z ys
      → Above z (insert_row x ys)
  unfolding insert_row
  insert_row-Above z x [] h a = (h, tt)
  insert_row-Above z x (y ∷ ys) h (hy, a) = ground (arith, insert_row-Above z x ys h a)

  insert_row-Ascending :
      (x : List Cell) (ys : List (List Cell))
      → Ascending k columns ys
      → Ascending k columns (insert_row x ys)
  unfolding insert_row
  insert_row-Ascending x [] a = (tt, tt)
  insert_row-Ascending x (y ∷ ys) (above, a) =
      elim (Bool-cases (le_int (key k columns x) (key k columns y))) [
        | inl h ↦ rw h ((h, Above-trans x y ys h above), (above, a))
        | inr h ↦ rw h (
          insert_row-Above y x ys (le_int_total (key k columns x) (key k columns y) h) above,
          insert_row-Ascending x ys a,
        )
      ]

  sort_rows-Ascending : (xs : List (List Cell)) → Ascending k columns (sort_rows xs)
  unfolding sort_rows
  sort_rows-Ascending [] = tt
  sort_rows-Ascending (x ∷ xs) = insert_row-Ascending x (sort_rows xs) (sort_rows-Ascending xs)

abbrev conversion : Frame
conversion = (
  lit "Syscall" ∷ lit "x86_64" ∷ lit "arm" ∷ [],
  (string (lit "read") ∷ string (lit "0") ∷ number (pos 3) ∷ [])
      ∷ (string (lit "breakpoint") ∷ string (lit "-") ∷ number (pos 983041) ∷ [])
      ∷ [],
)

-- Texts only, as a stand-in for numbers too.
abbrev cell_text : Cell → Str
cell_text (number n) = lit "n"
cell_text (string s) = s

abbrev line_text : List Cell → Str
line_text row = join (lit ",") (map cell_text row)

abbrev table_text : List (List Cell) → Str
table_text lines = join (lit "\n") (map line_text lines)

-- The labels of the rows, one for each.
abbrev labels : Frame → List Cell
labels df = map (λ row. string (lit "i")) df.1

abbrev in_memory : Pandas Frame
in_memory = record {
  read_csv = λ content. if content == lit "the table" then ok conversion else err key_error;
  columns = λ df. df.0;
  replace = λ a b df. (df.0, map (map (replaced a b)) df.1);
  astype_int = λ names df. traverse (int_row names df.0) df.1 >>= λ rows. ok (df.0, rows);
  sort_values = λ k df. if contains df.0 k then ok (df.0, sort_rows k df.0 df.1) else err key_error;
  to_csv = λ df. table_text (map string ([] ∷ df.0) ∷ labelled (labels df) df.1);
}

in_memory-IsPandas : IsPandas in_memory (λ df. df.1) labels table_text
in_memory-IsPandas = record {
  length-index = λ df. length-map (λ row. string (lit "i")) df.1;
  to_csv-labelled = λ df. refl;
  replace-columns = λ a b df. refl;
  replace-rows = λ a b df. refl;
  astype_int-ok = λ names df out h. ((df.0, out), rw h refl, refl, refl);
  sort_values-ok = λ k df found numbered. (
    (df.0, sort_rows k df.0 df.1),
    rw found refl,
    refl,
    sort_rows-perm k df.0 df.1,
    sort_rows-Ascending k df.0 df.1,
  );
}

abbrev clean : List (List Cell)
clean =
    (string (lit "read") ∷ number (pos 0) ∷ number (pos 3) ∷ [])
    ∷ (string (lit "breakpoint") ∷ string (lit "-") ∷ number (pos 983041) ∷ [])
    ∷ []

abbrev files : Files
files = (lit "csvs/syscall_conversion.csv", lit "the table") ∷ []

opened : ℕ
unfolding str_eq nat_eq lit lookup insert contains keep traverse strip strip_left strip_right
    is_space join read_int signed digit_run negate int_columns convert main same_cell int_cell
    by_column number_at key le_int labelled is_int64 clean_cell insert_row sort_rows
opened = 0

converted : main in_memory files ≡ (
  ok tt,
  files
      ++ (
        lit "csvs/sorted_syscall_conversion.csv",
        lit ",Syscall,x86_64,arm\ni,breakpoint,-,n\ni,read,n,n",
      )
        ∷ [],
)
unfolding opened
converted = refl

main-IsConverted_example :
    (df' : Frame) × IsConverted in_memory (λ df. df.1) conversion clean df'
    × (length (labels df') ≡ length df'.1)
    × (main in_memory files ≡ (
      ok tt,
      insert
          (lit "csvs/sorted_syscall_conversion.csv")
          (table_text (map string ([] ∷ conversion.0) ∷ labelled (labels df') df'.1))
          files,
    ))
unfolding opened
main-IsConverted_example =
    main-IsConverted in_memory (λ df. df.1) labels table_text in_memory-IsPandas conversion clean
      (lit "the table") files refl refl refl (refl, (refl, tt)) refl
