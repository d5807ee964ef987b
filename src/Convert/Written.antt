-- ===== src/Convert/Written.antt =====
-- The table that convert_syscalls.py writes.
use wali_lib.Base.{
  Str, lit, true, false, not, nat_eq, str_eq, ◌==◌, if◌then◌else◌, contains, Option, none, some,
  List, [], ◌∷◌, map, length, All, ok, traverse, returned, ok-injective, length-map, zero, ◌⊎◌, ◌≡◌,
  refl, sym, ◌∙◌, ap, subst, inl, inr, ◌≢◌,
}
use mathlib.Core.List.{Perm}
use mathlib.Core.List.Perm
use mathlib.Core.Logic.{if_pos, if_neg}
use wali_lib.Base.Dict.{lookup, insert}
use wali_lib.Base.Members.{contains-keep}
use wali_lib.Convert.Sorted.{
  marked, middle_rows, int_row-HasNumber, number_at-here, number_at-later,
}
use wali_lib.Base.Files
use wali_lib.Base.Files.{Files, Run, lift, read_file, read_file-found, lift-ok, write_file}
use wali_lib.Text.Decimal.{ℤ, pos, negsuc}
use wali_lib.Convert.{Cell, string, number, minus_one, Pandas, int_columns, convert, main}
use wali_lib.Convert.Cells.{
  same_cell, int_row, number_of, number_at, key, le_int, Ascending, HasNumber, IsPandas, labelled,
  dash, restored, clean_row,
}

restored-number :
    (n : ℤ) → (restored (number n) ≡ number n) ⊎ ((restored (number n) ≡ dash) × (n ≡ minus_one))
unfolding same_cell
restored-number (pos n) = inl refl
restored-number (negsuc n) = elim (nat_eq.dec n zero) [
  | yes e ↦
      inr (ap (λ b. if b then dash else number (negsuc n)) (if_pos _ e true false), ap negsuc e)
  | no ne ↦ inl (ap (λ b. if b then dash else number (negsuc n)) (if_neg _ ne true false))
]

-- A cell without a number stands where -1 does.
abbrev or_minus_one : Option ℤ → ℤ
or_minus_one o = elim o [ none ↦ minus_one | some n ↦ n ]

key-here :
    (j k : Str) (columns : List Str) (c : Cell) (row : List Cell)
    → j ≡ k
    → key k (j ∷ columns) (c ∷ row) ≡ or_minus_one (number_of c)
unfolding key
key-here j k columns c row e = ap or_minus_one (number_at-here j k columns c row e)

key-later :
    (j k : Str) (columns : List Str) (c : Cell) (row : List Cell)
    → j ≢ k
    → key k (j ∷ columns) (c ∷ row) ≡ key k columns row
unfolding key
key-later j k columns c row ne = ap or_minus_one (number_at-later j k columns c row ne)

cell_key : (c : Cell) → or_minus_one (number_of (restored c)) ≡ or_minus_one (number_of c)
cell_key (string s) = unfold same_cell in refl
cell_key (number n) = elim (restored-number n) [
  | inl e ↦ ap (λ c. or_minus_one (number_of c)) e
  | inr (e, m) ↦ ap (λ c. or_minus_one (number_of c)) e ∙ sym m
]

-- The dashes stand where -1 stood.
key-restored :
    (k : Str) (columns : List Str) (row : List Cell)
    → key k columns (map restored row) ≡ key k columns row
key-restored k columns [] = unfold key number_at in refl
key-restored k [] (c ∷ row) = unfold key number_at in refl
key-restored k (j ∷ columns) (c ∷ row) = elim (str_eq.dec j k) [
  | yes e ↦
      key-here j k columns (restored c) (map restored row) e
      ∙ cell_key c
      ∙ sym (key-here j k columns c row e)
  | no n ↦
      key-later j k columns (restored c) (map restored row) n
      ∙ key-restored k columns row
      ∙ sym (key-later j k columns c row n)
]

below-restored :
    (k : Str) (columns : List Str) (row : List Cell) (rows : List (List Cell))
    → All (λ r. le_int (key k columns row) (key k columns r) ≡ true) rows
    → All
        (λ r. le_int (key k columns (map restored row)) (key k columns r) ≡ true)
        (map (map restored) rows)
below-restored k columns row [] h = tt
below-restored k columns row (r ∷ rows) (hr, h) = (
  rw (key-restored k columns row, key-restored k columns r) hr,
  below-restored k columns row rows h,
)

Ascending-restored :
    (k : Str) (columns : List Str) (rows : List (List Cell))
    → Ascending k columns rows
    → Ascending k columns (map (map restored) rows)
Ascending-restored k columns [] a = tt
Ascending-restored k columns (row ∷ rows) (below, a) =
    (below-restored k columns row rows below, Ascending-restored k columns rows a)

rows_numbered :
    (k : Str) (names columns : List Str) (rows mid : List (List Cell))
    → contains names k ≡ true
    → contains columns k ≡ true
    → All (λ row. length row ≡ length columns) rows
    → traverse (int_row names columns) (map (map marked) rows) ≡ ok mid
    → All (HasNumber k columns) mid
unfolding traverse
rows_numbered k names columns [] mid named found long h =
    subst (All (HasNumber k columns)) (ok-injective h) tt
rows_numbered k names columns (row ∷ rows) mid named found (hl, long) h =
    let (m, hm, h₁) = returned (int_row names columns (map marked row)) _ h in
    let (rest, hrest, h₂) =
      returned (traverse (int_row names columns) (map (map marked) rows)) _ h₁ in
    subst (All (HasNumber k columns)) (ok-injective h₂) (
      int_row-HasNumber k names columns (map marked row) m named found (length-map marked row ∙ hl)
          hm,
      rows_numbered k names columns rows rest named found long hrest,
    )

int_columns-x86_64 :
    (columns : List Str)
    → contains columns (lit "x86_64") ≡ true
    → contains (int_columns columns) (lit "x86_64") ≡ true
unfolding int_columns
int_columns-x86_64 columns found =
    contains-keep (λ b. not (b == lit "Syscall")) columns (lit "x86_64")
    ∙ unfold str_eq lit in found

module _ {F : Type 0} (pandas : Pandas F) (rows : F → List (List Cell)) where
  -- What the conversion makes of a frame.
  pub record IsConverted (df : F) (clean : List (List Cell)) (df' : F) : Type 0 where
    pub same_columns : pandas.columns df' ≡ pandas.columns df
    pub rearranged : Perm (rows df') clean
    pub ascending : Ascending (lit "x86_64") (pandas.columns df) (rows df')

module _ {F : Type 0} (pandas : Pandas F) (rows : F → List (List Cell)) (index : F → List Cell)
    (csv : List (List Cell) → Str) (laws : IsPandas pandas rows index csv) where
  convert-IsConverted :
      (df : F) (clean : List (List Cell))
      → contains (pandas.columns df) (lit "x86_64") ≡ true
      → All (λ row. length row ≡ length (pandas.columns df)) (rows df)
      → traverse (clean_row (int_columns (pandas.columns df)) (pandas.columns df)) (rows df)
        ≡ ok clean
      → (df' : F) × (convert pandas df ≡ ok df') × IsConverted pandas rows df clean df'
  unfolding convert
  convert-IsConverted df clean found long h =
      let columns = pandas.columns df in
      let marked_df = pandas.replace dash (number minus_one) df in
      let (mid, hmid, back) = middle_rows (int_columns columns) columns (rows df) clean h in
      let marked_columns = laws.replace-columns dash (number minus_one) df in
      let marked_rows = laws.replace-rows dash (number minus_one) df in
      let (ints, hints, ci, ri) =
        laws.astype_int-ok (int_columns columns) marked_df mid
          (rw (marked_columns, marked_rows) hmid) in
      let int_found : contains (pandas.columns ints) (lit "x86_64") ≡ true =
        rw (ci, marked_columns) found in
      let numbered : All (HasNumber (lit "x86_64") (pandas.columns ints)) (rows ints) =
        rw (ci, marked_columns, ri)
          (rows_numbered (lit "x86_64") (int_columns columns) columns (rows df) mid
            (int_columns-x86_64 columns found) found long hmid) in
      let (sort_df, hsort, cs, perm, ascending) =
        laws.sort_values-ok (lit "x86_64") ints int_found numbered in
      let last_columns = laws.replace-columns (number minus_one) dash sort_df in
      let last_rows = laws.replace-rows (number minus_one) dash sort_df in
      (
        pandas.replace (number minus_one) dash sort_df,
        rw (hints, hsort) refl,
        record {
          same_columns = last_columns ∙ cs ∙ ci ∙ marked_columns;
          rearranged = rw last_rows (
              subst (Perm (map (map restored) (rows sort_df))) (ap (map (map restored)) ri ∙ back)
                (Perm.map (map restored) perm));
          ascending = rw last_rows (
              Ascending-restored (lit "x86_64") columns (rows sort_df) (
                subst (λ ks. Ascending (lit "x86_64") ks (rows sort_df)) (ci ∙ marked_columns)
                  ascending));
        },
      )

  -- Where pandas does on the cells what it documents, the table is there and has the column x86_64
  -- and a cell for each column in every row, and every other cell than those of the column Syscall is
  -- a dash or an integer of 64 bits with a sign, the run writes a table whose first line is an empty
  -- name and the names of the columns, and whose other lines are the rows, each behind the label that
  -- the index has for it. The rows are those of the table in ascending order of the numbers of x86_64,
  -- where a dash counts as -1. A dash stays and a number is written as it is, but for -1, which
  -- becomes a dash.
  pub main-IsConverted :
      (df : F) (clean : List (List Cell)) (content : Str) (files : Files)
      → lookup (lit "csvs/syscall_conversion.csv") files ≡ some content
      → pandas.read_csv content ≡ ok df
      → contains (pandas.columns df) (lit "x86_64") ≡ true
      → All (λ row. length row ≡ length (pandas.columns df)) (rows df)
      → traverse (clean_row (int_columns (pandas.columns df)) (pandas.columns df)) (rows df)
        ≡ ok clean
      → (df' : F) × IsConverted pandas rows df clean df'
        × (length (index df') ≡ length (rows df'))
        × (main pandas files ≡ (
          ok tt,
          insert
              (lit "csvs/sorted_syscall_conversion.csv")
              (csv (map string ([] ∷ pandas.columns df) ∷ labelled (index df') (rows df')))
              files,
        ))
  unfolding main
  main-IsConverted df clean content files there read found long h =
      let (df', made, converted) = convert-IsConverted df clean found long h in
      let write : F → Run (Unit {0}) =
        λ sort_df. write_file (lit "csvs/sorted_syscall_conversion.csv") (pandas.to_csv sort_df) in
      let converting : F → Run (Unit {0}) = λ df. Files.◌>>=◌ (lift (convert pandas df)) write in
      let parsing : Str → Run (Unit {0}) =
        λ content. Files.◌>>=◌ (lift (pandas.read_csv content)) converting in
      (
        df',
        converted,
        laws.length-index df',
        rw (sym (converted.same_columns), sym (laws.to_csv-labelled df'))
            (read_file-found (lit "csvs/syscall_conversion.csv") content parsing files there
              ∙ lift-ok (pandas.read_csv content) df converting files read
              ∙ lift-ok (convert pandas df) df' write files made),
      )
