-- ===== src/Convert.antt =====
-- The script scripts/convert_syscalls.py: the table of the numbers, sorted by those of x86_64.
pub mod Cells
pub mod Sorted
pub mod Written
use wali_lib.Base.{zero, Str, lit, Bool, not, List, str_eq, ◌==◌, keep, Result, ok, ◌>>=◌}
use wali_lib.Base.Files
use wali_lib.Base.Files.{Run, lift, read_file, write_file}
use wali_lib.Text.Decimal.{ℤ, negsuc}

-- A cell of a data frame: a text or a number.
pub data Cell : Type 0 where
  string : Str → Cell
  number : ℤ → Cell

abbrev pub minus_one : ℤ
minus_one = negsuc zero

-- What the script calls of pandas, on data frames.
pub record Pandas (F : Type 0) : Type 0 where
  pub read_csv : Str → Result F
  pub columns : F → List Str
  pub replace : Cell → Cell → F → F
  pub astype_int : List Str → F → Result F
  pub sort_values : Str → F → Result F
  pub to_csv : F → Str

-- `[b for b in df.columns if b != 'Syscall']`
unfoldable pub int_columns : List Str → List Str
int_columns columns = keep (λ b. not (b == lit "Syscall")) columns

module _ {F : Type 0} (pandas : Pandas F) where
  -- The frame that is written.
  unfoldable pub convert : F → Result F
  convert df = do
    ints ←
        pandas.astype_int (int_columns (pandas.columns df))
          (pandas.replace (string (lit "-")) (number minus_one) df)
    sort_df ← pandas.sort_values (lit "x86_64") ints
    ok (pandas.replace (number minus_one) (string (lit "-")) sort_df)

  unfoldable pub main : Run (Unit {0})
  main = Files.◌>>=◌ (read_file (lit "csvs/syscall_conversion.csv")) λ content.
      Files.◌>>=◌ (lift (pandas.read_csv content)) λ df.
        Files.◌>>=◌ (lift (convert df))
          λ sort_df. write_file (lit "csvs/sorted_syscall_conversion.csv") (pandas.to_csv sort_df)
