-- ===== src/Autogen/Wit/Records.antt =====
-- The records that the pointers of the WIT interface need, and those that the template lacks.
pub mod Missing
pub mod Blocks
use wali_lib.Base.{
  difference, ℕ, zero, suc, ◌-◌, Str, lit, Bool, true, false, not, ◌&&◌, none, some, Option, List,
  [], ◌∷◌, map, nat_eq, str_eq, ◌==◌, if◌then◌else◌, contains, keep, add_all, drop, length,
}
use wali_lib.Base.Dict.{has}
use wali_lib.Text.{is_space}
use wali_lib.Autogen.Types.{Types, drop_prefix}
use wali_lib.Autogen.Wit.{is_ptr_type, comp_types}

-- `\S+`, as much as there is: the run of characters that are no white space, and the rest.
unfoldable pub word_run : Str → Str × Str
word_run [] = ([], [])
word_run (c ∷ s) =
    let (run, rest) = word_run s in if is_space c then ([], c ∷ s) else (c ∷ run, rest)

-- `record (\S+)` at the start of a text: the group and the rest.
unfoldable pub match_record : Str → Option (Str × Str)
match_record s = elim (drop_prefix (lit "record ") s) [
  | none ↦ none
  | some s₁ ↦ elim (word_run s₁).0 [ [] ↦ none | c ∷ k ↦ some (word_run s₁) ]
]

-- `re.findall`: the groups of the matches from left to right. The number counts the characters of
-- the last match that are still to be passed over.
unfoldable pub find_records : ℕ → Str → List Str
find_records n [] = []
find_records (suc n) (c ∷ s) = find_records n s
find_records zero (c ∷ s) = elim (match_record (c ∷ s)) [
  | none ↦ find_records zero s
  | some (name, rest) ↦ name ∷ find_records (length s - length rest) s
]

unfoldable pub record_types : Str → List Str
record_types record_content = add_all [] (find_records zero record_content)

module _ (types : Types) where
  -- Whether the type behind a pointer wants a record.
  unfoldable pub wants_record : Str → Bool
  wants_record x =
      not (has x types.basic)
      && not (has x (comp_types types))
      && not (x == lit "void")
      && not (x == lit "char")

  -- `x[4:]`, of the pointer types.
  unfoldable pub sc_ptr_types : List Str → List Str
  sc_ptr_types uniq_ptr_types =
      add_all [] (keep wants_record (map (drop 4) (keep is_ptr_type uniq_ptr_types)))

  -- The names that the script logs.
  unfoldable pub missing_types : List Str → Str → List Str
  missing_types uniq_ptr_types record_content =
      difference (sc_ptr_types uniq_ptr_types) (record_types record_content)
