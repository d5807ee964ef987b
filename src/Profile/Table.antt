-- ===== src/Profile/Table.antt =====
-- The table of scripts/process.ipynb: the calls by their overhead, from the largest down.
pub mod Order
use wali_lib.Base.{
  ℕ, ◌-◌, Str, lit, Bool, true, false, if◌then◌else◌, none, some, List, [], ◌∷◌, ◌++◌, map, str_eq,
  length, Result, ok, err, key_error,
}
use wali_lib.Base.Dict.{Dict, lookup}
use wali_lib.Text.{repeat}
use wali_lib.Text.Decimal.{show}
use wali_lib.Profile.{Feat}

-- `"{:<n}"`
unfoldable pub pad_right : ℕ → Str → Str
pad_right width s = s ++ repeat (width - length s) (b' ' ∷ [])

-- An entry of `final_dict`.
abbrev pub Entry : Type 0 → Type 0
Entry F = Str × (Feat × F)

unfoldable pub columns : Str → Str → Str → Str → Str → Str
columns name count native virtual percent =
    pad_right 20 name
    ++ (lit " "
        ++ (pad_right 10 count
            ++ (lit " "
                ++ (pad_right 15 native
                    ++ (lit " " ++ (pad_right 15 virtual ++ (lit " " ++ pad_right 10 percent)))))))

-- `less` is the order of the overheads.
module _ {F : Type 0} (less : F → F → Bool) where
  -- `sorted(…, key=lambda x: x[1]["overhead"], reverse=True)`: equal ones stay in their order.
  unfoldable pub insert_entry : Entry F → List (Entry F) → List (Entry F)
  insert_entry x [] = x ∷ []
  insert_entry x (y ∷ ys) =
      let later = insert_entry x ys in if less x.1.1 y.1.1 then y ∷ later else x ∷ y ∷ ys

  unfoldable pub sort_entries : List (Entry F) → List (Entry F)
  sort_entries [] = []
  sort_entries (x ∷ xs) = insert_entry x (sort_entries xs)

  module _ (show_overhead : F → Str) where
    unfoldable pub line : Entry F → Str
    line (name, (feat, overhead)) =
        columns name (show feat.count) (show feat.native) (show feat.virtual)
          (show_overhead overhead)

    -- The printed lines.
    unfoldable pub table : Dict Str (Feat × F) → List Str
    table final_dict =
        columns (lit "Syscall") (lit "Count") (lit "Native (ns)") (lit "Virtual (ns)")
          (lit "Overhead (%)")
        ∷ map line (sort_entries final_dict)

-- `final_dict["fork"]`
unfoldable pub fork_entry : {F : Type 0} → Dict Str (Feat × F) → Result (Feat × F)
fork_entry final_dict = elim (lookup (lit "fork") final_dict) [
  | none ↦ err key_error
  | some v ↦ ok v
]
