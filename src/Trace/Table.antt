-- ===== src/Trace/Table.antt =====
-- `syscall_desc` and its inverse `syscall_nrs` (utility/parse_syscalls.py). The table of the source
-- stands in three children, a third of its entries in each.
mod Low
mod Middle
mod High
pub mod Inverse
use Low.{syscall_desc_low}
use Middle.{syscall_desc_middle}
use High.{syscall_desc_high}
use wali_lib.Base.{ℕ, Str, [], ◌∷◌, ◌++◌, str_eq}
use wali_lib.Base.Dict.{Dict, insert}

abbrev pub Description : Type 0
Description = Str × Str

unfoldable pub syscall_desc : Dict ℕ Description
unfolding syscall_desc_low syscall_desc_middle syscall_desc_high
syscall_desc = syscall_desc_low ++ (syscall_desc_middle ++ syscall_desc_high)

-- The rounds of `{y[0]: x for x, y in table.items()}`, onto the names read before.
unfoldable pub invert_onto : Dict Str ℕ → Dict ℕ Description → Dict Str ℕ
unfolding insert
invert_onto d [] = d
invert_onto d ((n, (name, text)) ∷ table) = invert_onto (insert name n d) table

unfoldable pub invert : Dict ℕ Description → Dict Str ℕ
unfolding invert_onto
invert table = invert_onto [] table

unfoldable pub syscall_nrs : Dict Str ℕ
unfolding invert
syscall_nrs = invert syscall_desc
