-- ===== src/Rustc/Sections.antt =====
-- The step that scripts/rustc_config.py repeats: `if k not in t: t[k] = {}`, then
-- `t[k].update(pairs)`.
pub mod Laws
use wali_lib.Base.{Str, none, some, Result, ok, err, attribute_error, key_error}
use wali_lib.Toml.{Value, text, flag, array, other, table, Table, end, get, put, merge}

unfoldable pub ensure : Str → Table → Table
ensure k t = elim (get k t) [ none ↦ put k (table end) t | some _ ↦ t ]

-- A value that is no table has no method `update`.
unfoldable pub update_value : Value → Table → Result Value
update_value (table s) pairs = ok (table (merge s pairs))
update_value (text _) pairs = err attribute_error
update_value (flag _) pairs = err attribute_error
update_value (array _) pairs = err attribute_error
update_value (other _) pairs = err attribute_error

unfoldable pub update_at : Str → Table → Table → Result Table
update_at k pairs t = elim (get k t) [
  | none ↦ err key_error
  | some v ↦ elim (update_value v pairs) [ err e ↦ err e | ok w ↦ ok (put k w t) ]
]

unfoldable pub section : Str → Table → Table → Result Table
section k pairs t = update_at k pairs (ensure k t)
