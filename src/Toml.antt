-- ===== src/Toml.antt =====
-- TOML documents as the packages `toml` and `tomllib` give them: dicts, lists and plain values.
pub mod Laws
use wali_lib.Base.{
  Str, Bool, true, false, Option, none, some, List, [], ◌∷◌, str_eq, ◌==◌, if◌then◌else◌,
}

mutual
  -- `other` stands for a number or a date, by its text.
  pub data Value : Type 0 where
    text : Str → Value
    flag : Bool → Value
    other : Str → Value
    array : Values → Value
    table : Table → Value

  -- The elements of a list.
  pub data Values : Type 0 where
    empty : Values
    item : Value → Values → Values

  pub data Table : Type 0 where
    end : Table
    entry : Str → Value → Table → Table

-- The elements as a list.
unfoldable pub elements : Values → List Value
elements empty = []
elements (item v vs) = v ∷ elements vs

-- `t.get(k)`
unfoldable pub get : Str → Table → Option Value
get k end = none
get k (entry j v t) = if k == j then some v else get k t

-- `t[k] = v`: a key that is set again keeps its place.
unfoldable pub put : Str → Value → Table → Table
put k v end = entry k v end
put k v (entry j w t) = if k == j then entry j v t else entry j w (put k v t)

-- `t.update(pairs)`
unfoldable pub merge : Table → Table → Table
merge t end = t
merge t (entry k v pairs) = merge (put k v t) pairs
