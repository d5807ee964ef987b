-- ===== src/Toml/Laws.antt =====
-- Laws of the tables.
use wali_lib.Base.{Str, none, some, ◌≡◌, refl, arith, str_eq, ◌==◌, if◌then◌else◌}
use wali_lib.Toml.{Value, Table, end, entry, get, put, merge}

-- No key stands twice.
abbrev pub NodupKeys : Table → Type 0
NodupKeys end = Unit
NodupKeys (entry k v t) = (get k t ≡ none) × NodupKeys t

pub get-put :
    (j k : Str) (v : Value) (t : Table) → get j (put k v t) ≡ (if j == k then some v else get j t)
unfolding get put
get-put j k v end = ground arith
get-put j k v (entry i w t) = ground (arith, get-put j k v t)

pub get-put_same : (k : Str) (v : Value) (t : Table) → get k (put k v t) ≡ some v
get-put_same k v t = ground (arith, get-put k k v t)

-- Setting a key twice is setting it to the later value.
pub put-put_self : (k : Str) (v w : Value) (t : Table) → put k v (put k w t) ≡ put k v t
unfolding put
put-put_self k v w end = ground arith
put-put_self k v w (entry i u t) = ground (arith, put-put_self k v w t)

-- Setting a key to the value that it has changes nothing.
pub put-get_self : (k : Str) (v : Value) (t : Table) → get k t ≡ some v → put k v t ≡ t
unfolding get put
put-get_self k v end h = cc
put-get_self k v (entry i u t) h = ground (arith, put-get_self k v t)

pub put-NodupKeys : (k : Str) (v : Value) (t : Table) → NodupKeys t → NodupKeys (put k v t)
unfolding get put
put-NodupKeys k v end h = (refl, tt)
put-NodupKeys k v (entry i u t) (fresh, h) = ground (arith, put-NodupKeys k v t h, get-put i k v t)

pub get-merge_absent :
    (k : Str) (t pairs : Table) → get k pairs ≡ none → get k (merge t pairs) ≡ get k t
unfolding get merge
get-merge_absent k t end h = refl
get-merge_absent k t (entry j v pairs) h =
    ground (arith, get-merge_absent k (put j v t) pairs, get-put k j v t)

pub get-merge :
    (k : Str) (t pairs : Table) (v : Value)
    → NodupKeys pairs
    → get k pairs ≡ some v
    → get k (merge t pairs) ≡ some v
unfolding get merge
get-merge k t end v u h = cc
get-merge k t (entry j w pairs) v (fresh, u) h = ground (
  arith,
  get-merge k (put j w t) pairs v u,
  get-merge_absent k (put j w t) pairs,
  get-put k j w t,
)

-- An update by pairs that a table has changes nothing.
pub merge_absorbed :
    (t pairs : Table)
    → NodupKeys pairs
    → ((k : Str) (v : Value) → get k pairs ≡ some v → get k t ≡ some v)
    → merge t pairs ≡ t
unfolding get merge
merge_absorbed t end u h = refl
merge_absorbed t (entry k v pairs) (fresh, u) h =
    rw (put-get_self k v t (h k v (ground arith)))
      (merge_absorbed t pairs u λ j w found. h j w (ground arith))

-- An update twice by the same pairs is one update.
pub merge_idem : (t pairs : Table) → NodupKeys pairs → merge (merge t pairs) pairs ≡ merge t pairs
merge_idem t pairs u = merge_absorbed (merge t pairs) pairs u λ k v. get-merge k t pairs v u
