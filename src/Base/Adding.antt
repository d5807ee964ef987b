-- ===== src/Base/Adding.antt =====
-- Members that are added to a set of texts.
use mathlib.Core.Path.{◌≡◌, refl, ap}
use mathlib.Core.Bool.{true, false, ◌||◌}
use mathlib.Core.List.{List, [], ◌∷◌, ◌++◌}
use native.Mathlib.Omega.{arith}
use wali_lib.Base.Equality.{Str, str_eq, ◌==◌, contains, if◌then◌else◌}
use wali_lib.Base.Sets.{Distinct, add, add_all}

contains-append_one :
    (s : List Str) (y x : Str) → contains (s ++ y ∷ []) x ≡ (if x == y then true else contains s x)
unfolding contains
contains-append_one [] y x = ground arith
contains-append_one (z ∷ s) y x = ground (arith, contains-append_one s y x)

append_one-Distinct :
    (s : List Str) (y : Str) → contains s y ≡ false → Distinct s → Distinct (s ++ y ∷ [])
unfolding contains
append_one-Distinct [] y h d = (refl, tt)
append_one-Distinct (z ∷ s) y h (fresh, d) =
    ground (arith, append_one-Distinct s y (ground arith) d, contains-append_one s y z)

contains-add : (y : Str) (s : List Str) (x : Str) → contains (add y s) x ≡ (x == y || contains s x)
unfolding add
contains-add y s x = ground (arith, contains-append_one s y x, ap (contains s))

add-Distinct : (y : Str) (s : List Str) → Distinct s → Distinct (add y s)
unfolding add
add-Distinct y s d = ground (arith, append_one-Distinct s y)

pub contains-add_all :
    (s xs : List Str) (x : Str) → contains (add_all s xs) x ≡ (contains s x || contains xs x)
unfolding add_all contains
contains-add_all s [] x = ground arith
contains-add_all s (y ∷ xs) x = ground (arith, contains-add_all (add y s) xs x, contains-add y s x)

pub add_all-Distinct : (s xs : List Str) → Distinct s → Distinct (add_all s xs)
unfolding add_all
add_all-Distinct s [] d = d
add_all-Distinct s (y ∷ xs) d = add_all-Distinct (add y s) xs (add-Distinct y s d)
