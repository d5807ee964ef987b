-- ===== src/Autogen/Wit/Sorted.antt =====
-- `sorted` on texts: the members stay, and they ascend.
use wali_lib.Base.{
  Str, true, false, List, [], ◌∷◌, ◌≡◌, ◌≢◌, refl, ap₂, arith, nat_eq, str_eq, ◌==◌, contains,
  Distinct, if◌then◌else◌, All,
}
use wali_lib.Autogen.Wit.{before, insert_text, sorted}

before_trans : (s t u : Str) → before s t ≡ true → before t u ≡ true → before s u ≡ true
unfolding before
before_trans [] [] u h k = cc
before_trans [] (d ∷ t) [] h k = cc
before_trans [] (d ∷ t) (e ∷ u) h k = refl
before_trans (c ∷ s) [] u h k = cc
before_trans (c ∷ s) (d ∷ t) [] h k = cc
before_trans (c ∷ s) (d ∷ t) (e ∷ u) h k = ground (arith, before_trans s t u)

before_total : (s t : Str) → s ≢ t → before s t ≡ false → before t s ≡ true
unfolding before
before_total [] [] ne h = absurd (ne refl)
before_total [] (d ∷ t) ne h = cc
before_total (c ∷ s) [] ne h = refl
before_total (c ∷ s) (d ∷ t) ne h = elim (nat_eq.dec c d) [
  | yes e ↦ ground (arith, before_total s t (λ p. ne (ap₂ (λ x y. x ∷ y) e p)))
  | no n ↦ ground arith
]

-- Each text stands before all later ones.
abbrev pub Ascending : List Str → Type 0
Ascending [] = Unit
Ascending (x ∷ xs) = All (λ y. before x y ≡ true) xs × Ascending xs

contains-insert_text :
    (x y : Str) (xs : List Str)
    → contains (insert_text y xs) x ≡ (if x == y then true else contains xs x)
unfolding insert_text contains
contains-insert_text x y [] = ground arith
contains-insert_text x y (z ∷ xs) = ground (arith, contains-insert_text x y xs)

pub contains-sorted : (x : Str) (xs : List Str) → contains (sorted xs) x ≡ contains xs x
unfolding sorted contains
contains-sorted x [] = refl
contains-sorted x (y ∷ xs) =
    ground (arith, contains-insert_text x y (sorted xs), contains-sorted x xs)

insert_text-after :
    (z x : Str) (xs : List Str)
    → before z x ≡ true
    → All (λ y. before z y ≡ true) xs
    → All (λ y. before z y ≡ true) (insert_text x xs)
unfolding insert_text
insert_text-after z x [] h a = (h, tt)
insert_text-after z x (y ∷ xs) h (hy, a) = ground (arith, insert_text-after z x xs h a)

after_trans :
    (x y : Str) (xs : List Str)
    → before x y ≡ true
    → All (λ z. before y z ≡ true) xs
    → All (λ z. before x z ≡ true) xs
after_trans x y [] h a = tt
after_trans x y (z ∷ xs) h (hz, a) = (before_trans x y z h hz, after_trans x y xs h a)

insert_text-Ascending :
    (x : Str) (xs : List Str) → contains xs x ≡ false → Ascending xs → Ascending (insert_text x xs)
unfolding insert_text contains
insert_text-Ascending x [] fresh a = (tt, tt)
insert_text-Ascending x (y ∷ xs) fresh (above, a) = ground (
  arith,
  insert_text-Ascending x xs,
  insert_text-after y x xs,
  after_trans x y xs,
  before_total y x,
)

-- The texts of a set, each once and in ascending order.
pub sorted-Ascending : (xs : List Str) → Distinct xs → Ascending (sorted xs)
unfolding sorted contains
sorted-Ascending [] d = tt
sorted-Ascending (x ∷ xs) (fresh, d) =
    insert_text-Ascending x (sorted xs) (ground (arith, contains-sorted x xs))
      (sorted-Ascending xs d)
