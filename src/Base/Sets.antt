-- ===== src/Base/Sets.antt =====
-- Python's `set`, as the list of its members in the order in which they came.
use mathlib.Core.Path.{◌≡◌, sym, subst}
use mathlib.Core.Bool.{true, false, not}
use mathlib.Core.List.{List, [], ◌∷◌, ◌++◌}
use Prim.Native.Nat.{suc, ◌≤◌}
use native.Mathlib.Omega.{arith}
use wali_lib.Base.Equality.{Eq, ◌==◌, contains, if◌then◌else◌}
use wali_lib.Base.Lists.{length, All, keep}

module _ {ℓ} {A : Type ℓ} ⦃e : Eq A⦄ where
  -- The members are listed once each.
  abbrev pub Distinct : List A → Type 0
  Distinct [] = Unit
  Distinct (x ∷ s) = (contains s x ≡ false) × Distinct s

  -- `s.add(x)` and `s.update(xs)`
  unfoldable pub add : A → List A → List A
  add x s = if contains s x then s else s ++ x ∷ []

  unfoldable pub add_all : List A → List A → List A
  add_all s [] = s
  add_all s (x ∷ xs) = add_all (add x s) xs

  -- `s.difference(t)`
  unfoldable pub difference : List A → List A → List A
  difference s t = keep (λ x. not (contains t x)) s

  -- What all the members have.
  pub contains-All {κ} :
      (P : A → Type κ) (xs : List A) → All P xs → (a : A) → contains xs a ≡ true → P a
  unfolding contains
  contains-All P [] all a h = cc
  contains-All P (x ∷ xs) (px, all) a h = elim (e.dec a x) [
    | yes p ↦ subst P (sym p) px
    | no n ↦ contains-All P xs all a (ground arith)
  ]

  -- The set without a member.
  unfoldable pub remove : A → List A → List A
  remove x [] = []
  remove x (y ∷ s) = if x == y then s else y ∷ remove x s

  pub contains-remove :
      (x y : A) (s : List A)
      → Distinct s
      → contains (remove x s) y ≡ (if x == y then false else contains s y)
  unfolding remove contains
  contains-remove x y [] d = ground arith
  contains-remove x y (z ∷ s) (fresh, d) = ground (arith, contains-remove x y s d)

  pub remove-Distinct : (x : A) (s : List A) → Distinct s → Distinct (remove x s)
  unfolding remove
  remove-Distinct x [] d = tt
  remove-Distinct x (y ∷ s) (fresh, d) =
      ground (arith, remove-Distinct x s d, contains-remove x y s d)

  -- Only the removed member goes, however often the others stand in the list.
  pub contains-remove_ne :
      (x y : A) (s : List A)
      → contains s y ≡ true
      → (x == y) ≡ false
      → contains (remove x s) y ≡ true
  unfolding remove contains
  contains-remove_ne x y [] h ne = h
  contains-remove_ne x y (z ∷ s) h ne = ground (arith, contains-remove_ne x y s)

  pub length-remove :
      (x : A) (s : List A) → contains s x ≡ true → suc (length (remove x s)) ≡ length s
  unfolding remove contains
  length-remove x [] h = absurd (cc)
  length-remove x (y ∷ s) h = ground (arith, length-remove x s)

  keep_without :
      (x : A) (xs s : List A)
      → contains xs x ≡ false
      → All (λ y. contains s y ≡ true) xs
      → All (λ y. contains (remove x s) y ≡ true) xs
  unfolding contains
  keep_without x [] s h a = tt
  keep_without x (y ∷ xs) s h (hy, a) =
      (ground (arith, contains-remove_ne x y s), keep_without x xs s (ground arith) a)

  -- Members that are listed once each are no more than the places of a list that has them all.
  pub pigeonhole :
      (xs s : List A) → Distinct xs → All (λ y. contains s y ≡ true) xs → length xs ≤ length s
  pigeonhole [] s d a = omega arith
  pigeonhole (x ∷ xs) s (fresh, d) (hx, a) =
      omega
        (arith, length-remove x s hx, pigeonhole xs (remove x s) d (keep_without x xs s fresh a))
