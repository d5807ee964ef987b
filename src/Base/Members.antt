-- ===== src/Base/Members.antt =====
-- Tests on the members of a list, and the members that a test keeps.
use mathlib.Core.Path.{◌≡◌, refl, ap}
use mathlib.Core.Bool.{Bool, true, false, ◌||◌, ◌&&◌}
use mathlib.Core.List.{List, [], ◌∷◌, ◌++◌, map}
use native.Mathlib.Omega.{arith}
use wali_lib.Base.Equality.{Str, str_eq, contains, if◌then◌else◌}
use wali_lib.Base.Lists.{keep, All, All-append}
use wali_lib.Base.Sets.{Distinct, add, add_all}

module _ {ℓ} {A : Type ℓ} where
  -- `any(p(x) for x in xs)`
  unfoldable pub any : (A → Bool) → List A → Bool
  any p [] = false
  any p (x ∷ xs) = p x || any p xs

  pub any-append : (p : A → Bool) (xs ys : List A) → any p (xs ++ ys) ≡ (any p xs || any p ys)
  unfolding any
  any-append p [] ys = ground arith
  any-append p (x ∷ xs) ys = ground (arith, any-append p xs ys)

pub any-map {ℓ κ} :
    {A : Type ℓ} {B : Type κ} (p : B → Bool) (f : A → B) (xs : List A)
    → any p (map f xs) ≡ any (λ x. p (f x)) xs
unfolding any
any-map p f [] = refl
any-map p f (x ∷ xs) = ap (λ b. p (f x) || b) (any-map p f xs)

any-member :
    (p : Str → Bool) (s : List Str) (x : Str) → contains s x ≡ true → p x ≡ true → any p s ≡ true
unfolding any contains
any-member p [] x h px = cc
any-member p (y ∷ s) x h px = ground (arith, any-member p s x, ap p)

any-add : (p : Str → Bool) (y : Str) (s : List Str) → any p (add y s) ≡ (p y || any p s)
unfolding add any
any-add p y s = ground (arith, any-append p s (y ∷ []), any-member p s y)

pub any-add_all : (p : Str → Bool) (s xs : List Str) → any p (add_all s xs) ≡ (any p s || any p xs)
unfolding add_all any
any-add_all p s [] = ground arith
any-add_all p s (y ∷ xs) = ground (arith, any-add_all p (add y s) xs, any-add p y s)

pub contains-keep :
    (p : Str → Bool) (xs : List Str) (x : Str) → contains (keep p xs) x ≡ (p x && contains xs x)
unfolding keep contains
contains-keep p [] x = ground arith
contains-keep p (y ∷ xs) x = ground (arith, contains-keep p xs x, ap p)

pub keep-Distinct : (p : Str → Bool) (xs : List Str) → Distinct xs → Distinct (keep p xs)
unfolding keep
keep-Distinct p [] d = tt
keep-Distinct p (x ∷ xs) (fresh, d) = ground (arith, contains-keep p xs x, keep-Distinct p xs d)

module _ {κ} (P : Str → Type κ) where
  add-All : (x : Str) (s : List Str) → P x → All P s → All P (add x s)
  unfolding add
  add-All x s px all = added (contains s x)
    where
      added : (b : Bool) → All P (if b then s else s ++ x ∷ [])
      added true = all
      added false = All-append P s (x ∷ []) all (px, tt)

  pub add_all-All : (s xs : List Str) → All P s → All P xs → All P (add_all s xs)
  unfolding add_all
  add_all-All s [] all _ = all
  add_all-All s (x ∷ xs) all (px, rest) = add_all-All (add x s) xs (add-All x s px all) rest
