-- ===== src/Base/Equality.antt =====
-- Python's `==` and `in`, for the types whose equality is decided: numbers and texts. A text is the
-- list of its code points.
use Prim.Native.Nat.{ℕ}
use Prim.Native.Char.{code}
use Prim.Native.String.{String}
use mathlib.Core.Path.{◌≡◌, refl, subst}
use mathlib.Core.Logic.{ite, dite}
use mathlib.Core.Bool.{Bool, true, false, cond, ◌||◌, Bool-discrete}
use mathlib.Core.List.{List, [], ◌∷◌}
use native.Mathlib.Decide.{ℕ_discrete}
use native.Mathlib.Omega.{arith}

infix 1 if◌then◌else◌
abbrev pub if◌then◌else◌ {ℓ} : {A : Type ℓ} → Bool → A → A → A
if b then x else y = cond b x y

pub record Eq {ℓ} (A : Type ℓ) : Type ℓ where
  pub dec : Discrete A

module _ {ℓ} {A : Type ℓ} ⦃e : Eq A⦄ where
  infix 50 ◌==◌
  abbrev pub ◌==◌ : A → A → Bool
  a == b = ite (e.dec a b) true false

  unfoldable pub contains : List A → A → Bool
  contains [] a = false
  contains (x ∷ xs) a = a == x || contains xs a

instance unfoldable pub nat_eq : Eq ℕ
unfolding ℕ_discrete
nat_eq = record { dec = ℕ_discrete }

abbrev pub Str : Type 0
Str = List ℕ

-- The text that a literal of the source stands for.
unfoldable pub lit : String → Str
lit String.[] = []
lit (String.◌∷◌ c s) = code c ∷ lit s

pub same : Str → Str → Bool
unfolding nat_eq
same [] [] = true
same [] (b ∷ t) = false
same (a ∷ s) [] = false
same (a ∷ s) (b ∷ t) = let rest = same s t in if a == b then rest else false

pub same_sound : (s t : Str) → same s t ≡ true → s ≡ t
unfolding same
same_sound [] [] h = refl
same_sound [] (b ∷ t) h = cc
same_sound (a ∷ s) [] h = cc
same_sound (a ∷ s) (b ∷ t) h = ground (arith, same_sound s t)

same_refl : (s : Str) → same s s ≡ true
unfolding same
same_refl [] = refl
same_refl (a ∷ s) = ground (arith, same_refl s)

pub same_complete : (s t : Str) → s ≡ t → same s t ≡ true
same_complete s t p = subst (λ u. same s u ≡ true) p (same_refl s)

-- Shut in proofs, where a split on `s == t` gives the equation or its negation.
instance unfoldable pub str_eq : Eq Str
unfolding same
str_eq = record {
  dec = λ s t.
      dite (Bool-discrete (same s t) true) (λ h. yes (same_sound s t h))
        (λ h. no (λ p. h (same_complete s t p)));
}
