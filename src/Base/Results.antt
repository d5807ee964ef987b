-- ===== src/Base/Results.antt =====
-- A Python computation that may raise: a value, or the exception that ends it.
use mathlib.Core.Path.{◌≡◌, refl, subst}
use mathlib.Core.Logic.{◌⊎◌, inl, inr}
use wali_lib.Base.Lists.{All, Each}
use mathlib.Core.List.{List, [], ◌∷◌, ◌++◌, map}
use Prim.Native.Nat.{ℕ}

-- The exceptions that the scripts can meet, and `sys.exit` with its status. `diverges` is no
-- exception: it marks a `while` loop that never ends.
pub data Error : Type 0 where
  key_error index_error value_error type_error attribute_error : Error
  file_not_found called_process_error diverges : Error
  system_exit : ℕ → Error

pub data Result {ℓ} (A : Type ℓ) : Type ℓ where
  ok : A → Result A
  err : Error → Result A

module _ {ℓ κ} {A : Type ℓ} {B : Type κ} where
  -- One statement after another: an exception passes by what follows.
  infixl 5 ◌>>=◌
  abbrev pub ◌>>=◌ : Result A → (A → Result B) → Result B
  err e >>= next = err e
  ok value >>= next = next value

  -- Where the whole returned, the first part did, and so did the rest on its value.
  pub returned :
      (first : Result A) (next : A → Result B) {result : B}
      → (first >>= next) ≡ ok result
      → (value : A) × (first ≡ ok value) × (next value ≡ ok result)
  returned (err e) next h = cc
  returned (ok value) next h = (value, refl, h)

module _ {ℓ κ} {A : Type ℓ} {B : Type κ} where
  -- A list comprehension, or a loop that appends: the first exception ends it.
  unfoldable pub traverse : (A → Result B) → List A → Result (List B)
  traverse f [] = ok []
  traverse f (x ∷ xs) = do y ← f x; ys ← traverse f xs; ok (y ∷ ys)

  -- A comprehension whose every element has a value has the list of these values.
  pub traverse-ok :
      (f : A → Result B) (g : A → B) (xs : List A)
      → ((x : A) → f x ≡ ok (g x))
      → traverse f xs ≡ ok (map g xs)
  unfolding traverse
  traverse-ok f g [] h = refl
  traverse-ok f g (x ∷ xs) h = rw (h x, traverse-ok f g xs h)

  pub traverse-All :
      (f : A → Result B) (g : A → B) (xs : List A)
      → All (λ x. f x ≡ ok (g x)) xs
      → traverse f xs ≡ ok (map g xs)
  unfolding traverse
  traverse-All f g [] h = refl
  traverse-All f g (x ∷ xs) (hx, h) = rw (hx, traverse-All f g xs h)

pub ok-injective {ℓ} : {A : Type ℓ} {a b : A} → ok a ≡ ok b → a ≡ b
ok-injective h = cc

pub Result-cases {ℓ} :
    {A : Type ℓ} (r : Result A) → ((e : Error) × (r ≡ err e)) ⊎ ((a : A) × (r ≡ ok a))
Result-cases (err e) = inl (e, refl)
Result-cases (ok a) = inr (a, refl)

-- The computation has a value.
abbrev pub Returns {ℓ} : {A : Type ℓ} → Result A → Type ℓ
Returns {A} r = (a : A) × (r ≡ ok a)

module _ {ℓ κ} {A : Type ℓ} {B : Type κ} where
  pub Returns-bind :
      (first : Result A) (next : A → Result B)
      → Returns first
      → ((a : A) → first ≡ ok a → Returns (next a))
      → Returns (first >>= next)
  Returns-bind first next (a, h) rest = let (b, e) = rest a h in (b, rw h e)

  -- Where every element has a value with a property, so has the list of the values.
  pub traverse-Returns {μ} :
      (P : B → Type μ) (f : A → Result B) (xs : List A)
      → All (λ x. (y : B) × (f x ≡ ok y) × P y) xs
      → (ys : List B) × (traverse f xs ≡ ok ys) × All P ys
  unfolding traverse
  traverse-Returns P f [] h = ([], refl, tt)
  traverse-Returns P f (x ∷ xs) ((y, hy, py), h) =
      let (ys, hys, pys) = traverse-Returns P f xs h in (y ∷ ys, rw (hy, hys) refl, (py, pys))

-- A comprehension relates each element to its value.
pub traverse-Each {ℓ κ} :
    {A : Type ℓ} {B : Type κ} (R : A → B → Type 0) (f : A → Result B) (xs : List A) (ys : List B)
    → ((x : A) (y : B) → f x ≡ ok y → R x y)
    → traverse f xs ≡ ok ys
    → Each R xs ys
unfolding traverse
traverse-Each R f [] ys each h = subst (Each R []) (ok-injective h) tt
traverse-Each R f (x ∷ xs) ys each h =
    let (y, hy, h₁) = returned (f x) _ h in
    let (zs, hz, h₂) = returned (traverse f xs) _ h₁ in
    subst (Each R (x ∷ xs)) (ok-injective h₂) (each x y hy, traverse-Each R f xs zs each hz)

-- A loop ends with the exception of an element where those before it return.
pub traverse-stops {ℓ κ} :
    {A : Type ℓ} {B : Type κ} (f : A → Result B) (before : List A) (x : A) (after : List A)
    {e : Error}
    → All (λ y. Returns (f y)) before
    → f x ≡ err e
    → traverse f (before ++ x ∷ after) ≡ err e
unfolding traverse
traverse-stops f [] x after h failed = rw failed refl
traverse-stops f (y ∷ before) x after ((z, hz), h) failed =
    rw (hz, traverse-stops f before x after h failed) refl
