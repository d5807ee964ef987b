-- ===== src/Base/Dict.antt =====
-- Python's `dict`, with its insertion order: a key that is set again keeps its place.
use mathlib.Core.Path.{◌≡◌, refl}
use mathlib.Core.Logic.{◌≢◌, ◌↔◌}
use mathlib.Core.Bool.{Bool, true, false, ◌||◌}
use mathlib.Core.Option.{Option, none, some}
use mathlib.Core.List.{List, [], ◌∷◌}
use native.Mathlib.Omega.{arith}
use wali_lib.Base.Equality.{Eq, ◌==◌, contains, if◌then◌else◌}

abbrev pub Dict {ℓ κ} : Type ℓ → Type κ → Type (ℓ ⊔ κ)
Dict K V = List (K × V)

module _ {ℓ κ} {K : Type ℓ} {V : Type κ} where
  unfoldable pub keys : Dict K V → List K
  keys [] = []
  keys ((k, v) ∷ d) = k ∷ keys d

  unfoldable pub values : Dict K V → List V
  values [] = []
  values ((k, v) ∷ d) = v ∷ values d

module _ {ℓ κ} {K : Type ℓ} {V : Type κ} ⦃e : Eq K⦄ where
  -- `d.get(k)`
  unfoldable pub lookup : K → Dict K V → Option V
  lookup k [] = none
  lookup k ((j, v) ∷ d) = if k == j then some v else lookup k d

  -- `k in d`
  unfoldable pub has : K → Dict K V → Bool
  has k [] = false
  has k ((j, v) ∷ d) = if k == j then true else has k d

  -- `d[k] = v`
  unfoldable pub insert : K → V → Dict K V → Dict K V
  insert k v [] = (k, v) ∷ []
  insert k v ((j, w) ∷ d) = if k == j then (j, v) ∷ d else (j, w) ∷ insert k v d

  -- `d.update(pairs)`, and `dict(pairs)` from the empty dict: later pairs win.
  unfoldable pub update : Dict K V → Dict K V → Dict K V
  update d [] = d
  update d ((k, v) ∷ pairs) = update (insert k v d) pairs

  abbrev pub NodupKeys : Dict K V → Type κ
  NodupKeys [] = Unit
  NodupKeys ((k, _) ∷ d) = (lookup k d ≡ none) × NodupKeys d

  pub lookup-insert :
      (j k : K) (v : V) (d : Dict K V)
      → lookup j (insert k v d) ≡ (if j == k then some v else lookup j d)
  unfolding insert lookup
  lookup-insert j k v [] = ground arith
  lookup-insert j k v (_ ∷ d) = ground (arith, lookup-insert j k v d)

  pub has_iff : (k : K) (d : Dict K V) → (has k d ≡ true) ↔ (lookup k d ≢ none)
  unfolding has lookup
  has_iff k [] = ground arith
  has_iff k (_ ∷ d) = ground (arith, has_iff k d)

  pub lookup-none_of_has : (k : K) (d : Dict K V) → has k d ≡ false → lookup k d ≡ none
  unfolding has lookup
  lookup-none_of_has k [] h = refl
  lookup-none_of_has k (_ ∷ d) h = ground (arith, lookup-none_of_has k d)

  pub contains-keys : (k : K) (d : Dict K V) → contains (keys d) k ≡ has k d
  unfolding has keys contains
  contains-keys k [] = refl
  contains-keys k (_ ∷ d) = ground (arith, contains-keys k d)

  -- What `update` leaves at a key: the last pair of that key, or the old value.
  pub lookup-update_absent :
      (j : K) (d pairs : Dict K V) → lookup j pairs ≡ none → lookup j (update d pairs) ≡ lookup j d
  unfolding update lookup
  lookup-update_absent j d [] h = refl
  lookup-update_absent j d ((k, v) ∷ pairs) h =
      ground (arith, lookup-update_absent j (insert k v d) pairs, lookup-insert j k v d)

  pub lookup-update :
      (j : K) (d pairs : Dict K V) (v : V)
      → NodupKeys pairs
      → lookup j pairs ≡ some v
      → lookup j (update d pairs) ≡ some v
  unfolding update lookup
  lookup-update j d [] v _ h = cc
  lookup-update j d ((k, w) ∷ pairs) v (fresh, u) h = ground (
    arith,
    lookup-update j (insert k w d) pairs v u,
    lookup-update_absent j (insert k w d) pairs,
    lookup-insert j k w d,
  )

  pub insert-NodupKeys : (k : K) (v : V) (d : Dict K V) → NodupKeys d → NodupKeys (insert k v d)
  unfolding insert lookup
  insert-NodupKeys k v [] _ = ground arith
  insert-NodupKeys k v ((j, _) ∷ d) (fresh, u) =
      ground (arith, insert-NodupKeys k v d u, lookup-insert j k v d)

  pub update-NodupKeys : (d pairs : Dict K V) → NodupKeys d → NodupKeys (update d pairs)
  unfolding update
  update-NodupKeys d [] u = u
  update-NodupKeys d ((k, v) ∷ pairs) u =
      update-NodupKeys (insert k v d) pairs (insert-NodupKeys k v d u)

  pub has-insert : (j k : K) (v : V) (d : Dict K V) → has j (insert k v d) ≡ (j == k || has j d)
  unfolding insert has
  has-insert j k v [] = ground arith
  has-insert j k v (_ ∷ d) = ground (arith, has-insert j k v d)

  pub has-update : (j : K) (d pairs : Dict K V) → has j (update d pairs) ≡ (has j d || has j pairs)
  unfolding update has
  has-update j d [] = ground arith
  has-update j d ((k, v) ∷ pairs) =
      ground (arith, has-update j (insert k v d) pairs, has-insert j k v d)
