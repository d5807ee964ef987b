-- ===== src/Autogen/Args/Halting.antt =====
-- The `while` loop of `rs_simplify`: `simplify_fuel` rounds are enough for every loop that ends.
use wali_lib.Base.{
  ℕ, zero, suc, ◌≤◌, ◌<◌, Str, lit, true, false, Option, none, some, List, [], ◌∷◌, ◌≡◌, refl, ap,
  arith, str_eq, contains, if◌then◌else◌, All, length, Distinct, pigeonhole, Bool-cases, inl, inr,
  ok,
}
use wali_lib.Base.Dict.{Dict, lookup, values}
use wali_lib.Autogen.Types.{Types, combined_types}
use wali_lib.Autogen.Args.{get_or_undef, next_type, is_primitive, simplify_loop, simplify_fuel}

pub contains-values :
    (k v : Str) (d : Dict Str Str) → lookup k d ≡ some v → contains (values d) v ≡ true
unfolding contains values lookup
contains-values k v [] h = cc
contains-values k v ((j, w) ∷ d) h = ground (arith, contains-values k v d)

contains-default :
    (o : Option Str) (s : List Str)
    → ((v : Str) → o ≡ some v → contains s v ≡ true)
    → contains (lit "UNDEF" ∷ s) (elim o [ none ↦ lit "UNDEF" | some v ↦ v ]) ≡ true
unfolding contains
contains-default none s h = ground arith
contains-default (some v) s h = ground (arith, h v refl)

-- `d.get(k, "UNDEF")` is `UNDEF` or a value of the table.
pub get_or_undef-values :
    (d : Dict Str Str) (k : Str) → contains (lit "UNDEF" ∷ values d) (get_or_undef d k) ≡ true
unfolding get_or_undef
get_or_undef-values d k = contains-default (lookup k d) (values d) (λ w. contains-values k w d)

module _ (types : Types) where
  -- The texts that a round can give.
  successors : List Str
  successors = lit "UNDEF" ∷ values (combined_types types)

  contains-next_type : (v : Str) → contains successors (next_type types v) ≡ true
  unfolding successors next_type
  contains-next_type v = get_or_undef-values (combined_types types) v

  -- The types that the loop passes, from `v` on.
  trail : ℕ → Str → List Str
  trail zero v = []
  trail (suc f) v =
      let rest = trail f (next_type types v) in if is_primitive types v then [] else v ∷ rest

  trail_functional :
      (f g : ℕ) (v r s : Str)
      → simplify_loop types f v ≡ ok r
      → simplify_loop types g v ≡ ok s
      → trail f v ≡ trail g v
  unfolding simplify_loop trail
  trail_functional zero g v r s h k = cc
  trail_functional (suc f) zero v r s h k = cc
  trail_functional (suc f) (suc g) v r s h k =
      ground (arith, trail_functional f g (next_type types v) r s)

  -- From a type of the trail on the loop ends too, on a trail that is no longer.
  resume :
      (f : ℕ) (v w r : Str)
      → simplify_loop types f v ≡ ok r
      → contains (trail f v) w ≡ true
      → (g : ℕ) × (simplify_loop types g w ≡ ok r) × (length (trail g w) ≤ length (trail f v))
  unfolding simplify_loop trail contains
  resume zero v w r h m = absurd (cc)
  resume (suc f) v w r h m = elim (Bool-cases (is_primitive types v)) [
    | inl prim ↦ absurd (ground arith)
    | inr not_yet ↦ elim (str_eq.dec w v) [
      | yes p ↦ (suc f, rw p h, rw p (omega arith))
      | no p ↦
          let (g, ends, shorter) = resume f (next_type types v) w r (ground arith) (ground arith) in
          (g, ends, rw not_yet (omega arith))
    ]
  ]

  never_again :
      (f : ℕ) (v r : Str)
      → simplify_loop types (suc f) v ≡ ok r
      → is_primitive types v ≡ false
      → contains (trail f (next_type types v)) v ≡ false
  unfolding simplify_loop trail
  never_again f v r h not_yet = elim (Bool-cases (contains (trail f (next_type types v)) v)) [
    | inr absent ↦ absent
    | inl again ↦
        let (g, ends, shorter) = resume f (next_type types v) v r (ground arith) again in
        let same = trail_functional g (suc f) v r r ends h in
        absurd (ground (arith, ap (length {A = Str}) same))
  ]

  trail-Distinct : (f : ℕ) (v r : Str) → simplify_loop types f v ≡ ok r → Distinct (trail f v)
  unfolding simplify_loop trail
  trail-Distinct zero v r h = cc
  trail-Distinct (suc f) v r h = elim (Bool-cases (is_primitive types v)) [
    | inl prim ↦ rw prim tt
    | inr not_yet ↦
        rw not_yet
          (never_again f v r h not_yet, trail-Distinct f (next_type types v) r (ground arith))
  ]

  trail-successors :
      (f : ℕ) (v : Str) → All (λ w. contains successors w ≡ true) (trail f (next_type types v))
  unfolding trail
  trail-successors zero v = tt
  trail-successors (suc f) v = elim (Bool-cases (is_primitive types (next_type types v))) [
    | inl prim ↦ rw prim tt
    | inr not_yet ↦ rw not_yet (contains-next_type v, trail-successors f (next_type types v))
  ]

  -- A loop that ends needs one round more than its trail is long.
  exact_rounds :
      (f k : ℕ) (v r : Str)
      → simplify_loop types f v ≡ ok r
      → length (trail f v) < k
      → simplify_loop types k v ≡ ok r
  unfolding simplify_loop trail
  exact_rounds zero k v r h lt = cc
  exact_rounds (suc f) zero v r h lt = elim lt [ ]
  exact_rounds (suc f) (suc k) v r h lt = ground (arith, exact_rounds f k (next_type types v) r)

length-values : (d : Dict Str Str) → length (values d) ≡ length d
unfolding values
length-values [] = refl
length-values (_ ∷ d) = ap suc (length-values d)

trail_short :
    (types : Types) (f : ℕ) (v r : Str)
    → simplify_loop types f v ≡ ok r
    → length (trail types f v) < simplify_fuel types
unfolding trail simplify_fuel successors
trail_short types zero v r h = omega arith
trail_short types (suc f) v r h = elim (Bool-cases (is_primitive types v)) [
  | inl prim ↦ rw prim (omega arith)
  | inr not_yet ↦
      let tail : List Str = trail types f (next_type types v) in
      let (fresh, distinct) = (rw not_yet at (trail-Distinct types (suc f) v r h)) in
      rw not_yet (
        omega (
          arith,
          pigeonhole tail (successors types) distinct (trail-successors types f v),
          length-values (combined_types types),
        ))
]

-- The loop of `rs_simplify` ends with a result, for some number of rounds, only if it does so within
-- the rounds of the model, and with the same result: a loop that the model calls divergent never
-- ends.
pub simplify_loop_enough :
    (types : Types) (f : ℕ) (v r : Str)
    → simplify_loop types f v ≡ ok r
    → simplify_loop types (simplify_fuel types) v ≡ ok r
simplify_loop_enough types f v r h =
    exact_rounds types f (simplify_fuel types) v r h (trail_short types f v r h)
