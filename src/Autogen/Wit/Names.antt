-- ===== src/Autogen/Wit/Names.antt =====
-- Underscores and spaces in the names that `gen_wit_stubs` gives to types.
use wali_lib.Base.{
  ℕ, ◌+◌, All-map, Option-cases, inl, inr, Str, lit, Bool, true, false, ◌||◌, List, [], ◌∷◌, ◌++◌,
  map, ◌≡◌, refl, ap, subst, arith, nat_eq, str_eq, ◌==◌, if◌then◌else◌, All, All-append, ok,
  traverse, returned, ok-injective,
}
use wali_lib.Base.Dict.{Dict, lookup, insert, update, keys, values}
use wali_lib.Base.Sets.{contains-All}
use wali_lib.Text.Decimal.{show}
use wali_lib.Autogen.Args.Halting.{contains-values}
use wali_lib.Text.{but_last, replace_char, strip}
use wali_lib.Autogen.Types.{Types, combined_types}
use wali_lib.Autogen.Args.{Row, last_char, get_scargs}
use wali_lib.Autogen.Wit.{
  dashed, ptr_name, rep, rep_value, rep_onto, wit_param, wit_args, comp_types,
}

-- A name that WIT accepts where the table has an underscore or a space.
abbrev pub IsDashed : Str → Type 0
IsDashed s = All (λ c. (c == b'_' || c == b' ') ≡ false) s

cleaned-IsDashed : (s : Str) → IsDashed (replace_char b'_' b'-' (replace_char b' ' b'-' s))
unfolding replace_char
cleaned-IsDashed [] = tt
cleaned-IsDashed (c ∷ s) = (ground arith, cleaned-IsDashed s)

rep-IsDashed : (s : Str) → IsDashed (rep s)
unfolding rep replace_char
rep-IsDashed [] = tt
rep-IsDashed (c ∷ s) = (ground arith, rep-IsDashed s)

but_last-IsDashed : (s : Str) → IsDashed s → IsDashed (but_last s)
unfolding but_last
but_last-IsDashed [] h = tt
but_last-IsDashed (c ∷ []) h = tt
but_last-IsDashed (c ∷ d ∷ s) (hc, h) = (hc, but_last-IsDashed (d ∷ s) h)

ptr_prefix : IsDashed (lit "ptr-")
unfolding lit nat_eq
ptr_prefix = ground arith

ptr_name-IsDashed : (x y : Str) → IsDashed x → ptr_name x ≡ ok y → IsDashed y
unfolding ptr_name
ptr_name-IsDashed x y hx h =
    let (c, hc, e) = returned (last_char x) _ h in
    subst IsDashed (ok-injective e) (named (c == b'*'))
  where
    named : (b : Bool) → IsDashed (if b then lit "ptr-" ++ but_last x else x)
    named true = All-append _ (lit "ptr-") (but_last x) ptr_prefix (but_last-IsDashed x hx)
    named false = hx

ptr_names-IsDashed :
    (xs ys : List Str) → All IsDashed xs → traverse ptr_name xs ≡ ok ys → All IsDashed ys
unfolding traverse
ptr_names-IsDashed [] ys hx h = subst (All IsDashed) (ok-injective h) tt
ptr_names-IsDashed (x ∷ xs) ys (hx, hxs) h =
    let (y, hy, h₁) = returned (ptr_name x) _ h in
    let (zs, hz, h₂) = returned (traverse ptr_name xs) _ h₁ in
    subst (All IsDashed) (ok-injective h₂)
      (ptr_name-IsDashed x y hx hy, ptr_names-IsDashed xs zs hxs hz)

map-dashed-IsDashed : (xs : List Str) → All IsDashed (map dashed xs)
unfolding dashed
map-dashed-IsDashed [] = tt
map-dashed-IsDashed (x ∷ xs) = (cleaned-IsDashed (strip x), map-dashed-IsDashed xs)

keys-insert :
    (k v : Str) (d : Dict Str Str)
    → IsDashed k
    → All IsDashed (keys d)
    → All IsDashed (keys (insert k v d))
unfolding keys insert
keys-insert k v [] hk h = (hk, tt)
keys-insert k v ((j, w) ∷ d) hk (hj, h) = ground (arith, keys-insert k v d hk h)

keys-rep_onto :
    (d types : Dict Str Str) → All IsDashed (keys d) → All IsDashed (keys (rep_onto d types))
unfolding rep_onto
keys-rep_onto d [] h = h
keys-rep_onto d ((k, v) ∷ types) h =
    keys-rep_onto (insert (rep k) (rep_value v) d) types
      (keys-insert (rep k) (rep_value v) d (rep-IsDashed k) h)

keys-update :
    (d pairs : Dict Str Str)
    → All IsDashed (keys d)
    → All IsDashed (keys pairs)
    → All IsDashed (keys (update d pairs))
unfolding update keys
keys-update d [] h hp = h
keys-update d ((k, v) ∷ pairs) h (hk, hp) =
    keys-update (insert k v d) pairs (keys-insert k v d hk h) hp

first_type : All IsDashed (keys {V = Str} ((lit "syscall-result", lit "s64") ∷ []))
unfolding keys lit nat_eq
first_type = ground arith

module _ (types : Types) (basic : All IsDashed (values types.basic)) where
  -- The type that a parameter is printed with.
  wit_param-IsDashed :
      (i : ℕ) (arg : Str)
      → IsDashed arg
      → (ty : Str) × IsDashed ty
        × (wit_param types i arg ≡ lit "a" ++ (show (i + 1) ++ (lit ": " ++ ty)))
  unfolding wit_param
  wit_param-IsDashed i arg h = elim (Option-cases (lookup arg types.basic)) [
    | inl e ↦ (arg, h, rw (wit_param, e) refl)
    | inr (v, e) ↦
        let dashed_value =
          contains-All IsDashed (values types.basic) basic v
            (contains-values arg v types.basic e) in
        (v, dashed_value, rw (wit_param, e) refl)
  ]

  pub wit_names-IsDashed :
      (row : Row) (orig_args args : List Str)
      → wit_args types row ≡ ok (orig_args, args)
      → All
          (λ arg.
            (i : ℕ)
            → (ty : Str) × IsDashed ty
              × (wit_param types i arg ≡ lit "a" ++ (show (i + 1) ++ (lit ": " ++ ty))))
          args
        × All IsDashed (keys (comp_types types))
  unfolding wit_args comp_types keys
  wit_names-IsDashed row orig_args args h =
      let (read, hr, h₁) = returned (get_scargs types row false) _ h in
      let (named, hn, h₂) = returned (traverse ptr_name (map dashed read)) _ h₁ in
      let clean : All IsDashed args =
        subst (All IsDashed) (ap (λ r. r.1) (ok-injective h₂))
          (ptr_names-IsDashed (map dashed read) named (map-dashed-IsDashed read) hn) in
      (
        All-map IsDashed _ (λ arg ha i. wit_param-IsDashed i arg ha) args clean,
        keys-update ((lit "syscall-result", lit "s64") ∷ []) (rep_onto [] (combined_types types))
            first_type (keys-rep_onto [] (combined_types types) tt),
      )
