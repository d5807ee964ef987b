-- ===== src/Autogen/Args/Fit.antt =====
-- Rows whose arguments every generator can read: the conditions on the table and on the templates.
use wali_lib.Base.{
  ℕ, suc, Str, lit, true, false, none, some, List, [], ◌∷◌, ◌≡◌, ◌≢◌, refl, ◌∙◌, ap, arith, nat_eq,
  str_eq, All, All-map, Option-cases, Bool-cases, inl, inr, ok, traverse-Returns, Returns,
  Returns-bind, ◌⊎◌,
}
use mathlib.Core.Logic.{if_pos, if_neg}
use wali_lib.Base.Dict.{lookup, has, has_iff, keys, contains-keys, lookup-update_absent}
use wali_lib.Base.Sets.{contains-All}
use wali_lib.Text.{last?, strip}
use wali_lib.Text.Decimal.{pos, read_int}
use wali_lib.Autogen.Types.{Types, combined_types, wit_primitives}
use wali_lib.Autogen.Args.{
  Row, cells, row_args, get_or_undef, last_char, rust_name, resolve_arg, get_scargs, anonymize,
  next_type, is_primitive, simplify_loop, rs_simplify, rustify,
}
use wali_lib.Autogen.Args.Halting.{contains-values, simplify_loop_enough}
use wali_lib.Autogen.Args.Kinds.{simplify_loop-is_primitive}

-- The entries of the tables lead from the type to a primitive one.
pub data Leads (types : Types) : Str → Type 0 where
  primitive : (v : Str) → is_primitive types v ≡ true → Leads types v
  entry : (v w : Str) → lookup v (combined_types types) ≡ some w → Leads types w → Leads types v

module _ (types : Types) where
  -- No primitive type is empty, and no complex type has the name of a basic one.
  pub record IsFitTypes : Type 0 where
    pub named : is_primitive types [] ≡ false
    pub apart : All (λ k. lookup k types.complex ≡ none) (keys types.basic)

  -- A pointer, a basic type, or a complex type that stands for another type.
  abbrev pub IsArg : Str → Type 0
  IsArg x =
      (strip x ≢ [])
      × ((last? x ≡ some b'*')
          ⊎ (has x types.basic ≡ true)
          ⊎ ((v : Str) × (lookup x types.complex ≡ some v) × (v ≢ []) × Leads types v))

  -- A row with a count has so many columns with arguments.
  pub record IsCounted (row : Row) : Type 0 where
    pub count : ℕ
    pub counted : read_int row.nargs ≡ some (pos count)
    pub args : List Str
    pub listed : cells count row.args ≡ ok args
    pub fit : All IsArg args

  abbrev pub HasArgs : Row → Type 0
  HasArgs row = (row.nargs ≡ []) ⊎ IsCounted row

  -- A resolved argument.
  abbrev pub IsResolved : Str → Type 0
  IsResolved y = (y ≢ []) × ((last? y ≡ some b'*') ⊎ Leads types y)

pub last?-nonempty : (s : Str) → s ≢ [] → (c : ℕ) × (last? s ≡ some c)
unfolding last?
last?-nonempty [] ne = absurd (ne refl)
last?-nonempty (c ∷ []) ne = (c, refl)
last?-nonempty (c ∷ d ∷ s) ne = last?-nonempty (d ∷ s) λ e. cc

pub last_char-nonempty : (s : Str) → s ≢ [] → Returns (last_char s)
unfolding last_char
last_char-nonempty s ne = let (c, h) = last?-nonempty s ne in (c, rw (last_char, h) refl)

strip-nil : strip [] ≡ []
unfolding strip
strip-nil = refl

strip_nonempty : (x : Str) → strip x ≢ [] → x ≢ []
strip_nonempty x h e = h (ap strip e ∙ strip-nil)

has-lookup :
    (k : Str) (types : Types)
    → has k types.basic ≡ true
    → (v : Str) × (lookup k types.basic ≡ some v)
has-lookup k types h = elim (Option-cases (lookup k types.basic)) [
  | inl e ↦ absurd ((has_iff k types.basic).0 h e)
  | inr found ↦ found
]

module _ (types : Types) (fit : IsFitTypes types) where
  -- The entry of a basic type is a primitive one.
  basic-Leads : (x : Str) → has x types.basic ≡ true → Leads types x
  unfolding is_primitive wit_primitives
  basic-Leads x h =
      let (v, found) = has-lookup x types h in
      let absent : lookup x types.complex ≡ none =
        contains-All (λ k. lookup k types.complex ≡ none) (keys types.basic) fit.apart x
          (contains-keys x types.basic ∙ h) in
      entry x v
        (unfold combined_types in lookup-update_absent x types.basic types.complex absent ∙ found)
        (primitive v (contains-values x v types.basic found))

  resolve_arg-pointer : (x : Str) → last? x ≡ some b'*' → resolve_arg types x ≡ ok x
  unfolding resolve_arg last_char
  resolve_arg-pointer x h = ground arith

  resolve_arg-basic :
      (x : Str) (c : ℕ) → last? x ≡ some c → has x types.basic ≡ true → resolve_arg types x ≡ ok x
  unfolding resolve_arg last_char
  resolve_arg-basic x c last h = ground arith

  resolve_arg-complex :
      (x v : Str) (c : ℕ)
      → last? x ≡ some c
      → c ≢ b'*'
      → has x types.basic ≡ false
      → lookup x types.complex ≡ some v
      → resolve_arg types x ≡ ok v
  unfolding resolve_arg last_char get_or_undef
  resolve_arg-complex x v c last ne h found = ground arith

  resolve_arg-IsArg :
      (x : Str) → IsArg types x → (y : Str) × (resolve_arg types x ≡ ok y) × IsResolved types y
  resolve_arg-IsArg x (stripped, inl pointer) =
      (x, resolve_arg-pointer x pointer, (strip_nonempty x stripped, inl pointer))
  resolve_arg-IsArg x (stripped, inr (inl basic)) =
      let ne = strip_nonempty x stripped in
      let (c, last) = last?-nonempty x ne in
      (x, resolve_arg-basic x c last basic, (ne, inr (basic-Leads x basic)))
  resolve_arg-IsArg x (stripped, inr (inr (v, found, nonempty, leads))) =
      let ne = strip_nonempty x stripped in
      let (c, last) = last?-nonempty x ne in
      elim (nat_eq.dec c b'*') [
        | yes star ↦
            let pointer = last ∙ ap some star in
            (x, resolve_arg-pointer x pointer, (ne, inl pointer))
        | no other ↦ elim (Bool-cases (has x types.basic)) [
          | inl basic ↦ (x, resolve_arg-basic x c last basic, (ne, inr (basic-Leads x basic)))
          | inr h ↦ (v, resolve_arg-complex x v c last other h found, (nonempty, inr leads))
        ]
      ]

  next_type-found : (v w : Str) → lookup v (combined_types types) ≡ some w → next_type types v ≡ w
  unfolding next_type get_or_undef
  next_type-found v w found = rw (next_type, get_or_undef, found) refl

  simplify_loop-Leads :
      (v : Str) → Leads types v → (f : ℕ) × (r : Str) × (simplify_loop types f v ≡ ok r)
  unfolding simplify_loop
  simplify_loop-Leads _ (primitive v h) = (1, v, rw (simplify_loop, h) refl)
  simplify_loop-Leads _ (entry v w found leads) =
      let (f, r, ends) = simplify_loop-Leads w leads in
      elim (Bool-cases (is_primitive types v)) [
        | inl h ↦ (1, v, rw (simplify_loop, h) refl)
        | inr h ↦ (suc f, r, rw (simplify_loop, h, next_type-found v w found) ends)
      ]

  rust_name-nonempty : (r : Str) → r ≢ [] → Returns (rust_name r)
  unfolding rust_name
  rust_name-nonempty [] ne = absurd (ne refl)
  rust_name-nonempty (c ∷ v) ne = (_, refl)

  primitive_nonempty : (r : Str) → is_primitive types r ≡ true → r ≢ []
  primitive_nonempty r h e = let h' = fit.named in cc

  rs_simplify-Leads : (y : Str) → Leads types y → Returns (rs_simplify types y)
  unfolding rs_simplify
  rs_simplify-Leads y leads =
      let (f, r, ends) = simplify_loop-Leads y leads in
      let enough = simplify_loop_enough types f y r ends in
      let ne = primitive_nonempty r (simplify_loop-is_primitive types f y r ends) in
      let (w, named) = rust_name-nonempty r ne in (w, rw (enough, named) refl)

  rustify-pointer : (y : Str) → last? y ≡ some b'*' → rustify types y ≡ ok (lit "i32")
  unfolding rustify last_char
  rustify-pointer y h = ground arith

  rustify-value :
      (y w : Str) (c : ℕ)
      → last? y ≡ some c
      → rs_simplify types y ≡ ok w
      → (u : Str) × (rustify types y ≡ ok u)
  unfolding rustify last_char
  rustify-value y w c last h = elim (nat_eq.dec c b'*') [
    | yes star ↦ (lit "i32", rustify-pointer y (last ∙ ap some star))
    | no other ↦ (w, ground arith)
  ]

  pub rustify-IsResolved : (y : Str) → IsResolved types y → Returns (rustify types y)
  rustify-IsResolved y (ne, inl pointer) = (lit "i32", rustify-pointer y pointer)
  rustify-IsResolved y (ne, inr leads) =
      let (c, last) = last?-nonempty y ne in
      let (w, h) = rs_simplify-Leads y leads in rustify-value y w c last h

pub anonymize-IsResolved :
    (types : Types) (y : Str) → IsResolved types y → Returns (anonymize types y)
unfolding anonymize
anonymize-IsResolved types y (ne, _) =
    Returns-bind (last_char y) _ (last_char-nonempty y ne) λ c h. (_, refl)

module _ (types : Types) where
  row_args-IsCounted : (row : Row) (c : IsCounted types row) → row_args row ≡ ok c.args
  unfolding row_args
  row_args-IsCounted row c = rw (row_args, c.counted) c.listed

  -- The arguments of a row as they stand.
  pub get_scargs-HasArgs :
      (row : Row)
      → HasArgs types row
      → (args : List Str) × (get_scargs types row false ≡ ok args) × All (IsArg types) args
  unfolding get_scargs
  get_scargs-HasArgs row (inl none_given) = ([], rw (get_scargs, if_pos _ none_given) refl, tt)
  get_scargs-HasArgs row (inr c) = elim (str_eq.dec row.nargs []) [
    | yes none_given ↦ ([], rw (get_scargs, if_pos _ none_given) refl, tt)
    | no given ↦ (c.args, rw (get_scargs, if_neg _ given, row_args-IsCounted row c) refl, c.fit)
  ]

  -- The resolved arguments of a row.
  pub get_scargs-IsResolved :
      IsFitTypes types
      → (row : Row) → HasArgs types row
      → (args : List Str) × (get_scargs types row true ≡ ok args) × All (IsResolved types) args
  unfolding get_scargs
  get_scargs-IsResolved fit row (inl none_given) =
      ([], rw (get_scargs, if_pos _ none_given) refl, tt)
  get_scargs-IsResolved fit row (inr c) = elim (str_eq.dec row.nargs []) [
    | yes none_given ↦ ([], rw (get_scargs, if_pos _ none_given) refl, tt)
    | no given ↦
        let (ys, h, resolved) =
          traverse-Returns (IsResolved types) (resolve_arg types) c.args
            (All-map (IsArg types) _ (resolve_arg-IsArg types fit) c.args c.fit) in
        (ys, rw (get_scargs, if_neg _ given, row_args-IsCounted row c) h, resolved)
  ]
