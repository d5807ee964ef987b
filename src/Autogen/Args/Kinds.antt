-- ===== src/Autogen/Args/Kinds.antt =====
-- Which types `get_scargs` and `rustify_args` can give, and where `rustify_args` never ends.
use wali_lib.Base.{
  ℕ, zero, suc, Str, lit, true, false, none, some, List, [], ◌∷◌, ◌++◌, ◌≡◌, ◌≢◌, refl, ap, arith,
  nat_eq, str_eq, contains, length, Each, traverse-Each, Option-cases, Bool-cases, inl, inr, ok,
  err, diverges, returned, subst, ◌⊎◌,
}
use mathlib.Core.Logic.{if_neg}
use wali_lib.Base.Dict.{lookup, has, values}
use wali_lib.Text.{last?}
use wali_lib.Text.Decimal.{pos, read_int}
use wali_lib.Autogen.Types.{Types, combined_types, wit_primitives}
use wali_lib.Autogen.Args.{
  Row, cells, row_args, get_or_undef, last_char, rust_name, resolve_arg, get_scargs, next_type,
  is_primitive, simplify_loop, simplify_fuel, rs_simplify, rustify, rustify_args,
}

cells-columns : (columns more : List Str) → cells (length columns) (columns ++ more) ≡ ok columns
unfolding cells
cells-columns [] more = refl
cells-columns (x ∷ columns) more = rw (cells-columns columns more) refl

row_args-columns :
    (row : Row) (columns more : List Str)
    → row.args ≡ columns ++ more
    → read_int row.nargs ≡ some (pos (length columns))
    → row_args row ≡ ok columns
unfolding row_args
row_args-columns row columns more listed count =
    rw (row_args, count, listed) (cells-columns columns more)

counted-nonempty : (s : Str) (n : ℕ) → read_int s ≡ some (pos n) → s ≢ []
unfolding read_int
counted-nonempty [] n h = cc
counted-nonempty (c ∷ s) n h = λ e. cc

-- The entry of a type in the tables, or `UNDEF` where it has none.
abbrev IsEntryOf : Types → Str → Str → Type 0
IsEntryOf types v w =
    (lookup v (combined_types types) ≡ some w)
    ⊎ ((lookup v (combined_types types) ≡ none) × (w ≡ lit "UNDEF"))

-- The tables lead from a type to a primitive one, the first on the way.
pub data Reaches (types : Types) : Str → Str → Type 0 where
  stop : (v : Str) → contains (values types.basic) v ≡ true → Reaches types v v
  step :
      (v w p : Str)
      → contains (values types.basic) v ≡ false
      → IsEntryOf types v w
      → Reaches types w p
      → Reaches types v p

-- The Rust name of a primitive type: a first `s` becomes `i`.
abbrev pub IsRustName : Str → Str → Type 0
IsRustName p y =
    ((s : Str) × (p ≡ b's' ∷ s) × (y ≡ b'i' ∷ s))
    ⊎ ((c : ℕ) × (s : Str) × (p ≡ c ∷ s) × (c ≢ b's') × (y ≡ p))

-- The Rust type of an argument type.
abbrev pub IsRustType : Types → Str → Str → Type 0
IsRustType types x y =
    ((last? x ≡ some b'*') × (y ≡ lit "i32"))
    ⊎ ((c : ℕ) × (last? x ≡ some c) × (c ≢ b'*') × (p : Str) × Reaches types x p × IsRustName p y)

rust_name-IsRustName : (p y : Str) → rust_name p ≡ ok y → IsRustName p y
unfolding rust_name
rust_name-IsRustName [] y h = cc
rust_name-IsRustName (c ∷ s) y h = elim (nat_eq.dec c b's') [
  | yes e ↦ inl (s, ap (λ d. d ∷ s) e, ground arith)
  | no ne ↦ inr (c, s, refl, ne, ground arith)
]

module _ (types : Types) where
  -- What stands for an argument type `x`: a pointer and a basic type stand for themselves, any other
  -- type for its entry in the table of the complex types, or for `UNDEF` where it has none.
  abbrev pub IsArgType : Str → Str → Type 0
  IsArgType x y =
      ((last? x ≡ some b'*') × (y ≡ x))
      ⊎ ((has x types.basic ≡ true) × (y ≡ x))
      ⊎ ((c : ℕ) × (last? x ≡ some c)
          × (c ≢ b'*')
          × (has x types.basic ≡ false)
          × ((lookup x types.complex ≡ some y)
              ⊎ ((lookup x types.complex ≡ none) × (y ≡ lit "UNDEF"))))

  complex_entry :
      (x : Str)
      → (lookup x types.complex ≡ some (get_or_undef types.complex x))
        ⊎ ((lookup x types.complex ≡ none) × (get_or_undef types.complex x ≡ lit "UNDEF"))
  unfolding get_or_undef
  complex_entry x = elim (Option-cases (lookup x types.complex)) [
    | inl e ↦ inr (e, rw (get_or_undef, e) refl)
    | inr (v, e) ↦ inl (rw (get_or_undef, e) refl)
  ]

  resolve_arg-IsArgType : (x y : Str) → resolve_arg types x ≡ ok y → IsArgType x y
  unfolding resolve_arg last_char
  resolve_arg-IsArgType x y h = elim (Option-cases (last? x)) [
    | inl e ↦ absurd (ground arith)
    | inr (c, e) ↦ elim (nat_eq.dec c b'*') [
      | yes star ↦ inl (ground arith)
      | no other ↦ elim (Bool-cases (has x types.basic)) [
        | inl basic ↦ inr (inl (ground arith))
        | inr absent ↦
            let resolved : get_or_undef types.complex x ≡ y = ground arith in
            let entry =
              subst
                (λ z.
                  (lookup x types.complex ≡ some z)
                  ⊎ ((lookup x types.complex ≡ none) × (z ≡ lit "UNDEF")))
                resolved (complex_entry x) in
            inr (inr (c, e, other, absent, entry))
      ]
    ]
  ]

  -- For a row whose columns with arguments begin with as many as its count says, the resolved
  -- arguments are those of these columns, one for each and in their order: a pointer or a basic type
  -- stays, any other type becomes its entry in the table of the complex types, or `UNDEF` where it
  -- has none.
  pub get_scargs-IsArgType :
      (row : Row) (columns more args : List Str)
      → row.args ≡ columns ++ more
      → read_int row.nargs ≡ some (pos (length columns))
      → get_scargs types row true ≡ ok args
      → Each IsArgType columns args
  unfolding get_scargs
  get_scargs-IsArgType row columns more args listed count h =
      let given = counted-nonempty row.nargs (length columns) count in
      let read = row_args-columns row columns more listed count in
      traverse-Each IsArgType (resolve_arg types) columns args resolve_arg-IsArgType
        (rw (if_neg _ given, read) at h)

  pub simplify_loop-is_primitive :
      (f : ℕ) (v r : Str) → simplify_loop types f v ≡ ok r → is_primitive types r ≡ true
  unfolding simplify_loop
  simplify_loop-is_primitive zero v r h = cc
  simplify_loop-is_primitive (suc f) v r h =
      ground (arith, simplify_loop-is_primitive f (next_type types v) r)

  next_type-IsEntryOf : (v : Str) → IsEntryOf types v (next_type types v)
  unfolding next_type get_or_undef
  next_type-IsEntryOf v = elim (Option-cases (lookup v (combined_types types))) [
    | inl e ↦ inr (e, rw (next_type, get_or_undef, e) refl)
    | inr (w, e) ↦ inl (rw (next_type, get_or_undef, e) refl)
  ]

  simplify_loop-Reaches : (f : ℕ) (v r : Str) → simplify_loop types f v ≡ ok r → Reaches types v r
  unfolding simplify_loop is_primitive wit_primitives
  simplify_loop-Reaches zero v r h = cc
  simplify_loop-Reaches (suc f) v r h = elim (Bool-cases (contains (values types.basic) v)) [
    | inl primitive ↦
        let same : v ≡ r = ground arith in subst (Reaches types v) same (stop v primitive)
    | inr other ↦
        step v (next_type types v) r other (next_type-IsEntryOf v)
          (simplify_loop-Reaches f (next_type types v) r (ground arith))
  ]

  rustify-IsRustType : (x y : Str) → rustify types x ≡ ok y → IsRustType types x y
  unfolding rustify rs_simplify last_char
  rustify-IsRustType x y h = elim (Option-cases (last? x)) [
    | inl e ↦ absurd (ground arith)
    | inr (c, e) ↦ elim (nat_eq.dec c b'*') [
      | yes star ↦ inl (ground arith)
      | no other ↦
          let (p, hp, named) =
            returned (simplify_loop types (simplify_fuel types) x) rust_name (ground arith) in
          inr (
            c,
            e,
            other,
            p,
            simplify_loop-Reaches (simplify_fuel types) x p hp,
            rust_name-IsRustName p y named,
          )
    ]
  ]

  -- The types that `rustify_args` gives belong to its arguments one by one, in their order: a pointer
  -- becomes `i32`; any other type becomes the primitive type that the tables lead it to, with an `i`
  -- for the `s` where its name begins with one.
  pub rustify_args-IsRustType :
      (args out : List Str) → rustify_args types args ≡ ok out → Each (IsRustType types) args out
  unfolding rustify_args
  rustify_args-IsRustType args out =
      traverse-Each (IsRustType types) (rustify types) args out rustify-IsRustType

  next_type-none :
      (v : Str) → lookup v (combined_types types) ≡ none → next_type types v ≡ lit "UNDEF"
  unfolding next_type get_or_undef
  next_type-none v h = rw (h, get_or_undef)

  undef_diverges :
      (f : ℕ)
      → lookup (lit "UNDEF") (combined_types types) ≡ none
      → is_primitive types (lit "UNDEF") ≡ false
      → simplify_loop types f (lit "UNDEF") ≡ err diverges
  unfolding simplify_loop
  undef_diverges zero h p = refl
  undef_diverges (suc f) h p = rw (p, next_type-none (lit "UNDEF") h) (undef_diverges f h p)

  -- On a type with no entry that is no primitive type the loop never ends, whatever the number of
  -- its rounds, unless `UNDEF` itself is a type of the templates.
  pub simplify_loop-unknown :
      (f : ℕ) (v : Str)
      → lookup (lit "UNDEF") (combined_types types) ≡ none
      → is_primitive types (lit "UNDEF") ≡ false
      → lookup v (combined_types types) ≡ none
      → is_primitive types v ≡ false
      → simplify_loop types f v ≡ err diverges
  unfolding simplify_loop
  simplify_loop-unknown zero v h p hv pv = refl
  simplify_loop-unknown (suc f) v h p hv pv = rw (pv, next_type-none v hv) (undef_diverges f h p)
