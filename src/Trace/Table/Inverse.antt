-- ===== src/Trace/Table/Inverse.antt =====
-- `syscall_nrs` is the inverse of `syscall_desc`: a name has a number exactly if the table describes
-- that number by that name.
use wali_lib.Base.{
  ◌⊎◌, inl, inr, ℕ, Str, some, [], ◌∷◌, ◌≡◌, refl, ◌↔◌, arith, Bool, true, ◌&&◌, not, nat_eq,
  str_eq, ◌==◌,
}
use wali_lib.Base.Dict.{Dict, lookup, insert, has, lookup-insert, lookup-none_of_has}
use wali_lib.Trace.Table.{Description, syscall_desc, invert_onto, invert, syscall_nrs}

-- Neither a number nor a name is listed twice.
unfoldable pub fresh_name : Str → Dict ℕ Description → Bool
fresh_name name [] = true
fresh_name name ((n, (x, text)) ∷ table) = not (name == x) && fresh_name name table

unfoldable pub one_to_one : Dict ℕ Description → Bool
unfolding fresh_name
one_to_one [] = true
one_to_one ((n, (name, text)) ∷ table) =
    not (has n table) && (fresh_name name table && one_to_one table)

abbrev pub Describes : Dict ℕ Description → ℕ → Str → Type 0
Describes table n name = (text : Str) × (lookup n table ≡ some (name, text))

lookup-invert_onto_fresh :
    (name : Str) (d : Dict Str ℕ) (table : Dict ℕ Description)
    → fresh_name name table ≡ true
    → lookup name (invert_onto d table) ≡ lookup name d
unfolding fresh_name invert_onto
lookup-invert_onto_fresh name d [] h = refl
lookup-invert_onto_fresh name d ((n, (x, text)) ∷ table) h =
    ground (arith, lookup-invert_onto_fresh name (insert x n d) table, lookup-insert name x n d)

lookup-invert_onto :
    (n : ℕ) (name : Str) (d : Dict Str ℕ) (table : Dict ℕ Description)
    → one_to_one table ≡ true
    → Describes table n name
    → lookup name (invert_onto d table) ≡ some n
unfolding one_to_one invert_onto lookup
lookup-invert_onto n name d [] u (text, h) = cc
lookup-invert_onto n name d ((m, (x, t)) ∷ table) u (text, h) = ground (
  arith,
  lookup-invert_onto n name (insert x m d) table,
  lookup-invert_onto_fresh x (insert x m d) table,
  lookup-insert x x m d,
  h,
)

invert_onto-Describes :
    (n : ℕ) (name : Str) (d : Dict Str ℕ) (table : Dict ℕ Description)
    → one_to_one table ≡ true
    → lookup name (invert_onto d table) ≡ some n
    → (lookup name d ≡ some n) ⊎ Describes table n name
unfolding one_to_one invert_onto lookup
invert_onto-Describes n name d [] u h = inl h
invert_onto-Describes n name d ((m, (x, t)) ∷ table) u h =
    elim (invert_onto-Describes n name (insert x m d) table (ground arith) h) [
      | inl old ↦ elim (str_eq.dec name x) [
        | yes p ↦ inr (t, ground (arith, lookup-insert name x m d))
        | no p ↦ inl (ground (arith, lookup-insert name x m d))
      ]
      | inr (text, found) ↦ inr (text, ground (arith, lookup-none_of_has n table))
    ]

syscall_desc-one_to_one : one_to_one syscall_desc ≡ true
unfolding one_to_one syscall_desc has str_eq nat_eq
syscall_desc-one_to_one = refl

-- `syscall_nrs` gives a name the number `n` exactly if `syscall_desc` describes `n` by that name:
-- the table is one to one, so its inverse loses no entry and invents none.
pub syscall_nrs_iff :
    (name : Str) (n : ℕ) → (lookup name syscall_nrs ≡ some n) ↔ Describes syscall_desc n name
unfolding syscall_nrs invert lookup
syscall_nrs_iff name n = (
  λ h. elim (invert_onto-Describes n name [] syscall_desc syscall_desc-one_to_one h) [
    | inl e ↦ absurd (cc)
    | inr found ↦ found
  ],
  λ h. lookup-invert_onto n name [] syscall_desc syscall_desc-one_to_one h,
)

-- No two names have one number.
pub syscall_nrs_inj :
    (x y : Str) (n : ℕ) → lookup x syscall_nrs ≡ some n → lookup y syscall_nrs ≡ some n → x ≡ y
syscall_nrs_inj x y n hx hy =
    let (t, found) = (syscall_nrs_iff x n).0 hx in let (u, same) = (syscall_nrs_iff y n).0 hy in cc
