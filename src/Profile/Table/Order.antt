-- ===== src/Profile/Table/Order.antt =====
-- The order of the table.
use wali_lib.Base.{
  Str, lit, map, Bool, true, false, not, ◌&&◌, if◌then◌else◌, List, [], ◌∷◌, ◌≡◌, refl, ap, ◌∙◌,
  arith, keep, All, Bool-cases, inl, inr,
}
use mathlib.Core.List.{Perm}
use mathlib.Core.List.Perm
use wali_lib.Base.Dict.{Dict}
use wali_lib.Profile.{Feat}
use wali_lib.Profile.Table.{Entry, insert_entry, sort_entries, columns, line, table}

-- The line above the calls.
abbrev pub header : Str
header =
    columns (lit "Syscall") (lit "Count") (lit "Native (ns)") (lit "Virtual (ns)")
      (lit "Overhead (%)")

-- What the order of the overheads has: of two numbers at most one is less, and "not less" is
-- transitive.
pub record IsOrder {F : Type 0} (less : F → F → Bool) : Type 0 where
  pub asym : (a b : F) → less a b ≡ true → less b a ≡ false
  pub trans : (a b c : F) → less a b ≡ false → less b c ≡ false → less a c ≡ false

module _ {F : Type 0} (less : F → F → Bool) where
  abbrev AtMost : Entry F → Entry F → Type 0
  AtMost x y = less x.1.1 y.1.1 ≡ false

  -- No entry has a larger overhead than one before it.
  abbrev pub Descending : List (Entry F) → Type 0
  Descending [] = Unit
  Descending (x ∷ xs) = All (AtMost x) xs × Descending xs

  -- Whether an entry has the overhead: neither is less.
  abbrev pub has_overhead : F → Entry F → Bool
  has_overhead o x = not (less o x.1.1) && not (less x.1.1 o)

module _ {F : Type 0} (less : F → F → Bool) (order : IsOrder less) where
  below_trans :
      (x y : Entry F) (ys : List (Entry F))
      → AtMost less x y
      → All (AtMost less y) ys
      → All (AtMost less x) ys
  below_trans x y [] h a = tt
  below_trans x y (z ∷ ys) h (hz, a) = (order.trans x.1.1 y.1.1 z.1.1 h hz, below_trans x y ys h a)

  insert_entry-AtMost :
      (z x : Entry F) (ys : List (Entry F))
      → AtMost less z x
      → All (AtMost less z) ys
      → All (AtMost less z) (insert_entry less x ys)
  unfolding insert_entry
  insert_entry-AtMost z x [] h a = (h, tt)
  insert_entry-AtMost z x (y ∷ ys) h (hy, a) = ground (arith, insert_entry-AtMost z x ys h a)

  insert_entry-Descending :
      (x : Entry F) (ys : List (Entry F))
      → Descending less ys
      → Descending less (insert_entry less x ys)
  unfolding insert_entry
  insert_entry-Descending x [] d = (tt, tt)
  insert_entry-Descending x (y ∷ ys) (below, d) = elim (Bool-cases (less x.1.1 y.1.1)) [
    | inl h ↦ rw h (
      insert_entry-AtMost y x ys (order.asym x.1.1 y.1.1 h) below,
      insert_entry-Descending x ys d,
    )
    | inr h ↦ rw h ((h, below_trans x y ys h below), (below, d))
  ]

  insert_entry-perm : (x : Entry F) (ys : List (Entry F)) → Perm (insert_entry less x ys) (x ∷ ys)
  unfolding insert_entry
  insert_entry-perm x [] = Perm.rfl
  insert_entry-perm x (y ∷ ys) = elim (Bool-cases (less x.1.1 y.1.1)) [
    | inl h ↦ rw h (Perm.trans (Perm.cons y (insert_entry-perm x ys)) (Perm.swap x y ys))
    | inr h ↦ rw h Perm.rfl
  ]

  insert_entry-stable :
      (o : F) (x : Entry F) (ys : List (Entry F))
      → keep (has_overhead less o) (insert_entry less x ys) ≡ keep (has_overhead less o) (x ∷ ys)
  unfolding insert_entry keep
  insert_entry-stable o x [] = refl
  insert_entry-stable o x (y ∷ ys) = elim (Bool-cases (less x.1.1 y.1.1)) [
    | inl h ↦ ground (arith, insert_entry-stable o x ys, order.trans x.1.1 o y.1.1)
    | inr h ↦ rw h refl
  ]

  sort_entries-Descending :
      (entries : List (Entry F))
      → Descending less (sort_entries less entries)
        × Perm (sort_entries less entries) entries
        × ((o : F)
            → keep (has_overhead less o) (sort_entries less entries)
              ≡ keep (has_overhead less o) entries)
  unfolding sort_entries keep
  sort_entries-Descending [] = (tt, Perm.rfl, λ o. refl)
  sort_entries-Descending (x ∷ xs) =
      let (descending, perm, stable) = sort_entries-Descending xs in
      (
        insert_entry-Descending x (sort_entries less xs) descending,
        Perm.trans (insert_entry-perm x (sort_entries less xs)) (Perm.cons x perm),
        λ o.
            insert_entry-stable o x (sort_entries less xs)
            ∙ ap (λ rest. if has_overhead less o x then x ∷ rest else rest) (stable o),
      )

  -- The table has a line for each call of the profile, in descending order of their overheads, and
  -- calls of the same overhead stay in the order of the profile.
  pub table-Descending :
      (show_overhead : F → Str) (final_dict : Dict Str (Feat × F))
      → (rows : List (Entry F)) × (table less show_overhead final_dict
          ≡ header ∷ map (line less show_overhead) rows)
        × Descending less rows
        × Perm rows final_dict
        × ((o : F) → keep (has_overhead less o) rows ≡ keep (has_overhead less o) final_dict)
  unfolding table
  table-Descending show_overhead final_dict =
      let (descending, perm, stable) = sort_entries-Descending final_dict in
      (sort_entries less final_dict, refl, descending, perm, stable)
