-- ===== src/Trace/Order.antt =====
-- `syscall_list` does not depend on the order in which a set is walked.
use wali_lib.Base.{
  Distinct, remove, contains-remove, remove-Distinct, ℕ, Str, true, List, [], ◌∷◌, ◌≡◌, refl, sym,
  ◌∙◌, ap, arith, str_eq, contains, inl, inr, Option-cases, Result, ok, err, ◌>>=◌, some,
}
use mathlib.Core.Logic.{if_pos, if_neg}
use wali_lib.Base.Dict.{lookup}
use wali_lib.Trace.{numbered, insert_sorted, syscall_list}
use wali_lib.Trace.Sorting.{syscall_list-cons}
use wali_lib.Trace.Table.{syscall_nrs}
use wali_lib.Trace.Table.Inverse.{syscall_nrs_inj}

insert_sorted_comm :
    (n m : ℕ) (x y : Str) (rows : List (ℕ × Str))
    → (n ≡ m → x ≡ y)
    → insert_sorted (n, x) (insert_sorted (m, y) rows)
      ≡ insert_sorted (m, y) (insert_sorted (n, x) rows)
unfolding insert_sorted
insert_sorted_comm n m x y [] h = ground arith
insert_sorted_comm n m x y (q ∷ rows) h = ground (arith, insert_sorted_comm n m x y rows h)

-- Two rounds of the loop that fills the list, behind a result.
two_rounds :
    (n m : ℕ) (x y : Str) (r : Result (List (ℕ × Str)))
    → (n ≡ m → x ≡ y)
    → (do rows ← (do rows ← r; ok (insert_sorted (m, y) rows)); ok (insert_sorted (n, x) rows))
      ≡ (do rows ← (do rows ← r; ok (insert_sorted (n, x) rows)); ok (insert_sorted (m, y) rows))
two_rounds n m x y (ok rows) h = ap ok (insert_sorted_comm n m x y rows h)
two_rounds n m x y (err e) h = refl

syscall_list_swap : (x y : Str) (s : List Str) → syscall_list (x ∷ y ∷ s) ≡ syscall_list (y ∷ x ∷ s)
unfolding numbered
syscall_list_swap x y s = simp syscall_list-cons (elim (Option-cases (lookup x syscall_nrs)) [
  | inl hx ↦ elim (Option-cases (lookup y syscall_nrs)) [
    | inl hy ↦ rw (hx, hy, numbered)
    | inr (m, hy) ↦ rw (hx, hy, numbered)
  ]
  | inr (n, hx) ↦ elim (Option-cases (lookup y syscall_nrs)) [
    | inl hy ↦ rw (hx, hy, numbered)
    | inr (m, hy) ↦
        rw (hx, hy, numbered)
          (two_rounds n m x y (syscall_list s)
            (λ e. syscall_nrs_inj x y n hx (hy ∙ ap some (sym e))))
  ]
])

syscall_list-remove :
    (x : Str) (s : List Str) → contains s x ≡ true → syscall_list s ≡ syscall_list (x ∷ remove x s)
unfolding remove contains
syscall_list-remove x [] h = absurd (cc)
syscall_list-remove x (y ∷ s) h = elim (str_eq.dec x y) [
  | yes p ↦ rw (if_pos _ p) (ap (λ z. syscall_list (z ∷ s)) (sym p))
  | no p ↦ rw (if_neg _ p) (
      rw (syscall_list-cons y s, syscall_list-remove x s (ground arith))
        (sym (syscall_list-cons y (x ∷ remove x s)) ∙ syscall_list_swap y x (remove x s)))
]

-- Two sets with the same members give the same list, or the same error.
pub syscall_list-ext :
    (s t : List Str)
    → Distinct s
    → Distinct t
    → ((x : Str) → contains s x ≡ contains t x)
    → syscall_list s ≡ syscall_list t
unfolding contains
syscall_list-ext [] [] ds dt same = refl
syscall_list-ext [] (y ∷ t) ds dt same = absurd (ground (arith, same y))
syscall_list-ext (x ∷ s) t (fresh, ds) dt same =
    let here : contains t x ≡ true = ground (arith, same x) in
    rw (syscall_list-remove x t here, syscall_list-cons)
      (rw
        (syscall_list-ext s (remove x t) ds (remove-Distinct x t dt)
          (λ y. ground (arith, contains-remove x y t dt, same y)))
        (sym (syscall_list-cons x (remove x t))))
