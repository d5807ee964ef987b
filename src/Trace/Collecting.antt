-- ===== src/Trace/Collecting.antt =====
-- `collect`: the set of the names that the summaries mention.
use wali_lib.Base.{
  Distinct, Str, Bool, false, ◌||◌, List, [], ◌∷◌, ◌≡◌, subst, arith, str_eq, contains, ok, err,
  returned, ok-injective,
}
use wali_lib.Base.{add_all}
use wali_lib.Base.Adding.{contains-add_all, add_all-Distinct}
use wali_lib.Trace.{read_trace, collect}

-- Whether one of the summaries has the name among its rows.
unfoldable pub mentions : List (List Str) → Str → Bool
mentions [] x = false
mentions (file ∷ files) x =
    elim (read_trace file) [ ok names ↦ contains names x | err e ↦ false ] || mentions files x

collect-Distinct :
    (files : List (List Str)) (s t : List Str) → collect files s ≡ ok t → Distinct s → Distinct t
unfolding collect
collect-Distinct [] s t h d = subst Distinct (ok-injective h) d
collect-Distinct (file ∷ files) s t h d =
    let (xs, read, h') = returned (read_trace file) _ h in
    collect-Distinct files (add_all s xs) t h' (add_all-Distinct s xs d)

contains-collect :
    (files : List (List Str)) (s t : List Str) (x : Str)
    → collect files s ≡ ok t
    → contains t x ≡ (contains s x || mentions files x)
unfolding collect mentions
contains-collect [] s t x h = rw (← ok-injective h) (ground arith)
contains-collect (file ∷ files) s t x h =
    let (xs, read, h') = returned (read_trace file) _ h in
    rw (read)
      (ground (arith, contains-collect files (add_all s xs) t x h', contains-add_all s xs x))

-- The loop over the files ends with a set that has each of its members once, and these are exactly
-- the names that the summaries mention.
pub collect-members :
    (files : List (List Str)) (s : List Str)
    → collect files [] ≡ ok s
    → Distinct s × ((x : Str) → contains s x ≡ mentions files x)
unfolding mentions contains
collect-members files s h = (collect-Distinct files [] s h tt, λ x. contains-collect files [] s x h)
