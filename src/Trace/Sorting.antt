-- ===== src/Trace/Sorting.antt =====
-- `syscall_list`: the sorted names of a set, each with its number.
use wali_lib.Base.{
  Distinct, ℕ, ◌<◌, Str, true, false, some, List, [], ◌∷◌, map, ◌≡◌, ◌≢◌, refl, sym, ◌∙◌, arith,
  nat_eq, str_eq, ◌==◌, contains, if◌then◌else◌, All, ok, ◌>>=◌, returned, ok-injective, subst,
}
use wali_lib.Base.Dict.{lookup}
use wali_lib.Trace.{numbered, insert_sorted, syscall_list}
use wali_lib.Trace.Table.{syscall_nrs}
use wali_lib.Trace.Table.Inverse.{syscall_nrs_inj}

abbrev pub names : List (ℕ × Str) → List Str
names = map (λ (n, x). x)

abbrev pub Ascending : List (ℕ × Str) → Type 0
Ascending [] = Unit
Ascending (p ∷ rows) = All (λ q. p.0 < q.0) rows × Ascending rows

-- Each row has the number of its name.
abbrev pub Genuine : List (ℕ × Str) → Type 0
Genuine = All (λ q. lookup q.1 syscall_nrs ≡ some q.0)

numbered-eq-ok :
    (x : Str) (p : ℕ × Str) → numbered x ≡ ok p → (lookup x syscall_nrs ≡ some p.0) × (p.1 ≡ x)
unfolding numbered
numbered-eq-ok x p h = ground arith

pub syscall_list-cons :
    (x : Str) (s : List Str)
    → syscall_list (x ∷ s) ≡ (do p ← numbered x; rows ← syscall_list s; ok (insert_sorted p rows))
unfolding syscall_list
syscall_list-cons x s = ground arith

insert_sorted-Genuine :
    (p : ℕ × Str) (rows : List (ℕ × Str))
    → lookup p.1 syscall_nrs ≡ some p.0
    → Genuine rows
    → Genuine (insert_sorted p rows)
unfolding insert_sorted
insert_sorted-Genuine p [] h g = (h, tt)
insert_sorted-Genuine p (q ∷ rows) h (hq, g) = ground (arith, insert_sorted-Genuine p rows h g)

contains-insert_sorted :
    (x : Str) (p : ℕ × Str) (rows : List (ℕ × Str))
    → contains (names (insert_sorted p rows)) x
      ≡ (if x == p.1 then true else contains (names rows) x)
unfolding insert_sorted contains
contains-insert_sorted x p [] = ground arith
contains-insert_sorted x p (q ∷ rows) = ground (arith, contains-insert_sorted x p rows)

insert_sorted-above :
    (n : ℕ) (p : ℕ × Str) (rows : List (ℕ × Str))
    → n < p.0
    → All (λ q. n < q.0) rows
    → All (λ q. n < q.0) (insert_sorted p rows)
unfolding insert_sorted
insert_sorted-above n p [] h a = (h, tt)
insert_sorted-above n p (q ∷ rows) h (hq, a) = ground (arith, insert_sorted-above n p rows h a)

above_weaken :
    (m n : ℕ) (rows : List (ℕ × Str)) → m < n → All (λ q. n < q.0) rows → All (λ q. m < q.0) rows
above_weaken m n [] h a = tt
above_weaken m n (q ∷ rows) h (hq, a) = (omega arith, above_weaken m n rows h a)

insert_sorted-Ascending :
    (p : ℕ × Str) (rows : List (ℕ × Str))
    → All (λ q. q.0 ≢ p.0) rows
    → Ascending rows
    → Ascending (insert_sorted p rows)
unfolding insert_sorted
insert_sorted-Ascending p [] ne a = (tt, tt)
insert_sorted-Ascending p (q ∷ rows) (hq, ne) (above, a) = ground (
  arith,
  insert_sorted-Ascending p rows ne a,
  insert_sorted-above q.0 p rows,
  above_weaken p.0 q.0 rows,
)

-- A name that is not listed has a number that is not listed.
absent_number :
    (p : ℕ × Str) (rows : List (ℕ × Str))
    → lookup p.1 syscall_nrs ≡ some p.0
    → Genuine rows
    → contains (names rows) p.1 ≡ false
    → All (λ q. q.0 ≢ p.0) rows
unfolding contains
absent_number p [] h g c = tt
absent_number p (q ∷ rows) h (hq, g) c = (
  λ e. ground (arith, syscall_nrs_inj p.1 q.1 p.0 h (rw (← e) hq)),
  absent_number p rows h g (ground arith),
)

pub record IsListing (s : List Str) (rows : List (ℕ × Str)) : Type 0 where
  pub genuine : Genuine rows
  pub members : (x : Str) → contains (names rows) x ≡ contains s x
  pub ascending : Distinct s → Ascending rows

-- One more member: its row goes in, at its place.
insert_sorted-IsListing :
    (x : Str) (s : List Str) (p : ℕ × Str) (rows : List (ℕ × Str))
    → numbered x ≡ ok p
    → IsListing s rows
    → IsListing (x ∷ s) (insert_sorted p rows)
unfolding contains
insert_sorted-IsListing x s p rows h l =
    let (number, name) = numbered-eq-ok x p h in
    let own : lookup p.1 syscall_nrs ≡ some p.0 = rw name number in
    record {
      genuine = insert_sorted-Genuine p rows own l.genuine;
      members = λ y. ground (arith, contains-insert_sorted y p rows, l.members y, name);
      ascending = λ (fresh, d).
          insert_sorted-Ascending p rows
            (absent_number p rows own l.genuine (l.members p.1 ∙ rw name fresh)) (l.ascending d);
    }

-- Where every member of a set has a number, `syscall_list` lists exactly the members, each with its
-- number in `syscall_nrs`; where no member stands twice, the numbers strictly ascend.
pub syscall_list-IsListing :
    (s : List Str) (rows : List (ℕ × Str)) → syscall_list s ≡ ok rows → IsListing s rows
unfolding syscall_list
syscall_list-IsListing [] rows h =
    subst (IsListing []) (ok-injective h)
      (record { genuine = tt; members = λ x. refl; ascending = λ d. tt })
syscall_list-IsListing (x ∷ s) rows h =
    let (p, hp, h') = returned (numbered x) _ (sym (syscall_list-cons x s) ∙ h) in
    let (rest, hs, e) = returned (syscall_list s) _ h' in
    subst (IsListing (x ∷ s)) (ok-injective e)
      (insert_sorted-IsListing x s p rest hp (syscall_list-IsListing s rest hs))
