-- ===== src/Trace/Outcome.antt =====
-- What a run of the script leaves in `syscall_list.txt`.
use wali_lib.Base.{
  ℕ, nat_eq, Str, lit, true, Option, none, some, List, [], ◌∷◌, ◌++◌, map, ◌≡◌, ◌≢◌, refl, sym, ◌∙◌,
  ap, ◌⊎◌, arith, str_eq, contains, inl, inr, Option-cases, Error, Result, ok, err, key_error,
  traverse, ◌>>=◌, returned,
}
use wali_lib.Base.Dict.{lookup}
use wali_lib.Text.{join}
use wali_lib.Text.Decimal.{show}
use wali_lib.Base.{add_all}
use wali_lib.Trace.{
  read_trace, collect, numbered, insert_sorted, syscall_list, describe, written, write_listing,
  main,
}
use wali_lib.Trace.Collecting.{mentions, collect-members}
use wali_lib.Trace.Order.{syscall_list-ext}
use wali_lib.Trace.Sorting.{names, Ascending, Genuine, syscall_list-IsListing, syscall_list-cons}
use wali_lib.Trace.Table.{Description, syscall_desc, syscall_nrs}
use wali_lib.Trace.Table.Inverse.{syscall_nrs_iff}

main_collected :
    (files : List (List Str)) (s : List Str) (old : Str)
    → collect files [] ≡ ok s
    → main files old ≡ write_listing s
unfolding main
main_collected files s old h = rw (h, main)

-- The text of a list of rows.
abbrev finish : Result (List (ℕ × Str)) → Result Str
finish r = do rows ← r; lines ← traverse describe (names rows); ok (join (lit "\n") lines)

write_listing_lem : (s : List Str) → write_listing s ≡ written (finish (syscall_list s))
unfolding write_listing
write_listing_lem s = refl

-- A run depends on its files only by the names that they mention, not by their order, nor by how
-- often or where a name is mentioned, and not on the list on disk, once every file can be read.
pub main-ext :
    (files files' : List (List Str)) (s t : List Str) (old old' : Str)
    → collect files [] ≡ ok s
    → collect files' [] ≡ ok t
    → ((x : Str) → mentions files x ≡ mentions files' x)
    → main files old ≡ main files' old'
main-ext files files' s t old old' hs ht same =
    let (ds, ms) = collect-members files s hs in
    let (dt, mt) = collect-members files' t ht in
    rw (main_collected files s old hs, main_collected files' t old' ht)
      (rw (write_listing_lem s, write_listing_lem t)
        (ap (λ r. written (finish r))
          (syscall_list-ext s t ds dt (λ x. ms x ∙ (same x ∙ sym (mt x))))))

collect-append_err :
    (before after : List (List Str)) (file : List Str) (s t : List Str) {e : Error}
    → collect before s ≡ ok t
    → read_trace file ≡ err e
    → collect (before ++ file ∷ after) s ≡ err e
unfolding collect
collect-append_err [] after file s t h bad = rw bad
collect-append_err (b ∷ before) after file s t h bad =
    let (xs, read, h') = returned (read_trace b) _ h in
    rw read (collect-append_err before after file (add_all s xs) t h' bad)

-- The first file that cannot be read ends the run with its error, and the list on disk stays as it
-- was.
pub main_unreadable :
    (before after : List (List Str)) (file : List Str) (s : List Str) (old : Str) {e : Error}
    → collect before [] ≡ ok s
    → read_trace file ≡ err e
    → main (before ++ file ∷ after) old ≡ (err e, old)
unfolding main
main_unreadable before after file s old h bad =
    rw (collect-append_err before after file [] s h bad, main)

abbrev text_of : Option Description → Str
text_of none = []
text_of (some d) = d.1

-- The number, the name and the text of the table, with commas between them.
abbrev pub line_of : ℕ × Str → Str
line_of p = join (lit ",") (show p.0 ∷ p.1 ∷ text_of (lookup p.0 syscall_desc) ∷ [])

describe_genuine : (p : ℕ × Str) → lookup p.1 syscall_nrs ≡ some p.0 → describe p.1 ≡ ok (line_of p)
unfolding describe
describe_genuine p h = let (text, found) = (syscall_nrs_iff p.1 p.0).0 h in rw (h, found, describe)

describe_rows :
    (rows : List (ℕ × Str)) → Genuine rows → traverse describe (names rows) ≡ ok (map line_of rows)
unfolding traverse
describe_rows [] g = refl
describe_rows (p ∷ rows) (h, g) = rw (describe_genuine p h, describe_rows rows g)

-- Every name of a set has a number, or one has none and the sort raises a `KeyError`.
syscall_list_cases :
    (s : List Str)
    → ((rows : List (ℕ × Str)) × (syscall_list s ≡ ok rows))
      ⊎ ((x : Str) × (contains s x ≡ true)
          × (lookup x syscall_nrs ≡ none)
          × (syscall_list s ≡ err key_error))
unfolding numbered contains
syscall_list_cases [] = inl ([], unfold syscall_list in refl)
syscall_list_cases (x ∷ s) = elim (syscall_list_cases s) [
  | inr (y, m, unknown, e) ↦ inr (y, ground arith, unknown, ground (arith, syscall_list-cons x s))
  | inl (rows, e) ↦ elim (Option-cases (lookup x syscall_nrs)) [
    | inl unknown ↦ inr (x, ground arith, unknown, ground (arith, syscall_list-cons x s))
    | inr (n, number) ↦ inl (insert_sorted (n, x) rows, ground (arith, syscall_list-cons x s))
  ]
]

-- A listed name has a number.
listed_has_number :
    (rows : List (ℕ × Str)) (x : Str)
    → Genuine rows
    → contains (names rows) x ≡ true
    → lookup x syscall_nrs ≢ none
unfolding contains
listed_has_number [] x g m e = cc
listed_has_number (q ∷ rows) x (h, g) m e = ground (arith, listed_has_number rows x g, h, e)

-- Where the summaries can be read and mention a name that the table does not have, the run ends
-- with a `KeyError`, and the list on disk is left empty.
pub main_unknown :
    (files : List (List Str)) (s : List Str) (x old : Str)
    → collect files [] ≡ ok s
    → mentions files x ≡ true
    → lookup x syscall_nrs ≡ none
    → main files old ≡ (err key_error, [])
main_unknown files s x old h m unknown = elim (syscall_list_cases s) [
  | inr (y, _, _, e) ↦ rw (main_collected files s old h, write_listing_lem s, e)
  | inl (rows, e) ↦
      let l = syscall_list-IsListing s rows e in
      absurd (
        listed_has_number rows x l.genuine (l.members x ∙ ((collect-members files s h).1 x ∙ m))
          unknown)
]

-- The list that a run writes: ascending numbers, each beside the name to which the table gives it,
-- and the names are those that the summaries mention.
pub record IsOutput (files : List (List Str)) (rows : List (ℕ × Str)) : Type 0 where
  pub genuine : Genuine rows
  pub ascending : Ascending rows
  pub members : (x : Str) → contains (names rows) x ≡ mentions files x

-- Where the summaries can be read and every name that they mention has a number, the run succeeds.
-- It writes a line for each of these names and for no other, with the name's number and text, in
-- strictly ascending order of the numbers.
pub main_lists :
    (files : List (List Str)) (s : List Str) (old : Str)
    → collect files [] ≡ ok s
    → ((x : Str) → mentions files x ≡ true → lookup x syscall_nrs ≢ none)
    → (rows : List (ℕ × Str)) × (main files old ≡ (ok tt, join (lit "\n") (map line_of rows)))
      × IsOutput files rows
main_lists files s old h known =
    let (distinct, mentioned) = collect-members files s h in
    elim (syscall_list_cases s) [
      | inr (y, m, unknown, e) ↦ absurd (known y (sym (mentioned y) ∙ m) unknown)
      | inl (rows, e) ↦
          let l = syscall_list-IsListing s rows e in
          (
            rows,
            rw (main_collected files s old h, write_listing_lem s, e, describe_rows rows l.genuine),
            record {
              genuine = l.genuine;
              ascending = l.ascending distinct;
              members = λ x. l.members x ∙ mentioned x;
            },
          )
    ]
