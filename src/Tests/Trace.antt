-- ===== src/Tests/Trace.antt =====
-- utility/parse_syscalls.py at small inputs.
use wali_lib.Base.{add, add_all}
use wali_lib.Base.{
  ℕ, Str, lit, true, none, some, List, [], ◌∷◌, map, ◌↔◌, ◌≡◌, ◌≢◌, refl, sym, ◌∙◌, arith, str_eq,
  nat_eq, contains, All, ok, err, key_error, value_error, index_error, traverse,
}
use wali_lib.Base.Dict.{lookup, insert}
use wali_lib.Text.{join, words, starts_with}
use wali_lib.Trace.{read_trace, last_word, collect, main}
use wali_lib.Trace.Collecting.{mentions, collect-members}
use wali_lib.Trace.Outcome.{line_of, IsOutput, main-ext, main_unreadable, main_unknown, main_lists}
use wali_lib.Trace.Rows.{IsMarker, Plain, read_trace-rows}
use wali_lib.Trace.Table.{syscall_desc, syscall_nrs}
use wali_lib.Trace.Table.Inverse.{Describes, syscall_nrs_iff}

abbrev header : Str
header = lit "% time     seconds  usecs/call     calls    errors syscall\n"

abbrev rule : Str
rule = lit "------ ----------- ----------- --------- --------- ----------------\n"

abbrev footer : Str
footer = lit "100.00    0.000376                    75         1 total\n"

abbrev mmap_row : Str
mmap_row = lit " 29.25    0.000110          27         4           mmap\n"

abbrev access_row : Str
access_row = lit "  0.00    0.000000           0         1         1 access\n"

abbrev unknown_row : Str
unknown_row = lit "  0.00    0.000000           0         1           no_such_call\n"

abbrev one : List Str
one = header ∷ rule ∷ mmap_row ∷ access_row ∷ rule ∷ footer ∷ []

abbrev other : List Str
other = header ∷ rule ∷ access_row ∷ mmap_row ∷ access_row ∷ rule ∷ footer ∷ []

abbrev strange : List Str
strange = header ∷ rule ∷ mmap_row ∷ unknown_row ∷ rule ∷ footer ∷ []

abbrev cut_short : List Str
cut_short = header ∷ rule ∷ mmap_row ∷ []

listed : main (one ∷ other ∷ []) [] ≡ (
  ok tt,
  lit "9,mmap,Map files/devices into memory\n21,access,Checks if process can access file path",
)
unfolding main add add_all contains lit str_eq nat_eq
listed = refl

blank_row :
    main ((header ∷ rule ∷ lit "\n" ∷ rule ∷ []) ∷ []) (lit "old") ≡ (err index_error, lit "old")
unfolding main add add_all contains lit str_eq nat_eq
blank_row = refl

abbrev two_names : List Str
two_names = lit "mmap" ∷ lit "access" ∷ []

one_collected : collect (one ∷ []) [] ≡ ok two_names
unfolding collect add add_all contains str_eq nat_eq
one_collected = refl

other_collected : collect (other ∷ []) [] ≡ ok (lit "access" ∷ lit "mmap" ∷ [])
unfolding collect add add_all contains str_eq nat_eq
other_collected = refl

contains_swap : (x y z : Str) → contains (x ∷ y ∷ []) z ≡ contains (y ∷ x ∷ []) z
unfolding contains
contains_swap x y z = ground arith

same_mentions : (x : Str) → mentions (one ∷ []) x ≡ mentions (other ∷ []) x
same_mentions x =
    sym ((collect-members (one ∷ []) two_names one_collected).1 x)
    ∙ (contains_swap (lit "mmap") (lit "access") x
        ∙ (collect-members (other ∷ []) (lit "access" ∷ lit "mmap" ∷ []) other_collected).1 x)

main-ext_example : main (one ∷ []) [] ≡ main (other ∷ []) (lit "old")
main-ext_example =
    main-ext (one ∷ []) (other ∷ []) two_names (lit "access" ∷ lit "mmap" ∷ []) [] (lit "old")
      one_collected other_collected same_mentions

cut_short_refused : read_trace cut_short ≡ err value_error
unfolding read_trace lit nat_eq
cut_short_refused = refl

main_unreadable_example :
    main (one ∷ cut_short ∷ other ∷ []) (lit "old") ≡ (err value_error, lit "old")
main_unreadable_example =
    main_unreadable (one ∷ []) (other ∷ []) cut_short two_names (lit "old") one_collected
      cut_short_refused

strange_collected : collect (strange ∷ []) [] ≡ ok (lit "mmap" ∷ lit "no_such_call" ∷ [])
unfolding collect add add_all contains str_eq nat_eq
strange_collected = refl

strange_named : mentions (strange ∷ []) (lit "no_such_call") ≡ true
unfolding mentions read_trace contains str_eq nat_eq
strange_named = refl

no_such_number : lookup (lit "no_such_call") syscall_nrs ≡ none
unfolding lookup syscall_nrs syscall_desc insert lit str_eq nat_eq
no_such_number = refl

main_unknown_example : main (strange ∷ []) (lit "old") ≡ (err key_error, [])
main_unknown_example =
    main_unknown (strange ∷ []) (lit "mmap" ∷ lit "no_such_call" ∷ []) (lit "no_such_call")
      (lit "old") strange_collected strange_named no_such_number

known_of_members :
    (s : List Str) (x : Str)
    → All (λ y. lookup y syscall_nrs ≢ none) s
    → contains s x ≡ true
    → lookup x syscall_nrs ≢ none
unfolding contains
known_of_members [] x a m = cc
known_of_members (y ∷ s) x (h, a) m = ground (arith, known_of_members s x a, h)

abbrev HasNumber : Str → ℕ → Type 0
HasNumber x n = lookup x syscall_nrs ≡ some n

numbers_of_two : HasNumber (lit "mmap") 9 × HasNumber (lit "access") 21
unfolding lookup syscall_nrs syscall_desc insert lit str_eq nat_eq
numbers_of_two = (refl, refl)

two_known : (x : Str) → mentions (one ∷ []) x ≡ true → lookup x syscall_nrs ≢ none
two_known x m =
    known_of_members two_names x
      ((λ e. cc (numbers_of_two.0, e)), ((λ e. cc (numbers_of_two.1, e)), tt))
      ((collect-members (one ∷ []) two_names one_collected).1 x ∙ m)

main_lists_example :
    (rows : List (ℕ × Str)) × (main (one ∷ []) (lit "old")
      ≡ (ok tt, join (lit "\n") (map line_of rows)))
    × IsOutput (one ∷ []) rows
main_lists_example = main_lists (one ∷ []) two_names (lit "old") one_collected two_known

rows-Plain : Plain (mmap_row ∷ access_row ∷ []) × Plain (header ∷ []) × Plain (footer ∷ [])
unfolding starts_with lit nat_eq
rows-Plain = ((refl, (refl, tt)), (refl, tt), (refl, tt))

rule-IsMarker : IsMarker rule
unfolding starts_with lit nat_eq
rule-IsMarker = refl

read_trace-rows_example :
    read_trace one ≡ traverse last_word (map words (mmap_row ∷ access_row ∷ []))
read_trace-rows_example =
    read_trace-rows (header ∷ []) (mmap_row ∷ access_row ∷ []) (footer ∷ []) rule rule rows-Plain.1
      rows-Plain.0 rows-Plain.2 rule-IsMarker rule-IsMarker

syscall_nrs_iff_example :
    (lookup (lit "mmap") syscall_nrs ≡ some 9) ↔ Describes syscall_desc 9 (lit "mmap")
syscall_nrs_iff_example = syscall_nrs_iff (lit "mmap") 9
