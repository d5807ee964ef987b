-- ===== src/Autogen/Markdown/Support.antt =====
-- The calls that the list of the supported calls counts as unsupported.
use wali_lib.Base.{
  difference, Str, lit, Bool, not, Option, none, some, List, [], ◌∷◌, ◌++◌, map, str_eq, ◌==◌, ◌&&◌,
  ◌||◌, contains, add_all, Result, ok, err, key_error, traverse-All, ◌>>=◌, All, Distinct, ◌≡◌,
  refl, ◌∙◌, ap, arith,
}
use wali_lib.Base.Adding.{contains-add_all, add_all-Distinct}
use wali_lib.Base.Members.{any, any-map, any-add_all, contains-keep, keep-Distinct, add_all-All}
use wali_lib.Autogen.Args.{Row}
use wali_lib.Autogen.Stubs.{truthy}
use wali_lib.Autogen.Wit.{sorted}
use wali_lib.Autogen.Wit.Sorted.{Ascending, contains-sorted, sorted-Ascending}
use wali_lib.Autogen.Markdown.{
  Packages, remapped, arch_supp, counted_calls, supp_set, union, arch_calls, unsupported,
}

-- Whether a row with a count has the name.
abbrev pub has_count : Str → List Row → Bool
has_count x rows = any (λ (row : Row). truthy row.nargs && (x == row.syscall)) rows

contains-counted_calls :
    (rows : List Row) (x : Str) → contains (counted_calls rows) x ≡ has_count x rows
unfolding counted_calls contains any
contains-counted_calls [] x = refl
contains-counted_calls (row ∷ rows) x = ground (arith, contains-counted_calls rows x)

contains-supp_set : (rows : List Row) (x : Str) → contains (supp_set rows) x ≡ has_count x rows
unfolding supp_set contains
contains-supp_set rows x =
    contains-add_all [] (counted_calls rows) x ∙ contains-counted_calls rows x

contains-union :
    (s : List Str) (sets : List (List Str)) (x : Str)
    → contains (union s sets) x ≡ (contains s x || any (λ t. contains t x) sets)
unfolding union any
contains-union s [] x = ground arith
contains-union s (t ∷ sets) x =
    ground (arith, contains-union (add_all s t) sets x, contains-add_all s t x)

union-Distinct : (s : List Str) (sets : List (List Str)) → Distinct s → Distinct (union s sets)
unfolding union
union-Distinct s [] d = d
union-Distinct s (t ∷ sets) d = union-Distinct (add_all s t) sets (add_all-Distinct s t d)

module _ (packages : Packages) where
  -- The calls of an architecture, by the name that the package has for it.
  abbrev pub calls_on : Str → List Str
  calls_on v = elim (packages.calls_of v) [ none ↦ [] | some calls ↦ calls ]

  abbrev pub IsKnown : Str → Type 0
  IsKnown v = packages.calls_of v ≡ some (calls_on v)

  -- Whether one of the architectures has the call.
  abbrev pub on_some : Str → List Str → Bool
  on_some x names = any (λ v. contains (calls_on v) x) names

  arch_calls-IsKnown :
      (names : List Str)
      → All IsKnown names
      → All (λ v. arch_calls packages v ≡ ok (calls_on v)) names
  unfolding arch_calls
  arch_calls-IsKnown [] known = tt
  arch_calls-IsKnown (v ∷ names) (k, known) = (
    ap
        (λ (o : Option (List Str)). elim o as (λ _. Result (List Str)) [
          | none ↦ err key_error
          | some calls ↦ ok calls
        ])
        k,
    arch_calls-IsKnown names known,
  )

  contains-offered :
      (names : List Str) (x : Str)
      → contains (union [] (map calls_on (add_all [] names))) x ≡ on_some x names
  unfolding contains any
  contains-offered names x =
      contains-union [] (map calls_on (add_all [] names)) x
      ∙ any-map (λ t. contains t x) calls_on (add_all [] names)
      ∙ any-add_all (λ v. contains (calls_on v) x) [] names

  contains-listed :
      (rows : List Row) (names : List Str) (x : Str)
      → contains
          (sorted (difference (union [] (map calls_on (add_all [] names))) (supp_set rows)))
          x
        ≡ (on_some x names && not (has_count x rows))
  unfolding difference
  contains-listed rows names x =
      let offered = union [] (map calls_on (add_all [] names)) in
      contains-sorted x (difference offered (supp_set rows))
      ∙ contains-keep (λ y. not (contains (supp_set rows) y)) offered x
      ∙ ground (arith, contains-offered names x, contains-supp_set rows x)

  -- Where the package knows every architecture, the generator finds the unsupported calls. They
  -- ascend strictly, and they are the names that some architecture has and no row with a count has.
  pub unsupported-members :
      (rows : List Row) (archs : List Str)
      → All IsKnown (map remapped (archs ++ lit "x86_64" ∷ []))
      → (names : List Str) × (unsupported packages rows archs ≡ ok names)
        × Ascending names
        × ((x : Str)
            → contains names x
              ≡ (on_some x (map remapped (archs ++ lit "x86_64" ∷ [])) && not (has_count x rows)))
  unfolding unsupported arch_supp difference
  unsupported-members rows archs known =
      let all : List Str = map remapped (archs ++ lit "x86_64" ∷ []) in
      let calls = map calls_on (add_all [] all) in
      let offered = union [] calls in
      let listed = difference offered (supp_set rows) in
      let distinct : Distinct listed =
        keep-Distinct (λ x. not (contains (supp_set rows) x)) offered
          (union-Distinct [] calls tt) in
      (
        sorted listed,
        ap (λ r. r >>= λ calls. ok (sorted (difference (union [] calls) (supp_set rows))))
            (traverse-All (arch_calls packages) calls_on (add_all [] all)
              (arch_calls-IsKnown (add_all [] all) (add_all-All IsKnown [] all tt known))),
        sorted-Ascending listed distinct,
        contains-listed rows all,
      )
