-- ===== src/Autogen/ArchDiff/Laws.antt =====
-- What `gen_arch_diff_stubs` collects for each architecture.
use wali_lib.Base.{
  zero, suc, Str, Bool, true, false, none, some, Option-cases, List, [], ◌∷◌, ◌++◌, append_assoc,
  append-nil, ◌≡◌, refl, sym, ◌∙◌, ap, subst, ◌⊎◌, inl, inr, arith, str_eq, ◌==◌, contains,
  Distinct, ok, ok-injective, returned, if◌then◌else◌,
}
use wali_lib.Base.Dict.{Dict, lookup, insert, lookup-insert}
use wali_lib.Text.Decimal.{pos, negsuc, read_int}
use wali_lib.Autogen.Args.{Row}
use wali_lib.Autogen.ArchDiff.{
  is_undefined, append_to, scan_archs, scan_rows, empty_bufs_onto, empty_bufs,
}

-- The table has a number for the architecture, and it is -1.
pub lacks : Str → Row → Bool
lacks arch row = elim (lookup arch row.arch_nrs) [
  | none ↦ false
  | some cell ↦ elim (read_int cell) [
    | none ↦ false
    | some n ↦ elim n [ pos _ ↦ false | negsuc k ↦ elim k [ zero ↦ true | suc _ ↦ false ] ]
  ]
]

-- The names of the rows whose number at an architecture is -1, in the order of the table.
pub undefined_names : Str → List Row → List Str
undefined_names arch [] = []
undefined_names arch (row ∷ rows) =
    let rest = undefined_names arch rows in if lacks arch row then row.syscall ∷ rest else rest

-- The buffer after a row.
abbrev with_row : Str → Row → List Str → List Str
with_row arch row buf = if lacks arch row then buf ++ row.syscall ∷ [] else buf

read_int-nil : read_int [] ≡ none
unfolding read_int
read_int-nil = refl

-- Where the number can be read, the test of the code finds the -1.
is_undefined-lacks :
    (row : Row) (arch : Str) (undefined : Bool)
    → is_undefined row arch ≡ ok undefined
    → lacks arch row ≡ undefined
unfolding is_undefined lacks
is_undefined-lacks row arch undefined h = elim (Option-cases (lookup arch row.arch_nrs)) [
  | inl e ↦ ground arith
  | inr (cell, e) ↦ elim (str_eq.dec cell []) [
    | yes empty ↦
        let unread : read_int cell ≡ none = ap read_int empty ∙ read_int-nil in ground arith
    | no given ↦ elim (Option-cases (read_int cell)) [
      | inl unread ↦ ground arith
      | inr (pos n, at) ↦ ground arith
      | inr (negsuc zero, at) ↦ ground arith
      | inr (negsuc (suc n), at) ↦ ground arith
    ]
  ]
]

lookup-append_to :
    (a arch name : Str) (bufs : Dict Str (List Str)) (buf : List Str)
    → lookup a bufs ≡ some buf
    → lookup a (append_to arch name bufs) ≡ some (if arch == a then buf ++ name ∷ [] else buf)
unfolding lookup append_to
lookup-append_to a arch name [] buf h = cc
lookup-append_to a arch name ((j, w) ∷ bufs) buf h =
    ground (arith, lookup-append_to a arch name bufs buf)

-- An architecture that is not among those scanned keeps its buffer.
scan_archs_absent :
    (row : Row) (archs : List Str) (bufs out : Dict Str (List Str)) (a : Str) (buf : List Str)
    → scan_archs row archs bufs ≡ ok out
    → contains archs a ≡ false
    → lookup a bufs ≡ some buf
    → lookup a out ≡ some buf
unfolding scan_archs contains
scan_archs_absent row [] bufs out a buf h c l =
    subst (λ d. lookup a d ≡ some buf) (ok-injective h) l
scan_archs_absent row (arch ∷ archs) bufs out a buf h c l =
    let (undefined, hu, h') = returned (is_undefined row arch) _ h in
    scan_archs_absent row archs (if undefined then append_to arch row.syscall bufs else bufs) out a
      buf h' (ground arith) (ground (arith, lookup-append_to a arch row.syscall bufs buf))

appended :
    (row : Row) (a arch : Str) (bufs : Dict Str (List Str)) (buf : List Str) (undefined : Bool)
    → is_undefined row arch ≡ ok undefined
    → a ≡ arch
    → lookup a bufs ≡ some buf
    → lookup a (if undefined then append_to arch row.syscall bufs else bufs)
      ≡ some (with_row a row buf)
appended row a arch bufs buf true hu e l =
    rw (e, is_undefined-lacks row arch true hu)
      (ground (arith, lookup-append_to arch arch row.syscall bufs buf (rw e at l)))
appended row a arch bufs buf false hu e l = rw (e, is_undefined-lacks row arch false hu) (rw e at l)

-- The names of one row and of those behind it.
with_rows :
    (undefined : Bool) (buf : List Str) (name : Str) (rest : List Str)
    → buf ++ (if undefined then name ∷ rest else rest)
      ≡ (if undefined then buf ++ name ∷ [] else buf) ++ rest
with_rows true buf name rest = sym (append_assoc buf (name ∷ []) rest)
with_rows false buf name rest = refl

scan_archs_at :
    (row : Row) (archs : List Str) (bufs out : Dict Str (List Str)) (a : Str) (buf : List Str)
    → scan_archs row archs bufs ≡ ok out
    → Distinct archs
    → contains archs a ≡ true
    → lookup a bufs ≡ some buf
    → lookup a out ≡ some (with_row a row buf)
unfolding scan_archs contains
scan_archs_at row [] bufs out a buf h d c l = absurd (cc)
scan_archs_at row (arch ∷ archs) bufs out a buf h (fresh, d) c l =
    let (undefined, hu, h') = returned (is_undefined row arch) _ h in
    let bufs' : Dict Str (List Str) = if undefined then append_to arch row.syscall bufs else bufs in
    elim (str_eq.dec a arch) [
      | yes e ↦
          scan_archs_absent row archs bufs' out a (with_row a row buf) h' (rw e fresh)
            (appended row a arch bufs buf undefined hu e l)
      | no e ↦
          scan_archs_at row archs bufs' out a buf h' d (ground arith)
            (ground (arith, lookup-append_to a arch row.syscall bufs buf))
    ]

scan_rows_at :
    (rows : List Row) (archs : List Str) (bufs out : Dict Str (List Str)) (a : Str) (buf : List Str)
    → scan_rows rows archs bufs ≡ ok out
    → Distinct archs
    → contains archs a ≡ true
    → lookup a bufs ≡ some buf
    → lookup a out ≡ some (buf ++ undefined_names a rows)
unfolding scan_rows undefined_names
scan_rows_at [] archs bufs out a buf h d c l =
    subst (λ o. lookup a o ≡ some (buf ++ [])) (ok-injective h) (rw append-nil l)
scan_rows_at (row ∷ rows) archs bufs out a buf h d c l =
    let (bufs', hb, h') = returned (scan_archs row archs bufs) _ h in
    scan_rows_at rows archs bufs' out a (with_row a row buf) h' d c
      (scan_archs_at row archs bufs bufs' a buf hb d c l)
    ∙ ap some (sym (with_rows (lacks a row) buf row.syscall (undefined_names a rows)))

lookup-empty_bufs_onto :
    (archs : List Str) (bufs : Dict Str (List Str)) (a : Str)
    → (contains archs a ≡ true) ⊎ (lookup a bufs ≡ some [])
    → lookup a (empty_bufs_onto bufs archs) ≡ some []
unfolding empty_bufs_onto contains
lookup-empty_bufs_onto [] bufs a (inl c) = cc
lookup-empty_bufs_onto [] bufs a (inr l) = l
lookup-empty_bufs_onto (x ∷ archs) bufs a h =
    lookup-empty_bufs_onto archs (insert x [] bufs) a (ground (arith, lookup-insert a x [] bufs, h))

-- Where every number of the table can be read and no architecture is listed twice, each
-- architecture ends with the names of the rows whose number there is -1, each once for its row and
-- in the order of the table.
pub scan_rows-undefined_names :
    (rows : List Row) (archs : List Str) (out : Dict Str (List Str)) (a : Str)
    → scan_rows rows archs (empty_bufs archs) ≡ ok out
    → Distinct archs
    → contains archs a ≡ true
    → lookup a out ≡ some (undefined_names a rows)
unfolding empty_bufs
scan_rows-undefined_names rows archs out a h d c =
    scan_rows_at rows archs (empty_bufs archs) out a [] h d c
      (lookup-empty_bufs_onto archs [] a (inl c))
