-- ===== src/Autogen/ArchDiff/Success.antt =====
-- The differences of the architectures can be made of a table whose numbers can be read.
use wali_lib.Base.{
  zero, suc, Str, true, false, some, List, [], ◌∷◌, ◌≡◌, ◌≢◌, ◌⊎◌, inl, inr, refl, ap, ◌∙◌, str_eq,
  ok, All, Returns, Returns-bind, if◌then◌else◌,
}
use mathlib.Core.Logic.{if_pos, if_neg}
use wali_lib.Base.Dict.{Dict, lookup}
use wali_lib.Base.Files.{Finishes, lift-ok}
use wali_lib.Text.Decimal.{ℤ, pos, negsuc, read_int}
use wali_lib.Autogen.Args.{Row}
use wali_lib.Autogen.ArchDiff.{
  is_undefined, append_to, scan_archs, scan_rows, empty_bufs, write_bufs, gen_arch_diff_stubs,
}

-- The cell of an architecture is there, and is empty or a number.
abbrev pub IsNumbered : Row → Str → Type 0
IsNumbered row arch =
    (cell : Str) × (lookup arch row.arch_nrs ≡ some cell)
    × ((cell ≡ []) ⊎ ((n : ℤ) × (read_int cell ≡ some n)))

is_undefined-number :
    (row : Row) (arch cell : Str) (n : ℤ)
    → lookup arch row.arch_nrs ≡ some cell
    → cell ≢ []
    → read_int cell ≡ some n
    → Returns (is_undefined row arch)
unfolding is_undefined
is_undefined-number row arch cell (pos k) found given read =
    (false, rw (is_undefined, found, if_neg _ given, read) refl)
is_undefined-number row arch cell (negsuc zero) found given read =
    (true, rw (is_undefined, found, if_neg _ given, read) refl)
is_undefined-number row arch cell (negsuc (suc k)) found given read =
    (false, rw (is_undefined, found, if_neg _ given, read) refl)

is_undefined-empty :
    (row : Row) (arch cell : Str)
    → lookup arch row.arch_nrs ≡ some cell
    → cell ≡ []
    → is_undefined row arch ≡ ok false
unfolding is_undefined
is_undefined-empty row arch cell found none_given =
    rw (is_undefined, found, if_pos _ none_given) refl

is_undefined-Returns :
    (row : Row) (arch : Str) → IsNumbered row arch → Returns (is_undefined row arch)
is_undefined-Returns row arch (cell, found, inl none_given) =
    (false, is_undefined-empty row arch cell found none_given)
is_undefined-Returns row arch (cell, found, inr (n, read)) = elim (str_eq.dec cell []) [
  | yes none_given ↦ (false, is_undefined-empty row arch cell found none_given)
  | no given ↦ is_undefined-number row arch cell n found given read
]

scan_archs-Returns :
    (row : Row) (archs : List Str) (bufs : Dict Str (List Str))
    → All (IsNumbered row) archs
    → Returns (scan_archs row archs bufs)
unfolding scan_archs
scan_archs-Returns row [] bufs h = (bufs, refl)
scan_archs-Returns row (arch ∷ archs) bufs (numbered, h) =
    let rest = λ (b : Dict Str (List Str)). scan_archs-Returns row archs b h in
    Returns-bind (is_undefined row arch) _ (is_undefined-Returns row arch numbered)
      λ undefined _. rest (if undefined then append_to arch row.syscall bufs else bufs)

scan_rows-Returns :
    (rows : List Row) (archs : List Str) (bufs : Dict Str (List Str))
    → All (λ row. All (IsNumbered row) archs) rows
    → Returns (scan_rows rows archs bufs)
unfolding scan_rows
scan_rows-Returns [] archs bufs h = (bufs, refl)
scan_rows-Returns (row ∷ rows) archs bufs (numbered, h) =
    Returns-bind (scan_archs row archs bufs) _ (scan_archs-Returns row archs bufs numbered)
      λ bufs' _. scan_rows-Returns rows archs bufs' h

write_bufs-Finishes : (spath : Str) (bufs : Dict Str (List Str)) → Finishes (write_bufs spath bufs)
unfolding write_bufs
write_bufs-Finishes spath [] files = refl
write_bufs-Finishes spath ((arch, buf) ∷ bufs) files = write_bufs-Finishes spath bufs _

pub gen_arch_diff_stubs-Finishes :
    (spath : Str) (rows : List Row) (archs : List Str)
    → All (λ row. All (IsNumbered row) archs) rows
    → Finishes (gen_arch_diff_stubs spath rows archs)
unfolding gen_arch_diff_stubs
gen_arch_diff_stubs-Finishes spath rows archs h files =
    let (bufs, e) = scan_rows-Returns rows archs (empty_bufs archs) h in
    ap (λ p. p.0)
      (lift-ok (scan_rows rows archs (empty_bufs archs)) bufs (write_bufs spath) files e)
    ∙ write_bufs-Finishes spath bufs files
