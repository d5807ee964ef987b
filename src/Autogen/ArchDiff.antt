-- ===== src/Autogen/ArchDiff.antt =====
-- `gen_arch_diff_stubs` of scripts/autogen.py: the system calls that an architecture lacks.
pub mod Laws
pub mod Success
use wali_lib.Base.{
  zero, suc, Str, lit, Bool, true, false, none, some, List, [], ◌∷◌, ◌++◌, str_eq, ◌==◌, Result, ok,
  err, key_error, value_error, ◌>>=◌, if◌then◌else◌,
}
use wali_lib.Base.Dict.{Dict, lookup, insert}
use wali_lib.Base.Files
use wali_lib.Base.Files.{Run, lift, write_file}
use wali_lib.Text.{join}
use wali_lib.Text.Decimal.{pos, negsuc, read_int}
use wali_lib.Autogen.Args.{Row}

-- `sc[f"{arch}_NR"] and int(sc[f"{arch}_NR"]) == -1`
unfoldable pub is_undefined : Row → Str → Result Bool
is_undefined row arch = elim (lookup arch row.arch_nrs) [
  | none ↦ err key_error
  | some cell ↦ if cell == [] then ok false else elim (read_int cell) [
    | none ↦ err value_error
    | some n ↦ elim n [ pos _ ↦ ok false | negsuc k ↦ elim k [ zero ↦ ok true | suc _ ↦ ok false ] ]
  ]
]

-- `bufs[arch].append(name)`
unfoldable pub append_to : Str → Str → Dict Str (List Str) → Dict Str (List Str)
append_to arch name [] = []
append_to arch name ((a, buf) ∷ bufs) =
    if arch == a then (a, buf ++ name ∷ []) ∷ bufs else (a, buf) ∷ append_to arch name bufs

-- The inner loop, over the architectures.
unfoldable pub scan_archs : Row → List Str → Dict Str (List Str) → Result (Dict Str (List Str))
scan_archs row [] bufs = ok bufs
scan_archs row (arch ∷ archs) bufs = do
  undefined ← is_undefined row arch
  scan_archs row archs (if undefined then append_to arch row.syscall bufs else bufs)

unfoldable pub scan_rows : List Row → List Str → Dict Str (List Str) → Result (Dict Str (List Str))
scan_rows [] archs bufs = ok bufs
scan_rows (row ∷ rows) archs bufs = do bufs' ← scan_archs row archs bufs; scan_rows rows archs bufs'

-- `{x: [] for x in archs}`, onto the entries before.
unfoldable pub empty_bufs_onto : Dict Str (List Str) → List Str → Dict Str (List Str)
empty_bufs_onto bufs [] = bufs
empty_bufs_onto bufs (x ∷ archs) = empty_bufs_onto (insert x [] bufs) archs

unfoldable pub empty_bufs : List Str → Dict Str (List Str)
unfolding empty_bufs_onto
empty_bufs archs = empty_bufs_onto [] archs

unfoldable pub write_bufs : Str → Dict Str (List Str) → Run (Unit {0})
write_bufs spath [] = lift (ok tt)
write_bufs spath ((arch, buf) ∷ bufs) =
    Files.◌>>=◌
      (write_file (spath ++ (lit "/" ++ (arch ++ lit "_undefined.out"))) (join (lit "\n") buf))
      λ _. write_bufs spath bufs

unfoldable pub gen_arch_diff_stubs : Str → List Row → List Str → Run (Unit {0})
gen_arch_diff_stubs spath syscall_info archs =
    Files.◌>>=◌ (lift (scan_rows syscall_info archs (empty_bufs archs))) (write_bufs spath)
