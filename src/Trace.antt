-- ===== src/Trace.antt =====
-- utility/parse_syscalls.py: the system calls that the strace summaries mention, listed by number.
-- A summary is its lines, as `readlines` gives them. The order of `glob` is that of the list of
-- files, and a set is the list of its members in the order in which they came.
pub mod Table
pub mod Rows
pub mod Outcome
pub mod Sorting
pub mod Order
pub mod Collecting
use wali_lib.Base.{
  ℕ, zero, suc, ◌+◌, ◌-◌, Str, lit, Option, none, some, List, [], ◌∷◌, ◌++◌, map, nat_eq, str_eq,
  add_all, contains, if◌then◌else◌, ltb, take, drop, Result, ok, err, value_error, index_error,
  key_error, traverse, ◌>>=◌,
}
use wali_lib.Base.Dict.{lookup}
use wali_lib.Text.{starts_with, words, join}
use wali_lib.Text.Decimal.{show}
use wali_lib.Trace.Table.{syscall_desc, syscall_nrs}

-- `[i for i, line in enumerate(lines) if line.startswith('-----')]`, numbered from `i`.
unfoldable pub markers : ℕ → List Str → List ℕ
unfolding starts_with lit
markers i [] = []
markers i (line ∷ lines) =
    let rest = markers (suc i) lines in if starts_with line (lit "-----") then i ∷ rest else rest

-- `x[-1]` of a line that is split into words.
unfoldable pub last_word : List Str → Result Str
last_word [] = err index_error
last_word (w ∷ []) = ok w
last_word (v ∷ w ∷ ws) = last_word (w ∷ ws)

-- The last words of the rows between the two marker lines.
unfoldable pub trace_rows : List (List Str) → List ℕ → Result (List Str)
unfolding last_word traverse
trace_rows rows (start ∷ end ∷ []) =
    traverse last_word (take (end - suc start) (drop (suc start) rows))
trace_rows rows _ = err value_error

unfoldable pub read_trace : List Str → Result (List Str)
unfolding trace_rows markers words
read_trace lines = trace_rows (map words lines) (markers 0 lines)

-- The loop over the files.
unfoldable pub collect : List (List Str) → List Str → Result (List Str)
unfolding add_all read_trace
collect [] s = ok s
collect (file ∷ files) s = do names ← read_trace file; collect files (add_all s names)

-- `syscall_nrs[x]`, beside the name.
unfoldable pub numbered : Str → Result (ℕ × Str)
numbered x = elim (lookup x syscall_nrs) [ none ↦ err key_error | some n ↦ ok (n, x) ]

-- Python's stable sort by the number: an element stays before the later ones of its key.
unfoldable pub insert_sorted : ℕ × Str → List (ℕ × Str) → List (ℕ × Str)
insert_sorted p [] = p ∷ []
insert_sorted p (q ∷ rows) = if ltb q.0 p.0 then q ∷ insert_sorted p rows else p ∷ q ∷ rows

unfoldable pub sort_rows : List (ℕ × Str) → List (ℕ × Str)
unfolding insert_sorted
sort_rows [] = []
sort_rows (p ∷ rows) = insert_sorted p (sort_rows rows)

-- `sorted(syscall_set, key=lambda x: syscall_nrs[x])`, each name beside its key.
unfoldable pub syscall_list : List Str → Result (List (ℕ × Str))
unfolding numbered traverse sort_rows
syscall_list s = do rows ← traverse numbered s; ok (sort_rows rows)

-- `','.join([str(syscall_nrs[x]), x, syscall_desc[syscall_nrs[x]][1]])`
unfoldable pub describe : Str → Result Str
describe x = elim (lookup x syscall_nrs) [
  | none ↦ err key_error
  | some n ↦ elim (lookup n syscall_desc) [
    | none ↦ err key_error
    | some d ↦ ok (join (lit ",") (show n ∷ x ∷ d.1 ∷ []))
  ]
]

unfoldable pub listing : List Str → Result Str
unfolding syscall_list describe
listing s = do
  rows ← syscall_list s
  lines ← traverse describe (map (λ (n, x). x) rows)
  ok (join (lit "\n") lines)

-- What the block of `open(…, 'w')` leaves in the file, which is emptied before the list is made.
abbrev pub written : Result Str → Result (Unit {0}) × Str
written (ok text) = (ok tt, text)
written (err e) = (err e, [])

unfoldable pub write_listing : List Str → Result (Unit {0}) × Str
unfolding listing
write_listing s = written (listing s)

-- The script: its end, and the content of `syscall_list.txt`, from the content before.
unfoldable pub main : List (List Str) → Str → Result (Unit {0}) × Str
unfolding collect write_listing lookup syscall_nrs syscall_desc join show
main files old = elim (collect files []) [ ok s ↦ write_listing s | err e ↦ (err e, old) ]
