-- ===== src/Tests/Profile.antt =====
-- A small profile of scripts/process.ipynb.
use wali_lib.Base.{
  ℕ, ◌*◌, ◌/◌, Str, lit, Bool, if◌then◌else◌, ltb, List, [], ◌∷◌, map, ◌≡◌, refl, arith, str_eq,
  nat_eq, ◌==◌, keep, Result, ok, err, attribute_error, key_error, traverse,
}
use mathlib.Core.List.{Perm}
use wali_lib.Base.Dict.{lookup, insert}
use wali_lib.Text.{repeat, split, join}
use wali_lib.Text.Decimal.{digits, show, read_digits}
use wali_lib.Autogen.Wit.Arrays.{is_digit}
use wali_lib.Profile.{
  digit_group, behind, match_groups, search_groups, int_of, Feat, read_feat, read_feats, zip_onto,
  overhead, overheads, load_profile,
}
use wali_lib.Profile.Table.{
  pad_right, Entry, columns, insert_entry, sort_entries, line, table, fork_entry,
}
use wali_lib.Profile.Table.Order.{header, IsOrder, Descending, has_overhead, table-Descending}
use wali_lib.Profile.RoundTrip.{feat_text, read_feats-feat_text}

opened : ℕ
unfolding str_eq nat_eq lit lookup insert traverse split join digits show read_digits is_digit
    digit_group behind match_groups search_groups int_of read_feat read_feats zip_onto overhead
    overheads load_profile repeat pad_right columns insert_entry sort_entries line table fork_entry
opened = 0

abbrev geteuid : Feat
geteuid = record { count = 1; native = 112; virtual = 157 }

abbrev getpid : Feat
getpid = record { count = 4; native = 0; virtual = 130 }

-- The quotient in whole numbers.
abbrev ratio : ℕ → ℕ → Result ℕ
ratio v n = ok (v * 100 / n)

loaded :
    (load_profile 0 ratio (lit "p") (
      (lit "p", lit "1:112/157, 4:0/130")
      ∷ (lit "syscall_list.txt", lit "geteuid\ngetpid\nread")
      ∷ [])).0
    ≡ ok ((lit "geteuid", (geteuid, 140)) ∷ (lit "getpid", (getpid, 0)) ∷ [])
unfolding opened
loaded = refl

no_groups : read_feats (lit "1:112/157,") ≡ err attribute_error
unfolding opened
no_groups = refl

read_feats-feat_text_example :
    read_feats (join (lit ",") (map feat_text (geteuid ∷ getpid ∷ []))) ≡ ok (geteuid ∷ getpid ∷ [])
read_feats-feat_text_example = read_feats-feat_text geteuid (getpid ∷ [])

-- The overheads of the recorded run, in millionths of a percent.
abbrev show_overhead : ℕ → Str
show_overhead o = if o == 32031250 then lit "32.03125" else lit "40.178571428571416"

abbrev by_size : ℕ → ℕ → Bool
by_size = ltb

getgid : Str × (Feat × ℕ)
getgid = (lit "getgid", (record { count = 1; native = 128; virtual = 169 }, 32031250))

recorded :
    table by_size show_overhead (getgid ∷ (lit "geteuid", (geteuid, 40178571)) ∷ [])
    ≡ lit "Syscall              Count      Native (ns)     Virtual (ns)    Overhead (%)"
      ∷ lit "geteuid              1          112             157             40.178571428571416"
      ∷ lit "getgid               1          128             169             32.03125  "
      ∷ []
unfolding opened getgid
recorded = refl

no_fork : fork_entry {F = ℕ} ((lit "geteuid", (geteuid, 40178571)) ∷ []) ≡ err key_error
unfolding opened
no_fork = refl

by_size-IsOrder : IsOrder by_size
by_size-IsOrder = record { asym = λ a b h. ground arith; trans = λ a b c h k. ground arith }

table-Descending_example :
    (rows : List (Entry ℕ)) × (table by_size show_overhead
        (getgid ∷ (lit "geteuid", (geteuid, 40178571)) ∷ [])
      ≡ header ∷ map (line by_size show_overhead) rows)
    × Descending by_size rows
    × Perm rows (getgid ∷ (lit "geteuid", (geteuid, 40178571)) ∷ [])
    × ((o : ℕ)
        → keep (has_overhead by_size o) rows
          ≡ keep (has_overhead by_size o) (getgid ∷ (lit "geteuid", (geteuid, 40178571)) ∷ []))
table-Descending_example =
    table-Descending by_size by_size-IsOrder show_overhead
      (getgid ∷ (lit "geteuid", (geteuid, 40178571)) ∷ [])
