-- ===== src/Autogen/Wit/Records/Blocks.antt =====
-- The names of the records of a template.
use wali_lib.Base.{
  length-sub, ℕ, Str, lit, true, false, none, some, List, [], ◌∷◌, ◌++◌, append-nil, map, nat_eq,
  str_eq, contains, length, ◌≡◌, refl, ◌∙◌, ap, All,
}
use wali_lib.Base.Adding.{contains-add_all}
use wali_lib.Text.{is_space}
use wali_lib.Autogen.Types.{drop_prefix}
use wali_lib.Autogen.Types.RoundTrip.{drop_prefix-append}
use wali_lib.Autogen.Wit.Arrays.Tuples.{IsType}
use wali_lib.Autogen.Wit.Records.{word_run, match_record, find_records, record_types}

-- A text in which no record begins, whatever follows.
abbrev pub IsFree : Str → Type 0
IsFree [] = Unit
IsFree (c ∷ s) = ((rest : Str) → match_record (c ∷ (s ++ rest)) ≡ none) × IsFree s

-- A record: the text before it, and its name.
abbrev pub Block : Type 0
Block = Str × Str

abbrev pub IsBlock : Block → Type 0
IsBlock (before, name) = IsFree before × IsType name

abbrev pub record_line : Str → Str → Str
record_line name rest = lit "record " ++ (name ++ (lit " {" ++ rest))

-- A template with the records, and the text behind the last.
abbrev pub template_of : List Block → Str → Str
template_of [] end = end
template_of ((before, name) ∷ blocks) end = before ++ record_line name (template_of blocks end)

find_records-IsFree : (s rest : Str) → IsFree s → find_records 0 (s ++ rest) ≡ find_records 0 rest
unfolding find_records
find_records-IsFree [] rest h = refl
find_records-IsFree (c ∷ s) rest (h, free) =
    rw (h rest, find_records) (find_records-IsFree s rest free)

word_run-append :
    (name : Str) (c : ℕ) (s : Str)
    → All (λ d. is_space d ≡ false) name
    → is_space c ≡ true
    → word_run (name ++ c ∷ s) ≡ (name, c ∷ s)
unfolding word_run
word_run-append [] c s h stop = rw stop refl
word_run-append (d ∷ name) c s (hd, h) stop = rw (word_run-append name c s h stop, hd) refl

match_record-name :
    (name s : Str)
    → IsType name
    → match_record (lit "record " ++ (name ++ b' ' ∷ s)) ≡ some (name, b' ' ∷ s)
unfolding match_record is_space nat_eq
match_record-name [] s (ne, h) = absurd (ne refl)
match_record-name (c ∷ name) s (ne, h) =
    let run = word_run-append (c ∷ name) b' ' s h refl in
    rw (match_record, drop_prefix-append (lit "record ") ((c ∷ name) ++ b' ' ∷ s), run)
      (ap some run)

find_records_past : (m s : Str) → find_records (length m) (m ++ s) ≡ find_records 0 s
unfolding find_records
find_records_past [] s = refl
find_records_past (c ∷ m) s = find_records_past m s

find_records_at :
    (c : ℕ) (m name rest : Str)
    → match_record (c ∷ (m ++ rest)) ≡ some (name, rest)
    → find_records 0 (c ∷ (m ++ rest)) ≡ name ∷ find_records 0 rest
unfolding find_records
find_records_at c m name rest h =
    rw (h, find_records, length-sub m rest) (ap (λ d. name ∷ d) (find_records_past m rest))

brace-IsFree : IsFree (lit " {")
unfolding match_record drop_prefix lit nat_eq
brace-IsFree = ((λ rest. refl), ((λ rest. refl), tt))

find_records-record_line :
    (name rest : Str)
    → IsType name
    → find_records 0 (record_line name rest) ≡ name ∷ find_records 0 rest
unfolding lit
find_records-record_line name rest h =
    find_records_at b'r' (lit "ecord " ++ name) name (b' ' ∷ b'{' ∷ rest)
      (match_record-name name (b'{' ∷ rest) h)
    ∙ ap (λ d. name ∷ d) (find_records-IsFree (lit " {") rest brace-IsFree)

find_records-nil : find_records 0 [] ≡ []
unfolding find_records
find_records-nil = refl

find_records-template_of :
    (blocks : List Block) (end : Str)
    → All IsBlock blocks
    → IsFree end
    → find_records 0 (template_of blocks end) ≡ map (λ (before, name). name) blocks
find_records-template_of [] end h free =
    rw (← append-nil end) (find_records-IsFree end [] free ∙ find_records-nil)
find_records-template_of ((before, name) ∷ blocks) end ((hb, hn), h) free =
    find_records-IsFree before (record_line name (template_of blocks end)) hb
    ∙ find_records-record_line name (template_of blocks end) hn
    ∙ ap (λ d. name ∷ d) (find_records-template_of blocks end h free)

abbrev pub names : List Block → List Str
names = map (λ (before, name). name)

pub contains-record_types :
    (blocks : List Block) (end : Str) (x : Str)
    → All IsBlock blocks
    → IsFree end
    → contains (record_types (template_of blocks end)) x ≡ contains (names blocks) x
unfolding record_types contains
contains-record_types blocks end x h free =
    contains-add_all [] (find_records 0 (template_of blocks end)) x
    ∙ ap (λ found. contains found x) (find_records-template_of blocks end h free)
