-- ===== src/Profile.antt =====
-- The reading of a profile in scripts/process.ipynb.
pub mod RoundTrip
pub mod Table
use wali_lib.Base.{
  ℕ, Str, lit, Bool, true, false, nat_eq, str_eq, ◌==◌, if◌then◌else◌, Option, none, some, List, [],
  ◌∷◌, Result, ok, err, value_error, attribute_error, traverse, ◌>>=◌,
}
use wali_lib.Base.Dict.{Dict, insert}
use wali_lib.Base.Files
use wali_lib.Base.Files.{Run, lift, read_file}
use wali_lib.Text.{split}
use wali_lib.Text.Decimal.{read_digits}
use wali_lib.Autogen.Wit.Arrays.{is_digit}

-- `(\d*)` before a character that is no digit: the group, and the rest.
unfoldable pub digit_group : Str → Str × Str
digit_group [] = ([], [])
digit_group (c ∷ s) =
    let (group, rest) = digit_group s in if is_digit c then (c ∷ group, rest) else ([], c ∷ s)

abbrev pub Groups : Type 0
Groups = Str × Str × Str

-- The rest behind a character.
unfoldable pub behind : ℕ → Str → Option Str
behind c [] = none
behind c (d ∷ s) = if d == c then some s else none

-- `(\d*):(\d*)/(\d*)` at the start of a text.
unfoldable pub match_groups : Str → Option Groups
match_groups s =
    let (count, at_colon) = digit_group s in
    elim (behind b':' at_colon) [
      | none ↦ none
      | some behind_colon ↦
          let (native, at_slash) = digit_group behind_colon in
          elim (behind b'/' at_slash) [
            | none ↦ none
            | some behind_slash ↦ some (count, native, (digit_group behind_slash).0)
          ]
    ]

-- `re.search`: at the first place where the expression matches.
unfoldable pub search_groups : Str → Option Groups
search_groups [] = match_groups []
search_groups (c ∷ s) =
    let later = search_groups s in
    elim (match_groups (c ∷ s)) [ none ↦ later | some groups ↦ some groups ]

-- `int` of a group.
unfoldable pub int_of : Str → Result ℕ
int_of [] = err value_error
int_of (c ∷ s) = elim (read_digits 0 (c ∷ s)) [ none ↦ err value_error | some n ↦ ok n ]

pub record Feat : Type 0 where
  pub count : ℕ
  pub native : ℕ
  pub virtual : ℕ

-- Where the search fails there is no `groups`.
unfoldable pub read_feat : Str → Result Feat
read_feat elem = elim (search_groups elem) [
  | none ↦ err attribute_error
  | some (count, native, virtual) ↦ do
    c ← int_of count
    n ← int_of native
    v ← int_of virtual
    ok (record { count = c; native = n; virtual = v })
]

unfoldable pub read_feats : Str → Result (List Feat)
read_feats content = traverse read_feat (split b',' content)

-- `dict(zip(names, feats))`
unfoldable pub zip_onto : Dict Str Feat → List Str → List Feat → Dict Str Feat
zip_onto d (name ∷ names) (feat ∷ feats) = zip_onto (insert name feat d) names feats
zip_onto d [] feats = d
zip_onto d (name ∷ names) [] = d

-- The overheads are floating-point numbers: `percent v n` is `((v / n) - 1) * 100`.
module _ {F : Type 0} (zero : F) (percent : ℕ → ℕ → Result F) where
  unfoldable pub overhead : Feat → Result F
  overhead feat = if feat.native == 0 then ok zero else percent feat.virtual feat.native

  unfoldable pub overheads : Dict Str Feat → Result (Dict Str (Feat × F))
  overheads [] = ok []
  overheads ((name, feat) ∷ d) = do
    o ← overhead feat
    rest ← overheads d
    ok ((name, (feat, o)) ∷ rest)

  -- `final_dict`
  unfoldable pub load_profile : Str → Run (Dict Str (Feat × F))
  load_profile profile_file = Files.◌>>=◌ (read_file profile_file) λ content.
      Files.◌>>=◌ (lift (read_feats content)) λ feats.
        Files.◌>>=◌ (read_file (lit "syscall_list.txt"))
          λ names. lift (overheads (zip_onto [] (split b'\n' names) feats))
