-- ===== src/Autogen/Wit.antt =====
-- `gen_wit_stubs` of scripts/autogen.py: the WIT interface of the system calls.
pub mod Arrays
pub mod Sorted
pub mod Methods
pub mod Outcome
pub mod Names
pub mod Success
pub mod Records
use wali_lib.Base.{
  ℕ, suc, ◌+◌, Str, lit, Bool, true, false, ◌&&◌, Option, none, some, List, [], ◌∷◌, ◌++◌, map,
  nat_eq, str_eq, ◌==◌, ltb, if◌then◌else◌, keep, add_all, Result, ok, err, traverse, ◌>>=◌,
}
use wali_lib.Base.Dict.{Dict, lookup, insert, update, keys}
use wali_lib.Base.Files
use wali_lib.Base.Files.{Run, lift, read_file, write_file}
use wali_lib.Text.{starts_with, but_last, replace_char, join, strip, split, replace}
use wali_lib.Text.Decimal.{show}
use wali_lib.Autogen.Types.{Types, combined_types}
use wali_lib.Autogen.Args.{Row, fn_name_of, last_char, get_scargs}
use wali_lib.Autogen.Stubs.{enumerate, truthy}
use Arrays.{sub_arrays}

-- `x.strip().replace(' ', '-').replace('_', '-')`
unfoldable pub dashed : Str → Str
dashed x = replace_char b'_' b'-' (replace_char b' ' b'-' (strip x))

-- `f"ptr-{x[:-1]}" if x[-1] == '*' else x`
unfoldable pub ptr_name : Str → Result Str
ptr_name x = do c ← last_char x; ok (if c == b'*' then lit "ptr-" ++ but_last x else x)

unfoldable pub is_ptr_type : Str → Bool
is_ptr_type x = starts_with x (lit "ptr-")

-- `p.replace('_', '-').replace(' ', '-')`
unfoldable pub rep : Str → Str
rep p = replace_char b' ' b'-' (replace_char b'_' b'-' p)

-- `rep(v) if not v.startswith('Array') else v.replace('_','-')`
unfoldable pub rep_value : Str → Str
rep_value v = if starts_with v (lit "Array") then replace_char b'_' b'-' v else rep v

-- `{rep(k): … for k, v in d.items()}`, onto the entries before.
unfoldable pub rep_onto : Dict Str Str → Dict Str Str → Dict Str Str
rep_onto d [] = d
rep_onto d ((k, v) ∷ types) = rep_onto (insert (rep k) (rep_value v) d) types

-- The order of texts by their code points.
unfoldable pub before : Str → Str → Bool
before s [] = false
before [] (d ∷ t) = true
before (c ∷ s) (d ∷ t) =
    let rest = before s t in if ltb c d then true else if c == d then rest else false

-- `sorted(xs)`
unfoldable pub insert_text : Str → List Str → List Str
insert_text x [] = x ∷ []
insert_text x (y ∷ xs) = if before y x then y ∷ insert_text x xs else x ∷ y ∷ xs

unfoldable pub sorted : List Str → List Str
sorted [] = []
sorted (x ∷ xs) = insert_text x (sorted xs)

-- `"\ttype {} = {};".format(k, v)`
unfoldable pub type_lines : Dict Str Str → List Str
type_lines [] = []
type_lines ((k, v) ∷ types) =
    (lit "\ttype " ++ (k ++ (lit " = " ++ (v ++ lit ";")))) ∷ type_lines types

-- The interface `types`.
unfoldable pub type_if : Dict Str Str → List Str
type_if comp_types = lit "interface types {" ∷ (type_lines comp_types ++ lit "}" ∷ [])

-- `"\ttype {} = ptr;".format(x)`
unfoldable pub ptr_line : Str → Str
ptr_line x = lit "\ttype " ++ (x ++ lit " = ptr;")

-- The interface `syscalls`.
unfoldable pub sc_if : Dict Str Str → List Str → Str → List Str → List Str
sc_if comp_types uniq_ptr_types record_content methods =
    lit "interface syscalls {"
    ∷ (lit "\tuse types.{" ++ (join (lit ", ") (keys comp_types) ++ lit "};"))
    ∷ lit "\t/// Readable pointer types"
    ∷ (map ptr_line (sorted uniq_ptr_types)
        ++ []
          ∷ lit "\t/// Record types"
          ∷ (lit "\t" ++ join (lit "\n\t") (split b'\n' record_content))
          ∷ []
          ∷ lit "\t/// Syscall methods"
          ∷ (methods ++ lit "}" ∷ []))

-- The two stubs of the template, and the tuples for the arrays.
unfoldable pub fill_template : Str → List Str → List Str → Str
fill_template template types syscalls = sub_arrays (
    replace (lit "[[SYSCALLS_STUB]]") (join (lit "\n") syscalls)
      (replace (lit "[[TYPES_STUB]]") (join (lit "\n") types) template))

module _ (types : Types) where
  -- `BASIC_TYPES[arg] if arg in BASIC_TYPES else arg`, behind the name of the parameter.
  unfoldable pub wit_param : ℕ → Str → Str
  wit_param i arg =
      lit "a"
      ++ (show (i + 1) ++ (lit ": " ++ elim (lookup arg types.basic) [ none ↦ arg | some v ↦ v ]))

  unfoldable pub wit_sc_def : Str → Str → Str → List Str → List Str → Str
  wit_sc_def nr [] fn_name args orig_args = []
  wit_sc_def nr (_ ∷ _) fn_name args orig_args = join (lit "\n") (
      (lit "\t// ["
        ++ (nr ++ (lit "] " ++ (fn_name ++ (lit "(" ++ (join (lit ", ") orig_args ++ lit ")"))))))
      ∷ (lit "\tSYS-"
          ++ (replace_char b'_' b'-' fn_name
              ++ (lit ": func("
                  ++ (join (lit ", ") (enumerate 0 wit_param args) ++ lit ") -> syscall-result;"))))
      ∷ [])

  -- The arguments of a row as they are, and their WIT types.
  unfoldable pub wit_args : Row → Result (List Str × List Str)
  wit_args sc = do
    orig_args ← get_scargs types sc false
    args ← traverse ptr_name (map dashed orig_args)
    ok (orig_args, args)

  -- The loop over the rows: the methods, and the pointer types onto those before.
  unfoldable pub scan_methods : List Row → List Str → Result (List Str × List Str)
  scan_methods [] uniq = ok ([], uniq)
  scan_methods (sc ∷ rows) uniq = do
    (orig_args, args) ← wit_args sc
    (buf, uniq') ← scan_methods rows (add_all uniq (keep is_ptr_type args))
    ok (wit_sc_def sc.nr sc.nargs (fn_name_of sc) args orig_args ∷ buf, uniq')

  -- The types of the interface, behind `syscall-result`.
  unfoldable pub comp_types : Dict Str Str
  comp_types = update ((lit "syscall-result", lit "s64") ∷ []) (rep_onto [] (combined_types types))

  -- What is made of the two templates.
  unfoldable pub wit_text : List Str → List Str → Str → Str → Str
  wit_text buf uniq record_content template =
      fill_template template (type_if comp_types)
        (sc_if comp_types uniq record_content (keep truthy buf))

  -- The names of the missing records are only logged.
  unfoldable pub gen_wit_stubs : Str → List Row → Run (Unit {0})
  gen_wit_stubs spath syscall_info =
      Files.◌>>=◌ (lift (scan_methods syscall_info [])) λ (buf, uniq).
        Files.◌>>=◌ (read_file (lit "templates/records.wit.template")) λ record_content.
          Files.◌>>=◌ (read_file (lit "templates/wali.wit.template")) λ template.
            write_file (spath ++ lit "/wali.wit") (wit_text buf uniq record_content template)
