-- ===== src/Autogen/Args.antt =====
-- The arguments of a system call: `get_scargs`, `ptr_anonymize` and `rustify_args` of
-- scripts/autogen.py, on a row of the table of the system calls.
pub mod Halting
pub mod Kinds
pub mod Laws
pub mod Fit
use wali_lib.Base.{
  ℕ, zero, suc, Str, lit, Bool, true, false, ◌&&◌, not, Option, none, some, List, [], ◌∷◌, ◌++◌,
  nat_eq, str_eq, ◌==◌, contains, if◌then◌else◌, length, Result, ok, err, index_error, key_error,
  value_error, diverges, traverse, ◌>>=◌,
}
use wali_lib.Base.Dict.{Dict, lookup, has}
use wali_lib.Text.{last?, but_last}
use wali_lib.Text.Decimal.{pos, negsuc, read_int}
use wali_lib.Autogen.Types.{Types, combined_types, wit_primitives}

-- A row as `parse_csv` gives it: the cells are texts, and the columns `a1`, `a2`, … and those of the
-- architectures stand together.
pub record Row : Type 0 where
  pub nr : Str
  pub syscall : Str
  pub nargs : Str
  pub args : List Str
  pub aliases : Str
  pub arch_nrs : Dict Str Str

-- `sc['Aliases'] if sc['Aliases'] else sc['Syscall']`
unfoldable pub fn_name_of : Row → Str
unfolding str_eq
fn_name_of row = if row.aliases == [] then row.syscall else row.aliases

-- `[x["a"+str(i+1)] for i in range(n)]`
unfoldable pub cells : ℕ → List Str → Result (List Str)
cells zero columns = ok []
cells (suc n) [] = err key_error
cells (suc n) (a ∷ columns) = do rest ← cells n columns; ok (a ∷ rest)

unfoldable pub row_args : Row → Result (List Str)
row_args row = elim (read_int row.nargs) [
  | none ↦ err value_error
  | some n ↦ elim n [ pos k ↦ cells k row.args | negsuc _ ↦ ok [] ]
]

-- `d.get(k, "UNDEF")`
unfoldable pub get_or_undef : Dict Str Str → Str → Str
get_or_undef d k = elim (lookup k d) [ none ↦ lit "UNDEF" | some v ↦ v ]

-- `x[-1]` of a text.
unfoldable pub last_char : Str → Result ℕ
last_char s = elim (last? s) [ none ↦ err index_error | some c ↦ ok c ]

-- `v[0]` of a text decides: `s32` becomes `i32`.
unfoldable pub rust_name : Str → Result Str
unfolding nat_eq
rust_name [] = err index_error
rust_name (c ∷ v) = ok (if c == b's' then b'i' ∷ v else c ∷ v)

module _ (types : Types) where
  unfoldable pub resolve_arg : Str → Result Str
  resolve_arg arg = do
    c ← last_char arg
    ok (
        if not (c == b'*') && not (has arg types.basic)
        then get_or_undef types.complex arg
        else arg)

  -- `get_scargs(x, replace_complex)`
  unfoldable pub get_scargs : Row → Bool → Result (List Str)
  get_scargs row replace_complex =
      if row.nargs == []
      then ok []
      else do args ← row_args row; if replace_complex then traverse resolve_arg args else ok args

  unfoldable pub anonymize : Str → Result Str
  anonymize x = do
    c ← last_char x
    ok (if c == b'*' && not (has (but_last x) types.basic) then lit "void*" else x)

  unfoldable pub ptr_anonymize : List Str → Result (List Str)
  ptr_anonymize = traverse anonymize

  -- `COMBINED_TYPES.get(v, "UNDEF")`
  unfoldable pub next_type : Str → Str
  next_type v = get_or_undef (combined_types types) v

  unfoldable pub is_primitive : Str → Bool
  is_primitive v = contains (wit_primitives types) v

  -- `while v not in WIT_PRIMITIVE_SET`, at most so many rounds.
  unfoldable pub simplify_loop : ℕ → Str → Result Str
  simplify_loop zero v = err diverges
  simplify_loop (suc fuel) v =
      let rest = simplify_loop fuel (next_type v) in if is_primitive v then ok v else rest

  -- A loop that ends does so within these rounds.
  unfoldable pub simplify_fuel : ℕ
  simplify_fuel = suc (suc (suc (length (combined_types types))))

  unfoldable pub rs_simplify : Str → Result Str
  rs_simplify v = do w ← simplify_loop simplify_fuel v; rust_name w

  unfoldable pub rustify : Str → Result Str
  rustify x = do c ← last_char x; if c == b'*' then ok (lit "i32") else rs_simplify x

  unfoldable pub rustify_args : List Str → Result (List Str)
  rustify_args = traverse rustify
