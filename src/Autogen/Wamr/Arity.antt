-- ===== src/Autogen/Wamr/Arity.antt =====
-- The texts that `gen_wamr_stubs` makes of a row, by the number and the types of its arguments.
use wali_lib.Base.{
  append-nil, append_assoc, ℕ, zero, suc, ◌+◌, Str, lit, true, ◌||◌, none, some, List, [], ◌∷◌,
  ◌++◌, map, ◌≡◌, ◌≢◌, refl, sym, ◌∙◌, ap, arith, nat_eq, ◌==◌, All, length, ok, if◌then◌else◌,
}
use wali_lib.Text.{join, ends_with, last?, pad_left}
use wali_lib.Text.Decimal.{pos, show, read_int}
use wali_lib.Autogen.Types.{Types}
use wali_lib.Autogen.Args.{Row, fn_name_of, get_scargs, last_char}
use wali_lib.Autogen.Args.Fit.{last?-nonempty}
use wali_lib.Autogen.Args.Laws.{length-get_scargs}
use wali_lib.Autogen.Stubs.{enumerate, row_stub}
use wali_lib.Autogen.Wamr.{
  long_param, call_args, param_letter, gen_native_args, declr_stub, impl_stub, symbols_stub,
}

-- So many parameters `long`, numbered from the first number on.
pub longs : ℕ → ℕ → Str
longs i zero = []
longs i (suc n) = lit ", long a" ++ (show i ++ longs (suc i) n)

-- What the call of the system passes for one argument type: a pointer through `MADDR`.
abbrev pub passed_one : ℕ → Str → Str
passed_one i x = elim (last? x) [
  | none ↦ []
  | some c ↦ if c == b'*' then lit ", MADDR(a" ++ (show i ++ lit ")") else lit ", a" ++ show i
]

-- What the call passes for the arguments, numbered from the first number on.
pub passed : ℕ → List Str → Str
passed i [] = []
passed i (x ∷ args) = passed_one i x ++ passed (suc i) args

-- The letter of one argument type.
abbrev pub letter_of : Str → ℕ
letter_of x = if ends_with x (lit "long long") || ends_with x (lit "long") then b'I' else b'i'

-- The declaration of a function with so many parameters.
abbrev pub declaration : Str → ℕ → Str
declaration fn n =
    lit "long wali_syscall_"
    ++ (fn ++ (lit " (wasm_exec_env_t exec_env" ++ (longs 1 n ++ lit ");")))

-- Its implementation, around the arguments of the call.
abbrev pub implementation : Str → Str → ℕ → Str → Str
implementation nr fn n arguments = join (lit "\n") (
    (lit "// " ++ (nr ++ lit " TODO"))
    ∷ (lit "long wali_syscall_"
        ++ (fn ++ (lit " (wasm_exec_env_t exec_env" ++ (longs 1 n ++ lit ") {"))))
    ∷ (lit "\tSC(" ++ (nr ++ (lit " ," ++ (fn ++ lit ");"))))
    ∷ (lit "\tERRSC(" ++ (fn ++ lit ");"))
    ∷ (lit "\tRETURN(__syscall" ++ (show n ++ (lit "(SYS_" ++ (fn ++ (arguments ++ lit "));")))))
    ∷ lit "}\n"
    ∷ [])

-- Its line in the table of the native symbols, around the letters of the parameters.
abbrev pub symbol : Str → Str → Str
symbol fn letters =
    lit "\tNSYMBOL ( "
    ++ (pad_left 20 (lit "SYS_" ++ fn)
        ++ (lit ", "
            ++ (pad_left 30 (lit "wali_syscall_" ++ fn)
                ++ (lit ", "
                    ++ (pad_left 12 (lit "\"(" ++ (letters ++ lit ")I\"")) ++ lit " ),")))))

join-cons : (p : Str) (parts : List Str) → join [] (p ∷ parts) ≡ p ++ join [] parts
unfolding join
join-cons p [] = sym (append-nil p)
join-cons p (q ∷ parts) = refl

long_param-longs :
    (i : ℕ) (x rest : Str) → long_param i x ++ rest ≡ lit ", long a" ++ (show (suc i) ++ rest)
unfolding long_param
long_param-longs i x rest =
    append_assoc (lit ", long a") (show (i + 1)) rest
    ∙ ap (λ n. lit ", long a" ++ (show n ++ rest)) (omega arith)

enumerate-longs :
    (i : ℕ) (args : List Str) → join [] (enumerate i long_param args) ≡ longs (suc i) (length args)
unfolding enumerate longs
enumerate-longs i [] = unfold join in refl
enumerate-longs i (x ∷ args) =
    join-cons (long_param i x) (enumerate (suc i) long_param args)
    ∙ long_param-longs i x (join [] (enumerate (suc i) long_param args))
    ∙ ap (λ t. lit ", long a" ++ (show (suc i) ++ t)) (enumerate-longs (suc i) args)

param_letter_one : (x : Str) → param_letter x ≡ letter_of x ∷ []
unfolding param_letter lit
param_letter_one x = ground arith

join-param_letter : (args : List Str) → join [] (map param_letter args) ≡ map letter_of args
unfolding join
join-param_letter [] = refl
join-param_letter (x ∷ args) =
    join-cons (param_letter x) (map param_letter args)
    ∙ (rw (join-param_letter args, param_letter_one x))

gen_native_args-letters :
    (args : List Str) → gen_native_args args ≡ lit "\"(" ++ (map letter_of args ++ lit ")I\"")
unfolding gen_native_args lit
gen_native_args-letters args = rw join-param_letter refl

passed_one-last :
    (i c : ℕ) (x : Str)
    → last? x ≡ some c
    → passed_one i x
      ≡ (if c == b'*' then lit ", MADDR(a" ++ (show i ++ lit ")") else lit ", a" ++ show i)
passed_one-last i c x last = rw (passed_one, last) refl

call_args-passed :
    (i : ℕ) (args : List Str)
    → All (λ x. x ≢ []) args
    → (out : List Str) × (call_args i args ≡ ok out) × (join [] out ≡ passed (suc i) args)
unfolding call_args last_char passed
call_args-passed i [] h = ([], refl, unfold join in refl)
call_args-passed i (x ∷ args) (ne, h) =
    let (c, last) = last?-nonempty x ne in
    let (out, called, joined) = call_args-passed (suc i) args h in
    let next : i + 1 ≡ suc i = omega arith in
    (
      passed_one (suc i) x ∷ out,
      rw (call_args, last_char, last, called)
          (ap
              (λ (k : ℕ). ok (
                (if c == b'*' then lit ", MADDR(a" ++ (show k ++ lit ")") else lit ", a" ++ show k)
                ∷ out))
              next
            ∙ ap (λ t. ok (t ∷ out)) (sym (passed_one-last (suc i) c x last))),
      join-cons (passed_one (suc i) x) out ∙ ap (λ t. passed_one (suc i) x ++ t) joined,
    )

module _ (types : Types) (row : Row) (args : List Str)
    (resolved : get_scargs types row true ≡ ok args) where
  declr-declaration :
      row_stub types declr_stub row ≡ ok (declaration (fn_name_of row) (length args))
  unfolding row_stub declr_stub
  declr-declaration = rw (resolved, enumerate-longs 0 args) refl

  impl_stub-counted :
      (nr nargs name fn : Str) (out : List Str)
      → nargs ≢ []
      → call_args 0 args ≡ ok out
      → join [] out ≡ passed 1 args
      → impl_stub nr nargs name fn args ≡ ok (implementation nr fn (length args) (passed 1 args))
  unfolding impl_stub
  impl_stub-counted nr [] name fn out given called joined = absurd (given refl)
  impl_stub-counted nr (_ ∷ _) name fn out given called joined =
      rw (called, joined, enumerate-longs 0 args) refl

  impl-implementation :
      row.nargs ≢ []
      → All (λ x. x ≢ []) args
      → row_stub types impl_stub row
        ≡ ok (implementation row.nr (fn_name_of row) (length args) (passed 1 args))
  unfolding row_stub
  impl-implementation given h =
      let (out, called, joined) = call_args-passed 0 args h in
      rw resolved
        (impl_stub-counted row.nr row.nargs row.syscall (fn_name_of row) out given called joined)

  symbols_stub-counted :
      (nr nargs name fn : Str)
      → nargs ≢ []
      → symbols_stub nr nargs name fn args ≡ ok (symbol fn (map letter_of args))
  unfolding symbols_stub
  symbols_stub-counted nr [] name fn given = absurd (given refl)
  symbols_stub-counted nr (_ ∷ _) name fn given = rw (gen_native_args-letters args) refl

  symbols-symbol :
      row.nargs ≢ []
      → row_stub types symbols_stub row ≡ ok (symbol (fn_name_of row) (map letter_of args))
  unfolding row_stub
  symbols-symbol given =
      rw resolved (symbols_stub-counted row.nr row.nargs row.syscall (fn_name_of row) given)

-- For a row with a count `n` whose arguments can be resolved, to types that are not empty, there are
-- `n` types; the declaration and the implementation have the parameters `long a1` to `long an`, the
-- implementation calls the system with the `n` arguments in their order, a pointer through `MADDR`,
-- and the signature of the native symbol has a letter for each type in their order, `I` exactly for
-- a type whose name ends in `long`.
pub wamr_arity :
    (types : Types) (row : Row) (args : List Str) (n : ℕ)
    → row.nargs ≢ []
    → read_int row.nargs ≡ some (pos n)
    → get_scargs types row true ≡ ok args
    → All (λ x. x ≢ []) args
    → (length args ≡ n)
      × (row_stub types declr_stub row ≡ ok (declaration (fn_name_of row) n))
      × (row_stub types impl_stub row
          ≡ ok (implementation row.nr (fn_name_of row) n (passed 1 args)))
      × (row_stub types symbols_stub row ≡ ok (symbol (fn_name_of row) (map letter_of args)))
wamr_arity types row args n given count resolved named =
    let counted : length args ≡ n = length-get_scargs types row true args n given count resolved in
    (
      counted,
      declr-declaration types row args resolved
          ∙ ap (λ m. ok (declaration (fn_name_of row) m)) counted,
      impl-implementation types row args resolved given named
          ∙ ap (λ m. ok (implementation row.nr (fn_name_of row) m (passed 1 args))) counted,
      symbols-symbol types row args resolved given,
    )
