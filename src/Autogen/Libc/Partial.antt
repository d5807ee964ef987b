-- ===== src/Autogen/Libc/Partial.antt =====
-- `gen_libc_stubs` on a table with a type that is in no template.
use wali_lib.Base.{
  ℕ, str_eq, nat_eq, Str, lit, true, false, none, some, List, [], ◌∷◌, ◌++◌, ◌≡◌, ◌≢◌, refl, arith,
  All, All-map, ok, err, diverges, traverse-Returns, traverse-stops, Returns, Returns-bind, keep,
}
use wali_lib.Base.Dict.{lookup, insert}
use wali_lib.Base.Files.{Files}
use wali_lib.Text.{join, last?}
use wali_lib.Autogen.Types.{Types, combined_types}
use wali_lib.Autogen.Args.{
  Row, fn_name_of, last_char, get_scargs, anonymize, ptr_anonymize, rustify, rustify_args,
  rs_simplify, is_primitive, simplify_fuel,
}
use wali_lib.Autogen.Args.Fit.{
  IsFitTypes, HasArgs, IsResolved, last_char-nonempty, rustify-IsResolved,
}
use wali_lib.Autogen.Args.Kinds.{simplify_loop-unknown}
use wali_lib.Autogen.Stubs.{Stub, truthy, row_stub, syscall_iter}
use wali_lib.Autogen.Stubs.Laws.{StubsOf, syscall_iter-StubsOf, gen_and_write-ok, gen_and_write-err}
use wali_lib.Autogen.Stubs.Success.{row_stub-HasArgs}
use wali_lib.Autogen.Libc.{
  def_stub, case_stub, rust_def_stub, def_prelude, def_postlude, gen_libc_stubs,
}
use wali_lib.Autogen.Libc.Laws.{is_counted, truthy-def_stub, truthy-case_stub}
use wali_lib.Autogen.Libc.Success.{rust_def_stub-IsTotal}

module _ (types : Types) where
  -- The arguments of a row can be read, and none is empty.
  abbrev pub HasCells : Row → Type 0
  HasCells row = (args : List Str) × (get_scargs types row true ≡ ok args) × All (λ x. x ≢ []) args

  -- A type that is no pointer, no primitive type, and in no template.
  abbrev pub IsUnknown : Str → Type 0
  IsUnknown x =
      ((c : ℕ) × (last? x ≡ some c) × (c ≢ b'*'))
      × (lookup x (combined_types types) ≡ none)
      × (is_primitive types x ≡ false)

  -- The first argument of a row that `rustify_args` cannot make a Rust type of is an unknown one.
  pub record MeetsUnknown (row : Row) : Type 0 where
    pub given : row.nargs ≢ []
    pub known : List Str
    pub unknown : Str
    pub others : List Str
    pub read : get_scargs types row true ≡ ok (known ++ unknown ∷ others)
    pub are_known : All (IsResolved types) known
    pub is_unknown : IsUnknown unknown

  ptr_anonymize-Returns :
      (args : List Str) → All (λ x. x ≢ []) args → Returns (ptr_anonymize types args)
  unfolding ptr_anonymize anonymize
  ptr_anonymize-Returns args h =
      let (ys, e, _) =
        traverse-Returns (λ _. Unit {0}) (anonymize types) args
          (All-map (λ x. x ≢ []) _
            (λ x ne.
              let (y, made) =
                Returns-bind (last_char x) _ (last_char-nonempty x ne) λ c h. (_, refl) in
              (y, made, tt))
            args h) in
      (ys, e)

  def_stub-HasCells : (row : Row) → HasCells row → Returns (row_stub types (def_stub types) row)
  unfolding row_stub def_stub
  def_stub-HasCells row (args, read, named) = rw read (
      Returns-bind (ptr_anonymize types args) _ (ptr_anonymize-Returns args named)
        λ tys e. (_, refl))

  case_stub-nonempty :
      (nr nargs name fn : Str) (args : List Str)
      → All (λ x. x ≢ []) args
      → Returns (case_stub types nr nargs name fn args)
  unfolding case_stub
  case_stub-nonempty nr [] name fn args h = ([], refl)
  case_stub-nonempty nr (_ ∷ _) name fn args h =
      Returns-bind (ptr_anonymize types args) _ (ptr_anonymize-Returns args h) λ tys e. (_, refl)

  case_stub-HasCells : (row : Row) → HasCells row → Returns (row_stub types (case_stub types) row)
  unfolding row_stub
  case_stub-HasCells row (args, read, named) =
      rw read (case_stub-nonempty row.nr row.nargs row.syscall (fn_name_of row) args named)

  stubs-Returns :
      (stub : Stub)
      → ((row : Row) → HasCells row → Returns (row_stub types stub row))
      → (rows : List Row) → All HasCells rows
      → Returns (syscall_iter types rows stub)
  unfolding syscall_iter
  stubs-Returns stub total rows h =
      let (buf, e, _) =
        traverse-Returns (λ _. Unit {0}) (row_stub types stub) rows
          (All-map HasCells _ (λ row c. let (s, made) = total row c in (s, made, tt)) rows h) in
      (keep truthy buf, rw (syscall_iter, e) refl)

  module _ (fit : IsFitTypes types)
      (undef_absent : lookup (lit "UNDEF") (combined_types types) ≡ none)
      (undef_other : is_primitive types (lit "UNDEF") ≡ false) where
    rustify-IsUnknown : (x : Str) → IsUnknown x → rustify types x ≡ err diverges
    unfolding rustify last_char rs_simplify
    rustify-IsUnknown x ((c, last, other), absent, none_such) =
        let endless =
          simplify_loop-unknown types (simplify_fuel types) x undef_absent undef_other absent
            none_such in
        ground (arith, endless)

    rust_def_stub-diverges :
        (nr nargs name fn : Str) (args : List Str)
        → nargs ≢ []
        → rustify_args types args ≡ err diverges
        → rust_def_stub types nr nargs name fn args ≡ err diverges
    unfolding rust_def_stub
    rust_def_stub-diverges nr [] name fn args given h = absurd (given refl)
    rust_def_stub-diverges nr (_ ∷ _) name fn args given h = rw h refl

    row-MeetsUnknown :
        (row : Row) → MeetsUnknown row → row_stub types (rust_def_stub types) row ≡ err diverges
    unfolding row_stub rustify_args
    row-MeetsUnknown row m =
        let stops : rustify_args types (m.known ++ m.unknown ∷ m.others) ≡ err diverges =
          traverse-stops (rustify types) m.known m.unknown m.others
            (All-map (IsResolved types) _ (λ y r. rustify-IsResolved types fit y r) m.known
              m.are_known)
            (rustify-IsUnknown m.unknown m.is_unknown) in
        rw m.read
          (rust_def_stub-diverges row.nr row.nargs row.syscall (fn_name_of row) _ m.given stops)

    rust_defs-diverge :
        (before : List Row) (row : Row) (after : List Row)
        → All (HasArgs types) before
        → MeetsUnknown row
        → syscall_iter types (before ++ row ∷ after) (rust_def_stub types) ≡ err diverges
    unfolding syscall_iter
    rust_defs-diverge before row after h m =
        rw
          (traverse-stops (row_stub types (rust_def_stub types)) before row after
            (All-map (HasArgs types) _
              (λ r ha.
                let (s, made, _) =
                  row_stub-HasArgs types fit (rust_def_stub types) (rust_def_stub-IsTotal types fit)
                    r ha in
                (s, made))
              before h)
            (row-MeetsUnknown row m))
          refl

    -- Where the resolved arguments of every row can be read and none of them is empty; where no
    -- primitive type is empty, no complex type has the name of a basic one, and every row before a
    -- certain one has no count, or a count that can be read and as many arguments, each with a
    -- letter other than white space, and a pointer, a basic type, or a complex type whose value is
    -- not empty and leads to a primitive type; where that row has a count and its resolved
    -- arguments are pointers and types that lead to a primitive one, up to one that is no pointer,
    -- no primitive type and has no entry in the tables; and where `UNDEF` is no primitive type and
    -- has no entry, the result of `gen_libc_stubs` is `diverges`, the mark of a loop that never
    -- ends. The two C files are written, defs.out with a stub for every row of the whole table and
    -- case.out with one for every row with a count and for no other, and nothing else is.
    pub gen_libc_stubs_partial :
        (spath : Str) (before : List Row) (row : Row) (after : List Row) (files : Files)
        → All HasCells (before ++ row ∷ after)
        → All (HasArgs types) before
        → MeetsUnknown row
        → (defs cases : List Str) × StubsOf types
            (def_stub types)
            (λ _. true)
            (before ++ row ∷ after)
            defs
          × StubsOf types (case_stub types) is_counted (before ++ row ∷ after) cases
          × (gen_libc_stubs types spath (before ++ row ∷ after) files ≡ (
            err diverges,
            insert
                (spath ++ lit "/case.out")
                (join (lit "\n") cases ++ [])
                (insert (spath ++ lit "/defs.out") (join (lit "\n") defs ++ []) files),
          ))
    unfolding gen_libc_stubs
    gen_libc_stubs_partial spath before row after files readable h m =
        let rows = before ++ row ∷ after in
        let (defs, hd) = stubs-Returns (def_stub types) def_stub-HasCells rows readable in
        let (cases, hc) = stubs-Returns (case_stub types) case_stub-HasCells rows readable in
        (
          defs,
          cases,
          syscall_iter-StubsOf types (def_stub types) (λ _. true) rows defs
              (λ r args s. truthy-def_stub types r.nr r.nargs r.syscall (fn_name_of r) args s) hd,
          syscall_iter-StubsOf types (case_stub types) is_counted rows cases
              (λ r args s. truthy-case_stub types r.nr r.nargs r.syscall (fn_name_of r) args s) hc,
          rw
              (
                gen_and_write-ok types (def_stub types) rows (spath ++ lit "/defs.out") [] [] files
                    defs hd,
                gen_and_write-ok types (case_stub types) rows (spath ++ lit "/case.out") [] [] _
                    cases hc,
                gen_and_write-err types (rust_def_stub types) rows (spath ++ lit "/rust/defs.out")
                    (def_prelude types) (def_postlude types) _
                    (rust_defs-diverge before row after h m),
              )
              refl,
        )
