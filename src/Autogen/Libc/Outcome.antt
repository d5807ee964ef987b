-- ===== src/Autogen/Libc/Outcome.antt =====
-- What a run of `gen_libc_stubs` leaves in its four files.
use wali_lib.Base.{str_eq, Str, lit, true, List, [], ◌++◌, ◌≡◌, refl, All, ok}
use wali_lib.Base.Dict.{insert}
use wali_lib.Base.Files.{Files}
use wali_lib.Text.{join}
use wali_lib.Autogen.Types.{Types}
use wali_lib.Autogen.Args.{Row, fn_name_of}
use wali_lib.Autogen.Args.Fit.{IsFitTypes, HasArgs}
use wali_lib.Autogen.Stubs.Laws.{StubsOf, syscall_iter-StubsOf, gen_and_write-ok}
use wali_lib.Autogen.Stubs.Success.{syscall_iter-Returns}
use wali_lib.Autogen.Libc.{
  def_stub, case_stub, rust_def_stub, rust_match_stub, def_prelude, def_postlude, match_prelude,
  match_postlude, gen_libc_stubs,
}
use wali_lib.Autogen.Libc.Laws.{
  is_counted, truthy-def_stub, truthy-case_stub, truthy-rust_def_stub, truthy-rust_match_stub,
}
use wali_lib.Autogen.Libc.Success.{
  def_stub-IsTotal, case_stub-IsTotal, rust_def_stub-IsTotal, rust_match_stub-IsTotal,
}

module _ (types : Types) where
  -- The files after the four are written.
  abbrev pub with_stubs : Str → List Str → List Str → List Str → List Str → Files → Files
  with_stubs spath defs cases rust_defs matches files =
      insert (spath ++ lit "/rust/match.out")
        (match_prelude types ++ (join (lit "\n") matches ++ match_postlude types))
        (insert (spath ++ lit "/rust/defs.out")
          (def_prelude types ++ (join (lit "\n") rust_defs ++ def_postlude types))
          (insert (spath ++ lit "/case.out") (join (lit "\n") cases ++ [])
            (insert (spath ++ lit "/defs.out") (join (lit "\n") defs ++ []) files)))

  -- Where no primitive type is empty, no complex type has the name of a basic one, and every row
  -- has no count, or a count that can be read and as many arguments, each with a letter other than
  -- white space, and a pointer, a basic type, or a complex type whose value is not empty and leads
  -- to a primitive type, `gen_libc_stubs` returns and writes its four files: defs.out and
  -- rust/match.out with a stub for every row of the table, case.out and rust/defs.out with one for
  -- every row with a count of arguments and for no other, each in the order of the table.
  pub gen_libc_stubs-StubsOf :
      (spath : Str) (rows : List Row) (files : Files)
      → IsFitTypes types
      → All (HasArgs types) rows
      → (defs cases rust_defs matches : List Str) × StubsOf types
          (def_stub types)
          (λ _. true)
          rows
          defs
        × StubsOf types (case_stub types) is_counted rows cases
        × StubsOf types (rust_def_stub types) is_counted rows rust_defs
        × StubsOf types (rust_match_stub types) (λ _. true) rows matches
        × (gen_libc_stubs types spath rows files
            ≡ (ok tt, with_stubs spath defs cases rust_defs matches files))
  unfolding gen_libc_stubs
  gen_libc_stubs-StubsOf spath rows files fit h =
      let (defs, hd) =
        syscall_iter-Returns types fit (def_stub types) (def_stub-IsTotal types fit) rows h in
      let (cases, hc) =
        syscall_iter-Returns types fit (case_stub types) (case_stub-IsTotal types fit) rows h in
      let (rust_defs, hr) =
        syscall_iter-Returns types fit (rust_def_stub types) (rust_def_stub-IsTotal types fit) rows
          h in
      let (matches, hm) =
        syscall_iter-Returns types fit (rust_match_stub types) (rust_match_stub-IsTotal types fit)
          rows h in
      (
        defs,
        cases,
        rust_defs,
        matches,
        syscall_iter-StubsOf types (def_stub types) (λ _. true) rows defs
            (λ row args s.
              truthy-def_stub types row.nr row.nargs row.syscall (fn_name_of row) args s)
            hd,
        syscall_iter-StubsOf types (case_stub types) is_counted rows cases
            (λ row args s.
              truthy-case_stub types row.nr row.nargs row.syscall (fn_name_of row) args s)
            hc,
        syscall_iter-StubsOf types (rust_def_stub types) is_counted rows rust_defs
            (λ row args s.
              truthy-rust_def_stub types row.nr row.nargs row.syscall (fn_name_of row) args s)
            hr,
        syscall_iter-StubsOf types (rust_match_stub types) (λ _. true) rows matches
            (λ row args s.
              truthy-rust_match_stub types row.nr row.nargs row.syscall (fn_name_of row) args s)
            hm,
        rw
            (
              gen_and_write-ok types (def_stub types) rows (spath ++ lit "/defs.out") [] [] files
                  defs hd,
              gen_and_write-ok types (case_stub types) rows (spath ++ lit "/case.out") [] [] _ cases
                  hc,
              gen_and_write-ok types (rust_def_stub types) rows (spath ++ lit "/rust/defs.out")
                  (def_prelude types) (def_postlude types) _ rust_defs hr,
              gen_and_write-ok types (rust_match_stub types) rows (spath ++ lit "/rust/match.out")
                  (match_prelude types) (match_postlude types) _ matches hm,
            )
            refl,
      )
