-- ===== src/Autogen/Stubs/Laws.antt =====
-- `syscall_iter` gives the stubs of the rows, in their order, but for the empty ones, and `gen_and_write` changes
-- its own file, or nothing where a row raises.
use wali_lib.Base.{
  Error, str_eq, Str, lit, Bool, true, false, List, [], ◌∷◌, ◌++◌, ◌≡◌, refl, sym, ◌∙◌, subst, keep,
  ok, err, traverse, ok-injective, returned, Bool-cases, inl, inr,
}
use wali_lib.Base.Dict.{insert}
use wali_lib.Base.Files.{Files}
use wali_lib.Text.{join}
use wali_lib.Autogen.Types.{Types}
use wali_lib.Autogen.Args.{Row, get_scargs, fn_name_of}
use wali_lib.Autogen.Stubs.{Stub, truthy, row_stub, syscall_iter, gen_and_write}

-- The stubs of the rows that a test takes, one for each and in the order of the table: what the stub
-- function gives for the row and its resolved arguments.
pub data StubsOf (types : Types) (stub : Stub) (takes : Row → Bool)
    : List Row → List Str → Type 0 where
  no_rows : StubsOf types stub takes [] []
  left_out :
      (row : Row) (rows : List Row) (buf : List Str)
      → takes row ≡ false
      → StubsOf types stub takes rows buf
      → StubsOf types stub takes (row ∷ rows) buf
  taken :
      (row : Row) (rows : List Row) (args : List Str) (s : Str) (buf : List Str)
      → takes row ≡ true
      → get_scargs types row true ≡ ok args
      → stub row.nr row.nargs row.syscall (fn_name_of row) args ≡ ok s
      → StubsOf types stub takes rows buf
      → StubsOf types stub takes (row ∷ rows) (s ∷ buf)

keep-nil : keep truthy [] ≡ []
unfolding keep
keep-nil = refl

keep-truthy :
    (s : Str) (buf : List Str) → truthy s ≡ true → keep truthy (s ∷ buf) ≡ s ∷ keep truthy buf
unfolding keep
keep-truthy s buf h = rw h refl

keep-falsy : (s : Str) (buf : List Str) → truthy s ≡ false → keep truthy (s ∷ buf) ≡ keep truthy buf
unfolding keep
keep-falsy s buf h = rw h refl

module _ (types : Types) (stub : Stub) where
  -- The stub of a row is its stub function's on some arguments.
  pub row_stub-args :
      (row : Row) (s : Str)
      → row_stub types stub row ≡ ok s
      → (args : List Str) × (get_scargs types row true ≡ ok args)
        × (stub row.nr row.nargs row.syscall (fn_name_of row) args ≡ ok s)
  unfolding row_stub
  row_stub-args row s h = returned (get_scargs types row true) _ h

  -- A stub function whose stub is empty exactly on the rows that the test leaves out.
  abbrev pub Takes : (Row → Bool) → Type 0
  Takes takes =
      (row : Row) (args : List Str) (s : Str)
      → stub row.nr row.nargs row.syscall (fn_name_of row) args ≡ ok s
      → truthy s ≡ takes row

  keep-StubsOf :
      (takes : Row → Bool) (rows : List Row) (all : List Str)
      → Takes takes
      → traverse (row_stub types stub) rows ≡ ok all
      → StubsOf types stub takes rows (keep truthy all)
  unfolding traverse
  keep-StubsOf takes [] all kept h =
      subst (λ b. StubsOf types stub takes [] (keep truthy b)) (ok-injective h)
        (rw keep-nil no_rows)
  keep-StubsOf takes (row ∷ rows) all kept h =
      let (s, hs, h₁) = returned (row_stub types stub row) _ h in
      let (rest, hr, h₂) = returned (traverse (row_stub types stub) rows) _ h₁ in
      let (args, ha, made) = row_stub-args row s hs in
      let stubs = keep-StubsOf takes rows rest kept hr in
      let same = kept row args s made in
      subst (λ b. StubsOf types stub takes (row ∷ rows) (keep truthy b)) (ok-injective h₂)
        (elim (Bool-cases (truthy s)) [
          | inl full ↦
              rw (keep-truthy s rest full)
                (taken row rows args s (keep truthy rest) (sym same ∙ full) ha made stubs)
          | inr empty ↦
              rw (keep-falsy s rest empty)
                (left_out row rows (keep truthy rest) (sym same ∙ empty) stubs)
        ])

  -- The stubs are those of the rows that have one.
  pub syscall_iter-StubsOf :
      (takes : Row → Bool) (rows : List Row) (buf : List Str)
      → Takes takes
      → syscall_iter types rows stub ≡ ok buf
      → StubsOf types stub takes rows buf
  unfolding syscall_iter
  syscall_iter-StubsOf takes rows buf kept h =
      let (all, ha, h') = returned (traverse (row_stub types stub) rows) _ h in
      subst (StubsOf types stub takes rows) (ok-injective h') (keep-StubsOf takes rows all kept ha)

  -- The file after the stubs are written.
  abbrev pub content : Str → Str → List Str → Str
  content prelude postlude buf = prelude ++ (join (lit "\n") buf ++ postlude)

  module _ (rows : List Row) (path prelude postlude : Str) (files : Files) where
    pub gen_and_write-ok :
        (buf : List Str)
        → syscall_iter types rows stub ≡ ok buf
        → gen_and_write types stub rows path prelude postlude files
          ≡ (ok tt, insert path (content prelude postlude buf) files)
    unfolding gen_and_write
    gen_and_write-ok buf h = rw h

    pub gen_and_write-err :
        {e : Error}
        → syscall_iter types rows stub ≡ err e
        → gen_and_write types stub rows path prelude postlude files ≡ (err e, files)
    unfolding gen_and_write
    gen_and_write-err h = rw h
