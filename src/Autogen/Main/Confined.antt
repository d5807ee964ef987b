-- ===== src/Autogen/Main/Confined.antt =====
-- Every generator reads only templates and writes only in the directory of its stub.
use wali_lib.Base.{
  Str, lit, Bool, true, List, [], ◌∷◌, ◌++◌, append_assoc, ◌≡◌, refl, sym, ◌∙◌, ap, arith, nat_eq,
  str_eq, ◌==◌, Result, ok, err, key_error,
}
use wali_lib.Base.Dict.{Dict}
use wali_lib.Base.Files.Confined.{
  Confined, Confined-lift, Confined-read_file, Confined-write_file, Confined-bind, Confined-seq,
  Confined-if,
}
use wali_lib.Text.{starts_with, join}
use wali_lib.Autogen.Types.{Types}
use wali_lib.Autogen.Args.{Row}
use wali_lib.Autogen.Stubs.{Stub, syscall_iter, gen_and_write}
use wali_lib.Autogen.Libc.{
  gen_libc_stubs, def_stub, case_stub, rust_def_stub, rust_match_stub, def_prelude, def_postlude,
  match_prelude, match_postlude,
}
use wali_lib.Autogen.Wamr.{gen_wamr_stubs, declr_stub, impl_stub, symbols_stub}
use wali_lib.Autogen.Wit.{gen_wit_stubs, scan_methods}
use wali_lib.Autogen.ArchDiff.{gen_arch_diff_stubs, scan_rows, empty_bufs, write_bufs}
use wali_lib.Autogen.Markdown.{Packages, gen_markdown_stubs, unsupported, supp_format}
use wali_lib.Autogen.Main.{Frame, generate}

-- Whether a path is in the directory of the templates.
abbrev pub in_templates : Str → Bool
in_templates q = starts_with q (lit "templates/")

-- Whether a path is in a directory.
abbrev pub inside : Str → Str → Bool
inside directory q = starts_with q (directory ++ lit "/")

starts_with-append : (p s : Str) → starts_with (p ++ s) p ≡ true
unfolding starts_with
starts_with-append [] s = refl
starts_with-append (c ∷ p) s = ground (arith, starts_with-append p s)

inside-append : (directory x : Str) → inside directory (directory ++ (lit "/" ++ x)) ≡ true
inside-append directory x =
    ap (λ p. starts_with p (directory ++ lit "/")) (sym (append_assoc directory (lit "/") x))
    ∙ starts_with-append (directory ++ lit "/") x

module _ (spath : Str) where
  gen_and_write-Confined :
      (types : Types) (stub : Stub) (rows : List Row) (x prelude postlude : Str)
      → Confined in_templates
          (inside spath)
          (gen_and_write types stub rows (spath ++ (lit "/" ++ x)) prelude postlude)
  unfolding gen_and_write
  gen_and_write-Confined types stub rows x prelude postlude =
      Confined-bind (Confined-lift (syscall_iter types rows stub))
        λ buf. Confined-write_file _ _ (inside-append spath x)

  gen_libc_stubs-Confined :
      (types : Types) (rows : List Row)
      → Confined in_templates (inside spath) (gen_libc_stubs types spath rows)
  unfolding gen_libc_stubs lit
  gen_libc_stubs-Confined types rows =
      Confined-seq
        (Confined-seq
          (Confined-seq (gen_and_write-Confined types (def_stub types) rows (lit "defs.out") [] [])
            (gen_and_write-Confined types (case_stub types) rows (lit "case.out") [] []))
          (gen_and_write-Confined types (rust_def_stub types) rows (lit "rust/defs.out")
            (def_prelude types) (def_postlude types)))
        (gen_and_write-Confined types (rust_match_stub types) rows (lit "rust/match.out")
          (match_prelude types) (match_postlude types))

  gen_wamr_stubs-Confined :
      (types : Types) (rows : List Row)
      → Confined in_templates (inside spath) (gen_wamr_stubs types spath rows)
  unfolding gen_wamr_stubs lit
  gen_wamr_stubs-Confined types rows =
      Confined-seq
        (Confined-seq (gen_and_write-Confined types declr_stub rows (lit "declr.out") [] [])
          (gen_and_write-Confined types impl_stub rows (lit "impl.out") [] []))
        (gen_and_write-Confined types symbols_stub rows (lit "symbols.out") [] [])

  gen_wit_stubs-Confined :
      (types : Types) (rows : List Row)
      → Confined in_templates (inside spath) (gen_wit_stubs types spath rows)
  unfolding gen_wit_stubs lit starts_with
  gen_wit_stubs-Confined types rows =
      Confined-bind (Confined-lift (scan_methods types rows [])) λ (buf, uniq).
        Confined-bind (Confined-read_file _ refl) λ record_content.
          Confined-bind (Confined-read_file _ refl)
            λ template. Confined-write_file _ _ (inside-append spath (lit "wali.wit"))

  write_bufs-Confined :
      (bufs : Dict Str (List Str)) → Confined in_templates (inside spath) (write_bufs spath bufs)
  unfolding write_bufs
  write_bufs-Confined [] = Confined-lift (ok tt)
  write_bufs-Confined ((arch, buf) ∷ bufs) =
      Confined-bind
        (Confined-write_file _ (join (lit "\n") buf)
          (inside-append spath (arch ++ lit "_undefined.out")))
        λ _. write_bufs-Confined bufs

  gen_arch_diff_stubs-Confined :
      (rows : List Row) (archs : List Str)
      → Confined in_templates (inside spath) (gen_arch_diff_stubs spath rows archs)
  unfolding gen_arch_diff_stubs
  gen_arch_diff_stubs-Confined rows archs =
      Confined-bind (Confined-lift (scan_rows rows archs (empty_bufs archs))) write_bufs-Confined

  gen_markdown_stubs-Confined :
      (packages : Packages) (rows : List Row) (archs : List Str)
      → Confined in_templates (inside spath) (gen_markdown_stubs packages spath rows archs)
  unfolding gen_markdown_stubs lit starts_with
  gen_markdown_stubs-Confined packages rows archs =
      Confined-bind (Confined-lift (unsupported packages rows archs)) λ unsupp.
        Confined-bind (Confined-lift (supp_format rows)) λ supp.
          Confined-bind (Confined-read_file _ refl)
            λ template. Confined-write_file _ _ (inside-append spath (lit "support.md"))

  pub generate-Confined :
      (packages : Packages) (read_csv : Str → Result Frame) (types : Types) (rows : List Row)
      (archs : List Str)
      → Confined in_templates (inside spath) (generate packages read_csv types rows archs spath)
  unfolding generate
  generate-Confined packages read_csv types rows archs =
      Confined-if (spath == lit "libc") (gen_libc_stubs-Confined types rows) (
        Confined-if (spath == lit "wamr") (gen_wamr_stubs-Confined types rows) (
          Confined-if (spath == lit "wit") (gen_wit_stubs-Confined types rows) (
            Confined-if (spath == lit "arch-diff") (gen_arch_diff_stubs-Confined rows archs) (
              Confined-if (spath == lit "markdown")
                (gen_markdown_stubs-Confined packages rows archs)
                (Confined-lift (err key_error))))))
