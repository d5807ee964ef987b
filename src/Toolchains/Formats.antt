-- ===== src/Toolchains/Formats.antt =====
-- The flags after the formatting: the variables of a file stand where their fields stood.
use wali_lib.Base.{
  Str, lit, false, ◌||◌, some, List, [], ◌∷◌, ◌++◌, append_assoc, append-nil, nat_eq, str_eq, ◌==◌,
  All, All-append, Result, ok, ◌≡◌, refl, sym, ◌∙◌, ap, arith,
}
use wali_lib.Base.Dict.{Dict, lookup}
use wali_lib.Text.{join}
use wali_lib.Text.Format.{format, format_from, step, name_step, field, is_number, is_elaborate}
use wali_lib.Text.Format.Pieces.{
  hole, render, prefixed, IsFieldName, IsPlain, format-plain, format-all_plain, format-hole,
}

-- The first of the joined parts, in two.
join-prefix :
    (sep a b : Str) (rest : List Str) → join sep ((a ++ b) ∷ rest) ≡ a ++ join sep (b ∷ rest)
unfolding join
join-prefix sep a b [] = refl
join-prefix sep a b (c ∷ rest) = append_assoc a b (sep ++ join sep (c ∷ rest))

join-IsPlain :
    (sep p : Str) (rest : List Str)
    → IsPlain sep
    → IsPlain p
    → All IsPlain rest
    → IsPlain (join sep (p ∷ rest))
unfolding join
join-IsPlain sep p [] hs hp h = hp
join-IsPlain sep p (q ∷ rest) hs hp (hq, h) =
    All-append (λ c. (c == b'{' || c == b'}') ≡ false) p (sep ++ join sep (q ∷ rest)) hp
      (All-append (λ c. (c == b'{' || c == b'}') ≡ false) sep (join sep (q ∷ rest)) hs
        (join-IsPlain sep q rest hs hq h))

-- The text behind the last field: the other flags, each behind a space.
abbrev pub others : List Str → Str
others rest = join (lit " ") ([] ∷ rest)

others-IsPlain : (rest : List Str) → All IsPlain rest → IsPlain (others rest)
unfolding lit nat_eq
others-IsPlain rest h = join-IsPlain (lit " ") [] rest (refl, tt) tt h

sysroot-IsFieldName : IsFieldName (lit "SYSROOTVAR")
unfolding lit nat_eq is_number is_elaborate
sysroot-IsFieldName = ground arith

libcxx-IsFieldName : IsFieldName (lit "LIBCXXVAR")
unfolding lit nat_eq is_number is_elaborate
libcxx-IsFieldName = ground arith

cflags-IsFieldName : IsFieldName (lit "CFLAGSVAR")
unfolding lit nat_eq is_number is_elaborate
cflags-IsFieldName = ground arith

join-head : (sep v : Str) (rest : List Str) → join sep (v ∷ rest) ≡ v ++ join sep ([] ∷ rest)
unfolding join
join-head sep v [] = sym (append-nil v)
join-head sep v (q ∷ rest) = refl

-- A flag in two parts, before the other flags.
two_parts :
    (a v : Str) (rest : List Str) → join (lit " ") ((a ++ v) ∷ rest) ≡ a ++ (v ++ others rest)
two_parts a v rest = join-prefix (lit " ") a v rest ∙ ap (λ t. a ++ t) (join-head (lit " ") v rest)

constant-IsPlain : IsPlain (lit "--sysroot=") × IsPlain (lit " ") × IsPlain (lit "--target=")
unfolding lit nat_eq
constant-IsPlain = ground arith

constant_parts : IsPlain (lit "-L") × IsPlain (lit "/lib -L") × IsPlain (lit "/lib")
unfolding lit nat_eq
constant_parts = ground arith

module _ (format_rest : Dict Str Str → Str → Result Str) where
  -- A plain text, a field and a plain rest.
  format-around :
      (values : Dict Str Str) (a name v t : Str)
      → IsPlain a
      → IsFieldName name
      → lookup name values ≡ some v
      → IsPlain t
      → format format_rest values (a ++ (render (hole name) ++ t)) ≡ ok (a ++ (v ++ t))
  format-around values a name v t ha hn found ht =
      format-plain format_rest values a (render (hole name) ++ t) ha
      ∙ ap (prefixed a) (
          format-hole format_rest values name v t hn found
          ∙ ap (prefixed v) (format-all_plain format_rest values t ht))

  -- The C flags of a target.
  pub format-cflags :
      (target v : Str) (rest : List Str)
      → IsPlain target
      → All IsPlain rest
      → format format_rest
          ((lit "SYSROOTVAR", v) ∷ [])
          (join (lit " ") ((lit "--target=" ++ target) ∷ lit "--sysroot={SYSROOTVAR}" ∷ rest))
        ≡ ok (join (lit " ") ((lit "--target=" ++ target) ∷ (lit "--sysroot=" ++ v) ∷ rest))
  unfolding join lit lookup str_eq nat_eq
  format-cflags target v rest ht hr =
      let values : Dict Str Str = (lit "SYSROOTVAR", v) ∷ [] in
      let first = lit "--target=" ++ target in
      format-plain format_rest values first _ (
        All-append (λ c. (c == b'{' || c == b'}') ≡ false) (lit "--target=") target
          constant-IsPlain.2 ht)
      ∙ ap (prefixed first) (
          format-plain format_rest values (lit " ") _ constant-IsPlain.1
          ∙ ap (prefixed (lit " ")) (
              ap (format format_rest values)
                (two_parts (lit "--sysroot=") (render (hole (lit "SYSROOTVAR"))) rest)
              ∙ format-around values (lit "--sysroot=") (lit "SYSROOTVAR") v (others rest)
                  constant-IsPlain.0 sysroot-IsFieldName refl (others-IsPlain rest hr)
              ∙ ap ok (sym (two_parts (lit "--sysroot=") v rest))))

  -- The flags of the linker.
  pub format-ldflags :
      (sysroot libcxx : Str) (rest : List Str)
      → All IsPlain rest
      → format format_rest
          ((lit "SYSROOTVAR", sysroot) ∷ (lit "LIBCXXVAR", libcxx) ∷ [])
          (join (lit " ") (lit "-L{SYSROOTVAR}/lib" ∷ lit "-L{LIBCXXVAR}/lib" ∷ rest))
        ≡ ok (
            join
              (lit " ")
              ((lit "-L" ++ (sysroot ++ lit "/lib")) ∷ (lit "-L" ++ (libcxx ++ lit "/lib")) ∷ rest))
  unfolding join lit lookup str_eq nat_eq
  format-ldflags sysroot libcxx rest hr =
      let values : Dict Str Str = (lit "SYSROOTVAR", sysroot) ∷ (lit "LIBCXXVAR", libcxx) ∷ [] in
      let last = lit "/lib" ++ others rest in
      let tail = lit "/lib -L" ++ (render (hole (lit "LIBCXXVAR")) ++ last) in
      let tail' = lit " -L" ++ (libcxx ++ last) in
      ap (λ t. format format_rest values (lit "-L{SYSROOTVAR}/lib " ++ t))
        (join-head (lit " ") (lit "-L{LIBCXXVAR}/lib") rest)
      ∙ format-plain format_rest values (lit "-L") (render (hole (lit "SYSROOTVAR")) ++ tail)
          constant_parts.0
      ∙ ap (prefixed (lit "-L")) (
          format-hole format_rest values (lit "SYSROOTVAR") sysroot tail sysroot-IsFieldName refl
          ∙ ap (prefixed sysroot) (
              format-around values (lit "/lib -L") (lit "LIBCXXVAR") libcxx last constant_parts.1
                libcxx-IsFieldName refl
                (All-append (λ c. (c == b'{' || c == b'}') ≡ false) (lit "/lib") (others rest)
                  constant_parts.2 (others-IsPlain rest hr))))
      ∙ ap ok (
          sym (
            ap (λ t. lit "-L" ++ ((sysroot ++ lit "/lib") ++ (lit " " ++ t)))
              (two_parts (lit "-L") (libcxx ++ lit "/lib") rest
                ∙ ap (λ t. lit "-L" ++ t) (append_assoc libcxx (lit "/lib") (others rest)))
            ∙ ap (λ t. lit "-L" ++ t) (append_assoc sysroot (lit "/lib") tail')))

  -- The C++ flags.
  pub format-cxxflags :
      (cflags libcxx : Str)
      → format format_rest ((lit "CFLAGSVAR", cflags) ∷ (lit "LIBCXXVAR", libcxx) ∷ []) (
          join
            (lit " ")
            (lit "-stdlib=libc++" ∷ lit "{CFLAGSVAR}" ∷ lit "-I{LIBCXXVAR}/include/c++/v1" ∷ []))
        ≡ ok (
            join (lit " ") (
              lit "-stdlib=libc++" ∷ cflags ∷ (lit "-I" ++ (libcxx ++ lit "/include/c++/v1")) ∷ []))
  unfolding join lit lookup str_eq nat_eq format format_from step name_step field is_number
      is_elaborate
  format-cxxflags cflags libcxx = refl
