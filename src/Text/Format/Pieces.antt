-- ===== src/Text/Format/Pieces.antt =====
-- `str.format` reads a written format back: literal text, with its braces doubled, and fields.
use wali_lib.Base.{
  ℕ, Str, true, false, ◌||◌, Option, Bool-cases, none, some, List, [], ◌∷◌, ◌++◌, append_assoc,
  append-nil, nat_eq, str_eq, ◌==◌, if◌then◌else◌, Result, ok, err, key_error, Error, ◌>>=◌, ◌≡◌,
  refl, sym, ◌∙◌, ap, arith, All, inl, inr,
}
use wali_lib.Base.Dict.{Dict, lookup}
use wali_lib.Text.Format.{
  Mode, literal, opened, closed, naming, stop, emit, is_number, field, is_elaborate, name_step,
  step, format_from, format,
}

-- Literal text, or a field by its name.
pub data Piece : Type 0 where
  plain : Str → Piece
  hole : Str → Piece

-- A text with its braces doubled.
unfoldable pub escape : Str → Str
escape [] = []
escape (c ∷ s) = let rest = escape s in if c == b'{' || c == b'}' then c ∷ c ∷ rest else c ∷ rest

abbrev pub render : Piece → Str
render (plain s) = escape s
render (hole name) = b'{' ∷ (name ++ b'}' ∷ [])

unfoldable pub render_all : List Piece → Str
render_all [] = []
render_all (p ∷ pieces) = render p ++ render_all pieces

-- Text before a result.
abbrev pub prefixed : Str → Result Str → Result Str
prefixed out r = r >>= λ rest. ok (out ++ rest)

-- The value of a field before a result.
abbrev pub with_field : Option Str → Result Str → Result Str
with_field none r = err key_error
with_field (some v) r = prefixed v r

-- The pieces with the values of their fields; a field without a value is a `KeyError`.
unfoldable pub filled : Dict Str Str → List Piece → Result Str
filled values [] = ok []
filled values (plain s ∷ pieces) = prefixed s (filled values pieces)
filled values (hole name ∷ pieces) = with_field (lookup name values) (filled values pieces)

-- A name that is a key: no number, and no character that ends a name.
abbrev pub IsFieldName : Str → Type 0
IsFieldName name =
    (is_number name ≡ false)
    × All (λ c. ((c == b'{') ≡ false) × ((c == b'}') ≡ false) × (is_elaborate c ≡ false)) name

abbrev pub IsPiece : Piece → Type 0
IsPiece (plain s) = Unit
IsPiece (hole name) = IsFieldName name

prefixed-append : (s t : Str) (r : Result Str) → prefixed s (prefixed t r) ≡ prefixed (s ++ t) r
prefixed-append s t (err e) = refl
prefixed-append s t (ok rest) = ap ok (sym (append_assoc s t rest))

prefixed-nil : (r : Result Str) → prefixed [] r ≡ r
prefixed-nil (err e) = refl
prefixed-nil (ok rest) = refl

-- A text without braces.
abbrev pub IsPlain : Str → Type 0
IsPlain s = All (λ c. (c == b'{' || c == b'}') ≡ false) s

escape-IsPlain : (s : Str) → IsPlain s → escape s ≡ s
unfolding escape
escape-IsPlain [] h = refl
escape-IsPlain (c ∷ s) (hc, h) = rw hc (ap (λ t. c ∷ t) (escape-IsPlain s h))

module _ (format_rest : Dict Str Str → Str → Result Str) where
  -- A character that leads on.
  format_from-step :
      (values : Dict Str Str) (mode : Mode) (c : ℕ) (s : Str) (out : Str) (next : Mode)
      → step values mode c ≡ emit out next
      → format_from format_rest values mode (c ∷ s)
        ≡ prefixed out (format_from format_rest values next s)
  unfolding format_from
  format_from-step values literal c s out next h = rw (h, format_from) refl
  format_from-step values opened c s out next h = rw (h, format_from) refl
  format_from-step values closed c s out next h = rw (h, format_from) refl
  format_from-step values (naming name) c s out next h = rw (h, format_from) refl

  format_from-stop :
      (values : Dict Str Str) (mode : Mode) (c : ℕ) (s : Str) {e : Error}
      → step values mode c ≡ stop e
      → format_from format_rest values mode (c ∷ s) ≡ err e
  unfolding format_from
  format_from-stop values literal c s h = rw (h, format_from) refl
  format_from-stop values opened c s h = rw (h, format_from) refl
  format_from-stop values closed c s h = rw (h, format_from) refl
  format_from-stop values (naming name) c s h = rw (h, format_from) refl

  -- A step with no text of its own.
  format_from-silent :
      (values : Dict Str Str) (mode : Mode) (c : ℕ) (s : Str) (next : Mode)
      → step values mode c ≡ emit [] next
      → format_from format_rest values mode (c ∷ s) ≡ format_from format_rest values next s
  format_from-silent values mode c s next h =
      format_from-step values mode c s [] next h
      ∙ prefixed-nil (format_from format_rest values next s)

  -- A doubled brace.
  format_from-double :
      (values : Dict Str Str) (c : ℕ) (s : Str)
      → (c == b'{' || c == b'}') ≡ true
      → format_from format_rest values literal (c ∷ c ∷ s)
        ≡ prefixed (c ∷ []) (format_from format_rest values literal s)
  unfolding step
  format_from-double values c s h = elim (nat_eq.dec c b'{') [
    | yes e ↦
        format_from-silent values literal c (c ∷ s) opened (ground arith)
        ∙ format_from-step values opened c s (c ∷ []) literal (ground arith)
    | no n ↦
        format_from-silent values literal c (c ∷ s) closed (ground arith)
        ∙ format_from-step values closed c s (c ∷ []) literal (ground arith)
  ]

  format_from-single :
      (values : Dict Str Str) (c : ℕ) (s : Str)
      → (c == b'{' || c == b'}') ≡ false
      → format_from format_rest values literal (c ∷ s)
        ≡ prefixed (c ∷ []) (format_from format_rest values literal s)
  unfolding step
  format_from-single values c s h =
      format_from-step values literal c s (c ∷ []) literal (ground arith)

  format_from-escape :
      (values : Dict Str Str) (s t : Str)
      → format_from format_rest values literal (escape s ++ t)
        ≡ prefixed s (format_from format_rest values literal t)
  unfolding escape
  format_from-escape values [] t = sym (prefixed-nil (format_from format_rest values literal t))
  format_from-escape values (c ∷ s) t = elim (Bool-cases (c == b'{' || c == b'}')) [
    | inl brace ↦ rw brace (
        format_from-double values c (escape s ++ t) brace
        ∙ ap (prefixed (c ∷ [])) (format_from-escape values s t)
        ∙ prefixed-append (c ∷ []) s (format_from format_rest values literal t))
    | inr other ↦ rw other (
        format_from-single values c (escape s ++ t) other
        ∙ ap (prefixed (c ∷ [])) (format_from-escape values s t)
        ∙ prefixed-append (c ∷ []) s (format_from format_rest values literal t))
  ]

  -- The characters of a name are read up to the brace that closes the field.
  format_from-name :
      (values : Dict Str Str) (seen name t : Str)
      → All (λ c. ((c == b'{') ≡ false) × ((c == b'}') ≡ false) × (is_elaborate c ≡ false)) name
      → format_from format_rest values (naming seen) (name ++ b'}' ∷ t)
        ≡ format_from format_rest values (naming (seen ++ name)) (b'}' ∷ t)
  unfolding step name_step
  format_from-name values seen [] t h =
      ap (λ n. format_from format_rest values (naming n) (b'}' ∷ t)) (sym (append-nil seen))
  format_from-name values seen (c ∷ name) t ((o, d, e), h) =
      format_from-silent values (naming seen) c (name ++ b'}' ∷ t) (naming (seen ++ c ∷ []))
        (ground arith)
      ∙ format_from-name values (seen ++ c ∷ []) name t h
      ∙ ap (λ n. format_from format_rest values (naming n) (b'}' ∷ t))
          (append_assoc seen (c ∷ []) name)

  format_from-hole :
      (values : Dict Str Str) (name t : Str)
      → IsFieldName name
      → format_from format_rest values literal (render (hole name) ++ t)
        ≡ format_from format_rest values (naming name) (b'}' ∷ t)
  unfolding step name_step is_number
  format_from-hole values [] t (number, h) = absurd (cc)
  format_from-hole values (c ∷ name) t (number, ((o, d, e), h)) =
      format_from-silent values literal b'{' ((c ∷ name) ++ b'}' ∷ [] ++ t) opened (ground arith)
      ∙ format_from-silent values opened c (name ++ b'}' ∷ [] ++ t) (naming (c ∷ [])) (ground arith)
      ∙ ap (format_from format_rest values (naming (c ∷ []))) (append_assoc name (b'}' ∷ []) t)
      ∙ format_from-name values (c ∷ []) name t h

  format_from-value :
      (values : Dict Str Str) (name t : Str) (o : Option Str)
      → is_number name ≡ false
      → lookup name values ≡ o
      → format_from format_rest values (naming name) (b'}' ∷ t)
        ≡ with_field o (format_from format_rest values literal t)
  unfolding step name_step field
  format_from-value values name t none number h =
      format_from-stop values (naming name) b'}' t (ground arith)
  format_from-value values name t (some v) number h =
      format_from-step values (naming name) b'}' t v literal (ground arith)

  -- A format that is written from pieces is formatted to the pieces with the values of their fields;
  -- the first field that has no value is a `KeyError`.
  pub format-render_all :
      (values : Dict Str Str) (pieces : List Piece)
      → All IsPiece pieces
      → format format_rest values (render_all pieces) ≡ filled values pieces
  unfolding format render_all filled
  format-render_all values [] h = unfold format_from in refl
  format-render_all values (plain s ∷ pieces) (_, h) =
      format_from-escape values s (render_all pieces)
      ∙ ap (prefixed s) (format-render_all values pieces h)
  format-render_all values (hole name ∷ pieces) (hn, h) =
      format_from-hole values name (render_all pieces) hn
      ∙ format_from-value values name (render_all pieces) (lookup name values) hn.0 refl
      ∙ ap (with_field (lookup name values)) (format-render_all values pieces h)

  -- Literal text without braces stays as it is.
  pub format-plain :
      (values : Dict Str Str) (s t : Str)
      → IsPlain s
      → format format_rest values (s ++ t) ≡ prefixed s (format format_rest values t)
  unfolding format
  format-plain values s t h =
      ap (λ e. format_from format_rest values literal (e ++ t)) (sym (escape-IsPlain s h))
      ∙ format_from-escape values s t

  pub format-all_plain :
      (values : Dict Str Str) (s : Str) → IsPlain s → format format_rest values s ≡ ok s
  format-all_plain values s h =
      ap (format format_rest values) (sym (append-nil s))
      ∙ format-plain values s [] h
      ∙ (unfold format format_from in ap ok (append-nil s))

  -- A field gives the value of its name.
  pub format-hole :
      (values : Dict Str Str) (name v t : Str)
      → IsFieldName name
      → lookup name values ≡ some v
      → format format_rest values (render (hole name) ++ t)
        ≡ prefixed v (format format_rest values t)
  unfolding format
  format-hole values name v t hn found =
      format_from-hole values name t hn ∙ format_from-value values name t (some v) hn.0 found
