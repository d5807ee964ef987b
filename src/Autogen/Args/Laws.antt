-- ===== src/Autogen/Args/Laws.antt =====
-- What `get_scargs`, `ptr_anonymize` and `rustify_args` make of the arguments of a row.
use wali_lib.Base.{
  ℕ, zero, suc, Str, lit, Bool, true, false, some, List, [], ◌∷◌, ◌≡◌, ◌≢◌, refl, sym, ◌∙◌, ap,
  arith, nat_eq, str_eq, if◌then◌else◌, length, inl, inr, Result, ok, traverse, ok-injective,
  returned, ◌>>=◌, subst, ◌⊎◌,
}
use mathlib.Core.Logic.{if_neg}
use wali_lib.Text.{last?}
use wali_lib.Text.Decimal.{pos, read_int}
use wali_lib.Autogen.Types.{Types}
use wali_lib.Autogen.Args.{
  Row, cells, row_args, last_char, resolve_arg, get_scargs, anonymize, ptr_anonymize,
}

length-traverse {ℓ κ} :
    {A : Type ℓ} {B : Type κ} (f : A → Result B) (xs : List A) (ys : List B)
    → traverse f xs ≡ ok ys
    → length ys ≡ length xs
unfolding traverse
length-traverse f [] ys h = ap length (sym (ok-injective h))
length-traverse f (x ∷ xs) ys h =
    let (y, hy, h₁) = returned (f x) _ h in
    let (zs, hz, h₂) = returned (traverse f xs) _ h₁ in
    ap length (sym (ok-injective h₂)) ∙ ap suc (length-traverse f xs zs hz)

length-cells : (n : ℕ) (columns out : List Str) → cells n columns ≡ ok out → length out ≡ n
unfolding cells
length-cells zero columns out h = ap length (sym (ok-injective h))
length-cells (suc n) [] out h = cc
length-cells (suc n) (a ∷ columns) out h =
    let (rest, hr, h') = returned (cells n columns) _ h in
    ap length (sym (ok-injective h')) ∙ ap suc (length-cells n columns rest hr)

-- A traversal whose every result is its own result again.
traverse_idem {ℓ} :
    {A : Type ℓ} (f : A → Result A) (xs ys : List A)
    → ((x y : A) → f x ≡ ok y → f y ≡ ok y)
    → traverse f xs ≡ ok ys
    → traverse f ys ≡ ok ys
unfolding traverse
traverse_idem f [] ys idem h = subst (λ zs. traverse f zs ≡ ok zs) (ok-injective h) refl
traverse_idem f (x ∷ xs) ys idem h =
    let (y, hy, h₁) = returned (f x) _ h in
    let (zs, hz, h₂) = returned (traverse f xs) _ h₁ in
    subst (λ zs. traverse f zs ≡ ok zs) (ok-injective h₂)
      (rw (idem x y hy, traverse_idem f xs zs idem hz))

module _ (types : Types) where
  get_scargs_counted :
      (row : Row) (complex : Bool) (n : ℕ)
      → row.nargs ≢ []
      → read_int row.nargs ≡ some (pos n)
      → get_scargs types row complex ≡ (do
        args ← cells n row.args
        if complex then traverse (resolve_arg types) args else ok args)
  unfolding get_scargs row_args
  get_scargs_counted row complex n ne count =
      rw (if_neg (str_eq.dec row.nargs []) ne, count, row_args)

  -- A row with a count gives as many arguments as it counts.
  pub length-get_scargs :
      (row : Row) (complex : Bool) (args : List Str) (n : ℕ)
      → row.nargs ≢ []
      → read_int row.nargs ≡ some (pos n)
      → get_scargs types row complex ≡ ok args
      → length args ≡ n
  length-get_scargs row complex args n ne count h =
      let (read, hr, h') =
        returned (cells n row.args) _ (sym (get_scargs_counted row complex n ne count) ∙ h) in
      resolved complex read (length-cells n row.args read hr) h'
    where
      resolved :
          (complex : Bool) (read : List Str)
          → length read ≡ n
          → (if complex then traverse (resolve_arg types) read else ok read) ≡ ok args
          → length args ≡ n
      resolved true read e h = length-traverse (resolve_arg types) read args h ∙ e
      resolved false read e h = ap length (sym (ok-injective h)) ∙ e

  anonymize-void : anonymize types (lit "void*") ≡ ok (lit "void*")
  unfolding anonymize last_char last? lit
  anonymize-void = ground arith

  anonymize_cases : (x y : Str) → anonymize types x ≡ ok y → (y ≡ x) ⊎ (y ≡ lit "void*")
  unfolding anonymize
  anonymize_cases x y h = ground arith

  anonymize_idem : (x y : Str) → anonymize types x ≡ ok y → anonymize types y ≡ ok y
  anonymize_idem x y h = elim (anonymize_cases x y h) [
    | inl e ↦ rw e (h ∙ ap ok e)
    | inr e ↦ rw e anonymize-void
  ]

  -- To anonymize the pointers of arguments that are anonymized changes nothing.
  pub ptr_anonymize_idem :
      (args out : List Str) → ptr_anonymize types args ≡ ok out → ptr_anonymize types out ≡ ok out
  unfolding ptr_anonymize
  ptr_anonymize_idem args out h = traverse_idem (anonymize types) args out anonymize_idem h
