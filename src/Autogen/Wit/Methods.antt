-- ===== src/Autogen/Wit/Methods.antt =====
-- The methods that `gen_wit_stubs` makes of the rows, and the pointer types that they use.
use wali_lib.Base.{
  ℕ, suc, Str, lit, Bool, false, ◌||◌, ◌&&◌, none, some, List, [], ◌∷◌, ◌++◌, ◌≡◌, ◌≢◌, refl, ◌∙◌,
  ap, subst, arith, str_eq, contains, Distinct, keep, add_all, ok, err, returned, ok-injective,
}
use wali_lib.Base.Dict.{lookup}
use wali_lib.Base.Members.{contains-keep}
use wali_lib.Base.Adding.{contains-add_all, add_all-Distinct}
use wali_lib.Text.{join, replace_char}
use wali_lib.Text.Decimal.{show}
use wali_lib.Autogen.Types.{Types}
use wali_lib.Autogen.Args.{Row, fn_name_of}
use wali_lib.Autogen.Stubs.{truthy, enumerate}
use wali_lib.Autogen.Wit.{is_ptr_type, sorted, wit_param, wit_sc_def, wit_args, scan_methods}
use wali_lib.Autogen.Wit.Sorted.{Ascending, contains-sorted, sorted-Ascending}

-- The type that a parameter is printed with: a basic type as the primitive type it stands for.
printed : Types → Str → Str
printed types arg = elim (lookup arg types.basic) [ none ↦ arg | some v ↦ v ]

-- The parameters from `a1` on, with a comma between two.
params_from : Types → ℕ → List Str → Str
params_from types i [] = []
params_from types i (x ∷ []) = lit "a" ++ (show i ++ (lit ": " ++ printed types x))
params_from types i (x ∷ y ∷ xs) =
    (lit "a" ++ (show i ++ (lit ": " ++ printed types x)))
    ++ (lit ", " ++ params_from types (suc i) (y ∷ xs))

-- The two lines of the method of a row, with its arguments as the table has them and as WIT types.
pub method_text : Types → Row → List Str → List Str → Str
method_text types row orig_args args =
    (lit "\t// ["
      ++ (row.nr
          ++ (lit "] " ++ (fn_name_of row ++ (lit "(" ++ (join (lit ", ") orig_args ++ lit ")"))))))
    ++ (lit "\n"
        ++ (lit "\tSYS-"
            ++ (replace_char b'_' b'-' (fn_name_of row)
                ++ (lit ": func(" ++ (params_from types 1 args ++ lit ") -> syscall-result;")))))

-- The methods of the rows with a count of arguments, in their order, and of no other row.
pub data Methods (types : Types) : List Row → List Str → Type 0 where
  no_rows : Methods types [] []
  uncounted :
      (row : Row) (rows : List Row) (buf : List Str)
      → row.nargs ≡ []
      → Methods types rows buf
      → Methods types (row ∷ rows) buf
  counted :
      (row : Row) (rows : List Row) (orig_args args buf : List Str)
      → row.nargs ≢ []
      → wit_args types row ≡ ok (orig_args, args)
      → Methods types rows buf
      → Methods types (row ∷ rows) (method_text types row orig_args args ∷ buf)

wit_param-printed :
    (types : Types) (i : ℕ) (x : Str)
    → wit_param types i x ≡ lit "a" ++ (show (suc i) ++ (lit ": " ++ printed types x))
unfolding wit_param printed
wit_param-printed types i x =
    ap (λ n. lit "a" ++ (show n ++ (lit ": " ++ printed types x))) (omega arith)

params_from-join :
    (types : Types) (i : ℕ) (args : List Str)
    → join (lit ", ") (enumerate i (wit_param types) args) ≡ params_from types (suc i) args
unfolding params_from join enumerate
params_from-join types i [] = refl
params_from-join types i (x ∷ []) = wit_param-printed types i x
params_from-join types i (x ∷ y ∷ xs) = rw (params_from-join types (suc i) (y ∷ xs)) (
    ap (λ t. t ++ (lit ", " ++ params_from types (suc (suc i)) (y ∷ xs)))
      (wit_param-printed types i x))

module _ (types : Types) where
  -- Whether a row has an argument of the pointer type.
  unfoldable pub uses_pointer : List Row → Str → Bool
  uses_pointer [] x = false
  uses_pointer (row ∷ rows) x =
      elim (wit_args types row) [ ok p ↦ is_ptr_type x && contains p.1 x | err e ↦ false ]
      || uses_pointer rows x

  scan_methods-parts :
      (row : Row) (rows : List Row) (s buf uniq : List Str)
      → scan_methods types (row ∷ rows) s ≡ ok (buf, uniq)
      → (p : List Str × List Str) × (rest : List Str) × (wit_args types row ≡ ok p)
        × (scan_methods types rows (add_all s (keep is_ptr_type p.1)) ≡ ok (rest, uniq))
        × (wit_sc_def types row.nr row.nargs (fn_name_of row) p.1 p.0 ∷ rest ≡ buf)
  unfolding scan_methods
  scan_methods-parts row rows s buf uniq h =
      let (p, hp, h₁) = returned (wit_args types row) _ h in
      let (q, hq, h₂) =
        returned (scan_methods types rows (add_all s (keep is_ptr_type p.1))) _ h₁ in
      let made = ok-injective h₂ in
      (p, q.0, hp, hq ∙ ap (λ u. ok (q.0, u)) (ap (λ r. r.1) made), ap (λ r. r.0) made)

  wit_sc_def-uncounted :
      (nr nargs fn_name : Str) (args orig_args : List Str)
      → nargs ≡ []
      → wit_sc_def types nr nargs fn_name args orig_args ≡ []
  unfolding wit_sc_def
  wit_sc_def-uncounted nr [] fn_name args orig_args h = refl
  wit_sc_def-uncounted nr (_ ∷ _) fn_name args orig_args h = cc

  wit_sc_def-counted :
      (row : Row) (nargs : Str) (orig_args args : List Str)
      → nargs ≢ []
      → wit_sc_def types row.nr nargs (fn_name_of row) args orig_args
        ≡ method_text types row orig_args args
  unfolding wit_sc_def method_text
  wit_sc_def-counted row [] orig_args args h = absurd (h refl)
  wit_sc_def-counted row (_ ∷ _) orig_args args h =
      unfold join in rw (params_from-join types 0 args) refl

  keep-method_text :
      (row : Row) (orig_args args buf : List Str)
      → keep truthy (method_text types row orig_args args ∷ buf)
        ≡ method_text types row orig_args args ∷ keep truthy buf
  unfolding keep method_text lit
  keep-method_text row orig_args args buf = refl

  keep-nothing : (buf : List Str) → keep truthy ([] ∷ buf) ≡ keep truthy buf
  unfolding keep
  keep-nothing buf = refl

  scan_methods-Methods :
      (rows : List Row) (s buf uniq : List Str)
      → scan_methods types rows s ≡ ok (buf, uniq)
      → Methods types rows (keep truthy buf)
  scan_methods-Methods [] s buf uniq h =
      unfold scan_methods keep in
      subst (λ b. Methods types [] (keep truthy b)) (ap (λ r. r.0) (ok-injective h)) no_rows
  scan_methods-Methods (row ∷ rows) s buf uniq h =
      let (p, rest, hp, hr, made) = scan_methods-parts row rows s buf uniq h in
      let methods = scan_methods-Methods rows (add_all s (keep is_ptr_type p.1)) rest uniq hr in
      subst (λ b. Methods types (row ∷ rows) (keep truthy b)) made
        (elim (str_eq.dec row.nargs []) [
          | yes none_given ↦
              let e = wit_sc_def-uncounted row.nr row.nargs (fn_name_of row) p.1 p.0 none_given in
              rw (e, keep-nothing rest) (uncounted row rows (keep truthy rest) none_given methods)
          | no given ↦
              rw (wit_sc_def-counted row row.nargs p.0 p.1 given, keep-method_text row p.0 p.1 rest)
                (counted row rows p.0 p.1 (keep truthy rest) given hp methods)
        ])

  scan_methods-Distinct :
      (rows : List Row) (s buf uniq : List Str)
      → scan_methods types rows s ≡ ok (buf, uniq)
      → Distinct s
      → Distinct uniq
  scan_methods-Distinct [] s buf uniq h d =
      unfold scan_methods in subst Distinct (ap (λ r. r.1) (ok-injective h)) d
  scan_methods-Distinct (row ∷ rows) s buf uniq h d =
      let (p, rest, hp, hr, made) = scan_methods-parts row rows s buf uniq h in
      scan_methods-Distinct rows (add_all s (keep is_ptr_type p.1)) rest uniq hr
        (add_all-Distinct s (keep is_ptr_type p.1) d)

  pub contains-scan_methods :
      (rows : List Row) (s buf uniq : List Str) (x : Str)
      → scan_methods types rows s ≡ ok (buf, uniq)
      → contains uniq x ≡ (contains s x || uses_pointer rows x)
  unfolding uses_pointer
  contains-scan_methods [] s buf uniq x h =
      let e : s ≡ uniq = unfold scan_methods in ap (λ r. r.1) (ok-injective h) in
      ground (arith, ap (λ u. contains u x) e)
  contains-scan_methods (row ∷ rows) s buf uniq x h =
      let (p, rest, hp, hr, made) = scan_methods-parts row rows s buf uniq h in
      rw hp (
        ground (
          arith,
          contains-scan_methods rows (add_all s (keep is_ptr_type p.1)) rest uniq x hr,
          contains-add_all s (keep is_ptr_type p.1) x,
          contains-keep is_ptr_type p.1 x,
        ))

  pub scan_methods-uses_pointer :
      (rows : List Row) (buf uniq : List Str)
      → scan_methods types rows [] ≡ ok (buf, uniq)
      → Methods types rows (keep truthy buf)
        × Ascending (sorted uniq)
        × ((x : Str) → contains (sorted uniq) x ≡ uses_pointer rows x)
  unfolding contains
  scan_methods-uses_pointer rows buf uniq h = (
    scan_methods-Methods rows [] buf uniq h,
    sorted-Ascending uniq (scan_methods-Distinct rows [] buf uniq h tt),
    λ x. contains-sorted x uniq ∙ contains-scan_methods rows [] buf uniq x h,
  )
