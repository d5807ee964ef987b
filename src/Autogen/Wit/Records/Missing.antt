-- ===== src/Autogen/Wit/Records/Missing.antt =====
-- Which records are missing.
use wali_lib.Base.{
  All, ◌≢◌, ◌↔◌, ◌||◌, difference, Str, lit, true, false, not, ◌&&◌, List, [], ◌∷◌, ◌++◌, map,
  nat_eq, str_eq, ◌==◌, contains, keep, drop, length, ◌≡◌, refl, sym, ◌∙◌, ap, arith, Bool-cases,
  inl, inr, ok,
}
use mathlib.Core.Logic.{if_pos, if_neg}
use wali_lib.Base.Adding.{contains-add_all}
use wali_lib.Base.Members.{contains-keep}
use wali_lib.Text.{starts_with}
use wali_lib.Autogen.Types.{Types, combined_types}
use wali_lib.Autogen.Args.{Row}
use wali_lib.Autogen.Wit.{is_ptr_type, rep, rep_value, rep_onto, comp_types, scan_methods}
use wali_lib.Autogen.Wit.Records.Blocks.{
  Block, IsBlock, IsFree, template_of, names, contains-record_types,
}
use wali_lib.Base.Dict.{Dict, has, insert, keys, has-insert, has-update}
use wali_lib.Autogen.Wit.Methods.{uses_pointer, contains-scan_methods}
use wali_lib.Autogen.Wit.Records.{record_types, wants_record, sc_ptr_types, missing_types}

-- The pointer to a type.
abbrev pub pointer_to : Str → Str
pointer_to x = lit "ptr-" ++ x

starts_with-drop : (p y : Str) → starts_with y p ≡ true → y ≡ p ++ drop (length p) y
unfolding starts_with
starts_with-drop [] y h = refl
starts_with-drop (c ∷ p) [] h = cc
starts_with-drop (c ∷ p) (d ∷ y) h = ground (arith, starts_with-drop p y)

is_ptr_type-pointer_to : (x : Str) → is_ptr_type (pointer_to x) ≡ true
unfolding is_ptr_type starts_with lit
is_ptr_type-pointer_to x = ground arith

pointed : (y : Str) → is_ptr_type y ≡ true → pointer_to (drop 4 y) ≡ y
unfolding is_ptr_type lit
pointed y h = sym (starts_with-drop (lit "ptr-") y h)

drop-pointer_to : (x : Str) → drop 4 (pointer_to x) ≡ x
unfolding lit
drop-pointer_to x = refl

same_pointer : (x y : Str) → is_ptr_type y ≡ true → (x == drop 4 y) ≡ (pointer_to x == y)
same_pointer x y h = elim (str_eq.dec x (drop 4 y)) [
  | yes e ↦ if_pos _ e true false ∙ sym (if_pos _ (ap pointer_to e ∙ pointed y h) true false)
  | no n ↦
      if_neg _ n true false
      ∙ sym (if_neg _ (λ e. n (sym (drop-pointer_to x) ∙ ap (drop 4) e)) true false)
]

other_type : (x y : Str) → is_ptr_type y ≡ false → (pointer_to x == y) ≡ false
other_type x y h =
    if_neg _ (λ e. let p = is_ptr_type-pointer_to x in let q = ap is_ptr_type e in cc) true false

contains-pointed :
    (uniq : List Str) (x : Str)
    → contains (map (drop 4) (keep is_ptr_type uniq)) x ≡ contains uniq (pointer_to x)
unfolding contains keep
contains-pointed [] x = refl
contains-pointed (y ∷ uniq) x = elim (Bool-cases (is_ptr_type y)) [
  | inl h ↦ ground (arith, contains-pointed uniq x, same_pointer x y h)
  | inr h ↦ ground (arith, contains-pointed uniq x, other_type x y h)
]

module _ (types : Types) where
  contains-sc_ptr_types :
      (uniq : List Str) (x : Str)
      → contains (sc_ptr_types types uniq) x
        ≡ (wants_record types x && contains uniq (pointer_to x))
  unfolding sc_ptr_types contains
  contains-sc_ptr_types uniq x =
      let named : List Str = map (drop 4) (keep is_ptr_type uniq) in
      contains-add_all [] (keep (wants_record types) named) x
      ∙ contains-keep (wants_record types) named x
      ∙ ap (λ b. wants_record types x && b) (contains-pointed uniq x)

  has-rep_onto :
      (d pairs : Dict Str Str) (x : Str)
      → has x (rep_onto d pairs) ≡ (has x d || contains (map rep (keys pairs)) x)
  unfolding rep_onto contains keys
  has-rep_onto d [] x = ground arith
  has-rep_onto d ((k, v) ∷ pairs) x = ground (
    arith,
    has-rep_onto (insert (rep k) (rep_value v) d) pairs x,
    has-insert x (rep k) (rep_value v) d,
  )

  -- The names that the interface declares.
  abbrev pub declared : List Str
  declared = lit "syscall-result" ∷ map rep (keys (combined_types types))

  has-comp_types : (x : Str) → has x (comp_types types) ≡ contains declared x
  unfolding comp_types has contains
  has-comp_types x =
      has-update x ((lit "syscall-result", lit "s64") ∷ []) (rep_onto [] (combined_types types))
      ∙ ground (arith, has-rep_onto [] (combined_types types) x)

  contains-missing_types :
      (rows : List Row) (buf uniq : List Str) (record_content : Str)
      → scan_methods types rows [] ≡ ok (buf, uniq)
      → (x : Str)
      → contains (missing_types types uniq record_content) x ≡ (
          not (contains (record_types record_content) x)
          && (wants_record types x && uses_pointer types rows (pointer_to x)))
  unfolding missing_types difference contains
  contains-missing_types rows buf uniq record_content h x =
      contains-keep (λ y. not (contains (record_types record_content) y)) (sc_ptr_types types uniq)
        x
      ∙ ap (λ b. not (contains (record_types record_content) x) && b)
          (contains-sc_ptr_types uniq x
            ∙ ap (λ b. wants_record types x && b)
                (contains-scan_methods types rows [] buf uniq (pointer_to x) h))

  -- Where the rows can be read, and no record begins in the texts between and behind the records of
  -- the template, a record is logged as missing exactly if a row has a pointer to it, it is no basic and no declared type,
  -- not void and not char, and no record of the template has its name.
  pub missing_types_iff :
      (rows : List Row) (buf uniq : List Str) (blocks : List Block) (end : Str)
      → scan_methods types rows [] ≡ ok (buf, uniq)
      → All IsBlock blocks
      → IsFree end
      → (x : Str)
      → (contains (missing_types types uniq (template_of blocks end)) x ≡ true) ↔ (
          (uses_pointer types rows (pointer_to x) ≡ true)
          × (has x types.basic ≡ false)
          × (contains declared x ≡ false)
          × (x ≢ lit "void")
          × (x ≢ lit "char")
          × (contains (names blocks) x ≡ false))
  unfolding wants_record
  missing_types_iff rows buf uniq blocks end h hb free x = ground (
    arith,
    contains-missing_types rows buf uniq (template_of blocks end) h x,
    contains-record_types blocks end x hb free,
    has-comp_types x,
  )
