-- ===== src/Rustc/Sections/Laws.antt =====
-- What the step leaves at its own key and at the others.
use wali_lib.Base.{
  Str, Option-cases, none, some, ok, returned, ok-injective, ◌≡◌, ◌≢◌, ◌⊎◌, inl, inr, refl, sym,
  ◌∙◌, ap, arith, str_eq,
}
use wali_lib.Toml.{Value, text, flag, array, other, table, Table, end, get, put, merge}
use wali_lib.Toml.Laws.{NodupKeys, get-put, get-put_same, put-get_self, merge_idem}
use wali_lib.Rustc.Sections.{ensure, update_value, update_at, section}

-- The table at a key, where it has one, and the empty table where the key is missing.
abbrev pub IsSection : Str → Table → Table → Type 0
IsSection k t s = (get k t ≡ some (table s)) ⊎ ((get k t ≡ none) × (s ≡ end))

update_value-table :
    (v : Value) (pairs : Table) (w : Value)
    → update_value v pairs ≡ ok w
    → (s : Table) × (v ≡ table s) × (w ≡ table (merge s pairs))
unfolding update_value
update_value-table (table s) pairs w h = (s, refl, sym (ok-injective h))
update_value-table (text _) pairs w h = cc
update_value-table (flag _) pairs w h = cc
update_value-table (array _) pairs w h = cc
update_value-table (other _) pairs w h = cc

ensure-IsSection : (k : Str) (t s : Table) → get k (ensure k t) ≡ some (table s) → IsSection k t s
unfolding ensure
ensure-IsSection k t s h = elim (Option-cases (get k t)) [
  | inl e ↦ inr (e, ground (arith, get-put_same k (table end) t))
  | inr (v, e) ↦ inl (ground arith)
]

get-ensure_other : (j k : Str) (t : Table) → j ≢ k → get j (ensure k t) ≡ get j t
unfolding ensure
get-ensure_other j k t ne = ground (arith, get-put j k (table end) t)

-- The step succeeds only on a section that is a table or missing. It leaves the updated section at
-- its key, and every other key as it was.
pub section-result :
    (k : Str) (pairs t t' : Table)
    → section k pairs t ≡ ok t'
    → ((s : Table) × IsSection k t s × (get k t' ≡ some (table (merge s pairs))))
      × ((j : Str) → j ≢ k → get j t' ≡ get j t)
unfolding section update_at
section-result k pairs t t' h = elim (Option-cases (get k (ensure k t))) [
  | inl e ↦ absurd (ground arith)
  | inr (v, e) ↦
      let (w, hw, put_back) =
        returned (update_value v pairs) (λ w. ok (put k w (ensure k t))) (ground arith) in
      let (s, is_table, merged) = update_value-table v pairs w hw in
      let same : put k w (ensure k t) ≡ t' = ok-injective put_back in
      (
        (s, ensure-IsSection k t s (ground arith), ground (arith, get-put_same k w (ensure k t))),
        λ j ne. ground (arith, get-put j k w (ensure k t), get-ensure_other j k t ne),
      )
]

ensure-present : (k : Str) (v : Value) (t : Table) → get k t ≡ some v → ensure k t ≡ t
unfolding ensure
ensure-present k v t h = ground arith

update_at-table :
    (k : Str) (pairs t s : Table)
    → get k t ≡ some (table s)
    → update_at k pairs t ≡ ok (put k (table (merge s pairs)) t)
unfolding update_value update_at put
update_at-table k pairs t s h = rw (h, update_at) refl

-- A section that has the pairs is left as it is.
pub section-settled :
    (k : Str) (pairs t s : Table)
    → get k t ≡ some (table s)
    → merge s pairs ≡ s
    → section k pairs t ≡ ok t
unfolding section
section-settled k pairs t s h e =
    ap (update_at k pairs) (ensure-present k (table s) t h)
    ∙ update_at-table k pairs t s h
    ∙ (ap (λ m. ok (put k (table m) t)) e ∙ ap ok (put-get_self k (table s) t h))

-- The step twice is the step once.
pub section_idem :
    (k : Str) (pairs t t' : Table)
    → NodupKeys pairs
    → section k pairs t ≡ ok t'
    → section k pairs t' ≡ ok t'
section_idem k pairs t t' u h =
    let ((s, _, found), _) = section-result k pairs t t' h in
    section-settled k pairs t' (merge s pairs) found (merge_idem s pairs u)

ensure-absent : (k : Str) (t : Table) → get k t ≡ none → get k (ensure k t) ≡ some (table end)
unfolding ensure
ensure-absent k t h = ground (arith, get-put_same k (table end) t)

-- The step succeeds on a section that is a table or missing.
pub section_total :
    (k : Str) (pairs t s : Table) → IsSection k t s → (t' : Table) × (section k pairs t ≡ ok t')
unfolding section
section_total k pairs t s (inl h) = (
  put k (table (merge s pairs)) t,
  ap (update_at k pairs) (ensure-present k (table s) t h) ∙ update_at-table k pairs t s h,
)
section_total k pairs t s (inr (h, _)) = (
  put k (table (merge end pairs)) (ensure k t),
  update_at-table k pairs (ensure k t) end (ensure-absent k t h),
)
