-- ===== src/Trace/Rows.antt =====
-- `read_trace`: the rows of a summary stand between its two marker lines.
use wali_lib.Base.{
  ℕ, suc, ◌+◌, ◌-◌, Str, lit, true, false, List, [], ◌∷◌, ◌++◌, map, map-append, ◌≡◌, refl, sym,
  ◌∙◌, ap, ap₂, arith, All, length, length-map, take, drop, traverse,
}
use wali_lib.Text.{starts_with, words}
use wali_lib.Trace.{markers, last_word, read_trace}

-- `line.startswith('-----')`
abbrev pub IsMarker : Str → Type 0
IsMarker line = starts_with line (lit "-----") ≡ true

abbrev pub Plain : List Str → Type 0
Plain = All (λ line. starts_with line (lit "-----") ≡ false)

markers-Plain :
    (i : ℕ) (xs ys : List Str) → Plain xs → markers i (xs ++ ys) ≡ markers (i + length xs) ys
markers-Plain i [] ys p = ap (λ k. markers k ys) (omega arith)
markers-Plain i (x ∷ xs) ys (hx, p) =
    rw (markers-cons i x (xs ++ ys) hx, markers-Plain (suc i) xs ys p)
      (ap (λ k. markers k ys) (omega arith))
  where
    markers-cons :
        (i : ℕ) (x : Str) (xs : List Str)
        → starts_with x (lit "-----") ≡ false
        → markers i (x ∷ xs) ≡ markers (suc i) xs
    markers-cons i x xs h = unfold markers in rw h

markers-Plain_all : (i : ℕ) (xs : List Str) → Plain xs → markers i xs ≡ []
unfolding markers
markers-Plain_all i [] p = refl
markers-Plain_all i (x ∷ xs) (hx, p) = rw hx (markers-Plain_all (suc i) xs p)

markers_at :
    (i : ℕ) (x : Str) (xs : List Str) → IsMarker x → markers i (x ∷ xs) ≡ i ∷ markers (suc i) xs
markers_at i x xs h = unfold markers in rw h

module _ {ℓ} {A : Type ℓ} where
  drop_past : (xs ys : List A) (x : A) → drop (suc (length xs)) (xs ++ x ∷ ys) ≡ ys
  drop_past [] ys x = refl
  drop_past (z ∷ xs) ys x = drop_past xs ys x

  take_through : (xs ys : List A) → take (length xs) (xs ++ ys) ≡ xs
  take_through [] ys = refl
  take_through (x ∷ xs) ys = ap (λ zs. x ∷ zs) (take_through xs ys)

markers_of_summary :
    (head rows foot : List Str) (above below : Str)
    → Plain head
    → Plain rows
    → Plain foot
    → IsMarker above
    → IsMarker below
    → markers 0 (head ++ above ∷ (rows ++ below ∷ foot))
      ≡ length head ∷ (suc (length head) + length rows) ∷ []
markers_of_summary head rows foot above below ph pr pf ha hb =
    rw
      (
        markers-Plain 0 head _ ph,
        markers_at (0 + length head) above (rows ++ below ∷ foot) ha,
        markers-Plain (suc (0 + length head)) rows (below ∷ foot) pr,
        markers_at (suc (0 + length head) + length rows) below foot hb,
        markers-Plain_all (suc (suc (0 + length head) + length rows)) foot pf,
      )
      (ap₂ (λ a b. a ∷ b ∷ []) (omega arith) (omega arith))

-- The slice between two positions.
slice_of_summary {ℓ} :
    {A : Type ℓ} (head rows foot : List A) (above below : A) (h r : ℕ)
    → h ≡ length head
    → r ≡ length rows
    → take (suc h + r - suc h) (drop (suc h) (head ++ above ∷ (rows ++ below ∷ foot))) ≡ rows
slice_of_summary head rows foot above below h r p q =
    rw (p, q, drop_past head (rows ++ below ∷ foot) above)
      (ap (λ k. take k (rows ++ below ∷ foot)) (omega arith) ∙ take_through rows (below ∷ foot))

-- A summary whose only marker lines stand before and behind its rows is read to the last word of
-- each row; a row with no word is an error, as it is for the rows alone.
pub read_trace-rows :
    (head rows foot : List Str) (above below : Str)
    → Plain head
    → Plain rows
    → Plain foot
    → IsMarker above
    → IsMarker below
    → read_trace (head ++ above ∷ (rows ++ below ∷ foot)) ≡ traverse last_word (map words rows)
unfolding read_trace
read_trace-rows head rows foot above below ph pr pf ha hb = rw (
  markers_of_summary head rows foot above below ph pr pf ha hb,
  map-append words head (above ∷ (rows ++ below ∷ foot)),
  map-append words rows (below ∷ foot),
  slice_of_summary (map words head) (map words rows) (map words foot) (words above) (words below)
      (length head) (length rows) (sym (length-map words head)) (sym (length-map words rows)),
)
