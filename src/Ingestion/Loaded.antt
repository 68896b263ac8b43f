-- ===== src/Ingestion/Loaded.antt =====
-- The items that a load makes from confirmed rows.
use growth_operator.Prelude.{
  ◌&&◌, List, ◌==◌, ◌∷◌, true, ℕ, false, All, ◌≡◌, Bool-cases, inl, inr, [], arith, refl,
}
use growth_operator.Ingestion.{
  ImportRow, Item, RowState, row_loaded, skipped_duplicate, load_failed, is_empty,
}
use growth_operator.Ingestion.Review.{is_confirmed, is_blocked}
use growth_operator.Ingestion.Load.{
  Catalog, load_rows, load_row, load_selected, item_of, in_state, Admission, admitted,
  duplicate_identity, validation_problems,
}
use growth_operator.Ingestion.Flags.{row_ok, item_ok, All-append}

row_ok-in_state :
    (s : RowState) (r : ImportRow)
    → is_confirmed s ≡ false
    → row_ok r ≡ true
    → row_ok (in_state s r) ≡ true
unfolding row_ok in_state is_blocked
row_ok-in_state s r e h = ground (arith, e, h)

titled :
    (r : ImportRow)
    → is_confirmed r.state ≡ true
    → row_ok r ≡ true
    → is_empty r.normalized.title ≡ false
unfolding row_ok
titled r e h = ground (arith, e, h)

load_row-ok :
    (a : Admission) (id : ℕ) (r : ImportRow) (items : List Item)
    → is_confirmed r.state ≡ true
    → row_ok r ≡ true
    → All (λ i. item_ok i ≡ true) items
    → let done = load_row a id r items in
      (row_ok done.0 ≡ true) × All (λ i. item_ok i ≡ true) done.1
unfolding load_row item_ok item_of
load_row-ok admitted id r items e h k = (
  row_ok-in_state row_loaded r (unfold is_confirmed in refl) h,
  All-append item_ok items (item_of id r.normalized ∷ []) k (ground (arith, titled r e h), tt),
)
load_row-ok duplicate_identity id r items e h k =
    (row_ok-in_state skipped_duplicate r (unfold is_confirmed in refl) h, k)
load_row-ok validation_problems id r items e h k =
    (row_ok-in_state load_failed r (unfold is_confirmed in refl) h, k)

load_selected-ok :
    (catalog : Catalog) (id : ℕ) (r : ImportRow) (items : List Item)
    → row_ok r ≡ true
    → All (λ i. item_ok i ≡ true) items
    → let done = load_selected catalog id r items in
      (row_ok done.0 ≡ true) × All (λ i. item_ok i ≡ true) done.1
unfolding load_selected
load_selected-ok catalog id r items h k =
    elim (Bool-cases (r.batch == id && is_confirmed r.state)) [
      | inl chosen ↦
          rw chosen
            (load_row-ok (catalog r.normalized items) id r items (ground (arith, chosen)) h k)
      | inr other ↦ rw other (h, k)
    ]

pub load_rows-ok :
    (catalog : Catalog) (id : ℕ) (rows : List ImportRow) (items : List Item)
    → All (λ r. row_ok r ≡ true) rows
    → All (λ i. item_ok i ≡ true) items
    → All (λ r. row_ok r ≡ true) (load_rows catalog id rows items).0
      × All (λ i. item_ok i ≡ true) (load_rows catalog id rows items).1
unfolding load_rows
load_rows-ok catalog id [] items h k = (tt, k)
load_rows-ok catalog id (r ∷ rows) items (g, h) k =
    let (g', k') = load_selected-ok catalog id r items g k in
    let (h', k'') = load_rows-ok catalog id rows (load_selected catalog id r items).1 h k' in
    ((g', h'), k'')
