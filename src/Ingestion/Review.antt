-- ===== src/Ingestion/Review.antt =====
-- core/ingestion/review.py: the validation of the rows of a batch, and what the owner does with a row.
use growth_operator.Prelude.{
  Option, ◌&&◌, List, some, none, Bool, ◌==◌, ◌∷◌, true, find?, update_where, ℕ, false,
  if◌then◌else◌, [], any, filter, not, ◌++◌, str_eq, strip, ◌||◌, text_eq,
}
use growth_operator.Ingestion.{
  ImportDb, ImportRow, Item, Normalized, RowState, row_extracted, confirmed, rejected, is_empty,
  title_flags, transition, validating, review,
}

-- `BLOCKING_FLAGS`
unfoldable pub is_blocked : ImportRow → Bool
is_blocked r = any (λ f. str_eq f "missing_title") r.flags

unfoldable pub has_sku : List ℕ → Item → Bool
has_sku sku i = i.is_active && text_eq i.sku sku

-- Whether the sku of a row is taken, by a row before it or in the catalog.
unfoldable pub is_duplicate : List (List ℕ) → List Item → List ℕ → Bool
unfolding has_sku
is_duplicate seen items sku =
    not (is_empty sku) && (any (text_eq sku) seen || any (has_sku sku) items)

unfoldable pub with_duplicate : Bool → ImportRow → ImportRow
with_duplicate dup r = record r {
  flags =
      filter (λ f. not (str_eq f "duplicate_sku")) r.flags
      ++ (if dup then "duplicate_sku" ∷ [] else []);
}

-- The loop of `validate_batch`.
unfoldable pub flag_rows : ℕ → List Item → List (List ℕ) → List ImportRow → List ImportRow
unfolding is_duplicate with_duplicate
flag_rows id items seen [] = []
flag_rows id items seen (r ∷ rows) =
    let sku = strip r.normalized.sku in
    let others = flag_rows id items seen rows in
    let rest = flag_rows id items (sku ∷ seen) rows in
    if r.batch == id then with_duplicate (is_duplicate seen items sku) r ∷ rest else r ∷ others

-- `validate_batch`
unfoldable pub validate_batch : ℕ → ℕ → ImportDb → Option ImportDb
unfolding transition flag_rows
validate_batch now id db = elim (transition now id validating db) [
  | none ↦ none
  | some started ↦
      transition now id review record started { rows = flag_rows id started.items [] started.rows }
]

unfoldable pub is_row : ℕ → ℕ → ImportRow → Bool
is_row id seq r = r.batch == id && r.seq == seq

-- `UPDATE ... WHERE batch_id = :b AND seq = :s`; the pair is unique
unfoldable pub update_row : ℕ → ℕ → (ImportRow → ImportRow) → List ImportRow → List ImportRow
unfolding is_row
update_row id seq f [] = []
update_row id seq f (r ∷ rows) =
    let rest = update_row id seq f rows in if is_row id seq r then f r ∷ rows else r ∷ rest

unfoldable pub confirm : ImportRow → ImportRow
confirm r = record r { state = confirmed }

-- `confirm_row`
unfoldable pub confirm_row : ℕ → ℕ → ImportDb → Option ImportDb
unfolding is_row update_row is_blocked confirm
confirm_row id seq db = elim (find? (is_row id seq) db.rows) [
  | none ↦ none
  | some r ↦
      if is_blocked r then none else some record db { rows = update_row id seq confirm db.rows }
]

-- The row that `edit_row` writes.
unfoldable pub edited : Normalized → ImportRow → ImportRow
edited normalized r = record r {
  normalized = normalized;
  flags = title_flags (strip normalized.title);
  state = if is_empty (strip normalized.title) then row_extracted else confirmed;
}

-- `edit_row`
unfoldable pub edit_row : ℕ → ℕ → Normalized → ImportDb → Option ImportDb
unfolding is_row update_row edited
edit_row id seq normalized db =
    if any (is_row id seq) db.rows
    then some record db { rows = update_row id seq (edited normalized) db.rows }
    else none

unfoldable pub reject : ImportRow → ImportRow
reject r = record r { state = rejected }

-- `reject_row`
unfoldable pub reject_row : ℕ → ℕ → ImportDb → Option ImportDb
unfolding is_row update_row reject
reject_row id seq db =
    if any (is_row id seq) db.rows
    then some record db { rows = update_row id seq reject db.rows }
    else none

unfoldable pub is_rejected : RowState → Bool
is_rejected rejected = true
is_rejected _ = false

unfoldable pub is_confirmed : RowState → Bool
is_confirmed confirmed = true
is_confirmed _ = false

-- `confirm_all` without `auto`
unfoldable pub confirm_all : ℕ → ImportDb → ImportDb
unfolding is_rejected is_blocked confirm
confirm_all id db = record db {
  rows =
      update_where (λ r. r.batch == id && not (is_rejected r.state || is_blocked r)) confirm
        db.rows;
}
