-- ===== src/Ingestion.antt =====
-- core/ingestion: the states of an import batch (state.py), its transitions (service.py), the extraction
-- of a sheet (extract_csv.py).
-- The session sees one organisation. Rows stand in the order of `seq`. Where an operation raises, its
-- transaction is undone, and the result is `none`.
pub mod Review
pub mod Load
pub mod Flags
pub mod Loaded
pub mod Titles
pub mod Reverted
mod Tests
use growth_operator.Prelude.{
  Option, ◌&&◌, List, some, none, Bool, ◌==◌, ◌∷◌, true, find?, update_where, ℕ, false,
  if◌then◌else◌, [], any, filter, not, String, ◌++◌, str_eq, ltb, ◌+◌, suc, strip, contains, length,
  ◌||◌, leb, text_eq, map,
}

pub data BatchState : Type 0 where
  created extracting extracted validating review loading loaded reverted failed cancelled :
      BatchState

-- The place of a state in `BatchState`.
unfoldable pub state_index : BatchState → ℕ
state_index created = 0
state_index extracting = 1
state_index extracted = 2
state_index validating = 3
state_index review = 4
state_index loading = 5
state_index loaded = 6
state_index reverted = 7
state_index failed = 8
state_index cancelled = 9

-- `_TRANSITIONS`
unfoldable pub transitions : BatchState → List BatchState
transitions created = extracting ∷ cancelled ∷ []
transitions extracting = extracted ∷ failed ∷ []
transitions extracted = validating ∷ failed ∷ []
transitions validating = review ∷ failed ∷ []
transitions review = loading ∷ cancelled ∷ []
transitions loading = loaded ∷ failed ∷ []
transitions loaded = reverted ∷ []
transitions failed = extracting ∷ validating ∷ loading ∷ cancelled ∷ []
transitions reverted = []
transitions cancelled = []

unfoldable pub can_transition : BatchState → BatchState → Bool
unfolding transitions state_index
can_transition current target = any (λ s. state_index s == state_index target) (transitions current)

-- `advance`; `none` is `IllegalTransition`
unfoldable pub advance : BatchState → BatchState → Option BatchState
unfolding can_transition
advance current target = if can_transition current target then some target else none

pub data RowState : Type 0 where
  row_extracted confirmed rejected row_loaded skipped_duplicate load_failed : RowState

-- A row of `import_batches`.
pub record Batch : Type 0 where
  pub id : ℕ
  pub state : BatchState
  pub row_count : ℕ
  pub has_error : Bool
  pub updated_at : ℕ

-- The `normalized` of a row; a missing text is empty.
pub record Normalized : Type 0 where
  pub title : List ℕ
  pub sku : List ℕ

-- A row of `import_rows`.
pub record ImportRow : Type 0 where
  pub batch : ℕ
  pub seq : ℕ
  pub normalized : Normalized
  pub flags : List String
  pub state : RowState

-- A row of `catalog_items`.
pub record Item : Type 0 where
  pub title : List ℕ
  pub sku : List ℕ
  pub import_batch : Option ℕ
  pub is_active : Bool
  pub is_mutated : Bool

-- The tables, and the `import.batch_state.v1` events.
pub record ImportDb : Type 0 where
  pub batches : List Batch
  pub rows : List ImportRow
  pub items : List Item
  pub events : List (ℕ × BatchState)

unfoldable pub is_batch : ℕ → Batch → Bool
is_batch id b = b.id == id

-- `transition`
unfoldable pub transition : ℕ → ℕ → BatchState → ImportDb → Option ImportDb
unfolding is_batch advance
transition now id target db = elim (find? (is_batch id) db.batches) [
  | none ↦ none
  | some b ↦ elim (advance b.state target) [
    | none ↦ none
    | some s ↦ some record db {
      batches =
          update_where (is_batch id) (λ x. record x { state = s; updated_at = now }) db.batches;
      events = db.events ++ ((id, s) ∷ []);
    }
  ]
]

abbrev pub is_empty : List ℕ → Bool
is_empty [] = true
is_empty (c ∷ s) = false

-- The flag of `apply_mapping` for a row without a title
abbrev pub title_flags : List ℕ → List String
title_flags title = if is_empty title then "missing_title" ∷ [] else []

-- One row of the sheet, from the texts of its title and its sku and the flags of its prices.
unfoldable pub extracted_row : ℕ → ℕ → List ℕ × List ℕ × List String → ImportRow
extracted_row id seq (title, sku, price_flags) = record {
  batch = id;
  seq = seq;
  normalized = record { title = strip title; sku = strip sku };
  flags = price_flags ++ title_flags (strip title);
  state = row_extracted;
}

-- `for seq, raw in enumerate(rows)`
unfoldable pub extracted_rows : ℕ → ℕ → List (List ℕ × List ℕ × List String) → List ImportRow
unfolding extracted_row
extracted_rows id seq [] = []
extracted_rows id seq (raw ∷ sheet) = extracted_row id seq raw ∷ extracted_rows id (suc seq) sheet

-- `extract_batch` on what `_parse` makes of the file, `none` where it raises. The error is kept.
unfoldable pub extract_batch :
    ℕ → ℕ → Option (List (List ℕ × List ℕ × List String)) → ImportDb → Option ImportDb
unfolding transition extracted_rows is_batch
extract_batch now id parsed db = elim (transition now id extracting db) [
  | none ↦ none
  | some started ↦ elim parsed [
    | none ↦ elim (transition now id failed started) [
      | none ↦ none
      | some over ↦ some record over {
        batches = update_where (is_batch id) (λ b. record b { has_error = true }) over.batches;
      }
    ]
    | some sheet ↦ transition now id extracted record started {
      rows = filter (λ r. not (r.batch == id)) started.rows ++ extracted_rows id 0 sheet;
      batches =
          update_where (is_batch id) (λ b. record b { row_count = length sheet }) started.batches;
    }
  ]
]
