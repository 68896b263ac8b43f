-- ===== src/Ingestion/Load.antt =====
-- core/ingestion/load.py: the load of the confirmed rows into the catalog, and its revert. `create_item` of
-- core/catalog/crud.py is an argument: whether the attributes and the identity keys of the pack let an
-- item in, whose rules are a pack's data.
use growth_operator.Prelude.{
  Option, ◌&&◌, List, some, none, Bool, ◌==◌, ◌∷◌, true, find?, update_where, ℕ, false,
  if◌then◌else◌, [], filter, not, ◌++◌, ltb, ◌+◌, ◌*◌, String,
}
use growth_operator.Ingestion.{
  ImportDb, ImportRow, Item, Normalized, RowState, row_loaded, skipped_duplicate, load_failed,
  transition, loading, loaded, reverted, is_batch, state_index, extract_batch, BatchState, Batch,
}
use growth_operator.Ingestion.Review.{
  is_confirmed, validate_batch, confirm_row, edit_row, reject_row, confirm_all,
}

-- What `create_item` does: an id, `DuplicateIdentity`, or `ValidationProblems`.
pub data Admission : Type 0 where
  admitted duplicate_identity validation_problems : Admission

abbrev pub Catalog : Type 0
Catalog = Normalized → List Item → Admission

unfoldable pub item_of : ℕ → Normalized → Item
item_of id normalized = record {
  title = normalized.title;
  sku = normalized.sku;
  import_batch = some id;
  is_active = true;
  is_mutated = false;
}

unfoldable pub in_state : RowState → ImportRow → ImportRow
in_state s r = record r { state = s }

-- One row of the loop of `load_batch`, and the catalog after it.
unfoldable pub load_row : Admission → ℕ → ImportRow → List Item → ImportRow × List Item
unfolding item_of in_state
load_row admitted id r items = (in_state row_loaded r, items ++ (item_of id r.normalized ∷ []))
load_row duplicate_identity id r items = (in_state skipped_duplicate r, items)
load_row validation_problems id r items = (in_state load_failed r, items)

-- A row that the loop does not select is left.
unfoldable pub load_selected : Catalog → ℕ → ImportRow → List Item → ImportRow × List Item
unfolding load_row is_confirmed
load_selected catalog id r items =
    if r.batch == id && is_confirmed r.state
    then load_row (catalog r.normalized items) id r items
    else (r, items)

-- The loop of `load_batch`.
unfoldable pub load_rows : Catalog → ℕ → List ImportRow → List Item → List ImportRow × List Item
unfolding load_selected
load_rows catalog id [] items = ([], items)
load_rows catalog id (r ∷ rows) items =
    let done = load_selected catalog id r items in
    let rest = load_rows catalog id rows done.1 in (done.0 ∷ rest.0, rest.1)

-- `load_batch`, from what `assert_entitled` says
unfoldable pub load_batch : Catalog → Bool → ℕ → ℕ → ImportDb → Option ImportDb
unfolding transition load_rows
load_batch catalog entitled now id db =
    if entitled
    then elim (transition now id loading db) [
      | none ↦ none
      | some started ↦
          let done = load_rows catalog id started.rows started.items in
          transition now id loaded record started { rows = done.0; items = done.1 }
    ]
    else none

-- `REVERT_WINDOW_DAYS`, in seconds
abbrev pub revert_window : ℕ
revert_window = 30 * 86400

unfoldable pub of_batch : ℕ → Item → Bool
of_batch id i = i.is_active && elim i.import_batch [ none ↦ false | some b ↦ b == id ]

unfoldable pub archive : Item → Item
archive i = record i { is_active = false; is_mutated = true }

-- Whether `revert_batch` goes on: the batch is loaded, and its window is open.
unfoldable pub is_revertible : ℕ → Batch → Bool
unfolding state_index
is_revertible now b =
    state_index b.state == state_index loaded && not (ltb (b.updated_at + revert_window) now)

-- The items of the batch that were edited since.
unfoldable pub mutated_items : ℕ → List Item → List Item
unfolding of_batch
mutated_items id items = filter (λ i. of_batch id i && i.is_mutated) items

unfoldable pub archive_items : ℕ → List Item → List Item
unfolding of_batch archive
archive_items id items = update_where (λ i. of_batch id i && not i.is_mutated) archive items

-- `revert_batch`, and the items that it leaves for the owner
unfoldable pub revert_batch : Bool → ℕ → ℕ → ImportDb → Option (List Item × ImportDb)
unfolding is_batch transition is_revertible mutated_items archive_items
revert_batch entitled now id db =
    if entitled
    then elim (find? (is_batch id) db.batches) [
      | none ↦ none
      | some b ↦
          if is_revertible now b
          then elim (transition now id reverted record db { items = archive_items id db.items }) [
            | none ↦ none
            | some done ↦ some (mutated_items id db.items, done)
          ]
          else none
    ]
    else none

-- The requests on an import.
pub data ImportOp : Type 0 where
  move : ℕ → ℕ → BatchState → ImportOp
  extract : ℕ → ℕ → Option (List (List ℕ × List ℕ × List String)) → ImportOp
  validate : ℕ → ℕ → ImportOp
  confirm_one : ℕ → ℕ → ImportOp
  edit_one : ℕ → ℕ → Normalized → ImportOp
  reject_one : ℕ → ℕ → ImportOp
  confirm_rest : ℕ → ImportOp
  load : Catalog → Bool → ℕ → ℕ → ImportOp
  revert : Bool → ℕ → ℕ → ImportOp

unfoldable pub reverted_db : Option (List Item × ImportDb) → Option ImportDb
reverted_db none = none
reverted_db (some r) = some r.1

-- One request; `none` where it raises
unfoldable pub import_op : ImportOp → ImportDb → Option ImportDb
unfolding reverted_db
import_op (move now id target) db = transition now id target db
import_op (extract now id parsed) db = extract_batch now id parsed db
import_op (validate now id) db = validate_batch now id db
import_op (confirm_one id seq) db = confirm_row id seq db
import_op (edit_one id seq normalized) db = edit_row id seq normalized db
import_op (reject_one id seq) db = reject_row id seq db
import_op (confirm_rest id) db = some (confirm_all id db)
import_op (load catalog entitled now id) db = load_batch catalog entitled now id db
import_op (revert entitled now id) db = reverted_db (revert_batch entitled now id db)

unfoldable pub or_before : ImportDb → Option ImportDb → ImportDb
or_before db none = db
or_before db (some changed) = changed

-- Requests one after the other; one that raises changes nothing
unfoldable pub import_all : List ImportOp → ImportDb → ImportDb
unfolding import_op or_before
import_all [] db = db
import_all (op ∷ ops) db = import_all ops (or_before db (import_op op db))
