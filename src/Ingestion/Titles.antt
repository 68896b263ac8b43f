-- ===== src/Ingestion/Titles.antt =====
-- The titles of what an import brings into the catalog, over core/ingestion/review.py and load.py.
use growth_operator.Prelude.{
  Option, ◌&&◌, List, some, none, Bool, ◌==◌, ◌∷◌, true, find?, ℕ, false, All, ◌≡◌, if◌then◌else◌,
  [], filter, not, String, ◌||◌, arith, any, refl,
}
use growth_operator.Ingestion.{
  ImportDb, Item, transition, is_batch, extract_batch, advance, extracted_rows, validating, review,
  extracting, failed, extracted, loading, loaded, BatchState, reverted, Batch,
}
use growth_operator.Ingestion.Review.{
  validate_batch, confirm_row, edit_row, reject_row, confirm_all, is_blocked, edited, confirm,
  reject, is_row, is_rejected,
}
use growth_operator.Ingestion.Load.{
  Catalog, load_batch, revert_batch, archive, of_batch, reverted_db, ImportOp, import_op,
  import_all, or_before, move, extract, validate, confirm_one, edit_one, reject_one, confirm_rest,
  load, revert, archive_items, is_revertible, mutated_items,
}
use growth_operator.Ingestion.Flags.{
  row_ok, item_ok, All-update_where, All-filter, All-append, All-extracted_rows, All-flag_rows,
  row_ok-edited, row_ok-confirm, row_ok-reject, All-update_row, All-confirm_first,
}
use growth_operator.Ingestion.Loaded.{load_rows-ok}

abbrev pub HasTitles : ImportDb → Type 0
HasTitles db = All (λ r. row_ok r ≡ true) db.rows × All (λ i. item_ok i ≡ true) db.items

-- The database after an operation that did not raise.
abbrev pub Leaves : Option ImportDb → Type 0
Leaves none = Unit
Leaves (some db) = HasTitles db

Leaves-then :
    (o : Option ImportDb) (f : ImportDb → Option ImportDb)
    → Leaves o
    → ((db : ImportDb) → HasTitles db → Leaves (f db))
    → Leaves (elim o [ none ↦ none | some db ↦ f db ])
Leaves-then none f h k = tt
Leaves-then (some db) f h k = k db h

Leaves-if : (b : Bool) (o : Option ImportDb) → Leaves o → Leaves (if b then o else none)
Leaves-if true o h = h
Leaves-if false o h = tt

Leaves-unless :
    (b : Bool) (o : Option ImportDb) → (b ≡ false → Leaves o) → Leaves (if b then none else o)
Leaves-unless true o h = tt
Leaves-unless false o h = h refl

Leaves-elim :
    {A : Type 0} (o : Option A) (f : A → Option ImportDb)
    → ((a : A) → o ≡ some a → Leaves (f a))
    → Leaves (elim o [ none ↦ none | some a ↦ f a ])
Leaves-elim none f h = tt
Leaves-elim (some a) f h = h a refl

Leaves-transition :
    (now id : ℕ) (target : BatchState) (db : ImportDb)
    → HasTitles db
    → Leaves (transition now id target db)
unfolding transition
Leaves-transition now id target db h =
    Leaves-elim (find? (is_batch id) db.batches) _
      (λ b _. Leaves-elim (advance b.state target) _ (λ s _. h))

Leaves-confirm_row : (id seq : ℕ) (db : ImportDb) → HasTitles db → Leaves (confirm_row id seq db)
unfolding confirm_row
Leaves-confirm_row id seq db (h, k) = Leaves-elim (find? (is_row id seq) db.rows) _ (λ r found.
    Leaves-unless (is_blocked r) _ (λ free. (All-confirm_first id seq db.rows r found free h, k)))

Leaves-extract_batch :
    (now id : ℕ) (parsed : Option (List (List ℕ × List ℕ × List String))) (db : ImportDb)
    → HasTitles db
    → Leaves (extract_batch now id parsed db)
unfolding extract_batch
Leaves-extract_batch now id none db h =
    Leaves-then (transition now id extracting db) _ (Leaves-transition now id extracting db h)
      (λ started h'.
        Leaves-then (transition now id failed started) _
          (Leaves-transition now id failed started h') (λ over h''. h''))
Leaves-extract_batch now id (some sheet) db h =
    Leaves-then (transition now id extracting db) _ (Leaves-transition now id extracting db h)
      (λ started (h', k'). Leaves-transition now id extracted _ (
        All-append row_ok (filter (λ r. not (r.batch == id)) started.rows)
            (extracted_rows id 0 sheet)
            (All-filter row_ok (λ r. not (r.batch == id)) started.rows h')
            (All-extracted_rows id 0 sheet),
        k',
      ))

Leaves-validate_batch :
    (now id : ℕ) (db : ImportDb) → HasTitles db → Leaves (validate_batch now id db)
unfolding validate_batch
Leaves-validate_batch now id db h =
    Leaves-then (transition now id validating db) _ (Leaves-transition now id validating db h)
      (λ started (h', k').
        Leaves-transition now id review _ (All-flag_rows id started.items [] started.rows h', k'))

Leaves-load_batch :
    (catalog : Catalog) (entitled : Bool) (now id : ℕ) (db : ImportDb)
    → HasTitles db
    → Leaves (load_batch catalog entitled now id db)
unfolding load_batch
Leaves-load_batch catalog entitled now id db h = Leaves-if entitled _ (
    Leaves-then (transition now id loading db) _ (Leaves-transition now id loading db h)
      (λ started (h', k').
        Leaves-transition now id loaded _
          (load_rows-ok catalog id started.rows started.items h' k')))

item_ok-archive : (i : Item) → item_ok i ≡ true → item_ok (archive i) ≡ true
unfolding item_ok archive
item_ok-archive i h = h

abbrev Reverts : Option (List Item × ImportDb) → Type 0
Reverts none = Unit
Reverts (some r) = HasTitles r.1

Leaves-reverted_db : (o : Option (List Item × ImportDb)) → Reverts o → Leaves (reverted_db o)
unfolding reverted_db
Leaves-reverted_db none h = tt
Leaves-reverted_db (some r) h = h

Reverts-if :
    (b : Bool) (o : Option (List Item × ImportDb)) → Reverts o → Reverts (if b then o else none)
Reverts-if true o h = h
Reverts-if false o h = tt

Reverts-elim :
    (o : Option Batch) (f : Batch → Option (List Item × ImportDb))
    → ((b : Batch) → Reverts (f b))
    → Reverts (elim o [ none ↦ none | some b ↦ f b ])
Reverts-elim none f h = tt
Reverts-elim (some b) f h = h b

Reverts-done :
    (o : Option ImportDb) (kept : List Item)
    → Leaves o
    → Reverts (elim o [ none ↦ none | some done ↦ some (kept, done) ])
Reverts-done none kept h = tt
Reverts-done (some db) kept h = h

All-archive_items :
    (id : ℕ) (items : List Item)
    → All (λ i. item_ok i ≡ true) items
    → All (λ i. item_ok i ≡ true) (archive_items id items)
unfolding archive_items
All-archive_items id items k =
    All-update_where item_ok (λ i. of_batch id i && not i.is_mutated) archive items
      (λ i _ ok. item_ok-archive i ok) k

Reverts-revert_batch :
    (entitled : Bool) (now id : ℕ) (db : ImportDb)
    → HasTitles db
    → Reverts (revert_batch entitled now id db)
unfolding revert_batch
Reverts-revert_batch entitled now id db (h, k) =
    let archived = record db { items = archive_items id db.items } in
    let reverting = transition now id reverted archived in
    let outcome : Option (List Item × ImportDb) = elim reverting [
      | none ↦ none
      | some done ↦ some (mutated_items id db.items, done)
    ] in
    Reverts-if entitled
      (elim (find? (is_batch id) db.batches) [
        | none ↦ none
        | some b ↦ if is_revertible now b then outcome else none
      ])
      (Reverts-elim (find? (is_batch id) db.batches)
        (λ b. if is_revertible now b then outcome else none)
        (λ b. Reverts-if (is_revertible now b) outcome (
          Reverts-done reverting (mutated_items id db.items)
            (Leaves-transition now id reverted archived (h, All-archive_items id db.items k)))))

Leaves-import_op : (op : ImportOp) (db : ImportDb) → HasTitles db → Leaves (import_op op db)
unfolding import_op revert_batch
Leaves-import_op (move now id target) db h = Leaves-transition now id target db h
Leaves-import_op (extract now id parsed) db h = Leaves-extract_batch now id parsed db h
Leaves-import_op (validate now id) db h = Leaves-validate_batch now id db h
Leaves-import_op (confirm_one id seq) db h = Leaves-confirm_row id seq db h
Leaves-import_op (edit_one id seq normalized) db (h, k) =
    unfold edit_row in
    Leaves-if (any (is_row id seq) db.rows) _
      (All-update_row id seq (edited normalized) db.rows (λ r _. row_ok-edited normalized r) h, k)
Leaves-import_op (reject_one id seq) db (h, k) =
    unfold reject_row in
    Leaves-if (any (is_row id seq) db.rows) _
      (All-update_row id seq reject db.rows row_ok-reject h, k)
Leaves-import_op (confirm_rest id) db (h, k) =
    unfold confirm_all in
    (
      All-update_where row_ok (λ r. r.batch == id && not (is_rejected r.state || is_blocked r))
          confirm db.rows (λ r chosen ok. row_ok-confirm r (ground (arith, chosen)) ok) h,
      k,
    )
Leaves-import_op (load catalog entitled now id) db h =
    Leaves-load_batch catalog entitled now id db h
Leaves-import_op (revert entitled now id) db h =
    Leaves-reverted_db (revert_batch entitled now id db) (Reverts-revert_batch entitled now id db h)

HasTitles-or_before :
    (db : ImportDb) (o : Option ImportDb) → HasTitles db → Leaves o → HasTitles (or_before db o)
unfolding or_before
HasTitles-or_before db none h k = h
HasTitles-or_before db (some changed) h k = k

-- Where each row without a title has the flag of that, no confirmed row has the flag, and each item of
-- an import has a title, all of this is so after any requests on imports, in any order, whether they
-- raise or not, and whatever the catalog admits. So no item without a title comes from a sheet.
pub import_all-HasTitles :
    (ops : List ImportOp) (db : ImportDb) → HasTitles db → HasTitles (import_all ops db)
unfolding import_all
import_all-HasTitles [] db h = h
import_all-HasTitles (op ∷ ops) db h =
    import_all-HasTitles ops (or_before db (import_op op db))
      (HasTitles-or_before db (import_op op db) h (Leaves-import_op op db h))
