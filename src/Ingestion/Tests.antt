-- ===== src/Ingestion/Tests.antt =====
-- An import from its sheet to the catalog and back.
use growth_operator.Prelude.{
  List, [], ◌∷◌, none, some, ℕ, true, false, All, ◌≡◌, refl, length, codes, filter, Bool,
}
use growth_operator.Ingestion.{
  ImportDb, Batch, created, failed, loading, loaded, reverted, can_transition, Item, BatchState,
  extract_batch,
}
use growth_operator.Ingestion.Review.{confirm_all, validate_batch}
use growth_operator.Ingestion.Load.{
  Catalog, admitted, ImportOp, extract, validate, confirm_rest, load, import_all, import_op,
  revert_batch, of_batch, load_batch, archive,
}
use growth_operator.Ingestion.Titles.{import_all-HasTitles, HasTitles}
use growth_operator.Ingestion.Reverted.{revert_batch-final}

abbrev open_catalog : Catalog
open_catalog = λ normalized items. admitted

abbrev batch_of : BatchState → Batch
batch_of s = record { id = 1; state = s; row_count = 0; has_error = false; updated_at = 10 }

abbrev uploaded : ImportDb
uploaded = record { batches = batch_of created ∷ []; rows = []; items = []; events = [] }

-- A ring with a title, and a row without one.
abbrev requests : List ImportOp
requests =
    extract 20 1 (some ((codes "Ring", codes "r1", []) ∷ ([], codes "r2", []) ∷ []))
    ∷ validate 21 1
    ∷ confirm_rest 1
    ∷ load open_catalog true 22 1
    ∷ []

-- The row without a title is not loaded.
one_is_loaded : length (import_all requests uploaded).items ≡ 1
unfolding import_all import_op load_batch confirm_all validate_batch extract_batch
one_is_loaded = refl

-- A batch whose extraction failed may go on to the load.
failed_may_load : can_transition failed loading ≡ true
unfolding can_transition
failed_may_load = refl

import_all-HasTitles_example : HasTitles (import_all requests uploaded)
import_all-HasTitles_example = import_all-HasTitles requests uploaded (tt, tt)

abbrev item : Bool → Item
item mutated = record {
  title = codes "Ring";
  sku = codes "r1";
  import_batch = some 1;
  is_active = true;
  is_mutated = mutated;
}

abbrev after_load : ImportDb
after_load = record {
  batches = batch_of loaded ∷ [];
  rows = [];
  items = item false ∷ item true ∷ [];
  events = [];
}

abbrev after_revert : ImportDb
after_revert = record {
  batches =
      record { id = 1; state = reverted; row_count = 0; has_error = false; updated_at = 100 } ∷ [];
  rows = [];
  items = archive (item false) ∷ item true ∷ [];
  events = (1, reverted) ∷ [];
}

revert_batch-final_example :
    (filter (of_batch 1) after_revert.items ≡ item true ∷ [])
    × All (λ i. i.is_mutated ≡ true) (item true ∷ [])
    × ((later : ℕ) (plan : Bool) → revert_batch plan later 1 after_revert ≡ none)
    × ((later : ℕ) (plan : Bool) (catalog : Catalog)
        → load_batch catalog plan later 1 after_revert ≡ none)
unfolding revert_batch archive
revert_batch-final_example =
    revert_batch-final true 100 1 after_load (item true ∷ []) after_revert refl
