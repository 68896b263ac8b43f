-- ===== src/Ingestion/Reverted.antt =====
-- core/ingestion/load.py, revert_batch: what it leaves, and the batch afterwards.
use growth_operator.Prelude.{
  ◌&&◌, List, some, none, Bool, ◌∷◌, true, find?, update_where, ℕ, false, All, ◌≡◌, Bool-cases, inl,
  inr, [], filter, ◌++◌, arith, refl, ap, sym, ◌∙◌, Option-cases,
}
use mathlib.Core.Path.{subst}
use growth_operator.Ingestion.{
  ImportDb, Item, transition, is_batch, advance, can_transition, Batch, BatchState, reverted,
  state_index, transitions,
}
use growth_operator.Ingestion.Load.{
  Catalog, load_batch, revert_batch, archive, of_batch, archive_items, mutated_items, is_revertible,
}

filter-archive_items :
    (id : ℕ) (items : List Item)
    → filter (of_batch id) (archive_items id items) ≡ mutated_items id items
unfolding archive_items mutated_items of_batch archive
filter-archive_items id [] = refl
filter-archive_items id (i ∷ items) = ground (arith, filter-archive_items id items)

All-mutated_items :
    (id : ℕ) (items : List Item) → All (λ i. i.is_mutated ≡ true) (mutated_items id items)
unfolding mutated_items
All-mutated_items id [] = tt
All-mutated_items id (i ∷ items) = elim (Bool-cases (of_batch id i && i.is_mutated)) [
  | inl kept ↦ rw kept (ground (arith, kept), All-mutated_items id items)
  | inr other ↦ rw other (All-mutated_items id items)
]

abbrev pub moved : BatchState → ℕ → Batch → Batch
moved s now b = record b { state = s; updated_at = now }

some_batch : {b c : Batch} → some b ≡ some c → b ≡ c
some_batch e = cc

find?-moved :
    (s : BatchState) (now id : ℕ) (batches : List Batch) (b : Batch)
    → find? (is_batch id) batches ≡ some b
    → find? (is_batch id) (update_where (is_batch id) (moved s now) batches) ≡ some (moved s now b)
unfolding is_batch
find?-moved s now id [] b found = absurd (ground (arith, found))
find?-moved s now id (x ∷ batches) b found = elim (Bool-cases (is_batch id x)) [
  | inl here ↦
      let same : x ≡ b = some_batch (ground (arith, found, here)) in
      ground (arith, here, ap (λ y. some (moved s now y)) same)
  | inr elsewhere ↦
      ground (arith, elsewhere, find?-moved s now id batches b (ground (arith, found, elsewhere)))
]

-- The row of the batch after a transition.
transition-some :
    (now id : ℕ) (target : BatchState) (db db' : ImportDb)
    → transition now id target db ≡ some db'
    → (db'.items ≡ db.items)
      × ((b : Batch) × (find? (is_batch id) db'.batches ≡ some (moved target now b)))
unfolding transition advance
transition-some now id target db db' e = elim (Option-cases (find? (is_batch id) db.batches)) [
  | inl missing ↦
      let raised : transition now id target db ≡ none = rw (transition, missing) refl in
      absurd (ground (arith, raised, e))
  | inr (b, found) ↦ elim (Bool-cases (can_transition b.state target)) [
    | inr illegal ↦
        let raised : transition now id target db ≡ none =
          rw (transition, found, advance, illegal) refl in
        absurd (ground (arith, raised, e))
    | inl legal ↦
        let changed = record db {
          batches = update_where (is_batch id) (moved target now) db.batches;
          events = db.events ++ ((id, target) ∷ []);
        } in
        let done : transition now id target db ≡ some changed =
          rw (transition, found, advance, legal) refl in
        let same : changed ≡ db' = some_db (sym done ∙ e) in
        subst
          (λ (d : ImportDb).
            (d.items ≡ db.items)
            × ((x : Batch) × (find? (is_batch id) d.batches ≡ some (moved target now x))))
          same (refl, (b, find?-moved target now id db.batches b found))
  ]
]
  where
    some_db : {c d : ImportDb} → some c ≡ some d → c ≡ d
    some_db h = cc

revert-of_reverted :
    (entitled : Bool) (later now id : ℕ) (db : ImportDb) (b : Batch)
    → find? (is_batch id) db.batches ≡ some (moved reverted now b)
    → revert_batch entitled later id db ≡ none
unfolding revert_batch is_revertible state_index
revert-of_reverted false later now id db b found = refl
revert-of_reverted true later now id db b found = rw (revert_batch, found) refl

load-of_reverted :
    (catalog : Catalog) (entitled : Bool) (later now id : ℕ) (db : ImportDb) (b : Batch)
    → find? (is_batch id) db.batches ≡ some (moved reverted now b)
    → load_batch catalog entitled later id db ≡ none
unfolding load_batch transition advance can_transition transitions
load-of_reverted catalog false later now id db b found = refl
load-of_reverted catalog true later now id db b found = rw (load_batch, transition, found) refl

left-of_revert :
    (entitled : Bool) (now id : ℕ) (db : ImportDb) (left : List Item) (db' : ImportDb)
    → revert_batch entitled now id db ≡ some (left, db')
    → (left ≡ mutated_items id db.items)
      × (transition now id reverted record db { items = archive_items id db.items } ≡ some db')
unfolding revert_batch
left-of_revert false now id db left db' e = absurd (ground (arith, e))
left-of_revert true now id db left db' e = elim (Option-cases (find? (is_batch id) db.batches)) [
  | inl missing ↦
      let raised : revert_batch true now id db ≡ none = rw (revert_batch, missing) refl in
      absurd (ground (arith, raised, e))
  | inr (b, found) ↦ elim (Bool-cases (is_revertible now b)) [
    | inr closed ↦
        let raised : revert_batch true now id db ≡ none = rw (revert_batch, found, closed) refl in
        absurd (ground (arith, raised, e))
    | inl open_still ↦
        let archived = record db { items = archive_items id db.items } in
        elim (Option-cases (transition now id reverted archived)) [
          | inl illegal ↦
              let raised : revert_batch true now id db ≡ none =
                rw (revert_batch, found, open_still, illegal) refl in
              absurd (ground (arith, raised, e))
          | inr (after, went) ↦
              let done : revert_batch true now id db ≡ some (mutated_items id db.items, after) =
                rw (revert_batch, found, open_still, went) refl in
              let same = some_result (sym done ∙ e) in
              (sym (ap (λ r. r.0) same), went ∙ ap (λ r. some r.1) same)
        ]
  ]
]
  where
    some_result : {r q : List Item × ImportDb} → some r ≡ some q → r ≡ q
    some_result h = cc

-- Where a batch is reverted, what is still active of its items is what was reported to the owner, all of
-- it edited since the import; and from the tables that this leaves it is not reverted again and not loaded,
-- at any time and whatever the catalog and the plan say.
pub revert_batch-final :
    (entitled : Bool) (now id : ℕ) (db : ImportDb) (left : List Item) (db' : ImportDb)
    → revert_batch entitled now id db ≡ some (left, db')
    → (filter (of_batch id) db'.items ≡ left)
      × All (λ i. i.is_mutated ≡ true) left
      × ((later : ℕ) (plan : Bool) → revert_batch plan later id db' ≡ none)
      × ((later : ℕ) (plan : Bool) (catalog : Catalog)
          → load_batch catalog plan later id db' ≡ none)
revert_batch-final entitled now id db left db' e =
    let (kept, went) = left-of_revert entitled now id db left db' e in
    let (items, (b, found)) =
      transition-some now id reverted record db { items = archive_items id db.items } db' went in
    (
      ap (filter (of_batch id)) items ∙ filter-archive_items id db.items ∙ sym kept,
      subst (λ (l : List Item). All (λ i. i.is_mutated ≡ true) l) (sym kept)
          (All-mutated_items id db.items),
      λ later plan. revert-of_reverted plan later now id db' b found,
      λ later plan catalog. load-of_reverted catalog plan later now id db' b found,
    )
