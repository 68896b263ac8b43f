-- ===== src/Ingestion/Flags.antt =====
-- The flag of a missing title, through the extraction, the validation and the review of the rows.
use growth_operator.Prelude.{
  ◌&&◌, List, some, Bool, ◌==◌, ◌∷◌, true, find?, update_where, ℕ, false, All, ◌≡◌, Bool-cases, inl,
  inr, [], filter, not, ◌++◌, String, ◌||◌, arith, any, str_eq, is_some, strip, refl, suc,
  str_eq_iff, ap, ◌∙◌,
}
use growth_operator.Ingestion.{
  ImportRow, Item, Normalized, is_empty, extracted_row, extracted_rows, title_flags,
}
use growth_operator.Ingestion.Review.{
  is_confirmed, is_blocked, flag_rows, with_duplicate, is_duplicate, edited, confirm, reject,
  is_row, update_row,
}

-- A row without a title has the flag, and a confirmed row has not.
unfoldable pub row_ok : ImportRow → Bool
unfolding is_confirmed is_blocked
row_ok r =
    (not (is_empty r.normalized.title) || is_blocked r)
    && not (is_confirmed r.state && is_blocked r)

-- An item of an import has a title.
unfoldable pub item_ok : Item → Bool
item_ok i = not (is_some i.import_batch) || not (is_empty i.title)

module _ {A : Type 0} (p : A → Bool) where
  pub All-update_where :
      (q : A → Bool) (f : A → A) (xs : List A)
      → ((x : A) → q x ≡ true → p x ≡ true → p (f x) ≡ true)
      → All (λ x. p x ≡ true) xs
      → All (λ x. p x ≡ true) (update_where q f xs)
  All-update_where q f [] k h = tt
  All-update_where q f (x ∷ xs) k (g, h) = (ground (arith, g, k x), All-update_where q f xs k h)

  pub All-filter :
      (q : A → Bool) (xs : List A) → All (λ x. p x ≡ true) xs → All (λ x. p x ≡ true) (filter q xs)
  All-filter q [] h = tt
  All-filter q (x ∷ xs) (g, h) = elim (Bool-cases (q x)) [
    | inl keep ↦ rw keep (g, All-filter q xs h)
    | inr drop ↦ rw drop (All-filter q xs h)
  ]

  pub All-append :
      (xs ys : List A)
      → All (λ x. p x ≡ true) xs
      → All (λ x. p x ≡ true) ys
      → All (λ x. p x ≡ true) (xs ++ ys)
  All-append [] ys h k = k
  All-append (x ∷ xs) ys (g, h) k = (g, All-append xs ys h k)

any-append : (p : String → Bool) (xs ys : List String) → any p (xs ++ ys) ≡ any p xs || any p ys
any-append p [] ys = refl
any-append p (x ∷ xs) ys = ground (arith, any-append p xs ys)

-- The flag stands exactly where the title is empty.
any-title_flags :
    (title : List ℕ) → any (λ f. str_eq f "missing_title") (title_flags title) ≡ is_empty title
any-title_flags [] = refl
any-title_flags (c ∷ s) = refl

row_ok-extracted_row :
    (id seq : ℕ) (title sku : List ℕ) (flags : List String)
    → row_ok (extracted_row id seq (title, sku, flags)) ≡ true
unfolding row_ok extracted_row is_blocked is_confirmed
row_ok-extracted_row id seq title sku flags = ground (
  arith,
  any-append (λ f. str_eq f "missing_title") flags (title_flags (strip title)),
  any-title_flags (strip title),
)

pub All-extracted_rows :
    (id seq : ℕ) (sheet : List (List ℕ × List ℕ × List String))
    → All (λ r. row_ok r ≡ true) (extracted_rows id seq sheet)
unfolding extracted_rows
All-extracted_rows id seq [] = tt
All-extracted_rows id seq ((title, sku, flags) ∷ sheet) =
    (row_ok-extracted_row id seq title sku flags, All-extracted_rows id (suc seq) sheet)

-- The flag of a duplicate does not bear on the flag of a title.
any-filter_duplicate :
    (flags : List String)
    → any (λ f. str_eq f "missing_title") (filter (λ f. not (str_eq f "duplicate_sku")) flags)
      ≡ any (λ f. str_eq f "missing_title") flags
any-filter_duplicate [] = refl
any-filter_duplicate (f ∷ flags) = elim (Bool-cases (str_eq f "duplicate_sku")) [
  | inr other ↦ ground (arith, other, any-filter_duplicate flags)
  | inl same ↦
      let e : str_eq f "missing_title" ≡ false =
        ap (λ x. str_eq x "missing_title") ((str_eq_iff f "duplicate_sku").0 same) in
      ground (arith, same, e, any-filter_duplicate flags)
]

is_blocked-with_duplicate :
    (dup : Bool) (r : ImportRow) → is_blocked (with_duplicate dup r) ≡ is_blocked r
unfolding is_blocked with_duplicate
is_blocked-with_duplicate true r = ground (
  arith,
  any-append (λ f. str_eq f "missing_title") (filter (λ f. not (str_eq f "duplicate_sku")) r.flags)
      ("duplicate_sku" ∷ []),
  any-filter_duplicate r.flags,
)
is_blocked-with_duplicate false r = ground (
  arith,
  any-append (λ f. str_eq f "missing_title") (filter (λ f. not (str_eq f "duplicate_sku")) r.flags)
      [],
  any-filter_duplicate r.flags,
)

row_ok-with_duplicate : (dup : Bool) (r : ImportRow) → row_ok (with_duplicate dup r) ≡ row_ok r
unfolding row_ok with_duplicate
row_ok-with_duplicate dup r =
    ap (λ b. (not (is_empty r.normalized.title) || b) && not (is_confirmed r.state && b))
      (is_blocked-with_duplicate dup r)

pub All-flag_rows :
    (id : ℕ) (items : List Item) (seen : List (List ℕ)) (rows : List ImportRow)
    → All (λ r. row_ok r ≡ true) rows
    → All (λ r. row_ok r ≡ true) (flag_rows id items seen rows)
unfolding flag_rows
All-flag_rows id items seen [] h = tt
All-flag_rows id items seen (r ∷ rows) (g, h) = elim (Bool-cases (r.batch == id)) [
  | inl here ↦ rw here (
    row_ok-with_duplicate (is_duplicate seen items (strip r.normalized.sku)) r ∙ g,
    All-flag_rows id items (strip r.normalized.sku ∷ seen) rows h,
  )
  | inr elsewhere ↦ rw elsewhere (g, All-flag_rows id items seen rows h)
]

-- The review of one row.
is_confirmed-edited :
    (normalized : Normalized) (r : ImportRow)
    → is_confirmed (edited normalized r).state ≡ not (is_blocked (edited normalized r))
unfolding edited is_blocked is_confirmed
is_confirmed-edited normalized r = elim (Bool-cases (is_empty (strip normalized.title))) [
  | inl blank ↦ rw blank refl
  | inr titled ↦ rw titled refl
]

edited-blocks :
    (title sku : List ℕ) (r : ImportRow)
    → not (is_empty title) || is_blocked (edited record { title = title; sku = sku } r) ≡ true
unfolding edited is_blocked
edited-blocks [] sku r = refl
edited-blocks (c ∷ s) sku r = refl

pub row_ok-edited : (normalized : Normalized) (r : ImportRow) → row_ok (edited normalized r) ≡ true
unfolding row_ok
row_ok-edited normalized r =
    let kept : (edited normalized r).normalized ≡ normalized = unfold edited in refl in
    let kept_title = ap (λ (n : Normalized). is_empty n.title) kept in
    ground (
      arith,
      kept_title,
      is_confirmed-edited normalized r,
      edited-blocks normalized.title normalized.sku r,
    )

pub row_ok-confirm :
    (r : ImportRow) → is_blocked r ≡ false → row_ok r ≡ true → row_ok (confirm r) ≡ true
unfolding row_ok confirm is_blocked is_confirmed
row_ok-confirm r free h = ground (arith, free, h)

pub row_ok-reject : (r : ImportRow) → row_ok r ≡ true → row_ok (reject r) ≡ true
unfolding row_ok reject is_blocked is_confirmed
row_ok-reject r h = ground (arith, h)

pub All-update_row :
    (id seq : ℕ) (f : ImportRow → ImportRow) (rows : List ImportRow)
    → ((r : ImportRow) → row_ok r ≡ true → row_ok (f r) ≡ true)
    → All (λ r. row_ok r ≡ true) rows
    → All (λ r. row_ok r ≡ true) (update_row id seq f rows)
unfolding update_row
All-update_row id seq f [] k h = tt
All-update_row id seq f (r ∷ rows) k (g, h) = elim (Bool-cases (is_row id seq r)) [
  | inl here ↦ rw here (k r g, h)
  | inr elsewhere ↦ rw elsewhere (g, All-update_row id seq f rows k h)
]

some_row : {a b : ImportRow} → some a ≡ some b → a ≡ b
some_row e = cc

-- The row that `confirm_row` reads is the one that it writes.
pub All-confirm_first :
    (id seq : ℕ) (rows : List ImportRow) (r : ImportRow)
    → find? (is_row id seq) rows ≡ some r
    → is_blocked r ≡ false
    → All (λ x. row_ok x ≡ true) rows
    → All (λ x. row_ok x ≡ true) (update_row id seq confirm rows)
unfolding update_row
All-confirm_first id seq [] r found free h = tt
All-confirm_first id seq (x ∷ rows) r found free (g, h) = elim (Bool-cases (is_row id seq x)) [
  | inl here ↦
      let same : x ≡ r = some_row (ground (arith, found, here)) in
      rw here (row_ok-confirm x (ap is_blocked same ∙ free) g, h)
  | inr elsewhere ↦
      let found' : find? (is_row id seq) rows ≡ some r = ground (arith, found, elsewhere) in
      rw elsewhere (g, All-confirm_first id seq rows r found' free h)
]
