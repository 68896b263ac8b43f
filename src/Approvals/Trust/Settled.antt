-- ===== src/Approvals/Trust/Settled.antt =====
-- An approval is settled once.
use growth_operator.Approvals.Service.{Approval}
use growth_operator.Approvals.Trust.{
  Trust, TrustDb, is_due, mark_settled, settle_rows, settle, add_clean,
}
use growth_operator.Prelude.{
  ◌≡◌, refl, ◌∷◌, List, All, ◌==◌, any, filter, Bool, ℕ, sym, arith, [], true, update_where,
}

abbrev has_id : ℕ → List Approval → Bool
has_id id rows = any (λ r. r.id == id) rows

-- The approvals after the loop: those with an id among the rows are settled, the others as before.
abbrev settle_all : List Approval → List Approval → List Approval
settle_all rows = update_where (λ a. has_id a.id rows) (λ a. record a { trust_settled = true })

settle_all-cons :
    (r : Approval) (rows xs : List Approval)
    → settle_all rows (mark_settled r.id xs) ≡ settle_all (r ∷ rows) xs
unfolding mark_settled
settle_all-cons r rows [] = refl
settle_all-cons r rows (x ∷ xs) = ground (arith, settle_all-cons r rows xs)

settle_all-nil : (xs : List Approval) → settle_all [] xs ≡ xs
settle_all-nil [] = refl
settle_all-nil (x ∷ xs) = ground (arith, settle_all-nil xs)

approvals-settle_rows :
    (read : List Trust) (rows : List Approval) (db : TrustDb)
    → (settle_rows read rows db).1.approvals ≡ settle_all rows db.approvals
unfolding settle_rows
approvals-settle_rows read [] db = sym (settle_all-nil db.approvals)
approvals-settle_rows read (r ∷ rows) db = ground (
  arith,
  settle_all-cons r rows db.approvals,
  approvals-settle_rows read rows (record db { approvals = mark_settled r.id db.approvals }),
  approvals-settle_rows read rows
      (record db { approvals = mark_settled r.id db.approvals; ledger = add_clean r db.ledger }),
)

-- Nothing is due after the loop over all that was.
none_due :
    (now org : ℕ) (rows xs : List Approval)
    → All (λ x. is_due now org x ≡ true → has_id x.id rows ≡ true) xs
    → filter (is_due now org) (settle_all rows xs) ≡ []
unfolding is_due
none_due now org rows [] h = refl
none_due now org rows (x ∷ xs) (hx, h) = ground (arith, none_due now org rows xs h, hx)

due_among :
    (now org : ℕ) (rows xs : List Approval)
    → ((x : Approval) → has_id x.id (filter (is_due now org) xs) ≡ true → has_id x.id rows ≡ true)
    → All (λ x. is_due now org x ≡ true → has_id x.id rows ≡ true) xs
due_among now org rows [] h = tt
due_among now org rows (x ∷ xs) h =
    (λ due. ground (arith, h x), due_among now org rows xs (λ y m. ground (arith, h y)))

-- Settling again at the same time counts nothing and changes nothing.
pub settle_idempotent :
    (now org : ℕ) (db : TrustDb) → let db' = (settle now org db).1 in settle now org db' ≡ (0, db')
unfolding settle settle_rows
settle_idempotent now org db =
    let rows = filter (is_due now org) db.approvals in
    let all = due_among now org rows db.approvals (λ x m. m) in
    ground (arith, approvals-settle_rows db.ledger rows db, none_due now org rows db.approvals all)
