-- ===== src/Workflows/Waits/Claimed.antt =====
-- What a claim takes, it takes once.
use growth_operator.Workflows.Run.{Run, Subscription, WaitStatus}
use growth_operator.Workflows.Waits.{is_pending, is_claimed, claimed_of, mark, claim}
use growth_operator.Prelude.{
  length, false, arith, ℕ, ◌≡◌, List, Bool, map, update_where, [], ◌∷◌, ◌+◌, refl, filter, ◌&&◌,
  length-append, not, ◌∙◌,
}

-- The subscriptions of a claim.
unfoldable pub claimable : (Subscription → Bool) → List Run → ℕ
unfolding is_pending
claimable test [] = 0
claimable test (run ∷ runs) =
    length (filter (is_claimed test) run.subscriptions) + claimable test runs

length-map : (id : ℕ) (xs : List Subscription) → length (map (λ s. id) xs) ≡ length xs
length-map id [] = refl
length-map id (x ∷ xs) = omega (arith, length-map id xs)

left_over :
    (test other : Subscription → Bool) (status : WaitStatus) (xs : List Subscription)
    → is_pending status ≡ false
    → length (
        filter
          (is_claimed other)
          (update_where (is_claimed test) (λ s. record s { status = status }) xs))
      ≡ length (filter (is_claimed (λ s. other s && not (test s))) xs)
unfolding is_pending
left_over test other status [] h = refl
left_over test other status (s ∷ xs) h = ground (arith, left_over test other status xs h, h)

length-claim :
    (test : Subscription → Bool) (status : WaitStatus) (runs : List Run)
    → length (claim test status runs).0 ≡ claimable test runs
unfolding claim claimable claimed_of
length-claim test status [] = refl
length-claim test status (run ∷ runs) =
    let own = filter (is_claimed test) run.subscriptions in
    omega (
      arith,
      length-append {0} (map (λ s. run.run_id) own) (claim test status runs).0,
      length-map run.run_id own,
      length-claim test status runs,
    )

claimable-claim :
    (test other : Subscription → Bool) (status : WaitStatus) (runs : List Run)
    → is_pending status ≡ false
    → claimable other (claim test status runs).1 ≡ claimable (λ s. other s && not (test s)) runs
unfolding claim claimable mark
claimable-claim test other status [] h = refl
claimable-claim test other status (run ∷ runs) h = omega (
  arith,
  left_over test other status run.subscriptions h,
  claimable-claim test other status runs h,
)

-- A claim to a status other than `pending` returns one id for each pending subscription that passes its
-- test; and any claim after it returns one for each that was pending and passes the second test but not
-- the first. So no two claims take one subscription, and a signal delivered again finds nothing.
pub claim-once :
    (test other : Subscription → Bool) (status status' : WaitStatus) (runs : List Run)
    → is_pending status ≡ false
    → let first = claim test status runs in
      (length first.0 ≡ claimable test runs)
      × (length (claim other status' first.1).0 ≡ claimable (λ s. other s && not (test s)) runs)
claim-once test other status status' runs h = (
  length-claim test status runs,
  length-claim other status' (claim test status runs).1 ∙ claimable-claim test other status runs h,
)
