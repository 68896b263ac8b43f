-- ===== src/Workflows/Waits.antt =====
-- core/workflows/waits.py: signals claim pending subscriptions and wake their runs; the sweep fires due
-- durations and expires replies and events. The table of subscriptions is kept with the runs.
pub mod Claimed
use growth_operator.Prelude.Json.{Json, str}
use growth_operator.Workflows.Vars.{Vars}
use growth_operator.Workflows.Run.{Run, Subscription, WaitStatus, pending, matched, expired}
use growth_operator.Workflows.Executor.{Env}
use growth_operator.Workflows.Resume.{wake_run}
use growth_operator.Workflows.Advance.{run_of}
use growth_operator.Workflows.Runs.{run_in}
use growth_operator.Prelude.{
  update_where, none, ◌++◌, Option, Bool, List, ℕ, leb, [], ◌∷◌, ◌||◌, filter, map, some, true,
  str_eq, ◌&&◌, length, false, String, lookup,
}

unfoldable pub is_pending : WaitStatus → Bool
is_pending pending = true
is_pending _ = false

-- `status = 'pending' AND {where}`
abbrev pub is_claimed : (Subscription → Bool) → Subscription → Bool
is_claimed test s = is_pending s.status && test s

-- The rows of `_claim` for one run: an id for each subscription claimed.
unfoldable pub claimed_of : (Subscription → Bool) → ℕ → List Subscription → List ℕ
unfolding is_pending
claimed_of test id subscriptions = map (λ s. id) (filter (is_claimed test) subscriptions)

unfoldable pub mark : (Subscription → Bool) → WaitStatus → Run → Run
unfolding is_pending
mark test status run = record run {
  subscriptions =
      update_where (is_claimed test) (λ s. record s { status = status }) run.subscriptions;
}

-- `_claim`: the ids of the runs to wake, and the table
unfoldable pub claim : (Subscription → Bool) → WaitStatus → List Run → List ℕ × List Run
unfolding claimed_of mark
claim test status [] = ([], [])
claim test status (run ∷ runs) =
    let rest = claim test status runs in
    (claimed_of test run.run_id run.subscriptions ++ rest.0, mark test status run ∷ rest.1)

-- The wakes that follow a claim.
unfoldable pub wake_all : Env → String → List ℕ → List Run → List Run
unfolding run_in wake_run
wake_all env result [] runs = runs
wake_all env result (id ∷ ids) runs =
    wake_all env result ids (run_in env (λ r. (wake_run env result r).1) id runs)

-- `correlation->>key = value`
unfoldable pub correlates : String → String → Subscription → Bool
correlates key value s = elim (lookup key s.correlation) [
  | some (str v) ↦ str_eq v value
  | _ ↦ false
]

unfoldable pub is_reply_to : String → Subscription → Bool
unfolding correlates
is_reply_to conversation s =
    str_eq s.wait_for "reply" && correlates "conversation_id" conversation s

unfoldable pub is_event_wait : String → Subscription → Bool
unfolding correlates
is_event_wait event_type s = str_eq s.wait_for "event" && correlates "event_type" event_type s

-- `t IS NOT NULL AND t <= now()`
unfoldable pub is_due : ℕ → Option ℕ → Bool
is_due now none = false
is_due now (some t) = leb t now

unfoldable pub is_fired : ℕ → Subscription → Bool
unfolding is_due
is_fired now s = str_eq s.wait_for "duration" && is_due now s.fire_at

unfoldable pub is_timed_out : ℕ → Subscription → Bool
unfolding is_due
is_timed_out now s =
    (str_eq s.wait_for "reply" || str_eq s.wait_for "event") && is_due now s.timeout_at

-- `match_reply` and `match_event`: the number of subscriptions, and the table
unfoldable pub match_reply : Env → String → List Run → ℕ × List Run
unfolding claim is_reply_to wake_all
match_reply env conversation runs =
    let claimed = claim (is_reply_to conversation) matched runs in
    (length claimed.0, wake_all env "reply" claimed.0 claimed.1)

unfoldable pub match_event : Env → String → List Run → ℕ × List Run
unfolding claim is_event_wait wake_all
match_event env event_type runs =
    let claimed = claim (is_event_wait event_type) matched runs in
    (length claimed.0, wake_all env "event" claimed.0 claimed.1)

-- `sweep_waits` for one organisation
unfoldable pub sweep_waits : Env → List Run → List Run
unfolding claim is_fired is_timed_out wake_all
sweep_waits env runs =
    let fired = claim (is_fired env.now) matched runs in
    let timed_out = claim (is_timed_out env.now) expired fired.1 in
    wake_all env "timeout" timed_out.0 (wake_all env "duration" fired.0 timed_out.1)
