-- ===== src/Mediation/Limits.antt =====
-- core/mediation/limits.py: rate windows, daily budgets and the untrusted flag of a run, in Redis.
-- Times are in microseconds. A sorted set of calls is the list of its scores with their keys; that
-- a set expires after two windows without a call is not seen by a window, and that a counter expires
-- after two days is not seen on its own day.
pub mod Window
mod Tests
use growth_operator.Prelude.{
  Bool, ◌*◌, if◌then◌else◌, ltb, ◌||◌, String, filter, length, not, contains, some, List, ◌/◌, leb,
  ◌+◌, ◌==◌, [], true, ◌&&◌, Option, str_eq, false, ℕ, any, ◌∷◌, none,
}

abbrev second : ℕ
second = 1_000_000

-- `RATE_WINDOW_S`
abbrev pub rate_window : ℕ
rate_window = 60 * second

-- `BUDGET_TTL_S`
abbrev budget_ttl : ℕ
budget_ttl = 172_800 * second

abbrev day_length : ℕ
day_length = 86_400 * second

-- A member of the sorted set `gop:rl:{instance_id}:{tool}`, with its score.
pub record RateEntry : Type 0 where
  pub instance_id : ℕ
  pub tool : String
  pub score : ℕ

pub record BudgetEntry : Type 0 where
  pub instance_id : ℕ
  pub kind : String
  pub day : ℕ
  pub used : ℕ

pub record Flag : Type 0 where
  pub run_id : ℕ
  pub expires_at : ℕ

unfoldable pub is_key : ℕ → String → RateEntry → Bool
is_key instance tool e = e.instance_id == instance && str_eq e.tool tool

-- The score is above `now - RATE_WINDOW_S`.
unfoldable pub is_recent : ℕ → RateEntry → Bool
is_recent now e = ltb now (e.score + rate_window)

-- `zremrangebyscore(key, 0, now - RATE_WINDOW_S)`
unfoldable pub prune : ℕ → ℕ → String → List RateEntry → List RateEntry
prune now instance tool = filter (λ e. not (is_key instance tool e) || is_recent now e)

-- `check_rate`: whether the call is within the limit, and the sorted sets afterwards
unfoldable pub check_rate : ℕ → ℕ → String → Option ℕ → List RateEntry → Bool × List RateEntry
check_rate now instance tool none entries = (true, entries)
check_rate now instance tool (some per_min) entries =
    let kept = prune now instance tool entries in
    if leb per_min (length (filter (is_key instance tool) kept))
    then (false, kept)
    else (true, record { instance_id = instance; tool = tool; score = now } ∷ kept)

-- `_day`: the days since the epoch name the same day as the date does
unfoldable pub day_of : ℕ → ℕ
day_of now = now / day_length

unfoldable pub is_budget : ℕ → String → ℕ → BudgetEntry → Bool
is_budget instance kind day b = b.instance_id == instance && str_eq b.kind kind && b.day == day

-- `int(await redis.get(...) or 0)`
unfoldable pub used_of : ℕ → String → ℕ → List BudgetEntry → ℕ
unfolding is_budget
used_of instance kind day [] = 0
used_of instance kind day (b ∷ bs) =
    let rest = used_of instance kind day bs in
    if is_budget instance kind day b then b.used else rest

unfoldable pub check_budget : ℕ → ℕ → String → Option ℕ → List BudgetEntry → Bool
unfolding used_of
check_budget now instance kind none budgets = true
check_budget now instance kind (some cap) budgets =
    ltb (used_of instance kind (day_of now) budgets) cap

-- `incrby`
unfoldable pub add_used : ℕ → String → ℕ → ℕ → List BudgetEntry → List BudgetEntry
unfolding is_budget
add_used instance kind day amount [] =
    record { instance_id = instance; kind = kind; day = day; used = amount } ∷ []
add_used instance kind day amount (b ∷ bs) =
    let rest = add_used instance kind day amount bs in
    if is_budget instance kind day b then record b { used = b.used + amount } ∷ bs else b ∷ rest

-- `record_budget`: the new total, and the counters afterwards
unfoldable pub record_budget : ℕ → ℕ → String → ℕ → List BudgetEntry → ℕ × List BudgetEntry
unfolding add_used used_of
record_budget now instance kind amount budgets =
    let budgets' = add_used instance kind (day_of now) amount budgets in
    (used_of instance kind (day_of now) budgets', budgets')

-- `UNTRUSTED_CONTENT_TOOLS`
abbrev untrusted_content_tools : List String
untrusted_content_tools = "web_fetch" ∷ "file_ingest" ∷ "forwarded_content" ∷ "web.fetch" ∷ []

-- `result_is_untrusted`, where `content_class` is the result's key of that name
unfoldable pub result_is_untrusted : String → Option String → Bool
result_is_untrusted tool content_class =
    if contains tool untrusted_content_tools
    then true
    else elim content_class [ none ↦ false | some c ↦ str_eq c "external_untrusted" ]

unfoldable pub mark_untrusted : ℕ → ℕ → List Flag → List Flag
mark_untrusted now run flags = record { run_id = run; expires_at = now + budget_ttl } ∷ flags

unfoldable pub is_untrusted : ℕ → ℕ → List Flag → Bool
is_untrusted now run flags = any (λ f. f.run_id == run && ltb now f.expires_at) flags

unfoldable pub clear_untrusted : ℕ → List Flag → List Flag
clear_untrusted run = filter (λ f. not (f.run_id == run))
