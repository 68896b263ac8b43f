-- ===== src/Mediation/Limits/Tests.antt =====
-- The theorem on rate windows, at three calls in two minutes.
use growth_operator.Mediation.Limits.{RateEntry, check_rate, prune, is_key, is_recent}
use growth_operator.Mediation.Limits.Window.{run_calls, in_window, run_calls-within-limit}
use growth_operator.Prelude.{
  length, ◌≡◌, refl, some, [], List, filter, ◌≤◌, ◌∷◌, ℕ, String, Option, arith,
}

abbrev send_at : ℕ → RateEntry
send_at t = record { instance_id = 1; tool = "messages.send"; score = t }

abbrev calls : List RateEntry
calls = send_at 90_000_000 ∷ send_at 30_000_000 ∷ send_at 20_000_000 ∷ []

abbrev one_per_minute : ℕ → String → Option ℕ
one_per_minute instance tool = some 1

calls_run : (run_calls one_per_minute calls).0 ≡ send_at 90_000_000 ∷ send_at 20_000_000 ∷ []
unfolding run_calls check_rate prune is_key is_recent
calls_run = refl

run_calls-within-limit_example :
    length (filter (in_window 1 "messages.send" 90_000_000) (run_calls one_per_minute calls).0) ≤ 1
run_calls-within-limit_example =
    run_calls-within-limit one_per_minute 1 "messages.send" 1 refl calls 90_000_000
      (omega arith, (omega arith, (omega arith, tt)))
