-- ===== src/Tenancy/QuietHours/Window.antt =====
-- The window is the stretch of the day from its start on, round midnight where it wraps.
use growth_operator.Prelude.{
  ℕ, Option, some, List, [], ◌∷◌, split_on, codes, parse_int, ◌+◌, ◌-◌, ◌%◌, ◌<◌, ◌≡◌, arith, ltb,
}
use growth_operator.Prelude.Int.{ℤ, pos}
use growth_operator.Tenancy.Settings.{Value, text, Resolved, Db}
use growth_operator.Tenancy.QuietHours.{
  day, in_quiet_window, parse_time, checked_time, both_ints, two_parts, window_of, resolve_window,
  default_start, default_end,
}

-- A time is in the window exactly if less of the day has passed since the start than the window
-- is long, both counted round midnight; all three are times of day.
pub in_quiet_window-cyclic :
    (now start end : ℕ)
    → now < day
    → start < day
    → end < day
    → in_quiet_window now start end ≡ ltb ((now + day - start) % day) ((end + day - start) % day)
unfolding in_quiet_window
in_quiet_window-cyclic now start end n s e = ground arith

checked_time-lt-day : (hh mm : ℤ) (default : ℕ) → default < day → checked_time hh mm default < day
unfolding checked_time
checked_time-lt-day (pos hh) (pos mm) default h = ground arith
checked_time-lt-day _ _ default h = h

both_ints-lt-day : (hh mm : Option ℤ) (default : ℕ) → default < day → both_ints hh mm default < day
unfolding both_ints
both_ints-lt-day (some hh) (some mm) default h = checked_time-lt-day hh mm default h
both_ints-lt-day _ _ default h = h

two_parts-lt-day :
    (parts : List (List ℕ)) (default : ℕ) → default < day → two_parts parts default < day
unfolding two_parts
two_parts-lt-day (hh ∷ mm ∷ []) default h = both_ints-lt-day (parse_int hh) (parse_int mm) default h
two_parts-lt-day _ default h = h

-- A parsed setting is a time of day, whatever the setting holds, if the default is one.
pub parse_time-lt-day : (raw : Value) (default : ℕ) → default < day → parse_time raw default < day
unfolding parse_time
parse_time-lt-day (text raw) default h = two_parts-lt-day (split_on b':' (codes raw)) default h
parse_time-lt-day _ default h = h

window_of-lt-day :
    (start end : Option Resolved) {s e : ℕ}
    → window_of start end ≡ some (s, e)
    → (s < day) × (e < day)
unfolding window_of
window_of-lt-day (some start) (some end) h = ground (
  arith,
  parse_time-lt-day start.value default_start (omega arith),
  parse_time-lt-day end.value default_end (omega arith),
)
window_of-lt-day _ _ h = absurd (ground arith)

-- Whatever an organisation has set, its window has two times of day for its ends.
pub resolve_window-lt-day :
    (db : Db) (org : ℕ) {s e : ℕ} → resolve_window db org ≡ some (s, e) → (s < day) × (e < day)
unfolding resolve_window
resolve_window-lt-day db org h = window_of-lt-day _ _ h
