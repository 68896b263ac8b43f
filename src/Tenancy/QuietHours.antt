-- ===== src/Tenancy/QuietHours.antt =====
-- core/tenancy/quiet_hours.py: the window in which customer-bound sends wait. A time of day is a
-- number of microseconds since midnight. The zone database is the parameter `Zones`.
pub mod Window
mod Tests
use growth_operator.Prelude.{
  ℕ, ◌+◌, ◌*◌, ◌<◌, String, Bool, true, false, ◌&&◌, ◌||◌, Option, none, some, List, [], ◌∷◌, leb,
  ltb, ◌==◌, if◌then◌else◌, str_eq, codes, split_on, parse_int, find?,
}
use growth_operator.Prelude.Int.{ℤ, pos, negsuc}
use growth_operator.Tenancy.Settings.{Value, text, Resolved, Db, resolve}

abbrev pub minute : ℕ
minute = 60_000_000

abbrev pub day : ℕ
day = 24 * 60 * minute

abbrev pub time_of : ℕ → ℕ → ℕ
time_of hh mm = (hh * 60 + mm) * minute

-- `DEFAULT_START` and `DEFAULT_END`
abbrev pub default_start : ℕ
default_start = time_of 21 0

abbrev pub default_end : ℕ
default_end = time_of 8 0

-- `time(hh, mm)`, which raises out of range
unfoldable pub checked_time : ℤ → ℤ → ℕ → ℕ
checked_time (pos hh) (pos mm) default = if leb hh 23 && leb mm 59 then time_of hh mm else default
checked_time _ _ default = default

unfoldable pub both_ints : Option ℤ → Option ℤ → ℕ → ℕ
unfolding checked_time
both_ints (some hh) (some mm) default = checked_time hh mm default
both_ints _ _ default = default

unfoldable pub two_parts : List (List ℕ) → ℕ → ℕ
unfolding both_ints
two_parts (hh ∷ mm ∷ []) default = both_ints (parse_int hh) (parse_int mm) default
two_parts _ default = default

-- `_parse_time`: the text of any other JSON scalar has no colon
unfoldable pub parse_time : Value → ℕ → ℕ
unfolding two_parts
parse_time (text raw) default = two_parts (split_on b':' (codes raw)) default
parse_time _ default = default

unfoldable pub in_quiet_window : ℕ → ℕ → ℕ → Bool
in_quiet_window now start end =
    if start == end
    then false
    else if ltb start end
    then leb start now && ltb now end
    else leb start now || ltb now end

unfoldable pub window_of : Option Resolved → Option Resolved → Option (ℕ × ℕ)
unfolding parse_time
window_of (some start) (some end) =
    some (parse_time start.value default_start, parse_time end.value default_end)
window_of _ _ = none

-- `resolve_window`; `none` is `UnknownConfigKey`
unfoldable pub resolve_window : Db → ℕ → Option (ℕ × ℕ)
unfolding window_of
resolve_window db org =
    window_of (resolve db org "quiet_hours.start") (resolve db org "quiet_hours.end")

pub record Organization : Type 0 where
  pub id : ℕ
  pub timezone : Option String

-- The time of day now in a zone, `none` for an unknown one, and in `Asia/Kolkata`.
pub record Zones : Type 0 where
  pub now_in : String → Option ℕ
  pub now_in_kolkata : ℕ

unfoldable pub local_time : Zones → Option Organization → ℕ
local_time zones none = zones.now_in_kolkata
local_time zones (some org) = elim org.timezone [
  | none ↦ zones.now_in_kolkata
  | some name ↦
      if str_eq name ""
      then zones.now_in_kolkata
      else elim (zones.now_in name) [ none ↦ zones.now_in_kolkata | some t ↦ t ]
]

-- `is_quiet_now`
unfoldable pub is_quiet_now : Zones → List Organization → Db → ℕ → Option Bool
unfolding local_time
is_quiet_now zones orgs db org = elim (resolve_window db org) [
  | none ↦ none
  | some (start, end) ↦
      some (in_quiet_window (local_time zones (find? (λ o. o.id == org) orgs)) start end)
]
