-- ===== src/Tenancy/QuietHours/Tests.antt =====
-- The theorems on quiet hours, at the default window.
use growth_operator.Tenancy.Settings.{Db}
use growth_operator.Tenancy.QuietHours.{day, in_quiet_window, default_start, default_end}
use growth_operator.Tenancy.QuietHours.Window.{in_quiet_window-cyclic}
use growth_operator.Prelude.{◌+◌, arith, ◌≡◌, ltb, [], ◌-◌, ◌%◌}

abbrev empty : Db
empty = record { flag_rules = []; tenant_settings = []; installations = []; audit = [] }

in_quiet_window-cyclic_example :
    in_quiet_window 5 default_start default_end
    ≡ ltb ((5 + day - default_start) % day) ((default_end + day - default_start) % day)
in_quiet_window-cyclic_example =
    in_quiet_window-cyclic 5 default_start default_end (omega arith) (omega arith) (omega arith)
