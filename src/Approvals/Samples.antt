-- ===== src/Approvals/Samples.antt =====
-- Data that several modules of tests share.
use growth_operator.Approvals.Engine.{Params, Cel, Rules}
use growth_operator.Prelude.{[], none}

-- A call without parameters.
abbrev pub no_params : Params
no_params = record {
  amount_minor = none;
  body = none;
  text = none;
  currency = none;
  recipients = [];
  other = [];
}

-- Every expression fails.
abbrev pub no_cel : Cel
no_cel expr act = none

abbrev pub no_rules : Rules
no_rules = record { policies = []; installations = []; tightenings = [] }
