-- ===== src/Approvals/Tool/Tests.antt =====
-- The theorems on tool calls, at an owner who has paused the agent and at one with the defaults.
use mathlib.Core.List.{mem-cons_self}
use growth_operator.Approvals.Samples.{no_cel, no_rules}
use growth_operator.Approvals.Tool.{
  Owner, evaluate_tool, reactive, autonomy_floor, resolve_actions, autonomy_review_tier,
  capabilities_of, any_review, quiet_floor, pooled, message_amount_minor, text_amount,
}
use growth_operator.Prelude.Order.Sorted.{sorted}
use growth_operator.Pricing.Extract.{extract_amounts}
use growth_operator.Prelude.Order.Max.{max_from}
use growth_operator.Approvals.Engine.Tier.{tier_of}
use growth_operator.Tenancy.Settings.{
  Resolved, resolve, bool, SettingSource, flag_override, tenant_setting,
}
use growth_operator.Tenancy.QuietHours.{Zones}
use growth_operator.Approvals.Tool.Raise.{rule_pool, evaluate_tool-is-max, core-le-evaluate_tool}
use growth_operator.Approvals.Engine.{
  Params, Decision, never_autonomous_tier, is_core_tier4, select_decision, contributors,
  core_contributors, rule_contributors, incident_contributors,
}
use growth_operator.Prelude.{
  String, ◌≡◌, List, max, false, none, ℕ, refl, some, ◌*◌, ◌∷◌, [], ◌⊎◌, Bool, true, ◌≤◌, ◌==◌,
  if◌then◌else◌,
}

abbrev no_params : Params
no_params = record {
  amount_minor = none;
  body = some "see you";
  text = none;
  currency = none;
  recipients = [];
  other = [];
}

-- It is 22:00 everywhere.
abbrev late : Zones
late = record { now_in = λ name. none; now_in_kolkata = 22 * 60 * 60_000_000 }

abbrev owner : Bool → Owner
owner paused = record {
  settings = record {
    flag_rules = [];
    tenant_settings =
        record {
          org_id = 1;
          key = "autonomy.paused";
          value = bool paused;
          schema_ref = none;
          version = 1;
          updated_by = none;
          updated_at = 0;
        }
        ∷ [];
    installations = [];
    audit = [];
  };
  zones = late;
  organizations = [];
}

abbrev decision : ℕ → List String → Decision
decision tier matched = record {
  tier = tier;
  matched_rules = matched;
  approver_chain = [];
  timeout_s = none;
  on_timeout = if tier == 4 then "cancel" else "hold";
  confirm_kind = none;
}

abbrev setting : Bool → Resolved
setting paused = record {
  value = bool paused;
  source = SettingSource.tenant;
  schema_ref = none;
  version = some 1;
}

refund_runs :
    evaluate_tool no_cel no_rules (owner false) 1 none false "payment.refund" no_params reactive 0
    ≡ some (decision 4 ("core:tier4" ∷ []))
unfolding evaluate_tool autonomy_floor resolve flag_override tenant_setting any_review
    capabilities_of resolve_actions quiet_floor select_decision pooled contributors
    core_contributors is_core_tier4 max_from sorted rule_contributors incident_contributors
    message_amount_minor text_amount extract_amounts
refund_runs = refl

core-le-evaluate_tool_example : never_autonomous_tier ≤ (decision 4 ("core:tier4" ∷ [])).tier
core-le-evaluate_tool_example =
    core-le-evaluate_tool no_cel no_rules (owner false) 1 none false "payment.refund" no_params
      reactive 0 (decision 4 ("core:tier4" ∷ [])) "payment.refund" refund_runs
      (unfold resolve_actions in mem-cons_self) (unfold is_core_tier4 in refl)

send_runs :
    evaluate_tool no_cel no_rules (owner true) 1 none false "messages.send" no_params reactive 0
    ≡ some (decision 2 ("autonomy" ∷ []))
unfolding evaluate_tool autonomy_floor resolve flag_override tenant_setting any_review
    capabilities_of resolve_actions quiet_floor select_decision pooled contributors
    core_contributors is_core_tier4 max_from sorted rule_contributors incident_contributors
    message_amount_minor text_amount extract_amounts
send_runs = refl

evaluate_tool-is-max_example :
    (floor : ℕ) × (autonomy_floor (owner true) 1 "messages.send" no_params reactive ≡ some floor)
    × ((floor ≡ 0) ⊎ (floor ≡ autonomy_review_tier))
    × (2
        ≡ max
            (tier_of (
              rule_pool no_cel no_rules
                (owner true)
                1
                none
                false
                "messages.send"
                no_params
                reactive
                0))
            floor)
evaluate_tool-is-max_example =
    evaluate_tool-is-max no_cel no_rules (owner true) 1 none false "messages.send" no_params
      reactive 0 (decision 2 ("autonomy" ∷ [])) send_runs
