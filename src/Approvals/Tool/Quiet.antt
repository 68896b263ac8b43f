-- ===== src/Approvals/Tool/Quiet.antt =====
-- Quiet hours hold back outreach to customers, and never an answer to one.
use growth_operator.Approvals.Engine.{Params}
use growth_operator.Tenancy.Settings.{Resolved, resolve}
use growth_operator.Tenancy.QuietHours.{is_quiet_now}
use growth_operator.Approvals.Tool.{
  Owner, reactive, proactive, autonomy_floor, autonomy_review_tier, quiet_floor, resolve_actions,
  capabilities_of, action_amount_minor, any_review, is_customer_facing, truthy,
}
use growth_operator.Prelude.{any, ℕ, String, ◌&&◌, if◌then◌else◌, ◌≡◌, Bool, arith, false, some}

-- Where neither the pause nor a capability asks for review: an answer is never held back, and
-- outreach through a customer-facing capability is held back exactly in quiet hours.
pub quiet_hours_exact :
    (owner : Owner) (org : ℕ) (tool : String) (params : Params) (paused : Resolved) (quiet : Bool)
    → resolve owner.settings org "autonomy.paused" ≡ some paused
    → truthy paused.value ≡ false
    → any_review owner.settings org
        (action_amount_minor tool params)
        (capabilities_of (resolve_actions tool params))
      ≡ some false
    → is_quiet_now owner.zones owner.organizations owner.settings org ≡ some quiet
    → (autonomy_floor owner org tool params reactive ≡ some 0)
      × (autonomy_floor owner org tool params proactive
          ≡ some (
              if any is_customer_facing (capabilities_of (resolve_actions tool params)) && quiet
              then autonomy_review_tier
              else 0))
unfolding autonomy_floor quiet_floor
quiet_hours_exact owner org tool params paused quiet p off auto q = (ground arith, ground arith)
