-- ===== src/Approvals/Trust/Incident.antt =====
-- What an incident does: it resets the counter, tightens the tier for 14 days, and hides an earlier
-- incident from the clean window of an approval.
use mathlib.Core.List.{Mem, mem-cons_self, mem-append_right}
use growth_operator.Approvals.Engine.{
  Cel, ActionContext, Tightening, evaluate, highest, is_tightening_for, incident_contributors,
  contributors, core_contributors, rule_contributors, activation, plain, matched_ids,
}
use growth_operator.Approvals.Engine.Tier.{mem-le-select}
use growth_operator.Approvals.Service.{Approval}
use growth_operator.Approvals.Trust.{
  Trust, TrustDb, record_incident, tightening_of, upsert, is_trust, last_incident, is_clean,
  tighten_tier, tighten_time, clean_window,
}
use growth_operator.Prelude.{
  some, ℕ, arith, ◌+◌, String, ◌∷◌, true, [], ◌≡◌, Option-cases, ◌<◌, inl, max, str_eq_refl, Option,
  List, false, ◌≤◌, inr, filter,
}

highest-head :
    (t : Tightening) (ts : List Tightening)
    → (tier : ℕ) × (highest (t ∷ ts) ≡ some tier) × (t.tightened_to_tier ≤ tier)
unfolding highest
highest-head t ts = elim (Option-cases (highest ts)) [
  | inl alone ↦ (t.tightened_to_tier, ground arith, omega arith)
  | inr (n, others) ↦ (max t.tightened_to_tier n, ground arith, omega arith)
]

incident_counts :
    (db : TrustDb) (now later org : ℕ) (action : String) (reason : Option String)
    → later < now + tighten_time
    → (tier : ℕ) × (tighten_tier ≤ tier)
      × (incident_contributors (record_incident now org action reason db).rules org action later
          ≡ plain tier "incident" "hold" ∷ [])
unfolding record_incident incident_contributors is_tightening_for tightening_of
incident_counts db now later org action reason soon =
    let t = tightening_of now org action reason in
    let (tier, top, le) =
      highest-head t (filter (is_tightening_for org action later) db.rules.tightenings) in
    (tier, le, ground (arith, top, str_eq_refl action))

-- From an incident on, for 14 days, the decision on its action has tier 2 or more, whatever rules
-- are stored and whatever the call's parameters are.
pub record_incident-tightens :
    (cel : Cel) (db : TrustDb) (now later : ℕ) (ctx : ActionContext) (reason : Option String)
    → later < now + tighten_time
    → tighten_tier
      ≤ (evaluate cel
          (record_incident now ctx.org_id ctx.action_type reason db).rules
          ctx
          later).tier
unfolding evaluate contributors
record_incident-tightens cel db now later ctx reason soon =
    let rules = (record_incident now ctx.org_id ctx.action_type reason db).rules in
    let act = activation ctx in
    let (tier, le, only) = incident_counts db now later ctx.org_id ctx.action_type reason soon in
    let here : Mem (plain tier "incident" "hold")
        (incident_contributors rules ctx.org_id ctx.action_type later) =
      rw only mem-cons_self in
    let top =
      mem-le-select (plain tier "incident" "hold")
        (contributors cel rules ctx.org_id ctx.action_type act later)
        (matched_ids (contributors cel rules ctx.org_id ctx.action_type act later))
        (mem-append_right (core_contributors ctx.action_type)
          (mem-append_right (rule_contributors cel rules ctx.org_id ctx.action_type act) here)) in
    unfold plain in omega (arith, le, top)

last_incident-upsert :
    (org : ℕ) (action : String) (now : ℕ) (ledger : List Trust)
    → last_incident
        (upsert org action
          (record {
            org_id = org;
            action_type = action;
            clean_approvals = 0;
            last_incident_at = some now;
          })
          (λ t. record t { clean_approvals = 0; last_incident_at = some now })
          ledger)
        org
        action
      ≡ some now
unfolding last_incident upsert is_trust
last_incident-upsert org action now [] = ground (arith, str_eq_refl action)
last_incident-upsert org action now (t ∷ ledger) =
    ground (arith, last_incident-upsert org action now ledger)

-- An incident in the 72 hours after a decision keeps the approval from counting as clean, but only
-- until the next incident: one that is recorded later than the window makes it count again.
pub later_incident_hides :
    (db : TrustDb) (a : Approval) (decided first second : ℕ) (r1 r2 : Option String)
    → a.decided_at ≡ some decided
    → decided ≤ first
    → first ≤ decided + clean_window
    → decided + clean_window < second
    → let db1 = record_incident first a.org_id a.action_type r1 db in
      let db2 = record_incident second a.org_id a.action_type r2 db1 in
      (is_clean db1.ledger a ≡ false) × (is_clean db2.ledger a ≡ true)
unfolding record_incident is_clean
later_incident_hides db a decided first second r1 r2 d after within late =
    let one = last_incident-upsert a.org_id a.action_type first db.ledger in
    let two =
      last_incident-upsert a.org_id a.action_type second
        (record_incident first a.org_id a.action_type r1 db).ledger in
    (ground (arith, one), ground (arith, two))
