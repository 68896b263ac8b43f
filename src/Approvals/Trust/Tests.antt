-- ===== src/Approvals/Trust/Tests.antt =====
-- The theorems on trust, at one approval with two incidents.
use growth_operator.Approvals.Samples.{no_params, no_cel}
use growth_operator.Approvals.Engine.{ActionContext, evaluate}
use growth_operator.Approvals.Service.{Approval, approved, is_approved}
use growth_operator.Approvals.Trust.{
  TrustDb, settle, record_incident, is_clean, tighten_tier, settle_rows, is_due, last_incident,
}
use growth_operator.Approvals.Trust.Incident.{record_incident-tightens, later_incident_hides}
use growth_operator.Prelude.{true, ◌∷◌, refl, some, ◌≡◌, false, none, arith, ◌≤◌, []}

abbrev sent : Approval
sent = record {
  id = 3;
  org_id = 1;
  run_id = none;
  requested_by = none;
  action_type = "action.quote.send";
  tier = 2;
  payload = no_params;
  matched_rules = [];
  audit_id = none;
  expires_at = 100;
  status = approved;
  approver_user_id = some 9;
  decided_at = some 50;
  edited_payload = none;
  decision_note = none;
  reason_code = none;
  trust_settled = false;
}

abbrev db : TrustDb
db = record {
  approvals = sent ∷ [];
  ledger = [];
  rules = record { policies = []; installations = []; tightenings = [] };
}

abbrev context : ActionContext
context = record {
  org_id = 1;
  action_type = "action.quote.send";
  actor_instance_id = none;
  amount_minor = none;
  currency = none;
  recipients = [];
  attributes = no_params;
  untrusted_content = false;
}

settle_counts : (settle 300_000 1 db).0 ≡ 1
unfolding settle settle_rows is_due is_approved is_clean last_incident
settle_counts = refl

record_incident-tightens_example :
    tighten_tier
    ≤ (evaluate no_cel
        (record_incident 100 1 "action.quote.send" none db).rules
        context
        1_000_000).tier
record_incident-tightens_example =
    record_incident-tightens no_cel db 100 1_000_000 context none (omega arith)

later_incident_hides_example :
    let db1 = record_incident 60 1 "action.quote.send" none db in
    let db2 = record_incident 300_000 1 "action.quote.send" none db1 in
    (is_clean db1.ledger sent ≡ false) × (is_clean db2.ledger sent ≡ true)
later_incident_hides_example =
    later_incident_hides db sent 50 60 300_000 none none refl (omega arith) (omega arith)
      (omega arith)
