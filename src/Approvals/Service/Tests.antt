-- ===== src/Approvals/Service/Tests.antt =====
-- The theorems on approvals, at a quote that is approved and then tapped again.
use growth_operator.Approvals.Samples.{no_params, no_cel, no_rules}
use growth_operator.Approvals.Engine.{
  evaluate, select_decision, contributors, core_contributors, is_core_tier4, rule_contributors,
  incident_contributors,
}
use growth_operator.Approvals.Service.{
  ApprovalDb, Request, ResolveResult, approved, result, create_approval, resolve, action_context,
  is_approval, decide, verdict, edit_verdict, Approval, requested, pending, default_expires,
}
use growth_operator.Approvals.Service.Resolved.{resolve-replays, approved_edit-within-tier}
use growth_operator.Prelude.{◌≤◌, true, [], refl, false, ◌≡◌, some, none, String, ◌∷◌}

abbrev row : Approval
row = record {
  id = 3;
  org_id = 1;
  run_id = none;
  requested_by = none;
  action_type = "action.quote.send";
  tier = 2;
  payload = no_params;
  matched_rules = [];
  audit_id = none;
  expires_at = 3600;
  status = pending;
  approver_user_id = none;
  decided_at = none;
  edited_payload = none;
  decision_note = none;
  reason_code = none;
  trust_settled = false;
}

abbrev db : ApprovalDb
db = record { approvals = row ∷ []; events = requested 3 "action.quote.send" 2 3600 ∷ [] }

create_runs :
    create_approval 3 0 default_expires 1 "action.quote.send" 2 no_params none none [] none
      (record { approvals = []; events = [] })
    ≡ db
unfolding create_approval
create_runs = refl

abbrev request : String → Request
request decision = record {
  approver_user_id = 9;
  decision = decision;
  edited_payload = some no_params;
  reason_code = none;
  note = none;
}

abbrev outcome : ResolveResult
outcome = record {
  approval_id = 3;
  status = approved;
  tier = 2;
  edited = true;
  idempotent_replay = false;
  note = none;
}

approve_runs : (resolve no_cel no_rules 10 1 3 (request "approve") db).0 ≡ result outcome
unfolding resolve create_approval is_approval decide verdict edit_verdict evaluate select_decision
    contributors core_contributors is_core_tier4 action_context rule_contributors
    incident_contributors
approve_runs = refl

resolve-replays_example :
    let db' = (resolve no_cel no_rules 10 1 3 (request "approve") db).1 in
    (q : ResolveResult) × (resolve no_cel no_rules 20 1 3 (request "reject") db' ≡ (result q, db'))
    × (q.status ≡ approved)
    × (q.edited ≡ true)
    × (q.note ≡ none)
    × (q.idempotent_replay ≡ true)
resolve-replays_example =
    resolve-replays no_cel no_rules 10 1 3 (request "approve") db outcome no_cel no_rules 20
      (request "reject") approve_runs refl

approved_edit-within-tier_example :
    (evaluate no_cel no_rules (action_context 1 "action.quote.send" no_params) 10).tier ≤ 2
approved_edit-within-tier_example =
    approved_edit-within-tier no_cel no_rules 10 1 3 (request "approve") db outcome row no_params
      (unfold is_approval in refl) refl approve_runs refl refl
