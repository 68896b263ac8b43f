-- ===== src/Approvals/Service.antt =====
-- core/approvals/service.py: the life of an approval, from its creation to its resolution.
-- A call runs in one transaction, and `FOR UPDATE` puts the calls for one approval in a sequence.
-- The outbox is the list of the events that were emitted, the newest first.
pub mod Resolved
mod Tests
use growth_operator.Approvals.Engine.{Params, ActionContext, Cel, Rules, evaluate}
use growth_operator.Prelude.{
  Bool, some, update_where, str_eq, Option, is_some, ◌&&◌, find?, ℕ, true, List, none, false, not,
  ◌∷◌, leb, String, if◌then◌else◌, ◌+◌, ◌==◌, ltb,
}

pub data Status : Type 0 where
  pending approved rejected expired : Status

-- The note of a decision: the approver's, or that of an edit that raises the tier.
pub data Note : Type 0 where
  given : String → Note
  edit_raises : ℕ → ℕ → Note

-- A row of `approvals`.
pub record Approval : Type 0 where
  pub id : ℕ
  pub org_id : ℕ
  pub run_id : Option ℕ
  pub requested_by : Option ℕ
  pub action_type : String
  pub tier : ℕ
  pub payload : Params
  pub matched_rules : List String
  pub audit_id : Option ℕ
  pub expires_at : ℕ
  pub status : Status
  pub approver_user_id : Option ℕ
  pub decided_at : Option ℕ
  pub edited_payload : Option Params
  pub decision_note : Option Note
  pub reason_code : Option String
  pub trust_settled : Bool

pub data Event : Type 0 where
  requested : ℕ → String → ℕ → ℕ → Event
  resolved : ℕ → Bool → Bool → Event

pub record ApprovalDb : Type 0 where
  pub approvals : List Approval
  pub events : List Event

pub record ResolveResult : Type 0 where
  pub approval_id : ℕ
  pub status : Status
  pub tier : ℕ
  pub edited : Bool
  pub idempotent_replay : Bool
  pub note : Option Note

-- What `resolve` returns or raises.
pub data Resolution : Type 0 where
  result : ResolveResult → Resolution
  approval_not_found approval_expired : Resolution

pub record Request : Type 0 where
  pub approver_user_id : ℕ
  pub decision : String
  pub edited_payload : Option Params
  pub reason_code : Option String
  pub note : Option String

-- `_action_context`
unfoldable pub action_context : ℕ → String → Params → ActionContext
action_context org action payload = record {
  org_id = org;
  action_type = action;
  actor_instance_id = none;
  amount_minor = payload.amount_minor;
  currency = payload.currency;
  recipients = payload.recipients;
  attributes = payload;
  untrusted_content = false;
}

-- `DEFAULT_EXPIRES_S`, in seconds like all times here
abbrev pub default_expires : ℕ
default_expires = 3600

-- `create_approval`, where `id` is the row's new id
unfoldable pub create_approval :
    ℕ
    → ℕ
    → ℕ
    → ℕ
    → String
    → ℕ
    → Params
    → Option ℕ
    → Option ℕ
    → List String
    → Option ℕ
    → ApprovalDb
    → ApprovalDb
create_approval id now expires_in org action tier payload run requested_by matched audit db =
    record {
      approvals =
          record {
            id = id;
            org_id = org;
            run_id = run;
            requested_by = requested_by;
            action_type = action;
            tier = tier;
            payload = payload;
            matched_rules = matched;
            audit_id = audit;
            expires_at = now + expires_in;
            status = pending;
            approver_user_id = none;
            decided_at = none;
            edited_payload = none;
            decision_note = none;
            reason_code = none;
            trust_settled = false;
          }
          ∷ db.approvals;
      events = requested id action tier (now + expires_in) ∷ db.events;
    }

unfoldable pub is_pending : Status → Bool
is_pending pending = true
is_pending _ = false

unfoldable pub is_approval : ℕ → ℕ → Approval → Bool
is_approval id org a = a.id == id && a.org_id == org

-- The status, tier, reason and note of a decision.
pub record Verdict : Type 0 where
  pub status : Status
  pub tier : ℕ
  pub reason_code : Option String
  pub note : Option Note

unfoldable pub plain_verdict : Request → Approval → Verdict
plain_verdict req row = record {
  status = if str_eq req.decision "approve" then approved else rejected;
  tier = row.tier;
  reason_code = req.reason_code;
  note = elim req.note [ none ↦ none | some n ↦ some (given n) ];
}

-- `reason_code or "edit_escalates_tier"`
unfoldable pub escalation_reason : Option String → String
escalation_reason none = "edit_escalates_tier"
escalation_reason (some r) = if str_eq r "" then "edit_escalates_tier" else r

unfoldable pub edit_verdict : Request → Approval → ℕ → Verdict
unfolding plain_verdict escalation_reason
edit_verdict req row new_tier =
    if ltb row.tier new_tier
    then record {
      status = rejected;
      tier = new_tier;
      reason_code = some (escalation_reason req.reason_code);
      note = some (edit_raises row.tier new_tier);
    }
    else plain_verdict req row

-- The decision on a pending approval that has not expired.
unfoldable pub verdict : Cel → Rules → ℕ → ℕ → Request → Approval → Verdict
unfolding plain_verdict
verdict cel rules now org req row = elim req.edited_payload [
  | none ↦ plain_verdict req row
  | some edited ↦
      if str_eq req.decision "approve"
      then edit_verdict req row
          (evaluate cel rules (action_context org row.action_type edited) now).tier
      else plain_verdict req row
]

-- The `UPDATE` of a decision.
unfoldable pub decided : ℕ → Request → Verdict → Approval → Approval
decided now req v a = record a {
  status = v.status;
  approver_user_id = some req.approver_user_id;
  decided_at = some now;
  edited_payload = req.edited_payload;
  decision_note = v.note;
  reason_code = v.reason_code;
}

unfoldable pub is_approved : Status → Bool
is_approved approved = true
is_approved _ = false

unfoldable pub replay : Approval → ResolveResult
replay row = record {
  approval_id = row.id;
  status = row.status;
  tier = row.tier;
  edited = is_some row.edited_payload;
  idempotent_replay = true;
  note = row.decision_note;
}

-- What is returned of a decision.
unfoldable pub first_result : ℕ → Request → Verdict → ResolveResult
first_result id req v = record {
  approval_id = id;
  status = v.status;
  tier = v.tier;
  edited = is_some req.edited_payload;
  idempotent_replay = false;
  note = v.note;
}

-- The update and the event of a decision.
unfoldable pub decide :
    Cel → Rules → ℕ → ℕ → ℕ → Request → Approval → ApprovalDb → Resolution × ApprovalDb
unfolding decided is_approved first_result
decide cel rules now org id req row db =
    let v = verdict cel rules now org req row in
    (
      result (first_result id req v),
      record {
        approvals = update_where (λ a. a.id == id) (decided now req v) db.approvals;
        events = resolved id (is_approved v.status) (is_some req.edited_payload) ∷ db.events;
      },
    )

unfoldable pub expire : ℕ → ApprovalDb → ApprovalDb
expire id db = record db {
  approvals = update_where (λ a. a.id == id) (λ a. record a { status = expired }) db.approvals;
}

-- `resolve`
unfoldable pub resolve : Cel → Rules → ℕ → ℕ → ℕ → Request → ApprovalDb → Resolution × ApprovalDb
unfolding is_pending replay
resolve cel rules now org id req db = elim (find? (is_approval id org) db.approvals) [
  | none ↦ (approval_not_found, db)
  | some row ↦
      if not (is_pending row.status)
      then (result (replay row), db)
      else if leb row.expires_at now
      then (approval_expired, expire id db)
      else decide cel rules now org id req row db
]
