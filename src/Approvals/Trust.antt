-- ===== src/Approvals/Trust.antt =====
-- core/approvals/trust.py: the counter of clean approvals, incidents, and the offers they earn.
-- Times are in seconds.
pub mod Settled
pub mod Incident
mod Tests
use growth_operator.Approvals.Engine.{Rules, Tightening}
use growth_operator.Approvals.Service.{Approval, is_approved}
use growth_operator.Prelude.{
  some, ◌&&◌, str_eq, ℕ, leb, ◌*◌, ◌+◌, String, ◌∷◌, find?, filter, [], none, Bool, if◌then◌else◌,
  not, Option, List, ◌==◌, false, true, update_where,
}

abbrev hour : ℕ
hour = 3600

-- `CLEAN_WINDOW_H`
abbrev pub clean_window : ℕ
clean_window = 72 * hour

abbrev pub tighten_tier : ℕ
tighten_tier = 2

-- `TIGHTEN_DAYS`
abbrev pub tighten_time : ℕ
tighten_time = 14 * 24 * hour

abbrev pub demotion_threshold : ℕ
demotion_threshold = 20

-- A row of `trust_ledger`.
pub record Trust : Type 0 where
  pub org_id : ℕ
  pub action_type : String
  pub clean_approvals : ℕ
  pub last_incident_at : Option ℕ

pub record TrustDb : Type 0 where
  pub approvals : List Approval
  pub ledger : List Trust
  pub rules : Rules

unfoldable pub is_trust : ℕ → String → Trust → Bool
is_trust org action t = t.org_id == org && str_eq t.action_type action

-- `INSERT ... ON CONFLICT (org_id, action_type) DO UPDATE`
unfoldable pub upsert : ℕ → String → Trust → (Trust → Trust) → List Trust → List Trust
unfolding is_trust
upsert org action fresh f [] = fresh ∷ []
upsert org action fresh f (t ∷ ledger) =
    let rest = upsert org action fresh f ledger in
    if is_trust org action t then f t ∷ ledger else t ∷ rest

-- The tightening that an incident inserts.
unfoldable pub tightening_of : ℕ → ℕ → String → Option String → Tightening
tightening_of now org action reason = record {
  org_id = org;
  action_type = action;
  tightened_to_tier = tighten_tier;
  reason = reason;
  expires_at = now + tighten_time;
}

-- `record_incident`
unfoldable pub record_incident : ℕ → ℕ → String → Option String → TrustDb → TrustDb
record_incident now org action reason db = record db {
  ledger =
      upsert org action
        (record {
          org_id = org;
          action_type = action;
          clean_approvals = 0;
          last_incident_at = some now;
        })
        (λ t. record t { clean_approvals = 0; last_incident_at = some now }) db.ledger;
  rules = record db.rules {
    tightenings = tightening_of now org action reason ∷ db.rules.tightenings;
  };
}

-- The `WHERE` of `settle`.
unfoldable pub is_due : ℕ → ℕ → Approval → Bool
is_due now org a =
    a.org_id == org
    && is_approved a.status
    && leb 2 a.tier
    && not a.trust_settled
    && elim a.decided_at [ none ↦ false | some at ↦ leb (at + clean_window) now ]

-- `LEFT JOIN trust_ledger`
unfoldable pub last_incident : List Trust → ℕ → String → Option ℕ
last_incident ledger org action = elim (find? (is_trust org action) ledger) [
  | none ↦ none
  | some t ↦ t.last_incident_at
]

-- `li is None or not (decided_at <= li <= window_end)`
unfoldable pub is_clean : List Trust → Approval → Bool
is_clean ledger a = elim (last_incident ledger a.org_id a.action_type) [
  | none ↦ true
  | some li ↦ elim a.decided_at [
    | none ↦ true
    | some at ↦ not (leb at li && leb li (at + clean_window))
  ]
]

unfoldable pub add_clean : Approval → List Trust → List Trust
add_clean a =
    upsert a.org_id a.action_type
      (record {
        org_id = a.org_id;
        action_type = a.action_type;
        clean_approvals = 1;
        last_incident_at = none;
      })
      (λ t. record t { clean_approvals = t.clean_approvals + 1 })

unfoldable pub mark_settled : ℕ → List Approval → List Approval
mark_settled id = update_where (λ a. a.id == id) (λ a. record a { trust_settled = true })

-- The loop of `settle` over the rows that were read, which hold the ledger as it was then.
unfoldable pub settle_rows : List Trust → List Approval → TrustDb → ℕ × TrustDb
unfolding mark_settled
settle_rows read [] db = (0, db)
settle_rows read (a ∷ rows) db =
    let marked = record db { approvals = mark_settled a.id db.approvals } in
    let counted = record marked { ledger = add_clean a marked.ledger } in
    let with_count = settle_rows read rows counted in
    let without_count = settle_rows read rows marked in
    if is_clean read a then (1 + with_count.0, with_count.1) else without_count

-- `settle`: the number of increments, and the tables afterwards
unfoldable pub settle : ℕ → ℕ → TrustDb → ℕ × TrustDb
settle now org db = settle_rows db.ledger (filter (is_due now org) db.approvals) db

-- The `WHERE` of `demotion_offers`; the rows come ordered by their counter.
unfoldable pub is_offered : ℕ → Trust → Bool
is_offered org t = t.org_id == org && leb demotion_threshold t.clean_approvals

unfoldable pub demotion_offers : ℕ → TrustDb → List Trust
unfolding is_offered
demotion_offers org db = filter (is_offered org) db.ledger
