-- ===== src/Approvals/Engine.antt =====
-- core/approvals/engine.py: the tier of an action, from the declarative rules that match it.
-- CEL is the parameter `cel`: what an expression evaluates to at an activation, `none` where it does
-- not compile or evaluate. Times are in seconds. The tables are lists of rows in any order.
pub mod Tier
pub mod Baseline
mod Tests
use growth_operator.Prelude.{
  ℕ, ◌+◌, ◌<◌, String, Bool, true, false, ◌&&◌, ◌||◌, Option, none, some, List, [], ◌∷◌, ◌++◌, leb,
  ltb, ◌==◌, if◌then◌else◌, str_eq, contains, codes, strip, map, filter, any, max, str_le, text_eq,
}
use growth_operator.Prelude.Int.{ℤ, pos}
use growth_operator.Prelude.Order.Max.{max_from}
use growth_operator.Prelude.Order.Sorted.{sorted}
use growth_operator.Prelude.Order.Text.{pair_order, text_order}
use growth_operator.Tenancy.Settings.{Installation}

-- `CORE_TIER4_ACTIONS`
abbrev core_tier4_actions : List String
core_tier4_actions =
    "payment.charge" ∷ "payment.refund" ∷ "payout.create" ∷ "supplier.order_commit" ∷ "gbp.update"
    ∷ "ads.publish" ∷ []

unfoldable pub is_core_tier4 : String → Bool
is_core_tier4 action = contains action core_tier4_actions

abbrev pub default_unknown_tier : ℕ
default_unknown_tier = 2

abbrev pub never_autonomous_tier : ℕ
never_autonomous_tier = 4

-- The keys of a tool's parameters that the engine reads, and the other keys with their texts.
pub record Params : Type 0 where
  pub amount_minor : Option ℤ
  pub body : Option String
  pub text : Option String
  pub currency : Option String
  pub recipients : List String
  pub other : List (String × String)

pub record ActionContext : Type 0 where
  pub org_id : ℕ
  pub action_type : String
  pub actor_instance_id : Option ℕ
  pub amount_minor : Option ℤ
  pub currency : Option String
  pub recipients : List String
  pub attributes : Params
  pub untrusted_content : Bool

pub record Decision : Type 0 where
  pub tier : ℕ
  pub matched_rules : List String
  pub approver_chain : List String
  pub timeout_s : Option ℕ
  pub on_timeout : String
  pub confirm_kind : Option String

-- The names that a CEL expression may use.
pub record Activation : Type 0 where
  pub action_type : String
  pub amount_minor : ℤ
  pub currency : String
  pub recipients : List String
  pub attributes : Params
  pub untrusted_content : Bool

pub data Scope : Type 0 where
  core pack tenant : Scope

-- A row of `approval_policies`.
pub record Policy : Type 0 where
  pub id : String
  pub scope : Scope
  pub org_id : Option ℕ
  pub pack_id : Option ℕ
  pub action_type : String
  pub tier : ℕ
  pub cel_expr : Option String
  pub approver_chain : List String
  pub timeout_s : Option ℕ
  pub on_timeout : String
  pub confirm_kind : Option String

-- A row of `incident_tightening`.
pub record Tightening : Type 0 where
  pub org_id : ℕ
  pub action_type : String
  pub tightened_to_tier : ℕ
  pub reason : Option String
  pub expires_at : ℕ

pub record Rules : Type 0 where
  pub policies : List Policy
  pub installations : List Installation
  pub tightenings : List Tightening

pub record Contributor : Type 0 where
  pub tier : ℕ
  pub sort_key : String
  pub approver_chain : List String
  pub timeout_s : Option ℕ
  pub on_timeout : String
  pub confirm_kind : Option String

abbrev pub Cel : Type 0
Cel = String → Activation → Option Bool

-- `x or default`, where `none` stands for a missing value
abbrev pub or_default {ℓ} : {A : Type ℓ} → Option A → A → A
or_default none d = d
or_default (some a) d = a

-- `_activation`
unfoldable pub activation : ActionContext → Activation
activation ctx = record {
  action_type = ctx.action_type;
  amount_minor = or_default ctx.amount_minor (pos 0);
  currency = or_default ctx.currency "";
  recipients = ctx.recipients;
  attributes = ctx.attributes;
  untrusted_content = ctx.untrusted_content;
}

-- `_matches`: a rule whose expression fails counts as matching
unfoldable pub matches : Cel → Option String → Activation → Bool
matches cel none act = true
matches cel (some expr) act =
    let stripped = strip (codes expr) in
    if text_eq stripped [] || text_eq stripped (codes "true")
    then true
    else elim (cel expr act) [ none ↦ true | some b ↦ b ]

-- `p.pack_id IN (SELECT pi.pack_id ... WHERE pi.org_id = :org AND pi.status = 'active')`
unfoldable pub has_pack : List Installation → ℕ → Option ℕ → Bool
has_pack installations org none = false
has_pack installations org (some wanted) =
    any (λ i. i.org_id == org && str_eq i.status "active" && i.pack_id == wanted) installations

unfoldable pub is_org : ℕ → Option ℕ → Bool
is_org org none = false
is_org org (some o) = o == org

-- The condition on the scope of a rule.
unfoldable pub in_scope : List Installation → ℕ → Policy → Bool
unfolding has_pack is_org
in_scope installations org p = elim p.scope [
  | core ↦ true
  | pack ↦ has_pack installations org p.pack_id
  | tenant ↦ is_org org p.org_id
]

unfoldable pub of_policy : Policy → Contributor
of_policy p = record {
  tier = p.tier;
  sort_key = p.id;
  approver_chain = p.approver_chain;
  timeout_s = p.timeout_s;
  on_timeout = p.on_timeout;
  confirm_kind = p.confirm_kind;
}

unfoldable pub plain : ℕ → String → String → Contributor
plain tier key on_timeout = record {
  tier = tier;
  sort_key = key;
  approver_chain = [];
  timeout_s = none;
  on_timeout = on_timeout;
  confirm_kind = none;
}

unfoldable pub core_contributors : String → List Contributor
unfolding plain
core_contributors action =
    if is_core_tier4 action then plain never_autonomous_tier "core:tier4" "cancel" ∷ [] else []

unfoldable pub is_rule_for : Cel → List Installation → ℕ → String → Activation → Policy → Bool
unfolding in_scope
is_rule_for cel installations org action act p =
    str_eq p.action_type action && in_scope installations org p && matches cel p.cel_expr act

unfoldable pub rule_contributors : Cel → Rules → ℕ → String → Activation → List Contributor
unfolding is_rule_for of_policy
rule_contributors cel rules org action act =
    map of_policy (filter (is_rule_for cel rules.installations org action act) rules.policies)

unfoldable pub is_tightening_for : ℕ → String → ℕ → Tightening → Bool
is_tightening_for org action now t =
    t.org_id == org && str_eq t.action_type action && ltb now t.expires_at

-- `ORDER BY tightened_to_tier DESC LIMIT 1`
unfoldable pub highest : List Tightening → Option ℕ
highest [] = none
highest (t ∷ ts) = elim (highest ts) [
  | none ↦ some t.tightened_to_tier
  | some n ↦ some (max t.tightened_to_tier n)
]

unfoldable pub incident_contributors : Rules → ℕ → String → ℕ → List Contributor
unfolding is_tightening_for highest plain
incident_contributors rules org action now =
    elim (highest (filter (is_tightening_for org action now) rules.tightenings)) [
      | none ↦ []
      | some tier ↦ plain tier "incident" "hold" ∷ []
    ]

-- `_contributors`
unfoldable pub contributors : Cel → Rules → ℕ → String → Activation → ℕ → List Contributor
contributors cel rules org action act now =
    core_contributors action
    ++ (rule_contributors cel rules org action act ++ incident_contributors rules org action now)

-- The ids that are recorded beside the contributors, one for each.
unfoldable pub matched_ids : List Contributor → List String
matched_ids = map (λ c. c.sort_key)

abbrev pub rank : Contributor → ℕ × String
rank c = (c.tier, c.sort_key)

unfoldable pub decision_of : Contributor → List String → Decision
decision_of winner matched = record {
  tier = winner.tier;
  matched_rules = sorted matched;
  approver_chain = winner.approver_chain;
  timeout_s = winner.timeout_s;
  on_timeout = winner.on_timeout;
  confirm_kind = winner.confirm_kind;
}

unfoldable pub select_decision : List Contributor → List String → Decision
unfolding decision_of
select_decision [] matched = record {
  tier = default_unknown_tier;
  matched_rules = [];
  approver_chain = [];
  timeout_s = none;
  on_timeout = "hold";
  confirm_kind = none;
}
select_decision (c ∷ cs) matched = decision_of (max_from rank c cs) matched

-- `evaluate`
unfoldable pub evaluate : Cel → Rules → ActionContext → ℕ → Decision
unfolding matched_ids
evaluate cel rules ctx now =
    let cs = contributors cel rules ctx.org_id ctx.action_type (activation ctx) now in
    select_decision cs (matched_ids cs)

unfoldable pub is_baseline : Policy → Bool
is_baseline p = elim p.scope [ core ↦ true | pack ↦ true | tenant ↦ false ]

-- `COALESCE(MAX(tier), 0)`
unfoldable pub max_tier : List Policy → ℕ
max_tier [] = 0
max_tier (p ∷ ps) = max p.tier (max_tier ps)

unfoldable pub baseline_tier : Rules → String → ℕ
unfolding is_baseline max_tier
baseline_tier rules action =
    max (if is_core_tier4 action then never_autonomous_tier else 0)
      (max_tier (filter (λ p. str_eq p.action_type action && is_baseline p) rules.policies))

-- `validate_tenant_rule`: whether the rule is accepted
unfoldable pub validate_tenant_rule : Rules → String → ℕ → Bool
unfolding baseline_tier
validate_tenant_rule rules action tier =
    if ltb tier (baseline_tier rules action) then false else true
