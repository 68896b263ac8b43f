-- ===== src/Approvals/Tool.antt =====
-- core/approvals/engine.py, from the tool call to the decision: the abstract actions of a tool, the
-- amount that a call carries, and the owner's autonomy setting over the tier.
-- The amount of a message is read by `core/pricing/extract.py`.
pub mod Raise
pub mod Quiet
mod Tests
use growth_operator.Prelude.Json.{print_ℤ}
use growth_operator.Pricing.Extract.{Figure, extract_amounts}
use growth_operator.Tenancy.Settings.{Value, null, bool, int, text, Resolved, Db, resolve}
use growth_operator.Tenancy.QuietHours.{Zones, Organization, is_quiet_now}
use growth_operator.Approvals.Engine.{
  Params, ActionContext, Decision, Cel, Rules, Contributor, Activation, activation, plain,
  contributors, matched_ids, select_decision,
}
use growth_operator.Prelude.{
  max, ◌++◌, is_some, some, Option, str_eq, lookup, parse_int, ◌&&◌, String, if◌then◌else◌, true,
  ltb, not, false, zero, ℕ, [], List, ◌∷◌, any, codes, none, Bool,
}
use growth_operator.Prelude.Int.{ℤ, leb_ℤ, pos}

-- `TOOL_ACTIONS.get(tool)`
unfoldable pub tool_actions : String → Option (List String)
tool_actions tool = lookup tool (
    ("messages.send", "action.message.send" ∷ [])
    ∷ ("campaigns.execute", "action.campaign.execute" ∷ [])
    ∷ ("catalog.write", "action.catalog.write" ∷ [])
    ∷ ("landing_page.publish", "action.landing_page.publish" ∷ [])
    ∷ [])

-- `if amount`
unfoldable pub is_nonzero : ℤ → Bool
is_nonzero (pos zero) = false
is_nonzero _ = true

-- `params.get("body") or params.get("text") or ""`
unfoldable pub message_text : Params → String
message_text params =
    let fallback : String = elim params.text [ none ↦ "" | some t ↦ t ] in
    elim params.body [ none ↦ fallback | some b ↦ if str_eq b "" then fallback else b ]

-- `max(..., default=None)`
unfoldable pub max_minor : List Figure → Option ℕ
max_minor [] = none
max_minor (f ∷ fs) = elim (max_minor fs) [ none ↦ some f.minor | some n ↦ some (max f.minor n) ]

unfoldable pub text_amount : Params → Option ℤ
unfolding message_text max_minor
text_amount params = elim (max_minor (extract_amounts (codes (message_text params)))) [
  | none ↦ none
  | some n ↦ some (pos n)
]

-- `_message_amount_minor`
unfoldable pub message_amount_minor : Params → Option ℤ
unfolding is_nonzero
message_amount_minor params = elim params.amount_minor [
  | none ↦ text_amount params
  | some amount ↦ if is_nonzero amount then some amount else text_amount params
]

-- `list(TOOL_ACTIONS.get(tool, []))`
unfoldable pub mapped_actions : String → List String
unfolding tool_actions
mapped_actions tool = elim (tool_actions tool) [ none ↦ [] | some actions ↦ actions ]

-- `actions or [tool]`
unfoldable pub or_tool : String → List String → List String
or_tool tool [] = tool ∷ []
or_tool tool (a ∷ as') = a ∷ as'

unfoldable pub resolve_actions : String → Params → List String
unfolding mapped_actions or_tool
resolve_actions tool params = or_tool tool (
    if str_eq tool "messages.send" && is_some (message_amount_minor params)
    then mapped_actions tool ++ "action.quote.send" ∷ []
    else mapped_actions tool)

abbrev pub autonomy_review_tier : ℕ
autonomy_review_tier = 2

pub data Capability : Type 0 where
  messaging pricing campaigns : Capability

-- `_CAPABILITY_BY_ACTION`
unfoldable pub capability_by_action : String → Option Capability
capability_by_action action =
    if str_eq action "action.message.send"
    then some messaging
    else if str_eq action "action.quote.send"
    then some pricing
    else if str_eq action "action.campaign.execute"
    then some campaigns
    else none

-- The comprehension over `resolve_actions`. It is a set there: what is done with it does not
-- depend on order or repetition.
unfoldable pub capabilities_of : List String → List Capability
unfolding capability_by_action
capabilities_of [] = []
capabilities_of (a ∷ actions) = elim (capability_by_action a) [
  | none ↦ capabilities_of actions
  | some cap ↦ cap ∷ capabilities_of actions
]

-- `_CUSTOMER_FACING_CAPS`
unfoldable pub is_customer_facing : Capability → Bool
is_customer_facing messaging = true
is_customer_facing pricing = false
is_customer_facing campaigns = true

pub data CommunicationMode : Type 0 where
  reactive proactive : CommunicationMode

-- `mode_for_trigger`
unfoldable pub mode_for_trigger : Option String → CommunicationMode
mode_for_trigger none = proactive
mode_for_trigger (some trigger) = if str_eq trigger "msg.received" then reactive else proactive

-- `_action_amount_minor`
unfoldable pub action_amount_minor : String → Params → Option ℤ
action_amount_minor tool params =
    if str_eq tool "messages.send" then message_amount_minor params else params.amount_minor

-- The keys `autonomy.{cap}` and `autonomy.{cap}.threshold_minor`.
abbrev level_key : Capability → String
level_key messaging = "autonomy.messaging"
level_key pricing = "autonomy.pricing"
level_key campaigns = "autonomy.campaigns"

abbrev threshold_key : Capability → String
threshold_key messaging = "autonomy.messaging.threshold_minor"
threshold_key pricing = "autonomy.pricing.threshold_minor"
threshold_key campaigns = "autonomy.campaigns.threshold_minor"

-- `bool(value)`
unfoldable pub truthy : Value → Bool
unfolding is_nonzero
truthy null = false
truthy (bool b) = b
truthy (int n) = is_nonzero n
truthy (text s) = not (str_eq s "")

-- `int(value)` of a value that is true; `none` is `ValueError`
unfoldable pub int_of : Value → Option ℤ
int_of null = none
int_of (bool b) = some (if b then pos 1 else pos 0)
int_of (int n) = some n
int_of (text s) = parse_int (codes s)

unfoldable pub is_auto : Value → Bool
is_auto (text s) = str_eq s "auto"
is_auto _ = false

-- `threshold and amount is not None and amount >= int(threshold)`; `none` is a raise
unfoldable pub reaches : Value → Option ℤ → Option Bool
unfolding truthy int_of
reaches threshold none = some false
reaches threshold (some amount) =
    if truthy threshold
    then elim (int_of threshold) [ none ↦ none | some t ↦ some (leb_ℤ t amount) ]
    else some false

-- Whether one capability asks for review; `none` is a raise.
unfoldable pub asks_review : Db → ℕ → Option ℤ → Capability → Option Bool
unfolding is_auto reaches
asks_review db org amount cap = elim (resolve db org (level_key cap)) [
  | none ↦ none
  | some level ↦
      if is_auto level.value
      then elim (resolve db org (threshold_key cap)) [
        | none ↦ none
        | some threshold ↦ reaches threshold.value amount
      ]
      else some true
]

-- The loop over the capabilities: the first that asks for review returns.
unfoldable pub any_review : Db → ℕ → Option ℤ → List Capability → Option Bool
any_review db org amount [] = some false
any_review db org amount (cap ∷ caps) = elim (asks_review db org amount cap) [
  | none ↦ none
  | some b ↦ elim b [ true ↦ some true | false ↦ any_review db org amount caps ]
]

-- What the autonomy check reads: the settings, and the clock of quiet hours.
pub record Owner : Type 0 where
  pub settings : Db
  pub zones : Zones
  pub organizations : List Organization

unfoldable pub quiet_floor : Owner → ℕ → List Capability → CommunicationMode → Option ℕ
quiet_floor owner org caps reactive = some 0
quiet_floor owner org caps proactive =
    if any is_customer_facing caps
    then elim (is_quiet_now owner.zones owner.organizations owner.settings org) [
      | none ↦ none
      | some quiet ↦ some (if quiet then autonomy_review_tier else 0)
    ]
    else some 0

-- `_autonomy_floor`; `none` is a raise
unfoldable pub autonomy_floor : Owner → ℕ → String → Params → CommunicationMode → Option ℕ
unfolding truthy
autonomy_floor owner org tool params mode = elim (resolve owner.settings org "autonomy.paused") [
  | none ↦ none
  | some paused ↦
      let caps = capabilities_of (resolve_actions tool params) in
      let amount = action_amount_minor tool params in
      if truthy paused.value
      then some autonomy_review_tier
      else elim (any_review owner.settings org amount caps) [
        | none ↦ none
        | some b ↦ elim b [
          | true ↦ some autonomy_review_tier
          | false ↦ quiet_floor owner org caps mode
        ]
      ]
]

-- The activation that every action of the call is evaluated at.
unfoldable pub tool_activation : ℕ → Option ℕ → Bool → String → Params → Activation
tool_activation org actor untrusted tool params = activation (record {
  org_id = org;
  action_type = tool;
  actor_instance_id = actor;
  amount_minor = action_amount_minor tool params;
  currency = params.currency;
  recipients = params.recipients;
  attributes = params;
  untrusted_content = untrusted;
})

-- The contributors of a family of actions, pooled.
unfoldable pub pooled : Cel → Rules → ℕ → Activation → ℕ → List String → List Contributor
pooled cel rules org act now [] = []
pooled cel rules org act now (a ∷ actions) =
    contributors cel rules org a act now ++ pooled cel rules org act now actions

-- The autonomy floor as one more contributor.
unfoldable pub with_floor : ℕ → List Contributor → List Contributor
with_floor floor cs = if ltb 0 floor then cs ++ plain floor "autonomy" "hold" ∷ [] else cs

-- `evaluate_tool`; `none` is a raise
unfoldable pub evaluate_tool :
    Cel
    → Rules
    → Owner
    → ℕ
    → Option ℕ
    → Bool
    → String
    → Params
    → CommunicationMode
    → ℕ
    → Option Decision
unfolding with_floor matched_ids
evaluate_tool cel rules owner org actor untrusted tool params mode now =
    let act = tool_activation org actor untrusted tool params in
    let cs = pooled cel rules org act now (resolve_actions tool params) in
    elim (autonomy_floor owner org tool params mode) [
      | none ↦ none
      | some floor ↦
          some (select_decision (with_floor floor cs) (matched_ids (with_floor floor cs)))
    ]
