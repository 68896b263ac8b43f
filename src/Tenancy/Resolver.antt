-- ===== src/Tenancy/Resolver.antt =====
-- core/tenancy/entitlements.py: the composition of a plan with a store's context, and the checks at the
-- moment of an effect.
pub mod Prune
pub mod Greatest
pub mod Authority
mod Tests
use growth_operator.Prelude.{
  String, if◌then◌else◌, ◌&&◌, ◌++◌, false, [], ◌==◌, none, Option, some, map, List, length, ◌||◌,
  filter, is_some, codes, str_eq, not, ◌∷◌, contains, ℕ, Bool, suc,
}
use growth_operator.Tenancy.Entitlements.{
  Catalog, Entitlement, Excluded, PlanConfig, Context, normalize, legacy_baseline, add_key,
  implied_legacy_channels, plan_grants, legacy_grants, promotion_grants, promotion_exclusions,
  not_grantable, is_supported, missing_of, prune, keys_of, sorted_by_key, exclusions, excluded_as,
}

-- `EffectiveEntitlements`, without the limits and the names that are only shown
pub record Effective : Type 0 where
  pub capabilities : List String
  pub agents : List String
  pub channels : List (List ℕ)
  pub grants : List Entitlement
  pub excluded : List Excluded
  pub subscription_state : String

unfoldable pub union : List String → List String → List String
unfolding add_key
union ks [] = ks
union ks (l ∷ ls) = union (add_key l ks) ls

-- `_LEGACY_ENT1A_BASELINE | normalize(features)`
unfoldable pub legacy_keys : Catalog → List String → List String
unfolding union legacy_baseline normalize
legacy_keys catalog features = union legacy_baseline (normalize catalog features)

abbrev pub is_legacy : PlanConfig → Bool
is_legacy config = not (is_some config.schema_version)

-- `is_known_schema`
unfoldable pub is_known_schema : PlanConfig → Bool
is_known_schema config = elim config.schema_version [ none ↦ false | some v ↦ v == 1 ]

-- `structured_ok`
unfoldable pub structured_ok : PlanConfig → Bool
unfolding is_known_schema
structured_ok config = is_legacy config || is_known_schema config && is_some config.entitlements

-- The candidates before the promotions.
unfoldable pub base_candidates : Catalog → PlanConfig → List String → List Entitlement
unfolding legacy_grants legacy_keys plan_grants is_known_schema
base_candidates catalog config features =
    if is_legacy config
    then legacy_grants (legacy_keys catalog features)
    else if not (is_known_schema config)
    then []
    else elim config.entitlements [ none ↦ [] | some keys ↦ plan_grants catalog keys [] ]

unfoldable pub config_exclusions : PlanConfig → List Excluded
unfolding is_known_schema
config_exclusions config =
    if is_legacy config
    then []
    else if not (is_known_schema config)
    then excluded_as "config" "unknown_entitlement_schema_version"
        ("entitlement_schema_version" ∷ [])
    else elim config.entitlements [
      | none ↦ excluded_as "config" "structured_plan_missing_entitlements" ("entitlements" ∷ [])
      | some keys ↦ []
    ]

unfoldable pub bound_agents : PlanConfig → Context → List String
unfolding structured_ok
bound_agents config ctx =
    if structured_ok config
    then filter (λ a. contains a ctx.known_archetypes && contains a ctx.bound_agents) config.agents
    else []

-- Why an agent is not bound.
unfoldable pub agent_reason : Context → String → Option String
agent_reason ctx a =
    if not (contains a ctx.known_archetypes)
    then some "unknown_archetype"
    else if not (contains a ctx.bound_agents)
    then some "no_tenant_binding"
    else none

unfoldable pub excluded_agents : Context → List String → List Excluded
unfolding agent_reason
excluded_agents ctx [] = []
excluded_agents ctx (a ∷ agents) =
    let rest = excluded_agents ctx agents in
    elim (agent_reason ctx a) [
      | none ↦ rest
      | some reason ↦ record { key = a; component = "agent"; reason = reason } ∷ rest
    ]

unfoldable pub agent_exclusions : PlanConfig → Context → List Excluded
unfolding structured_ok excluded_agents
agent_exclusions config ctx = if structured_ok config then excluded_agents ctx config.agents else []

unfoldable pub selected_channels : Catalog → PlanConfig → List String → List (List ℕ)
unfolding structured_ok implied_legacy_channels legacy_keys
selected_channels catalog config features =
    let implied =
      if is_legacy config
      then implied_legacy_channels catalog (legacy_keys catalog features)
      else [] in
    if structured_ok config
    then implied
      ++ map (λ ch. codes ch) (filter (λ ch. contains ch catalog.channel_types) config.channels)
    else implied

unfoldable pub channel_exclusions : Catalog → PlanConfig → List Excluded
unfolding structured_ok
channel_exclusions catalog config =
    if structured_ok config
    then excluded_as "channel" "unknown_channel_type"
        (filter (λ ch. not (contains ch catalog.channel_types)) config.channels)
    else []

unfoldable pub all_candidates : Catalog → ℕ → PlanConfig → List String → List Entitlement
unfolding base_candidates structured_ok promotion_grants
all_candidates catalog now config features =
    if structured_ok config
    then promotion_grants catalog now config.promotions (base_candidates catalog config features)
    else base_candidates catalog config features

unfoldable pub promotion_errors : Catalog → ℕ → PlanConfig → List Excluded
unfolding structured_ok promotion_exclusions
promotion_errors catalog now config =
    if structured_ok config
    then excluded_as "promotion" "malformed_promotion" config.promotion_errors
      ++ promotion_exclusions catalog now config.promotions
    else []

-- The candidates that the catalog and the packs allow.
unfoldable pub grantable : Catalog → ℕ → PlanConfig → List String → Context → List Entitlement
unfolding all_candidates not_grantable
grantable catalog now config features ctx =
    filter (is_supported (not_grantable catalog ctx.installed_packs))
      (all_candidates catalog now config features)

-- What the surviving grants miss.
unfoldable pub missing_in :
    Catalog → PlanConfig → List String → Context → List String → Entitlement → Option String
unfolding missing_of selected_channels bound_agents
missing_in catalog config features ctx =
    missing_of catalog (selected_channels catalog config features) (bound_agents config ctx)

unfoldable pub pruned :
    Catalog → ℕ → PlanConfig → List String → Context → List Entitlement × List Excluded
unfolding grantable missing_in prune
pruned catalog now config features ctx =
    let survivors = grantable catalog now config features ctx in
    prune (suc (length survivors)) (missing_in catalog config features ctx) survivors

-- `compose`
unfoldable pub compose : Catalog → ℕ → PlanConfig → List String → Context → Effective
unfolding pruned selected_channels bound_agents sorted_by_key exclusions config_exclusions
    agent_exclusions channel_exclusions promotion_errors not_grantable all_candidates
compose catalog now config features ctx =
    let (grants, dropped) = pruned catalog now config features ctx in
    record {
      capabilities = keys_of grants;
      agents = bound_agents config ctx;
      channels = selected_channels catalog config features;
      grants = sorted_by_key grants;
      excluded =
          config_exclusions config
          ++ (agent_exclusions config ctx
              ++ (channel_exclusions catalog config
                  ++ (promotion_errors catalog now config
                      ++ (exclusions (not_grantable catalog ctx.installed_packs)
                            (all_candidates catalog now config features)
                          ++ dropped))));
      subscription_state = "active";
    }

-- The row of `_SUBSCRIPTION_SQL`: whether a subscription ever existed, and the active plan.
pub record Subscriber : Type 0 where
  pub existed : Bool
  pub plan : Option (PlanConfig × List String)

-- `resolve`
unfoldable pub resolve : Catalog → ℕ → Subscriber → Context → Effective
unfolding compose
resolve catalog now row ctx = elim row.plan [
  | some p ↦ compose catalog now p.0 p.1 ctx
  | none ↦ record {
    capabilities = [];
    agents = [];
    channels = [];
    grants = [];
    excluded = [];
    subscription_state = if row.existed then "cancelled" else "none";
  }
]

-- `is_entitled`, and `assert_entitled` where `false` is `FeatureNotInPlan`
unfoldable pub is_entitled : Effective → String → Bool
is_entitled effective capability = contains capability effective.capabilities

pub record Instance : Type 0 where
  pub org_id : ℕ
  pub instance_status : String
  pub slug : String

pub record WorkerGrant : Type 0 where
  pub archetype : String
  pub capability : String
  pub workflow_key : String

pub data Executable : Type 0 where
  foreign_instance : Executable
  archetype_not_in_plan : Executable
  capability_not_in_plan : Executable
  not_operational : Executable
  executable : String → Executable

unfoldable pub covers : Effective → String → Option WorkerGrant → Executable
unfolding is_entitled
covers effective slug none = archetype_not_in_plan
covers effective slug (some worker) =
    if not (str_eq worker.archetype slug)
    then archetype_not_in_plan
    else if is_entitled effective worker.capability
    then executable slug
    else capability_not_in_plan

unfoldable pub operational : Instance → Executable → Executable
operational i (executable slug) =
    if str_eq i.instance_status "active" || str_eq i.instance_status "shadow"
    then executable slug
    else not_operational
operational i refusal = refusal

-- `assert_agent_executable`
unfoldable pub assert_agent_executable :
    Effective → ℕ → Option Instance → Option WorkerGrant → Executable
unfolding covers operational
assert_agent_executable effective org none worker = foreign_instance
assert_agent_executable effective org (some i) worker =
    if not (i.org_id == org)
    then foreign_instance
    else operational i (
        if contains i.slug effective.agents
        then executable i.slug
        else covers effective i.slug worker)
