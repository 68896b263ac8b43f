-- ===== src/Tenancy/Resolver/Tests.antt =====
-- Entitlements of a sample plan, and the theorems applied to it.
use growth_operator.Tenancy.Entitlements.{
  Catalog, Capability, Entitlement, PlanConfig, Context, keys_of, missing_of, not_grantable,
}
use growth_operator.Tenancy.Resolver.{
  compose, grantable, pruned, Subscriber, resolve, Instance, assert_agent_executable,
}
use growth_operator.Tenancy.Resolver.Greatest.{compose-greatest}
use growth_operator.Tenancy.Resolver.Prune.{Supports}
use growth_operator.Tenancy.Resolver.Authority.{executable_sound, IsCovered}
use growth_operator.Prelude.{
  some, All, filter, none, refl, String, List, ◌||◌, ◌≡◌, true, Bool, [], ◌∷◌, str_eq,
}

abbrev feature : String → List String → Capability
feature key deps = record {
  key = key;
  kind = "feature";
  capability_status = "available";
  runtime_grantable = true;
  enforced_by = none;
  depends_on = deps;
  vertical = none;
}

abbrev sample_catalog : Catalog
sample_catalog = record {
  capabilities =
      feature "conversations" []
      ∷ feature "customers" ("conversations" ∷ [])
      ∷ feature "ghost_recovery" ("customers" ∷ [])
      ∷ [];
  aliases = ("crm", "customers") ∷ [];
  channel_types = "whatsapp" ∷ [];
}

-- A plan with a chain of dependencies whose first link is missing.
abbrev broken_plan : PlanConfig
broken_plan = record {
  schema_version = some 1;
  entitlements = some ("crm" ∷ "ghost_recovery" ∷ []);
  agents = "concierge" ∷ [];
  channels = "whatsapp" ∷ [];
  promotions = [];
  promotion_errors = [];
}

abbrev whole_plan : PlanConfig
whole_plan = record broken_plan { entitlements = some ("conversations" ∷ "crm" ∷ []) }

abbrev shop_context : Context
shop_context = record {
  installed_packs = [];
  bound_agents = "concierge" ∷ [];
  known_archetypes = "concierge" ∷ [];
}

drops_the_chain : (compose sample_catalog 0 broken_plan [] shop_context).capabilities ≡ []
unfolding compose
drops_the_chain = refl

keeps_the_rest :
    (compose sample_catalog 0 whole_plan [] shop_context).capabilities
    ≡ "conversations" ∷ "customers" ∷ []
unfolding compose
keeps_the_rest = refl

compose-greatest_example :
    let e = compose sample_catalog 0 whole_plan [] shop_context in
    let granted = (pruned sample_catalog 0 whole_plan [] shop_context).0 in
    let allowed = grantable sample_catalog 0 whole_plan [] shop_context in
    (e.capabilities ≡ keys_of granted)
    × All (λ g. not_grantable sample_catalog [] g ≡ none) granted
    × All (λ g. missing_of sample_catalog e.channels e.agents e.capabilities g ≡ none) granted
    × ((kept : Entitlement → Bool)
        → Supports (missing_of sample_catalog e.channels e.agents) kept allowed
        → filter kept granted ≡ filter kept allowed)
compose-greatest_example = compose-greatest sample_catalog 0 whole_plan [] shop_context

abbrev paid : Subscriber
paid = record { existed = true; plan = some (whole_plan, []) }

abbrev concierge : Instance
concierge = record { org_id = 1; instance_status = "active"; slug = "concierge" }

executable_sound_example :
    (concierge.org_id ≡ 1)
    × (str_eq "active" "active" || str_eq "active" "shadow" ≡ true)
    × IsCovered (resolve sample_catalog 0 paid shop_context) "concierge" none
    × (paid.plan ≡ none → ⊥)
unfolding assert_agent_executable resolve
executable_sound_example = executable_sound sample_catalog 0 paid shop_context 1 concierge none tt
