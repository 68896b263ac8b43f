-- ===== src/Tenancy/Entitlements.antt =====
-- core/tenancy/entitlements.py, and the parts of plan_config.py and capabilities.py that it reads: what a
-- plan grants a store. The catalog holds the platform's capabilities and those of the packs' files. The
-- typed plan configuration is what pydantic makes of the stored one, and a promotion that it refuses is
-- an error text.
use Prim.Native.String.{◌++◌ as concat}
use growth_operator.Prelude.{
  String, if◌then◌else◌, lookup, codes, ℕ, any, [], ◌&&◌, Bool, Option, contains, ltb, true, str_eq,
  none, text_eq, false, find?, some, ◌∷◌, leb, List, ◌++◌, remove_prefix, starts_with, zero, map,
  str_le, filter, suc, not, is_some,
}

pub record Capability : Type 0 where
  pub key : String
  pub kind : String
  pub capability_status : String
  pub runtime_grantable : Bool
  pub enforced_by : Option String
  pub depends_on : List String
  pub vertical : Option String

pub record Catalog : Type 0 where
  pub capabilities : List Capability
  pub aliases : List (String × String)
  pub channel_types : List String

-- `resolve_alias`
unfoldable pub resolve_alias : Catalog → String → String
resolve_alias catalog key = elim (lookup key catalog.aliases) [ some k ↦ k | none ↦ key ]

-- `by_key`
unfoldable pub by_key : Catalog → String → Option Capability
unfolding resolve_alias
by_key catalog key = find? (λ c. str_eq c.key (resolve_alias catalog key)) catalog.capabilities

pub data Source : Type 0 where
  plan : Source
  promotion : Source
  legacy_compat : Source

pub record Entitlement : Type 0 where
  pub key : String
  pub source : Source
  pub promotion_label : Option String
  pub ends_at : Option ℕ

pub record Excluded : Type 0 where
  pub key : String
  pub component : String
  pub reason : String

pub record Promotion : Type 0 where
  pub capability_key : String
  pub label : Option String
  pub enabled : Bool
  pub starts_at : ℕ
  pub ends_at : Option ℕ

-- `PlanConfig`, with the two results of `parse_promotions`
pub record PlanConfig : Type 0 where
  pub schema_version : Option ℕ
  pub entitlements : Option (List String)
  pub agents : List String
  pub channels : List String
  pub promotions : List Promotion
  pub promotion_errors : List String

pub record Context : Type 0 where
  pub installed_packs : List String
  pub bound_agents : List String
  pub known_archetypes : List String

-- `PromotionDef.active_at`
unfoldable pub active_at : ℕ → Promotion → Bool
active_at now p =
    p.enabled && leb p.starts_at now && elim p.ends_at [ none ↦ true | some t ↦ ltb now t ]

-- `LEGACY_EFFECTIVE_KEYS`
unfoldable pub legacy_effective_keys : List String
legacy_effective_keys =
    "conversations" ∷ "catalog" ∷ "customers" ∷ "ghost_recovery" ∷ "campaigns.whatsapp"
    ∷ "landing_pages" ∷ []

-- `_LEGACY_ENT1A_BASELINE`
unfoldable pub legacy_baseline : List String
legacy_baseline = "conversations" ∷ "catalog" ∷ "customers" ∷ "ghost_recovery" ∷ []

-- A set as a list: `s.add(k)`
unfoldable pub add_key : String → List String → List String
add_key k ks = if contains k ks then ks else ks ++ k ∷ []

-- `normalize` of a list of texts
unfoldable pub normalize : Catalog → List String → List String
unfolding resolve_alias legacy_effective_keys add_key
normalize catalog [] = []
normalize catalog (f ∷ fs) =
    let rest = normalize catalog fs in
    let key = resolve_alias catalog f in
    if contains key legacy_effective_keys then add_key key rest else rest

unfoldable pub is_channel_dep : Catalog → String → Bool
unfolding by_key
is_channel_dep catalog dep = elim (by_key catalog dep) [
  | none ↦ false
  | some c ↦ str_eq c.kind "channel"
]

-- `dep.removeprefix(p)`, as code points
abbrev pub bare : String → String → List ℕ
bare p dep = remove_prefix (codes p) (codes dep)

-- `dep.removeprefix(p) in names`
unfoldable pub names_dep : String → String → List String → Bool
names_dep p dep names = any (λ n. text_eq (codes n) (bare p dep)) names

-- The channels of the dependencies of one capability.
unfoldable pub channel_deps : Catalog → List String → List (List ℕ)
unfolding is_channel_dep
channel_deps catalog [] = []
channel_deps catalog (dep ∷ deps) =
    let rest = channel_deps catalog deps in
    if is_channel_dep catalog dep then bare "channel." dep ∷ rest else rest

-- `implied_legacy_channels`; a name is its code points
unfoldable pub implied_legacy_channels : Catalog → List String → List (List ℕ)
unfolding by_key channel_deps
implied_legacy_channels catalog [] = []
implied_legacy_channels catalog (key ∷ keys) =
    let rest = implied_legacy_channels catalog keys in
    elim (by_key catalog key) [ none ↦ rest | some c ↦ channel_deps catalog c.depends_on ++ rest ]

-- The decision of `dependency_satisfied`: whether the kind is `channel`, `agent`, `limit`, whether the
-- capability is grantable, whether the dependency is among the channels, the agents, the capabilities,
-- and what else governs it.
unfoldable pub decided_by : Bool → Bool → Bool → Bool → Bool → Bool → Bool → Option String → Bool
decided_by true is_agent is_limit is_grantable channel agent capability gate = channel
decided_by false true is_limit is_grantable channel agent capability gate = agent
decided_by false false true is_grantable channel agent capability gate = true
decided_by false false false true channel agent capability gate = capability
decided_by false false false false channel agent capability none = false
decided_by false false false false channel agent capability (some gate) =
    starts_with (codes "rbac:") (codes gate)

-- Its reason where the decision is no.
unfoldable pub reason_by : Capability → String → String
reason_by cap dep =
    if str_eq cap.kind "channel"
    then concat "missing_channel_selection:" dep
    else if str_eq cap.kind "agent"
    then concat "missing_agent_selection:" dep
    else if cap.runtime_grantable
    then concat "missing_dependency:" dep
    else elim cap.enforced_by [
      | none ↦ "governed_elsewhere:unknown"
      | some gate ↦ concat "governed_elsewhere:" gate
    ]

unfoldable pub satisfied_by : Capability → String → List String → List (List ℕ) → List String → Bool
unfolding names_dep decided_by
satisfied_by cap dep capabilities channels agents =
    decided_by (str_eq cap.kind "channel") (str_eq cap.kind "agent") (str_eq cap.kind "limit")
      cap.runtime_grantable (any (text_eq (bare "channel." dep)) channels)
      (names_dep "agent." dep agents) (contains dep capabilities) cap.enforced_by

-- `dependency_satisfied`: `none` where it is, the reason where it is not
unfoldable pub dependency_satisfied :
    Catalog → String → List String → List (List ℕ) → List String → Option String
unfolding by_key satisfied_by reason_by
dependency_satisfied catalog dep capabilities channels agents = elim (by_key catalog dep) [
  | none ↦ some (concat "unknown_dependency:" dep)
  | some cap ↦
      if satisfied_by cap dep capabilities channels agents then none else some (reason_by cap dep)
]

-- The reason of the first dependency that is not satisfied.
unfoldable pub first_missing :
    Catalog → List String → List String → List (List ℕ) → List String → Option String
unfolding dependency_satisfied
first_missing catalog [] capabilities channels agents = none
first_missing catalog (dep ∷ deps) capabilities channels agents =
    let rest = first_missing catalog deps capabilities channels agents in
    elim (dependency_satisfied catalog dep capabilities channels agents) [
      | none ↦ rest
      | some reason ↦ some reason
    ]

unfoldable pub missing_of :
    Catalog → List (List ℕ) → List String → List String → Entitlement → Option String
unfolding by_key first_missing
missing_of catalog channels agents capabilities g = elim (by_key catalog g.key) [
  | none ↦ none
  | some cap ↦ first_missing catalog cap.depends_on capabilities channels agents
]

abbrev pub keys_of : List Entitlement → List String
keys_of = map (λ g. g.key)

-- The grants in the order of their keys.
unfoldable pub insert_entitlement : Entitlement → List Entitlement → List Entitlement
insert_entitlement g [] = g ∷ []
insert_entitlement g (h ∷ hs) =
    let rest = insert_entitlement g hs in if str_le g.key h.key then g ∷ h ∷ hs else h ∷ rest

unfoldable pub sorted_by_key : List Entitlement → List Entitlement
unfolding insert_entitlement
sorted_by_key [] = []
sorted_by_key (g ∷ gs) = insert_entitlement g (sorted_by_key gs)

-- The exclusions of one pass, in the order of the keys.
unfoldable pub exclusions : (Entitlement → Option String) → List Entitlement → List Excluded
exclusions missing [] = []
exclusions missing (g ∷ gs) =
    let rest = exclusions missing gs in
    elim (missing g) [
      | none ↦ rest
      | some reason ↦ record { key = g.key; component = "capability"; reason = reason } ∷ rest
    ]

abbrev pub is_supported : (Entitlement → Option String) → Entitlement → Bool
is_supported missing g = not (is_some (missing g))

-- The loop over the dependencies, with fuel for its passes. `missing` is read with the keys at the
-- start of a pass.
unfoldable pub prune :
    ℕ
    → (List String → Entitlement → Option String)
    → List Entitlement
    → List Entitlement × List Excluded
unfolding exclusions sorted_by_key
prune zero missing surviving = (surviving, [])
prune (suc fuel) missing surviving =
    let keys = keys_of surviving in
    let rest = prune fuel missing (filter (is_supported (missing keys)) surviving) in
    if any (λ g. is_some (missing keys g)) surviving
    then (rest.0, exclusions (missing keys) (sorted_by_key surviving) ++ rest.1)
    else (surviving, [])

-- `candidates.setdefault`
unfoldable pub set_default : Entitlement → List Entitlement → List Entitlement
set_default g gs = if any (λ h. str_eq h.key g.key) gs then gs else gs ++ g ∷ []

unfoldable pub plan_grants : Catalog → List String → List Entitlement → List Entitlement
unfolding resolve_alias set_default
plan_grants catalog [] grants = grants
plan_grants catalog (key ∷ keys) grants = plan_grants catalog keys (
    set_default
      record {
        key = resolve_alias catalog key;
        source = plan;
        promotion_label = none;
        ends_at = none;
      }
      grants)

unfoldable pub legacy_grants : List String → List Entitlement
legacy_grants keys =
    map (λ k. record { key = k; source = legacy_compat; promotion_label = none; ends_at = none })
      keys

unfoldable pub promotion_grants : Catalog → ℕ → List Promotion → List Entitlement → List Entitlement
unfolding resolve_alias set_default active_at
promotion_grants catalog now [] grants = grants
promotion_grants catalog now (p ∷ ps) grants = promotion_grants catalog now ps (
    if active_at now p
    then set_default
        record {
          key = resolve_alias catalog p.capability_key;
          source = promotion;
          promotion_label = p.label;
          ends_at = p.ends_at;
        }
        grants
    else grants)

unfoldable pub promotion_exclusions : Catalog → ℕ → List Promotion → List Excluded
unfolding resolve_alias active_at
promotion_exclusions catalog now [] = []
promotion_exclusions catalog now (p ∷ ps) =
    let rest = promotion_exclusions catalog now ps in
    if active_at now p
    then rest
    else record {
      key = resolve_alias catalog p.capability_key;
      component = "promotion";
      reason = "promotion_not_active";
    }
      ∷ rest

-- Catalog validity, `runtime_grantable` and the installed packs: the reason of an exclusion.
unfoldable pub not_grantable : Catalog → List String → Entitlement → Option String
unfolding by_key
not_grantable catalog installed g = elim (by_key catalog g.key) [
  | none ↦ some "not_in_catalog"
  | some cap ↦
      if not cap.runtime_grantable
      then some (elim cap.enforced_by [
        | some gate ↦ concat "governed_by:" gate
        | none ↦ concat "not_grantable:" cap.capability_status
      ])
      else elim cap.vertical [
        | none ↦ none
        | some pack ↦
            if contains pack installed then none else some (concat "pack_not_installed:" pack)
      ]
]

abbrev pub excluded_as : String → String → List String → List Excluded
excluded_as component reason keys =
    map (λ k. record { key = k; component = component; reason = reason }) keys
