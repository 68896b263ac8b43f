-- ===== src/Tenancy/Settings.antt =====
-- core/tenancy/settings.py: a setting's value by precedence, its history, and the versioned write.
-- The tables that the queries read are lists of rows. `write_setting` also appends to the audit
-- log: the entries that it hands to `core/audit/writer.py` are kept in `audit`, the newest first.
-- Values are the JSON scalars that the registry of defaults holds.
pub mod Versions
mod Tests
use growth_operator.Prelude.{
  ℕ, ◌+◌, String, Bool, true, false, ◌&&◌, not, Option, none, some, List, [], ◌∷◌, leb, ltb, ◌==◌,
  if◌then◌else◌, str_eq, lookup, filter,
}
use growth_operator.Prelude.Int.{ℤ, pos}

pub data Value : Type 0 where
  null : Value
  bool : Bool → Value
  int : ℤ → Value
  text : String → Value

pub data SettingSource : Type 0 where
  flag tenant pack platform : SettingSource

pub record Resolved : Type 0 where
  pub value : Value
  pub source : SettingSource
  pub schema_ref : Option String
  pub version : Option ℕ

pub record PlatformDefault : Type 0 where
  pub value : Value
  pub schema_ref : Option String
  pub tighten_only : Bool

-- A row of `feature_flags JOIN flag_rules`.
pub record FlagRule : Type 0 where
  pub key : String
  pub flag_type : String
  pub scope : String
  pub scope_ref : Option ℕ
  pub precedence : ℕ
  pub value : Value

-- A row of `tenant_settings`.
pub record TenantSetting : Type 0 where
  pub org_id : ℕ
  pub key : String
  pub value : Value
  pub schema_ref : Option String
  pub version : ℕ
  pub updated_by : Option ℕ
  pub updated_at : ℕ

-- A row of `pack_installations JOIN packs`, with the manifest's `config_defaults`.
pub record Installation : Type 0 where
  pub org_id : ℕ
  pub pack_id : ℕ
  pub status : String
  pub priority : ℕ
  pub config_defaults : List (String × Value)

-- The audit entry of a write.
pub record SettingChanged : Type 0 where
  pub org_id : ℕ
  pub actor_id : Option ℕ
  pub resource : String
  pub old : Value
  pub new : Value
  pub version : ℕ

pub record Db : Type 0 where
  pub flag_rules : List FlagRule
  pub tenant_settings : List TenantSetting
  pub installations : List Installation
  pub audit : List SettingChanged

abbrev free_dial : Value → String → PlatformDefault
free_dial v schema = record { value = v; schema_ref = some schema; tighten_only = false }

-- `PLATFORM_DEFAULTS`
abbrev pub platform_defaults : List (String × PlatformDefault)
platform_defaults =
    ("reply.tone", free_dial (text "warm") "core.reply_tone")
    ∷ ("quiet_hours.start", free_dial (text "21:00") "core.time")
    ∷ ("quiet_hours.end", free_dial (text "08:00") "core.time")
    ∷ ("autonomy.messaging", free_dial (text "auto") "core.autonomy")
    ∷ ("autonomy.pricing", free_dial (text "auto") "core.autonomy")
    ∷ ("autonomy.campaigns", free_dial (text "auto") "core.autonomy")
    ∷ ("autonomy.paused", free_dial (bool false) "core.bool")
    ∷ ("recovery.silence_hours", free_dial (int (pos 72)) "core.int")
    ∷ ("autonomy.messaging.threshold_minor", free_dial (int (pos 0)) "core.money_minor")
    ∷ ("autonomy.pricing.threshold_minor", free_dial (int (pos 0)) "core.money_minor")
    ∷ ("autonomy.campaigns.threshold_minor", free_dial (int (pos 0)) "core.money_minor")
    ∷ ("campaign.cost_per_message_minor", free_dial (int (pos 50)) "core.money_minor")
    ∷ []

-- `PLATFORM_DEFAULTS.get(key)`
unfoldable pub default_of : String → Option PlatformDefault
default_of key = lookup key platform_defaults

-- `AUTONOMY_LADDER`
abbrev pub autonomy_ladder : List String
autonomy_ladder = "off" ∷ "draft_only" ∷ "suggest" ∷ "auto" ∷ []

-- `ORDER BY precedence LIMIT 1`
unfoldable pub first_rule : List FlagRule → Option FlagRule
first_rule [] = none
first_rule (r ∷ rs) = elim (first_rule rs) [
  | none ↦ some r
  | some q ↦ if leb r.precedence q.precedence then some r else some q
]

unfoldable pub is_override : ℕ → String → FlagRule → Bool
is_override org key r =
    str_eq r.key key
    && str_eq r.flag_type "config"
    && str_eq r.scope "tenant"
    && elim r.scope_ref [ none ↦ false | some ref ↦ ref == org ]

-- `_flag_override`
unfoldable pub flag_override : Db → ℕ → String → Option Resolved
unfolding first_rule is_override
flag_override db org key = elim (first_rule (filter (is_override org key) db.flag_rules)) [
  | none ↦ none
  | some r ↦
      some
        (record { value = r.value; source = SettingSource.flag; schema_ref = none; version = none })
]

-- `ORDER BY version DESC LIMIT 1`
unfoldable pub latest : List TenantSetting → Option TenantSetting
latest [] = none
latest (r ∷ rs) = elim (latest rs) [
  | none ↦ some r
  | some q ↦ if ltb r.version q.version then some q else some r
]

unfoldable pub is_setting : ℕ → String → TenantSetting → Bool
is_setting org key r = r.org_id == org && str_eq r.key key

unfoldable pub of_tenant : Option TenantSetting → Option Resolved
of_tenant none = none
of_tenant (some r) = some (record {
  value = r.value;
  source = SettingSource.tenant;
  schema_ref = r.schema_ref;
  version = some r.version;
})

-- `_tenant_setting`
unfoldable pub tenant_setting : Db → ℕ → String → Option Resolved
unfolding latest is_setting of_tenant
tenant_setting db org key = of_tenant (latest (filter (is_setting org key) db.tenant_settings))

-- `ORDER BY priority LIMIT 1`
unfoldable pub first_installation : List Installation → Option Installation
first_installation [] = none
first_installation (r ∷ rs) = elim (first_installation rs) [
  | none ↦ some r
  | some q ↦ if leb r.priority q.priority then some r else some q
]

unfoldable pub is_active_of : ℕ → Installation → Bool
is_active_of org i = i.org_id == org && str_eq i.status "active"

-- `_pack_default`
unfoldable pub pack_default : Db → ℕ → String → Option Resolved
unfolding first_installation is_active_of
pack_default db org key = elim (first_installation (filter (is_active_of org) db.installations)) [
  | none ↦ none
  | some i ↦ elim (lookup key i.config_defaults) [
    | none ↦ none
    | some v ↦
        some (record { value = v; source = SettingSource.pack; schema_ref = none; version = none })
  ]
]

unfoldable pub platform_default : String → Option Resolved
unfolding default_of
platform_default key = elim (default_of key) [
  | none ↦ none
  | some d ↦ some (record {
    value = d.value;
    source = SettingSource.platform;
    schema_ref = d.schema_ref;
    version = none;
  })
]

-- The first layer that has the key.
abbrev pub or_else {ℓ} : {A : Type ℓ} → Option A → Option A → Option A
or_else (some a) _ = some a
or_else none o = o

-- `resolve`; `none` is `UnknownConfigKey`
unfoldable pub resolve : Db → ℕ → String → Option Resolved
resolve db org key =
    or_else (flag_override db org key) (
      or_else (tenant_setting db org key)
        (or_else (pack_default db org key) (platform_default key)))

-- `resolve_at`: the versions up to a time, with no flag
unfoldable pub resolve_at : Db → ℕ → String → ℕ → Option Resolved
unfolding latest is_setting of_tenant
resolve_at db org key ts =
    or_else
      (of_tenant
        (latest (filter (λ r. is_setting org key r && leb r.updated_at ts) db.tenant_settings)))
      (or_else (pack_default db org key) (platform_default key))

unfoldable pub index_of : String → List String → Option ℕ
index_of s [] = none
index_of s (t ∷ ts) = elim (index_of s ts) [
  | none ↦ if str_eq s t then some 0 else none
  | some i ↦ if str_eq s t then some 0 else some (i + 1)
]

unfoldable pub ladder_index : Value → Option ℕ
unfolding index_of
ladder_index (text s) = index_of s autonomy_ladder
ladder_index _ = none

-- `_is_looser`
unfoldable pub is_looser : Value → Value → Bool
unfolding ladder_index
is_looser new_value baseline = elim (ladder_index new_value) [
  | none ↦ false
  | some i ↦ elim (ladder_index baseline) [ none ↦ false | some j ↦ ltb j i ]
]

pub data Written : Type 0 where
  written : ℕ → Db → Written
  unknown_config_key tighten_only_violation : Written

unfoldable pub next_version : Option Resolved → ℕ
next_version none = 1
next_version (some r) = elim r.version [ none ↦ 1 | some v ↦ v + 1 ]

unfoldable pub old_value : Value → Option Resolved → Value
old_value d none = d
old_value d (some r) = r.value

-- The insert and the audit entry of `write_setting`.
unfoldable pub append_version : ℕ → ℕ → String → Value → Option ℕ → PlatformDefault → Db → ℕ × Db
unfolding next_version old_value
append_version now org key value updated_by default db =
    let prev = tenant_setting db org key in
    let version = next_version prev in
    (
      version,
      record db {
        tenant_settings =
            record {
              org_id = org;
              key = key;
              value = value;
              schema_ref = default.schema_ref;
              version = version;
              updated_by = updated_by;
              updated_at = now;
            }
            ∷ db.tenant_settings;
        audit =
            record {
              org_id = org;
              actor_id = updated_by;
              resource = key;
              old = old_value default.value prev;
              new = value;
              version = version;
            }
            ∷ db.audit;
      },
    )

-- `write_setting`
unfoldable pub write_setting : ℕ → ℕ → String → Value → Option ℕ → Db → Written
write_setting now org key value updated_by db = elim (default_of key) [
  | none ↦ unknown_config_key
  | some default ↦
      if default.tighten_only && is_looser value default.value
      then tighten_only_violation
      else let (version, db') = append_version now org key value updated_by default db in
        written version db'
]
