-- ===== src/Tenancy/Settings/Versions.antt =====
-- A write adds a version: it is what resolves from then on, it leaves the past as it was, and it
-- touches no other key and no other organisation.
use growth_operator.Prelude.{
  ℕ, ◌≡◌, ◌==◌, ◌&&◌, str_eq, refl, String, true, Option, some, List, ◌∷◌, arith, str_eq_iff,
  Option-cases, inl, inr, filter, none, false, ◌<◌, ◌↔◌,
}
use growth_operator.Tenancy.Settings.{
  Value, PlatformDefault, TenantSetting, Db, latest, is_setting, of_tenant, tenant_setting, written,
  next_version, write_setting, append_version, flag_override, resolve, resolve_at, pack_default,
  SettingSource, Resolved, unknown_config_key, default_of,
}

-- The row that a write inserts.
abbrev new_row : ℕ → ℕ → String → Value → Option ℕ → PlatformDefault → Db → TenantSetting
new_row now org key value updated_by default db = record {
  org_id = org;
  key = key;
  value = value;
  schema_ref = default.schema_ref;
  version = next_version (tenant_setting db org key);
  updated_by = updated_by;
  updated_at = now;
}

latest-new :
    (r : TenantSetting) (rs : List TenantSetting)
    → r.version ≡ next_version (of_tenant (latest rs))
    → latest (r ∷ rs) ≡ some r
unfolding latest of_tenant next_version
latest-new r rs h = elim (Option-cases (latest rs)) [
  | inl first ↦ ground arith
  | inr (q, older) ↦ ground arith
]

is_setting_self :
    (org : ℕ) (key : String) (r : TenantSetting)
    → r.org_id ≡ org
    → r.key ≡ key
    → is_setting org key r ≡ true
unfolding is_setting
is_setting_self org key r o k = ground (arith, str_eq_iff r.key key)

module _ (now org : ℕ) (key : String) (value : Value) (by : Option ℕ) (d : PlatformDefault)
    (db : Db) where
  tenant_setting-append_version :
      tenant_setting (append_version now org key value by d db).1 org key
      ≡ of_tenant (some (new_row now org key value by d db))
  unfolding tenant_setting append_version
  tenant_setting-append_version =
      let row = new_row now org key value by d db in
      let old = filter (is_setting org key) db.tenant_settings in
      let kept = is_setting_self org key row refl refl in
      ground (arith, kept, latest-new row old refl)

  flag_override-append_version :
      (org' : ℕ) (key' : String)
      → flag_override (append_version now org key value by d db).1 org' key'
        ≡ flag_override db org' key'
  unfolding flag_override append_version
  flag_override-append_version org' key' = refl

  resolve-append_version :
      flag_override db org key ≡ none
      → resolve (append_version now org key value by d db).1 org key
        ≡ some (record {
          value = value;
          source = SettingSource.tenant;
          schema_ref = d.schema_ref;
          version = some (append_version now org key value by d db).0;
        })
  unfolding resolve
  resolve-append_version none_set =
      rw (flag_override-append_version org key, none_set, tenant_setting-append_version)
        (unfold of_tenant append_version in refl)

  -- A query about another key or organisation does not see the row.
  resolve-append_version_ne :
      (org' : ℕ) (key' : String)
      → is_setting org' key' (new_row now org key value by d db) ≡ false
      → resolve (append_version now org key value by d db).1 org' key' ≡ resolve db org' key'
  unfolding resolve tenant_setting append_version flag_override pack_default
  resolve-append_version_ne org' key' h = ground (arith, h)

  -- Nor does a query about an earlier time.
  resolve_at-append_version :
      (org' : ℕ) (key' : String) (ts : ℕ)
      → ts < now
      → resolve_at (append_version now org key value by d db).1 org' key' ts
        ≡ resolve_at db org' key' ts
  unfolding resolve_at append_version pack_default
  resolve_at-append_version org' key' ts h = ground (arith, h)

-- After a successful write, and where no flag overrides the key: the key resolves to the value
-- that was written, at the version that the write returned.
pub resolve-write_setting :
    (now org : ℕ) (key : String) (value : Value) (by : Option ℕ) (db db' : Db) (version : ℕ)
    → write_setting now org key value by db ≡ written version db'
    → flag_override db org key ≡ none
    → (r : Resolved) × (resolve db' org key ≡ some r)
      × (r.value ≡ value)
      × (r.source ≡ SettingSource.tenant)
      × (r.version ≡ some version)
unfolding write_setting
resolve-write_setting now org key value by db db' version h none_set =
    elim (Option-cases (default_of key)) [
      | inl unknown ↦ absurd (ground arith)
      | inr (d, known) ↦
          let r = resolve-append_version now org key value by d db none_set in
          (
            record {
              value = value;
              source = SettingSource.tenant;
              schema_ref = d.schema_ref;
              version = some version;
            },
            ground (arith, r),
            refl,
            refl,
            refl,
          )
    ]

-- A successful write changes nothing that resolves for another key or another organisation, and
-- nothing that resolved, for any key and organisation, at a time before it.
pub write_setting_frame :
    (now org : ℕ) (key : String) (value : Value) (by : Option ℕ) (db db' : Db) (version : ℕ)
    → write_setting now org key value by db ≡ written version db'
    → (org' : ℕ) (key' : String)
    → ((org == org' && str_eq key key') ≡ false → resolve db' org' key' ≡ resolve db org' key')
      × ((ts : ℕ) → ts < now → resolve_at db' org' key' ts ≡ resolve_at db org' key' ts)
unfolding write_setting is_setting
write_setting_frame now org key value by db db' version h org' key' =
    elim (Option-cases (default_of key)) [
      | inl unknown ↦ absurd (ground arith)
      | inr (d, known) ↦ (
        λ other.
            ground (arith, resolve-append_version_ne now org key value by d db org' key' other),
        λ ts early.
            ground (arith, resolve_at-append_version now org key value by d db org' key' ts early),
      )
    ]

-- No key of the registry is tighten-only.
free_dial_all :
    (key : String) (d : PlatformDefault) → default_of key ≡ some d → d.tighten_only ≡ false
unfolding default_of
free_dial_all key d h = ground arith

-- A write is refused for a key outside the registry, and for no other reason: the registry marks
-- no key as tighten-only.
pub write_setting_refused :
    (now org : ℕ) (key : String) (value : Value) (by : Option ℕ) (db : Db)
    → (write_setting now org key value by db ≡ unknown_config_key) ↔ (default_of key ≡ none)
unfolding write_setting
write_setting_refused now org key value by db = elim (Option-cases (default_of key)) [
  | inl unknown ↦ ground arith
  | inr (d, known) ↦ ground (arith, free_dial_all key d)
]
