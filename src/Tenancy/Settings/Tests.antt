-- ===== src/Tenancy/Settings/Tests.antt =====
-- The theorems on versioned settings, at a shop that changes its tone.
use growth_operator.Tenancy.Settings.{
  Db, Resolved, text, resolve, write_setting, written, default_of, flag_override, SettingSource,
  append_version, tenant_setting,
}
use growth_operator.Tenancy.Settings.Versions.{resolve-write_setting}
use growth_operator.Prelude.{◌∷◌, ◌≡◌, refl, [], some}

abbrev empty : Db
empty = record { flag_rules = []; tenant_settings = []; installations = []; audit = [] }

abbrev first : Db
first = record {
  flag_rules = [];
  tenant_settings =
      record {
        org_id = 1;
        key = "reply.tone";
        value = text "formal";
        schema_ref = some "core.reply_tone";
        version = 1;
        updated_by = some 9;
        updated_at = 50;
      }
      ∷ [];
  installations = [];
  audit =
      record {
        org_id = 1;
        actor_id = some 9;
        resource = "reply.tone";
        old = text "warm";
        new = text "formal";
        version = 1;
      }
      ∷ [];
}

write_runs : write_setting 50 1 "reply.tone" (text "formal") (some 9) empty ≡ written 1 first
unfolding write_setting default_of append_version tenant_setting
write_runs = refl

resolve-write_setting_example :
    (r : Resolved) × (resolve first 1 "reply.tone" ≡ some r)
    × (r.value ≡ text "formal")
    × (r.source ≡ SettingSource.tenant)
    × (r.version ≡ some 1)
resolve-write_setting_example =
    resolve-write_setting 50 1 "reply.tone" (text "formal") (some 9) empty first 1 write_runs
      (unfold flag_override in refl)
