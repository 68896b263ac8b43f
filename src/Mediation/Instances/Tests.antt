-- ===== src/Mediation/Instances/Tests.antt =====
-- The theorem on recompilation, at an instance that loses its grants.
use growth_operator.Approvals.Samples.{no_params}
use growth_operator.Approvals.Tool.{reactive}
use growth_operator.Mediation.Manifest.{Manifest, Crypto, compile_manifest, sign}
use growth_operator.Mediation.World.{Env, RunContext, World}
use growth_operator.Mediation.Proxy.{call}
use growth_operator.Mediation.Instances.{
  Instance, recompile_instance, pinned_hash, is_instance, compile_and_sign,
}
use growth_operator.Mediation.Instances.Revoked.{recompile_instance-revokes}
use growth_operator.Prelude.{true, Option, text_eq, ℕ, [], some, none, ◌≡◌, false, ◌∷◌, refl, List}

-- A digest and a signature that tell the times of compilation apart.
abbrev crypto : Crypto
crypto = record {
  digest = λ b. b.compiled_at ∷ [];
  signature_of = λ b. b.compiled_at ∷ [];
  is_signature = λ s b. text_eq s (b.compiled_at ∷ []);
}

abbrev instance_row : Option Manifest → Instance
instance_row m = record {
  id = 1;
  org_id = 1;
  capability_allowlist = "catalog.search" ∷ [];
  tool_grants = [];
  sends_day = none;
  permission_manifest = m;
}

abbrev manifest : ℕ → Manifest
manifest now = sign crypto (compile_manifest now 1 1 ("catalog.search" ∷ []) [] none none)

abbrev rows : List Instance
rows = instance_row (some (manifest 0)) ∷ []

abbrev rows' : List Instance
rows' = instance_row (some (manifest 9)) ∷ []

recompile_runs : recompile_instance crypto 9 1 1 rows ≡ some (manifest 9, rows')
unfolding recompile_instance is_instance sign compile_and_sign
recompile_runs = refl

abbrev context : RunContext
context = record {
  org_id = 1;
  run_id = 5;
  instance_id = 1;
  manifest = manifest 0;
  manifest_hash = 0 ∷ [];
  untrusted = false;
  approved = "catalog.search" ∷ [];
  communication_mode = reactive;
}

abbrev env : Env
env = record {
  now = 9;
  crypto = crypto;
  current = pinned_hash rows';
  validates = λ params props. true;
  tier_eval = some (λ ctx tool params. 0);
  engine_tier = λ ctx tool params. none;
  is_executable = λ org instance. true;
  is_entitled = λ org capability. true;
  registry = λ tool. some (λ ctx params id. some (record { content_class = none }));
}

abbrev world : World
world = record {
  rates = [];
  budgets = [];
  untrusted = [];
  violations = [];
  alerts = [];
  audit = [];
  executed = [];
}

recompile_instance-revokes_example :
    (call env context "catalog.search" no_params world).1.executed ≡ []
unfolding compile_manifest
recompile_instance-revokes_example =
    recompile_instance-revokes crypto 9 1 1 rows rows' (manifest 9) env context "catalog.search"
      no_params world recompile_runs refl refl (unfold sign in refl)
