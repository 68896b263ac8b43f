-- ===== src/Mediation/Proxy/Tests.antt =====
-- The theorems on mediated calls, at an agent that may search, send and pay.
use mathlib.Core.List.{mem-cons_self}
use growth_operator.Approvals.Samples.{no_params, no_cel, no_rules}
use growth_operator.Approvals.Engine.{is_core_tier4}
use growth_operator.Approvals.Tool.{Owner, reactive, resolve_actions}
use growth_operator.Mediation.Limits.{is_untrusted, check_rate}
use growth_operator.Mediation.Manifest.{
  Grant, ToolGrant, Crypto, compile_manifest, find_grant, sign, is_read_only, compile_tools,
  is_granted, tool_of, manifest_hash, verify, is_no_tier, covers, is_narrowed, is_wildcard,
  read_only_names,
}
use growth_operator.Mediation.World.{Env, RunContext, World}
use growth_operator.Mediation.Proxy.{
  call, engine_tier, is_intact, is_stale, is_narrowed_call, validate_params, is_over_budget,
  commercial_denial, has_bare_list, schema_props, tool_capability, is_plan_exempt,
}
use growth_operator.Mediation.Proxy.Gate.{
  ran_if, may_run, executed-call, untrusted-runs-read-only, core_action-needs-approval,
  is_grant_open, is_tier_open,
}
use growth_operator.Mediation.Proxy.Effects.{IsLogged, call-IsLogged}
use growth_operator.Prelude.{
  false, [], List, text_eq, some, ◌∷◌, Bool, String, none, ◌≡◌, refl, true,
}

abbrev crypto : Crypto
crypto = record {
  digest = λ b. b.instance_id ∷ [];
  signature_of = λ b. b.instance_id ∷ [];
  is_signature = λ s b. text_eq s (b.instance_id ∷ []);
}

abbrev grant : String → ToolGrant
grant name = record { name = some name; per_min = none; params_constraints = [] }

abbrev allowlist : List String
allowlist = "catalog.search" ∷ "messages.send" ∷ "payment.refund" ∷ []

abbrev grants : List ToolGrant
grants = grant "catalog.search" ∷ grant "messages.send" ∷ grant "payment.refund" ∷ []

abbrev context : Bool → RunContext
context untrusted = record {
  org_id = 1;
  run_id = 5;
  instance_id = 1;
  manifest = sign crypto (compile_manifest 0 1 1 allowlist grants none none);
  manifest_hash = 1 ∷ [];
  untrusted = untrusted;
  approved = [];
  communication_mode = reactive;
}

abbrev owner : Owner
owner = record {
  settings = record { flag_rules = []; tenant_settings = []; installations = []; audit = [] };
  zones = record { now_in = λ name. none; now_in_kolkata = 0 };
  organizations = [];
}

abbrev env : Env
env = record {
  now = 0;
  crypto = crypto;
  current = λ instance. none;
  validates = λ params props. true;
  tier_eval = none;
  engine_tier = engine_tier no_cel no_rules owner 0;
  is_executable = λ org instance. true;
  is_entitled = λ org capability. true;
  registry = λ tool. some (λ ctx params id. some (record { content_class = none }));
}

abbrev world : World
world = record {
  rates = [];
  budgets = [];
  untrusted = [];
  violations = [];
  alerts = [];
  audit = [];
  executed = [];
}

search_runs : may_run env (context false) "catalog.search" no_params world ≡ true
unfolding may_run sign is_intact manifest_hash compile_manifest verify is_stale find_grant
    compile_tools is_granted tool_of is_grant_open is_narrowed_call is_untrusted validate_params
    check_rate is_over_budget is_tier_open is_read_only covers is_narrowed is_no_tier is_wildcard
    read_only_names commercial_denial has_bare_list schema_props tool_capability is_plan_exempt
search_runs = refl

executed-call_example :
    (call env (context false) "catalog.search" no_params world).1.executed
    ≡ ran_if (may_run env (context false) "catalog.search" no_params world) "catalog.search" world
executed-call_example = executed-call env (context false) "catalog.search" no_params world

untrusted-runs-read-only_example :
    (call env (context true) "messages.send" no_params world).1.executed ≡ []
untrusted-runs-read-only_example =
    untrusted-runs-read-only env (context true) "messages.send" no_params world 0 1 1 allowlist
      grants none none (unfold sign in refl) refl (unfold is_read_only in refl)

abbrev refund_tool : Grant
refund_tool = record {
  name = "payment.refund";
  read_only = false;
  requires_tier_eval = true;
  per_min = none;
  params_constraints = [];
}

some-injective : {a b : Grant} → some a ≡ some b → a ≡ b
some-injective h = cc

refund_is_gated :
    (g : Grant)
    → find_grant (context false).manifest.body "payment.refund" ≡ some g
    → g.requires_tier_eval ≡ true
unfolding find_grant sign compile_manifest compile_tools is_granted tool_of is_read_only is_no_tier
refund_is_gated g h = gated (some-injective h)
  where
    gated : refund_tool ≡ g → g.requires_tier_eval ≡ true
    gated e = rw (← e) refl

core_action-needs-approval_example :
    (call env (context false) "payment.refund" no_params world).1.executed ≡ []
core_action-needs-approval_example =
    core_action-needs-approval env (context false) "payment.refund" no_params world no_cel no_rules
      owner "payment.refund" refl refl refund_is_gated (unfold resolve_actions in mem-cons_self)
      (unfold is_core_tier4 in refl) refl

call-IsLogged_example : IsLogged (call env (context false) "catalog.search" no_params world).1
call-IsLogged_example = call-IsLogged env (context false) "catalog.search" no_params world tt

refuses_ads : find_grant (context false).manifest.body "ads.publish" ≡ none
unfolding find_grant sign compile_manifest compile_tools is_granted tool_of
refuses_ads = refl
