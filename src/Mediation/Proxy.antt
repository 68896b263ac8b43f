-- ===== src/Mediation/Proxy.antt =====
-- core/mediation/proxy.py: the chain of checks that a model's tool call passes, and the call.
-- What runs inside a tool, the check of parameters by jsonschema, the plan's entitlements and the
-- hash that an instance has pinned are in `Env` of Mediation/World. Ids of audit entries are their
-- numbers. The egress hook passes its argument through.
pub mod Gate
pub mod Effects
pub mod Violations
mod Tests
use growth_operator.Mediation.World.{
  Output, RunContext, ErrorCode, Outcome, AuditAction, AuditEvent, Executed, World, ToolImpl, Env,
  done, refused, pending, aborted, raised, denied, intent, permission_denied_manifest,
  config_schema_violation, rate_limited, budget_exceeded, provider_unavailable,
}
use growth_operator.Mediation.Limits.{
  RateEntry, BudgetEntry, Flag, check_rate, check_budget, is_untrusted, mark_untrusted,
  result_is_untrusted,
}
use growth_operator.Mediation.Manifest.{
  Manifest, Crypto, Constraint, bare_list, schema, scalar, Grant, find_grant, verify, manifest_hash,
}
use growth_operator.Approvals.Engine.{Params, Cel, Rules}
use growth_operator.Approvals.Tool.{Owner, CommunicationMode, evaluate_tool}
use growth_operator.Prelude.{
  Option, [], List, ◌||◌, ◌&&◌, ◌+◌, leb, some, false, none, text_eq, String, ◌∷◌, codes, contains,
  true, str_eq, not, ℕ, lookup, Bool, if◌then◌else◌, ◌==◌, length, ◌++◌,
}

-- `_engine_tier`
unfoldable pub engine_tier : Cel → Rules → Owner → ℕ → RunContext → String → Params → Option ℕ
engine_tier cel rules owner now ctx tool params =
    elim (evaluate_tool cel rules owner ctx.org_id (some ctx.instance_id) ctx.untrusted tool params
      ctx.communication_mode now) [ none ↦ none | some d ↦ some d.tier ]

-- `listish`
unfoldable pub has_bare_list : List (String × Constraint) → Bool
has_bare_list [] = false
has_bare_list ((k, c) ∷ cs) = elim c [
  | bare_list ↦ true
  | schema s ↦ has_bare_list cs
  | scalar v ↦ has_bare_list cs
]

-- `schema_props`
unfoldable pub schema_props : List (String × Constraint) → List (String × String)
schema_props [] = []
schema_props ((k, c) ∷ cs) = elim c [
  | bare_list ↦ schema_props cs
  | schema s ↦ (k, s) ∷ schema_props cs
  | scalar v ↦ schema_props cs
]

-- `_validate_params`: whether the parameters pass
unfoldable pub validate_params : Env → Params → List (String × Constraint) → Bool
unfolding has_bare_list schema_props
validate_params env params constraints =
    if has_bare_list constraints
    then false
    else elim (schema_props constraints) [ [] ↦ true | p ∷ ps ↦ env.validates params (p ∷ ps) ]

-- `redis.incr`
unfoldable pub incr : ℕ → List (ℕ × ℕ) → List (ℕ × ℕ)
incr run [] = (run, 1) ∷ []
incr run ((r, n) ∷ counts) =
    let rest = incr run counts in if r == run then (r, n + 1) ∷ counts else (r, n) ∷ rest

unfoldable pub violations_of : ℕ → List (ℕ × ℕ) → ℕ
violations_of run [] = 0
violations_of run ((r, n) ∷ counts) =
    let rest = violations_of run counts in if r == run then n else rest

-- `_audit`: the id of the entry, and the stores with it
unfoldable pub add_audit : RunContext → String → AuditAction → World → ℕ × World
add_audit ctx tool action w = (
  length w.audit,
  record w {
    audit =
        record { id = length w.audit; run_id = ctx.run_id; tool = tool; action = action } ∷ w.audit;
  },
)

abbrev pub max_manifest_violations : ℕ
max_manifest_violations = 3

-- The audit, the alert and the counter of `_manifest_denied`.
unfoldable pub count_violation : RunContext → String → World → World
unfolding add_audit incr
count_violation ctx tool w =
    let w' = (add_audit ctx tool denied w).1 in
    record w' {
      alerts = (ctx.run_id, tool) ∷ w'.alerts;
      violations = incr ctx.run_id w'.violations;
    }

-- `_manifest_denied`
unfoldable pub manifest_denied : RunContext → String → World → Outcome × World
unfolding violations_of
manifest_denied ctx tool w =
    let w' = count_violation ctx tool w in
    let count = violations_of ctx.run_id w'.violations in
    (
      if leb max_manifest_violations count
          then aborted count
          else refused permission_denied_manifest true none,
      w',
    )

abbrev tool_capabilities : List (String × String)
tool_capabilities =
    ("catalog.search", "catalog")
    ∷ ("pricing.compute", "catalog")
    ∷ ("messages.send", "conversations")
    ∷ ("landing_page.generate", "landing_pages")
    ∷ ("landing_page.publish", "landing_pages")
    ∷ []

-- `TOOL_CAPABILITY.get`
unfoldable pub tool_capability : String → Option String
tool_capability tool = lookup tool tool_capabilities

abbrev plan_exempt_tools : List String
plan_exempt_tools = "ledger.read" ∷ "calendar.book" ∷ "crm.read" ∷ "crm.write" ∷ []

-- `tool_name in TOOL_PLAN_EXEMPT`
unfoldable pub is_plan_exempt : String → Bool
is_plan_exempt tool = contains tool plan_exempt_tools

-- `_commercial_denial`: whether the run is refused
unfoldable pub commercial_denial : Env → RunContext → String → Bool
commercial_denial env ctx tool =
    if not (env.is_executable ctx.org_id ctx.instance_id)
    then true
    else elim (tool_capability tool) [
      | none ↦ not (is_plan_exempt tool)
      | some capability ↦ not (env.is_entitled ctx.org_id capability)
    ]

-- The content marker of the output.
unfoldable pub after_run : Env → RunContext → String → Output → World → World
after_run env ctx tool output w =
    if result_is_untrusted tool output.content_class
    then record w { untrusted = mark_untrusted env.now ctx.run_id w.untrusted }
    else w

-- 8 to 10: audit the intent, run the tool, mark the run
unfoldable pub execute : Env → RunContext → String → Params → World → Outcome × World
unfolding add_audit after_run
execute env ctx tool params w =
    let (audit_id, audited) = add_audit ctx tool intent w in
    elim (env.registry tool) [
      | none ↦ (refused provider_unavailable true (some audit_id), audited)
      | some impl ↦
          let ran = record audited {
            executed = record { tool = tool; audit_id = audit_id } ∷ audited.executed;
          } in
          elim (impl ctx params audit_id) [
            | none ↦ (refused provider_unavailable true (some audit_id), ran)
            | some output ↦ (done output audit_id, after_run env ctx tool output ran)
          ]
    ]

-- 7b: the plan
unfoldable pub check_plan : Env → RunContext → String → Params → World → Outcome × World
check_plan env ctx tool params w =
    if commercial_denial env ctx tool
    then (refused permission_denied_manifest true none, (add_audit ctx tool denied w).1)
    else execute env ctx tool params w

-- The tier of a call; `none` is a raise
unfoldable pub tier_of_call : Env → RunContext → String → Params → Option ℕ
tier_of_call env ctx tool params = elim env.tier_eval [
  | none ↦ env.engine_tier ctx tool params
  | some eval ↦ some (eval ctx tool params)
]

-- 7: the tier
unfoldable pub check_tier : Env → RunContext → Grant → String → Params → World → Outcome × World
check_tier env ctx grant tool params w =
    if grant.requires_tier_eval && not (contains tool ctx.approved)
    then elim (tier_of_call env ctx tool params) [
      | none ↦ (raised, w)
      | some tier ↦ if leb 2 tier then (pending tier, w) else check_plan env ctx tool params w
    ]
    else check_plan env ctx tool params w

-- `breach is not None and tool_name == "messages.send"` and the day's budget is used up
unfoldable pub is_over_budget : Env → RunContext → String → World → Bool
is_over_budget env ctx tool w = elim ctx.manifest.body.sends_day [
  | none ↦ false
  | some cap ↦
      str_eq tool "messages.send"
      && not (check_budget env.now ctx.instance_id "sends" (some cap) w.budgets)
]

-- 5 and 6: the rate and the budget
unfoldable pub check_limits : Env → RunContext → Grant → String → Params → World → Outcome × World
check_limits env ctx grant tool params w =
    let (ok, rates) = check_rate env.now ctx.instance_id tool grant.per_min w.rates in
    let w' = record w { rates = rates } in
    if not ok
    then (refused rate_limited true none, w')
    else if is_over_budget env ctx tool w'
    then (refused budget_exceeded false none, w')
    else check_tier env ctx grant tool params w'

unfoldable pub is_narrowed_call : Env → RunContext → String → World → Bool
is_narrowed_call env ctx tool w =
    (ctx.untrusted || is_untrusted env.now ctx.run_id w.untrusted)
    && not (contains tool ctx.manifest.body.allow)

unfoldable pub is_intact : Env → RunContext → Bool
is_intact env ctx =
    text_eq ctx.manifest_hash (manifest_hash env.crypto ctx.manifest)
    && verify env.crypto ctx.manifest

-- `current is not None and current != f"sha256:{ctx.manifest_hash}"`
unfoldable pub is_stale : Env → RunContext → Bool
is_stale env ctx = elim (env.current ctx.instance_id) [
  | none ↦ false
  | some hash ↦ not (text_eq hash (codes "sha256:" ++ ctx.manifest_hash))
]

-- 3 and 4: the narrowing and the parameters
unfoldable pub check_grant : Env → RunContext → Grant → String → Params → World → Outcome × World
check_grant env ctx grant tool params w =
    if is_narrowed_call env ctx tool w
    then manifest_denied ctx tool w
    else if not (validate_params env params grant.params_constraints)
    then (refused config_schema_violation true none, w)
    else check_limits env ctx grant tool params w

-- `call`
unfoldable pub call : Env → RunContext → String → Params → World → Outcome × World
call env ctx tool params w =
    if not (is_intact env ctx)
    then manifest_denied ctx tool w
    else if is_stale env ctx
    then manifest_denied ctx tool w
    else elim (find_grant ctx.manifest.body tool) [
      | none ↦ manifest_denied ctx tool w
      | some grant ↦ check_grant env ctx grant tool params w
    ]
