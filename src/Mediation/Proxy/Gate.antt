-- ===== src/Mediation/Proxy/Gate.antt =====
-- A tool runs exactly if every check lets the call through; what follows for a run with untrusted
-- content and for the actions of the platform's tier-4 list.
use mathlib.Core.List.{Mem}
use growth_operator.Approvals.Engine.{Params, Cel, Rules, is_core_tier4}
use growth_operator.Approvals.Tool.{Owner, evaluate_tool, resolve_actions}
use growth_operator.Approvals.Tool.Raise.{core-le-evaluate_tool}
use growth_operator.Mediation.Limits.{RateEntry, check_rate, is_untrusted}
use growth_operator.Mediation.Manifest.{
  Grant, ToolGrant, find_grant, compile_manifest, is_read_only,
}
use growth_operator.Mediation.Manifest.Compiled.{allow-IsReadOnly}
use growth_operator.Mediation.World.{Env, RunContext, World, Executed}
use growth_operator.Mediation.Proxy.{
  call, execute, check_plan, check_tier, check_limits, check_grant, manifest_denied,
  count_violation, add_audit, after_run, commercial_denial, tier_of_call, engine_tier,
  validate_params, is_over_budget, is_narrowed_call, is_intact, is_stale,
}
use growth_operator.Prelude.{
  ℕ, [], none, Option, ◌∷◌, ◌≡◌, All, Bool, contains, not, List, Option-cases, is_some, arith,
  String, if◌then◌else◌, inl, str_eq, refl, inr, some, false, ◌&&◌, Bool-cases, str_eq_iff, true,
  length, ltb, ◌||◌,
}

abbrev entry : String → World → Executed
entry tool w = record { tool = tool; audit_id = length w.audit }

-- The tools that have run after a call, if the call runs its tool exactly where a test holds.
abbrev pub ran_if : Bool → String → World → List Executed
ran_if b tool w = if b then entry tool w ∷ w.executed else w.executed

executed-execute :
    (env : Env) (ctx : RunContext) (tool : String) (params : Params) (w : World)
    → (execute env ctx tool params w).1.executed ≡ ran_if (is_some (env.registry tool)) tool w
unfolding execute add_audit after_run
executed-execute env ctx tool params w = elim (Option-cases (env.registry tool)) [
  | inl unwired ↦ ground arith
  | inr (impl, wired) ↦ elim (Option-cases (impl ctx params (length w.audit))) [
    | inl failed ↦ ground arith
    | inr (output, ok) ↦ ground arith
  ]
]

executed-check_plan :
    (env : Env) (ctx : RunContext) (tool : String) (params : Params) (w : World)
    → (check_plan env ctx tool params w).1.executed
      ≡ ran_if (not (commercial_denial env ctx tool) && is_some (env.registry tool)) tool w
unfolding check_plan add_audit
executed-check_plan env ctx tool params w = ground (arith, executed-execute env ctx tool params w)

-- The tier gate is open: there is none for the tool, the tool was approved, or the tier is below 2.
unfoldable pub is_tier_open : Env → RunContext → Grant → String → Params → Bool
is_tier_open env ctx grant tool params =
    not grant.requires_tier_eval
    || contains tool ctx.approved
    || elim (tier_of_call env ctx tool params) [ none ↦ false | some tier ↦ ltb tier 2 ]

executed-check_tier :
    (env : Env) (ctx : RunContext) (grant : Grant) (tool : String) (params : Params) (w : World)
    → (check_tier env ctx grant tool params w).1.executed
      ≡ ran_if
          (is_tier_open env ctx grant tool params
            && (not (commercial_denial env ctx tool) && is_some (env.registry tool)))
          tool
          w
unfolding check_tier is_tier_open
executed-check_tier env ctx grant tool params w =
    elim (Option-cases (tier_of_call env ctx tool params)) [
      | inl failed ↦ ground (arith, executed-check_plan env ctx tool params w)
      | inr (tier, known) ↦ ground (arith, executed-check_plan env ctx tool params w)
    ]

-- The checks of a granted tool, as one condition.
unfoldable pub is_grant_open : Env → RunContext → Grant → String → Params → World → Bool
is_grant_open env ctx grant tool params w =
    not (is_narrowed_call env ctx tool w)
    && validate_params env params grant.params_constraints
    && (check_rate env.now ctx.instance_id tool grant.per_min w.rates).0
    && not (is_over_budget env ctx tool w)
    && (is_tier_open env ctx grant tool params
        && (not (commercial_denial env ctx tool) && is_some (env.registry tool)))

is_over_budget-rates :
    (env : Env) (ctx : RunContext) (tool : String) (w : World) (rates : List RateEntry)
    → is_over_budget env ctx tool (record w { rates = rates }) ≡ is_over_budget env ctx tool w
unfolding is_over_budget
is_over_budget-rates env ctx tool w rates = refl

executed-check_limits :
    (env : Env) (ctx : RunContext) (grant : Grant) (tool : String) (params : Params) (w : World)
    → (check_limits env ctx grant tool params w).1.executed
      ≡ ran_if
          ((check_rate env.now ctx.instance_id tool grant.per_min w.rates).0
            && not (is_over_budget env ctx tool w)
            && (is_tier_open env ctx grant tool params
                && (not (commercial_denial env ctx tool) && is_some (env.registry tool))))
          tool
          w
unfolding check_limits
executed-check_limits env ctx grant tool params w =
    let rates = (check_rate env.now ctx.instance_id tool grant.per_min w.rates).1 in
    ground (
      arith,
      is_over_budget-rates env ctx tool w rates,
      executed-check_tier env ctx grant tool params (record w { rates = rates }),
    )

executed-manifest_denied :
    (ctx : RunContext) (tool : String) (w : World)
    → (manifest_denied ctx tool w).1.executed ≡ w.executed
unfolding manifest_denied count_violation add_audit
executed-manifest_denied ctx tool w = refl

executed-check_grant :
    (env : Env) (ctx : RunContext) (grant : Grant) (tool : String) (params : Params) (w : World)
    → (check_grant env ctx grant tool params w).1.executed
      ≡ ran_if (is_grant_open env ctx grant tool params w) tool w
unfolding check_grant is_grant_open
executed-check_grant env ctx grant tool params w =
    ground (
      arith,
      executed-manifest_denied ctx tool w,
      executed-check_limits env ctx grant tool params w,
    )

-- Every check of the chain, as one condition.
unfoldable pub may_run : Env → RunContext → String → Params → World → Bool
may_run env ctx tool params w =
    is_intact env ctx && not (is_stale env ctx) && elim (find_grant ctx.manifest.body tool) [
      | none ↦ false
      | some grant ↦ is_grant_open env ctx grant tool params w
    ]

-- A call runs its tool, once and under the id that the next audit entry has, exactly
-- if the manifest is intact and current and grants the tool, and the narrowing, the parameters, the
-- rate, the budget, the tier, the plan and the registry all let it through. Otherwise no tool runs.
pub executed-call :
    (env : Env) (ctx : RunContext) (tool : String) (params : Params) (w : World)
    → (call env ctx tool params w).1.executed ≡ ran_if (may_run env ctx tool params w) tool w
unfolding call may_run
executed-call env ctx tool params w = elim (Option-cases (find_grant ctx.manifest.body tool)) [
  | inl missing ↦ ground (arith, executed-manifest_denied ctx tool w)
  | inr (grant, found) ↦
      ground (
        arith,
        executed-manifest_denied ctx tool w,
        executed-check_grant env ctx grant tool params w,
      )
]

contains-All :
    (P : String → Bool) (s : String) (xs : List String)
    → All (λ x. P x ≡ true) xs
    → contains s xs ≡ true
    → P s ≡ true
contains-All P s [] all h = absurd (ground arith)
contains-All P s (x ∷ xs) (px, all) h = elim (Bool-cases (str_eq s x)) [
  | inl same ↦ let e : s ≡ x = (str_eq_iff s x).0 same in rw e px
  | inr other ↦ contains-All P s xs all (ground arith)
]

-- A run whose manifest was compiled from grants and that has taken in untrusted content runs no tool
-- but one whose name ends in `.read` or `.search`, whatever the grants, approvals and parameters are.
pub untrusted-runs-read-only :
    (env : Env) (ctx : RunContext) (tool : String) (params : Params) (w : World)
    (now instance org : ℕ) (allowlist : List String) (grants : List ToolGrant)
    (sends_day : Option ℕ) (tenant_allow : Option (List String))
    → ctx.manifest.body ≡ compile_manifest now instance org allowlist grants sends_day tenant_allow
    → (ctx.untrusted || is_untrusted env.now ctx.run_id w.untrusted) ≡ true
    → is_read_only tool ≡ false
    → (call env ctx tool params w).1.executed ≡ w.executed
unfolding may_run is_grant_open is_narrowed_call
untrusted-runs-read-only env ctx tool params w now instance org allowlist grants sends_day
      tenant_allow m u r =
    let reads : contains tool ctx.manifest.body.allow ≡ true → is_read_only tool ≡ true = rw m (
      contains-All is_read_only tool _
        (allow-IsReadOnly now instance org allowlist grants sends_day tenant_allow)) in
    elim (Option-cases (find_grant ctx.manifest.body tool)) [
      | inl missing ↦ ground (arith, executed-call env ctx tool params w)
      | inr (grant, found) ↦ ground (arith, executed-call env ctx tool params w, reads)
    ]

tier-shut :
    (env : Env) (ctx : RunContext) (grant : Grant) (tool : String) (params : Params) (cel : Cel)
    (rules : Rules) (owner : Owner) (action : String)
    → env.tier_eval ≡ none
    → env.engine_tier ≡ engine_tier cel rules owner env.now
    → grant.requires_tier_eval ≡ true
    → Mem action (resolve_actions tool params)
    → is_core_tier4 action ≡ true
    → contains tool ctx.approved ≡ false
    → is_tier_open env ctx grant tool params ≡ false
unfolding is_tier_open tier_of_call engine_tier
tier-shut env ctx grant tool params cel rules owner action live engine gated m core new =
    elim (Option-cases (
      evaluate_tool cel rules owner ctx.org_id (some ctx.instance_id) ctx.untrusted tool params
        ctx.communication_mode env.now)) [
          | inl failed ↦ rw (gated, new, live, engine, failed) refl
          | inr (d, decided) ↦
              let high =
                core-le-evaluate_tool cel rules owner ctx.org_id (some ctx.instance_id)
                  ctx.untrusted tool params ctx.communication_mode env.now d action decided m
                  core in
              rw (gated, new, live, engine, decided) (ground arith)
        ]

-- A tool that governs an action of the platform's tier-4 list does not run before it is approved:
-- where its grant has the tier gate and the live engine decides, no rule, setting or parameter lets
-- it through.
pub core_action-needs-approval :
    (env : Env) (ctx : RunContext) (tool : String) (params : Params) (w : World) (cel : Cel)
    (rules : Rules) (owner : Owner) (action : String)
    → env.tier_eval ≡ none
    → env.engine_tier ≡ engine_tier cel rules owner env.now
    → ((grant : Grant)
        → find_grant ctx.manifest.body tool ≡ some grant
        → grant.requires_tier_eval ≡ true)
    → Mem action (resolve_actions tool params)
    → is_core_tier4 action ≡ true
    → contains tool ctx.approved ≡ false
    → (call env ctx tool params w).1.executed ≡ w.executed
unfolding may_run is_grant_open
core_action-needs-approval env ctx tool params w cel rules owner action live engine gated m core
      new =
    elim (Option-cases (find_grant ctx.manifest.body tool)) [
      | inl missing ↦ ground (arith, executed-call env ctx tool params w)
      | inr (grant, found) ↦
          let shut =
            tier-shut env ctx grant tool params cel rules owner action live engine
              (gated grant found) m core new in
          ground (arith, executed-call env ctx tool params w, shut)
    ]
