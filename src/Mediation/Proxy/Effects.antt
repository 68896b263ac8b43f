-- ===== src/Mediation/Proxy/Effects.antt =====
-- What a call leaves behind: the audit entry before each run of a tool, the count of violations, and
-- the rate slot that a refused call does not take.
use mathlib.Core.List.{Mem, mem-cons_self, mem-cons_of_mem}
use growth_operator.Approvals.Engine.{Params}
use growth_operator.Mediation.Limits.{check_rate, result_is_untrusted}
use growth_operator.Mediation.Manifest.{Grant, find_grant}
use growth_operator.Mediation.World.{
  Env, RunContext, World, AuditEvent, intent, AuditAction, denied,
}
use growth_operator.Mediation.Proxy.{
  call, execute, check_plan, check_tier, check_limits, check_grant, manifest_denied,
  count_violation, add_audit, after_run, commercial_denial, tier_of_call, is_over_budget,
  is_narrowed_call, is_intact, validate_params, is_stale,
}
use growth_operator.Prelude.{
  inr, contains, ◌⊎◌, inl, leb, length, ◌∷◌, Bool-cases, String, ℕ, ◌≡◌, Option-cases, not, refl,
  [], All, ◌&&◌, List,
}

-- Each run of a tool has its audit entry.
abbrev pub IsLogged : World → Type 0
IsLogged w =
    All
      (λ e.
        (run : ℕ) × Mem (record { id = e.audit_id; run_id = run; tool = e.tool; action = intent })
          w.audit)
      w.executed

-- What a call may do to the audit entries and to the runs of tools: entries are only added, and a
-- run comes with its entry.
abbrev Grows : World → World → Type 0
Grows w w' =
    ((e : AuditEvent) → Mem e w.audit → Mem e w'.audit)
    × ((w'.executed ≡ w.executed)
        ⊎ ((id run : ℕ) × (tool : String) × (w'.executed
              ≡ record { tool = tool; audit_id = id } ∷ w.executed)
            × Mem (record { id = id; run_id = run; tool = tool; action = intent }) w'.audit))

Grows-idle : (w w' : World) → w'.audit ≡ w.audit → w'.executed ≡ w.executed → Grows w w'
Grows-idle w w' a e = (λ x m. rw a m, inl e)

Grows-add_audit :
    (ctx : RunContext) (tool : String) (action : AuditAction) (w : World)
    → Grows w (add_audit ctx tool action w).1
unfolding add_audit
Grows-add_audit ctx tool action w = (λ x m. mem-cons_of_mem _ m, inl refl)

Grows-manifest_denied :
    (ctx : RunContext) (tool : String) (w : World) → Grows w (manifest_denied ctx tool w).1
unfolding manifest_denied count_violation add_audit
Grows-manifest_denied ctx tool w = (λ x m. mem-cons_of_mem _ m, inl refl)

Grows-execute :
    (env : Env) (ctx : RunContext) (tool : String) (params : Params) (w : World)
    → Grows w (execute env ctx tool params w).1
unfolding execute add_audit after_run
Grows-execute env ctx tool params w = elim (Option-cases (env.registry tool)) [
  | inl unwired ↦ rw (execute, unwired) (λ x m. mem-cons_of_mem _ m, inl refl)
  | inr (impl, wired) ↦ elim (Option-cases (impl ctx params (length w.audit))) [
    | inl failed ↦
        rw (execute, wired, failed)
          (λ x m. mem-cons_of_mem _ m, inr (length w.audit, ctx.run_id, tool, refl, mem-cons_self))
    | inr (output, ok) ↦ elim (Bool-cases (result_is_untrusted tool output.content_class)) [
      | inl marks ↦
          rw (execute, wired, ok, marks)
            (
              λ x m. mem-cons_of_mem _ m,
              inr (length w.audit, ctx.run_id, tool, refl, mem-cons_self),
            )
      | inr clean ↦
          rw (execute, wired, ok, clean)
            (
              λ x m. mem-cons_of_mem _ m,
              inr (length w.audit, ctx.run_id, tool, refl, mem-cons_self),
            )
    ]
  ]
]

Grows-check_plan :
    (env : Env) (ctx : RunContext) (tool : String) (params : Params) (w : World)
    → Grows w (check_plan env ctx tool params w).1
unfolding check_plan
Grows-check_plan env ctx tool params w = elim (Bool-cases (commercial_denial env ctx tool)) [
  | inl refuses ↦ rw refuses (Grows-add_audit ctx tool denied w)
  | inr passes ↦ rw passes (Grows-execute env ctx tool params w)
]

Grows-check_tier :
    (env : Env) (ctx : RunContext) (grant : Grant) (tool : String) (params : Params) (w : World)
    → Grows w (check_tier env ctx grant tool params w).1
unfolding check_tier
Grows-check_tier env ctx grant tool params w =
    let plan = Grows-check_plan env ctx tool params w in
    elim (Bool-cases (grant.requires_tier_eval && not (contains tool ctx.approved))) [
      | inr free ↦ rw free plan
      | inl gated ↦ elim (Option-cases (tier_of_call env ctx tool params)) [
        | inl failed ↦ rw (gated, failed) (Grows-idle w w refl refl)
        | inr (tier, known) ↦ elim (Bool-cases (leb 2 tier)) [
          | inl high ↦ rw (gated, known, high) (Grows-idle w w refl refl)
          | inr low ↦ rw (gated, known, low) plan
        ]
      ]
    ]

Grows-check_limits :
    (env : Env) (ctx : RunContext) (grant : Grant) (tool : String) (params : Params) (w : World)
    → Grows w (check_limits env ctx grant tool params w).1
unfolding check_limits
Grows-check_limits env ctx grant tool params w =
    let result = check_rate env.now ctx.instance_id tool grant.per_min w.rates in
    let w' : World = record w { rates = result.1 } in
    elim (Bool-cases result.0) [
      | inr full ↦ rw full (Grows-idle w w' refl refl)
      | inl ok ↦ elim (Bool-cases (is_over_budget env ctx tool w')) [
        | inl over ↦ rw (ok, over) (Grows-idle w w' refl refl)
        | inr under ↦ rw (ok, under) (Grows-check_tier env ctx grant tool params w')
      ]
    ]

Grows-check_grant :
    (env : Env) (ctx : RunContext) (grant : Grant) (tool : String) (params : Params) (w : World)
    → Grows w (check_grant env ctx grant tool params w).1
unfolding check_grant
Grows-check_grant env ctx grant tool params w =
    elim (Bool-cases (is_narrowed_call env ctx tool w)) [
      | inl narrow ↦ rw narrow (Grows-manifest_denied ctx tool w)
      | inr wide ↦ elim (Bool-cases (validate_params env params grant.params_constraints)) [
        | inl valid ↦ rw (wide, valid) (Grows-check_limits env ctx grant tool params w)
        | inr invalid ↦ rw (wide, invalid) (Grows-idle w w refl refl)
      ]
    ]

Grows-call :
    (env : Env) (ctx : RunContext) (tool : String) (params : Params) (w : World)
    → Grows w (call env ctx tool params w).1
unfolding call
Grows-call env ctx tool params w =
    let shut = Grows-manifest_denied ctx tool w in
    elim (Bool-cases (is_intact env ctx)) [
      | inr tampered ↦ rw tampered shut
      | inl intact ↦ elim (Bool-cases (is_stale env ctx)) [
        | inl stale ↦ rw (intact, stale) shut
        | inr fresh ↦ elim (Option-cases (find_grant ctx.manifest.body tool)) [
          | inl missing ↦ rw (intact, fresh, missing) shut
          | inr (grant, found) ↦
              rw (intact, fresh, found) (Grows-check_grant env ctx grant tool params w)
        ]
      ]
    ]

All-mono {ℓ κ} :
    {A : Type ℓ} (P Q : A → Type κ) (xs : List A) → ((x : A) → P x → Q x) → All P xs → All Q xs
All-mono P Q [] f h = tt
All-mono P Q (x ∷ xs) f (px, h) = (f x px, All-mono P Q xs f h)

-- Log-then-act: a call keeps it so that every run of a tool there has been has an audit entry of the
-- intent, for that tool and under the id that the tool was given.
pub call-IsLogged :
    (env : Env) (ctx : RunContext) (tool : String) (params : Params) (w : World)
    → IsLogged w
    → IsLogged (call env ctx tool params w).1
call-IsLogged env ctx tool params w h =
    let (keeps, runs) = Grows-call env ctx tool params w in
    let old = All-mono _ _ w.executed (λ e p. (p.0, keeps _ p.1)) h in
    elim runs [
      | inl idle ↦ rw idle old
      | inr (id, run, t, ran, logged) ↦ rw ran ((run, logged), old)
    ]
