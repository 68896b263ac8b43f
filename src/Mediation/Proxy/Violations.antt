-- ===== src/Mediation/Proxy/Violations.antt =====
-- A run is aborted at its third violation of the manifest.
use growth_operator.Approvals.Engine.{Params}
use growth_operator.Mediation.Manifest.{find_grant}
use growth_operator.Mediation.World.{Env, RunContext, World, aborted}
use growth_operator.Mediation.Proxy.{
  call, manifest_denied, count_violation, add_audit, incr, violations_of, is_intact, is_stale,
}
use growth_operator.Prelude.{
  refl, inr, ℕ, inl, ◌⊎◌, true, ◌≤◌, List, ◌∷◌, false, arith, String, ◌+◌, [], none, ◌≡◌, ◌∙◌,
}

violations_of-incr :
    (run : ℕ) (counts : List (ℕ × ℕ))
    → violations_of run (incr run counts) ≡ 1 + violations_of run counts
unfolding violations_of incr
violations_of-incr run [] = ground arith
violations_of-incr run ((r, n) ∷ counts) = ground (arith, violations_of-incr run counts)

-- The manifest refuses the tool whatever the stores hold: it was tampered with, it is not the one
-- that the instance has pinned, or it does not grant the tool.
abbrev pub IsRefused : Env → RunContext → String → Type 0
IsRefused env ctx tool =
    (is_intact env ctx ≡ false)
    ⊎ ((is_stale env ctx ≡ true) ⊎ (find_grant ctx.manifest.body tool ≡ none))

call-refused :
    (env : Env) (ctx : RunContext) (tool : String) (params : Params) (w : World)
    → IsRefused env ctx tool
    → call env ctx tool params w ≡ manifest_denied ctx tool w
unfolding call
call-refused env ctx tool params w (inl tampered) = ground arith
call-refused env ctx tool params w (inr (inl stale)) = ground arith
call-refused env ctx tool params w (inr (inr missing)) = ground arith

-- The counter after a refused call.
violations-call :
    (env : Env) (ctx : RunContext) (tool : String) (params : Params) (w : World)
    → IsRefused env ctx tool
    → violations_of ctx.run_id (call env ctx tool params w).1.violations
      ≡ 1 + violations_of ctx.run_id w.violations
violations-call env ctx tool params w h =
    rw (call-refused env ctx tool params w h) (
      unfold manifest_denied count_violation add_audit in
      violations_of-incr ctx.run_id w.violations)

-- The third refusal by the manifest aborts the run: of three calls in a row that the manifest
-- refuses, for any tools and parameters and in any stores, the third is answered with an abort, and the
-- tools that have run are the same after the three as before.
pub three_refusals-abort :
    (env : Env) (ctx : RunContext) (tool1 tool2 tool3 : String) (p1 p2 p3 : Params) (w : World)
    → IsRefused env ctx tool1
    → IsRefused env ctx tool2
    → IsRefused env ctx tool3
    → let w1 = (call env ctx tool1 p1 w).1 in
      let w2 = (call env ctx tool2 p2 w1).1 in
      ((call env ctx tool3 p3 w2).0 ≡ aborted (3 + violations_of ctx.run_id w.violations))
      × ((call env ctx tool3 p3 w2).1.executed ≡ w.executed)
three_refusals-abort env ctx tool1 tool2 tool3 p1 p2 p3 w h1 h2 h3 =
    let w1 = (call env ctx tool1 p1 w).1 in
    let w2 = (call env ctx tool2 p2 w1).1 in
    let one = violations-call env ctx tool1 p1 w h1 in
    let two = violations-call env ctx tool2 p2 w1 h2 in
    let third = aborts env ctx tool3 p3 w2 h3 (omega (arith, one, two)) in
    (
      ground (arith, third, one, two),
      executed_same env ctx tool3 p3 w2 h3
          ∙ executed_same env ctx tool2 p2 w1 h2
          ∙ executed_same env ctx tool1 p1 w h1,
    )
  where
    executed_same :
        (env : Env) (ctx : RunContext) (tool : String) (params : Params) (w : World)
        → IsRefused env ctx tool
        → (call env ctx tool params w).1.executed ≡ w.executed
    executed_same env ctx tool params w h =
        rw (call-refused env ctx tool params w h)
          (unfold manifest_denied count_violation add_audit in refl)

    aborts :
        (env : Env) (ctx : RunContext) (tool : String) (params : Params) (w : World)
        → IsRefused env ctx tool
        → 2 ≤ violations_of ctx.run_id w.violations
        → (call env ctx tool params w).0 ≡ aborted (1 + violations_of ctx.run_id w.violations)
    aborts env ctx tool params w h le = rw (call-refused env ctx tool params w h) (
        unfold manifest_denied count_violation add_audit in
        ground (arith, violations_of-incr ctx.run_id w.violations))
