-- ===== src/Workflows/Advance/Progress.antt =====
-- What a turn of the loop does to a run, and why the loop ends.
use mathlib.Core.Path.{subst}
use growth_operator.Workflows.Vars.{Vars}
use growth_operator.Workflows.Run.{
  Run, RunStatus, is_done, is_running, queued, running, waiting, completed, failed, compensated,
  compensated_partial, superseded, step_done, append, step_started, step_completed,
}
use growth_operator.Workflows.Executor.{Env, compensate, target_of, activation_of}
use growth_operator.Workflows.Executor.Frame.{IsUnwound-compensate, IsLogged-do_emit}
use growth_operator.Workflows.Advance.{
  Turn, again, returned, ended, after_agent, after_tool, bind_output, Json, AgentTask, ToolCall,
  put, is_failure, ToolResult, tool_ok, tool_pending, tool_failed, target_of, turn_at, turn, Instr,
  set_op, instr_at, emit_op, compile_program, set_cursor, str, branch_op, jump_op, wait_op,
  human_op, agent_op, tool_op, texts_of,
}
use growth_operator.Prelude.{
  Option, some, refl, suc, sym, str_eq, Bool-cases, String, inl, ◌<◌, Bool, ◌≡◌, true, ◌⊎◌, ◌∷◌,
  inr, false, arith, none, length, ℕ, [], List, Option-cases, lookup, All,
}
use growth_operator.Workflows.Program.Forward.{Leads, compile_program_forward}
use growth_operator.Workflows.Program.Blocks.{Ahead}
use growth_operator.Workflows.Program.{
  noop, emit_steps, end_op, wait_op, human_op, tool_op, agent_op,
}

-- The agent calls of `run`, and at most one more, at its cursor.
abbrev pub Called : Run → Run → Type 0
Called run r = (r.agent_calls ≡ run.agent_calls) ⊎ (r.agent_calls ≡ run.cursor ∷ run.agent_calls)

-- The definition and the concurrency key of a run.
abbrev pub SameOwner : Run → Run → Type 0
SameOwner run r = (r.definition ≡ run.definition) × (r.concurrency_key ≡ run.concurrency_key)

-- A turn that goes round moves the cursor ahead, and keeps the definition, the key and the status. One that
-- does not leaves the cursor and takes the status from `running`; a run that is not at its end then has
-- made no call.
abbrev pub Moves : Run → Turn → Type 0
Moves run (again r) =
    (run.cursor < r.cursor) × SameOwner run r × (is_running r.status ≡ true) × Called run r
Moves run (returned r) =
    (r.cursor ≡ run.cursor)
    × SameOwner run r
    × (is_running r.status ≡ false)
    × Called run r
    × (is_done r.status ≡ false → r.agent_calls ≡ run.agent_calls)
Moves run (ended r) =
    (r.cursor ≡ run.cursor)
    × SameOwner run r
    × (is_done r.status ≡ true)
    × (r.agent_calls ≡ run.agent_calls)

not-running : (s : RunStatus) → is_done s ≡ true → is_running s ≡ false
unfolding is_done is_running
not-running completed h = refl
not-running failed h = refl
not-running compensated h = refl
not-running compensated_partial h = refl
not-running superseded h = refl
not-running queued h = refl
not-running waiting h = refl
not-running running h = cc

-- A run that ends by compensation, `called` being the run with its log and its calls.
Moves-compensate :
    (env : Env) (reason : String) (run called : Run)
    → called.cursor ≡ run.cursor
    → SameOwner run called
    → Called run called
    → Moves run (returned (compensate env reason called))
Moves-compensate env reason run called c d calls =
    let (status, done, (es, out, cs, e)) = IsUnwound-compensate env reason called in
    subst (λ r. Moves run (returned r)) (sym e)
      (c, d, not-running status done, calls, λ open_still. absurd (differ done open_still))
  where
    differ : {b : Bool} → b ≡ true → b ≡ false → ⊥
    differ p q = cc

bind_output_frame :
    (key : Option String) (value : Json) (run : Run)
    → (vars : Vars) × (bind_output key value run ≡ record run { vars = vars })
unfolding bind_output
bind_output_frame none value run = (run.vars, refl)
bind_output_frame (some key) value run = elim (Bool-cases (str_eq key "")) [
  | inl empty ↦ (run.vars, rw empty refl)
  | inr named ↦ (put key value run.vars, rw named refl)
]

-- The turn goes round with other variables, log and outbox rows, one instruction further.
Moves-next :
    (run done : Run) (key : Option String) (value : Json)
    → done.cursor ≡ run.cursor
    → SameOwner run done
    → is_running done.status ≡ true
    → Called run done
    → Moves run (again (record (bind_output key value done) { cursor = suc run.cursor }))
Moves-next run done key value c d s calls =
    let (vars, e) = bind_output_frame key value done in
    subst (λ r. Moves run (again (record r { cursor = suc run.cursor }))) (sym e)
      (omega arith, d, s, calls)

Moves-after_agent :
    (env : Env) (t : AgentTask) (output : Vars) (run called : Run)
    → called.cursor ≡ run.cursor
    → SameOwner run called
    → is_running called.status ≡ true
    → Called run called
    → Moves run (after_agent env run.cursor t output called)
unfolding after_agent
Moves-after_agent env t output run called c d s calls = elim (Bool-cases (is_failure output)) [
  | inl bad ↦ rw (after_agent, bad) (Moves-compensate env _ run _ c d calls)
  | inr good ↦ rw (after_agent, good) (Moves-next run _ t.output_as _ c d s calls)
]

Moves-after_tool :
    (env : Env) (t : ToolCall) (result : ToolResult) (run called : Run)
    → called.cursor ≡ run.cursor
    → SameOwner run called
    → is_running called.status ≡ true
    → called.agent_calls ≡ run.agent_calls
    → Moves run (after_tool env run.cursor t result called)
unfolding after_tool is_running
Moves-after_tool env t (tool_ok output) run called c d s calls =
    Moves-next run _ t.output_as _ c d s (inl calls)
Moves-after_tool env t (tool_pending _ _ _ _) run called c d s calls =
    (refl, d, refl, inl calls, λ open_still. calls)
Moves-after_tool env t (tool_failed detail) run called c d s calls =
    Moves-compensate env _ run _ c d (inl calls)

pub target-Ahead :
    (env : Env) (a : Vars) (cases : List (String × ℕ)) (default pc last : ℕ)
    → All (λ c. Ahead pc last c.1) cases
    → Ahead pc last default
    → Ahead pc last (target_of env a cases default)
unfolding target_of
target-Ahead env a [] default pc last h d = d
target-Ahead env a (c ∷ cases) default pc last (hc, h) d = elim (Bool-cases (env.truthy c.0 a)) [
  | inl holds ↦ rw (target_of, holds) hc
  | inr fails ↦ rw (target_of, fails) (target-Ahead env a cases default pc last h d)
]

Moves-turn_at :
    (env : Env) (run : Run) (ins : Instr) (last : ℕ)
    → is_running run.status ≡ true
    → Leads run.cursor last ins
    → Moves run (turn_at env run run.cursor ins)
unfolding turn_at is_running is_done
Moves-turn_at env run (set_op vars) last s h = (omega arith, (refl, refl), s, inl refl)
Moves-turn_at env run (emit_op event m) last s h =
    let (es, out, cs, e) = IsLogged-do_emit env event m (activation_of run.vars run.subject) run in
    subst
      (λ r. Moves run (
        again (
          set_cursor (suc run.cursor) (
            append step_completed (some run.cursor) (("op", str "emit") ∷ ("event", str event) ∷ [])
              r))))
      (sym e) (omega arith, (refl, refl), s, inl refl)
Moves-turn_at env run (branch_op cases default) last s ((h, d), t) = (
  (target-Ahead env (activation_of run.vars run.subject) cases default run.cursor last h d).0,
  (refl, refl),
  s,
  inl refl,
)
Moves-turn_at env run (jump_op (some target)) last s ((ahead, within), t) =
    (ahead, (refl, refl), s, inl refl)
Moves-turn_at env run (jump_op none) last s (h, t) = absurd t
Moves-turn_at env run noop last s h = (omega arith, (refl, refl), s, inl refl)
Moves-turn_at env run (wait_op w) last s h = (refl, (refl, refl), refl, inl refl, λ o. refl)
Moves-turn_at env run (human_op w) last s h = (refl, (refl, refl), refl, inl refl, λ o. refl)
Moves-turn_at env run (agent_op t) last s h = elim (Bool-cases (step_done run.cursor run)) [
  | inl done ↦ rw done (omega arith, (refl, refl), s, inl refl)
  | inr new ↦ rw new (
      Moves-after_agent env t
        (env.run_agent (length run.events) t (activation_of run.vars run.subject)) run
        (record (append step_started (some run.cursor) (("task", str t.task) ∷ []) run) {
          agent_calls = run.cursor ∷ run.agent_calls;
        })
        refl (refl, refl) s (inr refl))
]
Moves-turn_at env run (tool_op t) last s h = elim (Bool-cases (step_done run.cursor run)) [
  | inl done ↦ rw done (omega arith, (refl, refl), s, inl refl)
  | inr new ↦ rw new (
      Moves-after_tool env t
        (env.run_tool (length run.events) t (texts_of (lookup "_approved_tools" run.vars))
          (activation_of run.vars run.subject))
        run (append step_started (some run.cursor) (("tool", str t.name) ∷ []) run) refl
        (refl, refl) s refl)
]
Moves-turn_at env run end_op last s h = (refl, (refl, refl), refl, refl)

-- The fields by which a run is followed.
pub Moves-turn : (env : Env) (run : Run) → is_running run.status ≡ true → Moves run (turn env run)
unfolding turn is_done
Moves-turn env run s =
    let steps = run.definition.steps in
    let forward = compile_program_forward steps in
    elim (Option-cases (instr_at run.cursor (compile_program steps))) [
      | inl past ↦ rw (turn, s, past) (refl, (refl, refl), refl, refl)
      | inr (ins, at) ↦
          rw (turn, s, at)
            (Moves-turn_at env run ins (length (emit_steps steps 0)) s
              (forward.2 run.cursor ins at))
    ]
