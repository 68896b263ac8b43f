-- ===== src/Workflows/Advance.antt =====
-- core/workflows/executor.py, `_advance`, and `register_wait` of core/workflows/waits.py: one turn
-- of the loop, with the calls made after its transaction, and the loop.
pub mod Progress
pub mod Live
use mathlib.Core.Option
use Prim.Native.String.{◌++◌ as concat}
use growth_operator.Workflows.Vars.{
  Vars, put, merge, to_json, parse_duration_s, resolve_ref, texts_of, opt_text,
}
use growth_operator.Workflows.Program.{
  Instr, set_op, emit_op, agent_op, tool_op, wait_op, human_op, branch_op, jump_op, noop, end_op,
  AgentTask, ToolCall, Wait, HumanTask, compile_program, instr_at,
}
use growth_operator.Workflows.Run.{
  Run, append, set_status, set_cursor, set_vars, is_running, completed, waiting, run_completed,
  step_completed, step_started, step_parked, step_failed, branch_taken, step_done, pending,
}
use growth_operator.Workflows.Executor.{
  Env, ToolResult, tool_ok, tool_pending, tool_failed, activation_of, is_failure, do_emit,
  target_of, compensate,
}
use growth_operator.Prelude.Json.{Json, null, int, str}
use growth_operator.Prelude.{
  if◌then◌else◌, String, ◌∷◌, length, ◌+◌, str_eq, false, List, Option, ℕ, suc, some, zero, ◌-◌,
  Bool, ◌==◌, none, true, ◌++◌, lookup, [], map,
}
use growth_operator.Prelude.Int.{negsuc, ℤ, pos}

-- `now + timedelta(seconds=n)`, from 1970
unfoldable pub after : ℕ → ℤ → ℕ
after now (pos n) = now + n
after now (negsuc n) = now - suc n

unfoldable pub timeout_of : ℕ → Option Json → Option ℕ
unfolding parse_duration_s after
timeout_of now none = none
timeout_of now (some timeout) = Option.map (after now) (parse_duration_s timeout)

abbrev get_or_null : Option Json → Json
get_or_null none = null
get_or_null (some value) = value

abbrev option_eq : Option String → String → Bool
option_eq none t = false
option_eq (some s) t = str_eq s t

unfoldable pub correlation_of : Wait → Vars → Vars
correlation_of w subject =
    if str_eq w.wait_for "reply"
    then ("conversation_id", get_or_null (lookup "conversation_id" subject)) ∷ []
    else if str_eq w.wait_for "event"
    then ("event_type", opt_text w.event) ∷ []
    else []

-- `register_wait`
unfoldable pub register_wait : ℕ → ℕ → Wait → Run → Run
unfolding timeout_of correlation_of
register_wait now sid w run =
    let timeout_at = timeout_of now w.timeout in
    record run {
      subscriptions =
          record {
            step_id = sid;
            wait_for = w.wait_for;
            correlation = correlation_of w run.subject;
            fire_at = if str_eq w.wait_for "duration" then timeout_at else none;
            timeout_at = timeout_at;
            status = pending;
          }
          ∷ run.subscriptions;
    }

abbrev pub workflow_human_action : String
workflow_human_action = "workflow.human_task"

abbrev pub workflow_tool_action : String
workflow_tool_action = "workflow.tool_call"

abbrev pub human_task_tier : ℕ
human_task_tier = 2

-- `create_approval`
abbrev ask : String → ℕ → Vars → Run → Run
ask action tier payload run = record run {
  approvals = record { action_type = action; tier = tier; payload = payload } ∷ run.approvals;
}

-- The payload of the approval of a `HUMAN` step.
unfoldable pub human_payload : Env → ℕ → HumanTask → Vars → Run → Vars
unfolding resolve_ref
human_payload env sid h activation run =
    let base =
      ("workflow_run_id", int (pos run.run_id))
      ∷ ("step_id", int (pos sid))
      ∷ ("kind", str h.kind)
      ∷ ("assignee", opt_text h.assignee)
      ∷ [] in
    if option_eq h.mode "ranked"
    then base
      ++ (("mode", str "ranked")
          ∷ ("options", resolve_ref env.split h.options_from activation)
          ∷ ("recommended", resolve_ref env.split h.recommended activation)
          ∷ ("label_sink", opt_text h.label_sink)
          ∷ [])
    else base

-- How an iteration of the loop ends: it goes round, it returns, or it returns after the promotion of
-- a queued run.
pub data Turn : Type 0 where
  again : Run → Turn
  returned : Run → Turn
  ended : Run → Turn

-- A parked step: the status, then the log.
unfoldable pub park : ℕ → Vars → Run → Run
park pc detail run = append step_parked (some pc) detail (set_status pc waiting run)

bind_keys : Vars → List String → Vars → Vars
unfolding put
bind_keys bound [] output = bound
bind_keys bound (k ∷ keys) output =
    bind_keys (put k (get_or_null (lookup k output)) bound) keys output

-- `{k: output.get(k) for k in keys} if keys else output`
unfoldable pub bound_of : List String → Vars → Vars
unfolding bind_keys
bound_of [] output = output
bound_of (k ∷ keys) output = bind_keys [] (k ∷ keys) output

unfoldable pub bind_output : Option String → Json → Run → Run
unfolding put
bind_output none value run = run
bind_output (some key) value run =
    if str_eq key "" then run else set_vars (put key value run.vars) run

-- An `AGENT` step after the call of the runner.
unfoldable pub after_agent : Env → ℕ → AgentTask → Vars → Run → Turn
unfolding is_failure bound_of bind_output
after_agent env pc t output run =
    if is_failure output
    then returned (
        compensate env (concat "agent_task " (concat t.task " failed"))
          (append step_failed (some pc) output run))
    else again (
        set_cursor (suc pc) (
          bind_output t.output_as (to_json (bound_of t.output output))
            (append step_completed (some pc) output run)))

-- `_run_tool_step` after the call of `run_tool`, and the test of the status that follows it
unfoldable pub after_tool : Env → ℕ → ToolCall → ToolResult → Run → Turn
unfolding park bind_output
after_tool env pc t (tool_pending tier reason params capability) run = returned (
    ask workflow_tool_action (if tier == 0 then 2 else tier)
      (("workflow_run_id", int (pos run.run_id))
        ∷ ("step_id", int (pos pc))
        ∷ ("tool", str t.name)
        ∷ ("params", to_json params)
        ∷ ("capability", str capability)
        ∷ [])
      (park pc
        (("op", str "tool_call")
          ∷ ("tool", str t.name)
          ∷ ("tier", int (pos tier))
          ∷ ("reason", str reason)
          ∷ [])
        run))
after_tool env pc t (tool_failed detail) run = returned (
    compensate env (concat "tool_call " (concat t.name " failed"))
      (append step_failed (some pc) detail run))
after_tool env pc t (tool_ok output) run = again (
    set_cursor (suc pc) (
      bind_output t.output_as output
        (append step_completed (some pc) (("output", output) ∷ []) run)))

-- An iteration at an instruction. A `JUMP` without a target would store no cursor.
unfoldable pub turn_at : Env → Run → ℕ → Instr → Turn
unfolding activation_of do_emit target_of register_wait human_payload park after_agent after_tool
    step_done merge
turn_at env run pc (set_op vars) = again (
    set_cursor (suc pc) (
      append step_completed (some pc) (("op", str "set") ∷ [])
        (set_vars (merge run.vars vars) run)))
turn_at env run pc (emit_op event payload_map) = again (
    set_cursor (suc pc) (
      append step_completed (some pc) (("op", str "emit") ∷ ("event", str event) ∷ [])
        (do_emit env event payload_map (activation_of run.vars run.subject) run)))
turn_at env run pc (branch_op cases default) =
    let target = target_of env (activation_of run.vars run.subject) cases default in
    again
      (set_cursor target (append branch_taken (some pc) (("target", int (pos target)) ∷ []) run))
turn_at env run pc (jump_op (some target)) = again (set_cursor target run)
turn_at env run pc (jump_op none) = returned run
turn_at env run pc noop = again (set_cursor (suc pc) run)
turn_at env run pc (wait_op w) =
    returned
      (register_wait env.now pc w (park pc (("op", str "wait") ∷ ("for", str w.wait_for) ∷ []) run))
turn_at env run pc (human_op h) = returned (
    ask workflow_human_action human_task_tier
      (human_payload env pc h (activation_of run.vars run.subject) run)
      (park pc (("op", str "human") ∷ ("for", null) ∷ []) run))
turn_at env run pc (agent_op t) =
    let started = append step_started (some pc) (("task", str t.task) ∷ []) run in
    let called = record started { agent_calls = pc ∷ started.agent_calls } in
    let activation = activation_of run.vars run.subject in
    if step_done pc run
    then again (set_cursor (suc pc) run)
    else after_agent env pc t (env.run_agent (length run.events) t activation) called
turn_at env run pc (tool_op t) =
    let started = append step_started (some pc) (("tool", str t.name) ∷ []) run in
    let approved = texts_of (lookup "_approved_tools" run.vars) in
    let activation = activation_of run.vars run.subject in
    if step_done pc run
    then again (set_cursor (suc pc) run)
    else after_tool env pc t (env.run_tool (length run.events) t approved activation) started
turn_at env run pc end_op = ended (append run_completed none [] (set_status pc completed run))

-- An iteration of `_advance`.
unfoldable pub turn : Env → Run → Turn
unfolding turn_at is_running compile_program instr_at
turn env run = elim (is_running run.status) [
  | false ↦ returned run
  | true ↦ elim (instr_at run.cursor (compile_program run.definition.steps)) [
    | none ↦ ended (append run_completed none [] (set_status run.cursor completed run))
    | some ins ↦ turn_at env run run.cursor ins
  ]
]

-- `_advance` on one run, with fuel for the iterations; `again` is that the fuel is out.
unfoldable pub advance : ℕ → Env → Run → Turn
unfolding turn
advance zero env run = again run
advance (suc fuel) env run = elim (turn env run) [
  | again run' ↦ advance fuel env run'
  | returned run' ↦ returned run'
  | ended run' ↦ ended run'
]

unfoldable pub run_of : Turn → Run
run_of (again run) = run
run_of (returned run) = run
run_of (ended run) = run

-- The iterations that a program can take.
unfoldable pub fuel_of : Run → ℕ
unfolding compile_program
fuel_of run = suc (length (compile_program run.definition.steps))

unfoldable pub drive : Env → Run → Turn
unfolding advance fuel_of
drive env run = advance (fuel_of run) env run
