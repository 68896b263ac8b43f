-- ===== src/Workflows/Executor.antt =====
-- core/workflows/executor.py: what a run calls outside, compensation, and one turn of the loop of
-- `_advance`. A run's row is reloaded at each turn; here the row is the argument.
pub mod Frame
pub mod Compensators
pub mod Unwound
use Prim.Native.String.{◌++◌ as concat}
use growth_operator.Workflows.Vars.{Vars, put, merge, fields_of, to_json}
use growth_operator.Workflows.Program.{
  Instr, set_op, emit_op, agent_op, branch_op, jump_op, end_op, AgentTask, ToolCall, Steps,
  compile_program, instr_at,
}
use growth_operator.Workflows.Run.{
  Compensation, Run, append, set_status, compensated, compensated_partial, failed,
  compensation_step, run_compensated, run_failed, compensation_started,
}
use growth_operator.Events.Outbox.{accepts, allowed_event_types}
use growth_operator.Prelude.Json.{Json, null, bool, int, str}
use growth_operator.Prelude.{
  str_eq, find?, List, length, true, some, Bool, false, [], zero, none, contains, ◌∷◌,
  if◌then◌else◌, ◌||◌, suc, ℕ, String, Option, lookup,
}
use growth_operator.Prelude.Int.{pos}

-- What `tool_step.run_tool` returns: the output; the tier, reason, parameters and capability; what
-- the failure says.
pub data ToolResult : Type 0 where
  tool_ok : Json → ToolResult
  tool_pending : ℕ → String → Vars → String → ToolResult
  tool_failed : Vars → ToolResult

-- `truthy` and `cel` evaluate an expression of the CEL library, `none` where it raises; `run_agent`
-- is the agent runner, and its number tells calls apart. `split` is `str.split(".")`.
pub record Env : Type 0 where
  pub truthy : String → Vars → Bool
  pub cel : String → Vars → Option Json
  pub run_agent : ℕ → AgentTask → Vars → Vars
  pub run_tool : ℕ → ToolCall → List String → Vars → ToolResult
  pub split : String → List String
  pub now : ℕ

-- `{**run["vars"], "subject": run["subject"], "vars": run["vars"]}`
unfoldable pub activation_of : Vars → Vars → Vars
unfolding put fields_of
activation_of vars subject = put "vars" (to_json vars) (put "subject" (to_json subject) vars)

-- `str(output.get("status")) in _FAILURE_STATUSES`
unfoldable pub is_failure : Vars → Bool
is_failure output = elim (lookup "status" output) [
  | some (str s) ↦ str_eq s "failed" || str_eq s "error"
  | _ ↦ false
]

unfoldable pub payload_value : Env → Vars → Json → Json
payload_value env activation (str expr) = elim (env.cel expr activation) [
  | some value ↦ value
  | none ↦ null
]
payload_value env activation value = value

unfoldable pub payload_of : Env → Vars → Vars → Vars
unfolding payload_value
payload_of env activation [] = []
payload_of env activation ((k, expr) ∷ rest) =
    (k, payload_value env activation expr) ∷ payload_of env activation rest

-- `event if event in ALLOWED_EVENT_TYPES else f"{event}.v1"`
unfoldable pub event_type_of : String → String
unfolding allowed_event_types
event_type_of event = if contains event allowed_event_types then event else concat event ".v1"

-- An `emit` whose refusal is only logged.
unfoldable pub try_emit : String → Vars → Run → Run
unfolding accepts
try_emit event_type payload run =
    if accepts event_type payload
    then record run { emitted = (event_type, payload) ∷ run.emitted }
    else run

-- `_do_emit`
unfoldable pub do_emit : Env → String → Vars → Vars → Run → Run
unfolding event_type_of payload_of try_emit allowed_event_types
do_emit env event payload_map activation run =
    if contains (event_type_of event) allowed_event_types
    then try_emit (event_type_of event) (payload_of env activation payload_map) run
    else run

-- The target of a `BRANCH`.
unfoldable pub target_of : Env → Vars → List (String × ℕ) → ℕ → ℕ
target_of env activation cases default = elim (find? (λ c. env.truthy c.0 activation) cases) [
  | some c ↦ c.1
  | none ↦ default
]

-- The variables and the counter of `_run_compensation`, with the run that it writes to.
pub record Unwinding : Type 0 where
  pub run : Run
  pub vars : Vars
  pub pc : ℕ
  pub is_partial : Bool

unfoldable pub is_end : Instr → Bool
is_end end_op = true
is_end _ = false

unfoldable pub unwound : ℕ → Vars → Unwinding → Unwinding
unwound pc detail u = record u {
  run = append compensation_step (some pc) detail u.run;
  pc = suc pc;
}

-- One iteration of `_run_compensation` at an instruction that is not `END`. A `TOOL`, like a `WAIT`
-- and a `HUMAN`, does nothing there.
unfoldable pub unwind_at : Env → Unwinding → Instr → Unwinding
unfolding activation_of is_failure do_emit target_of unwound merge
unwind_at env u (set_op vars) =
    unwound u.pc (("op", str "set") ∷ []) (record u { vars = merge u.vars vars })
unwind_at env u (emit_op event payload_map) =
    let activation = activation_of u.vars u.run.subject in
    unwound u.pc (("op", str "emit") ∷ ("event", str event) ∷ [])
      (record u { run = do_emit env event payload_map activation u.run })
unwind_at env u (agent_op t) =
    let output = env.run_agent (length u.run.events) t [] in
    let called = record u.run { compensation_calls = u.pc ∷ u.run.compensation_calls } in
    unwound u.pc output (record u { run = called; is_partial = u.is_partial || is_failure output })
unwind_at env u (branch_op cases default) = record u {
  pc = target_of env (activation_of u.vars u.run.subject) cases default;
}
unwind_at env u (jump_op (some target)) = record u { pc = target }
unwind_at env u _ = record u { pc = suc u.pc }

-- `_run_compensation`, with fuel for the iterations
unfoldable pub unwind : ℕ → Env → List Instr → Unwinding → Unwinding
unfolding unwind_at is_end instr_at
unwind zero env program u = u
unwind (suc fuel) env program u = elim (instr_at u.pc program) [
  | none ↦ u
  | some ins ↦ elim (is_end ins) [
    | true ↦ u
    | false ↦ unwind fuel env program (unwind_at env u ins)
  ]
]

unfoldable pub run_compensation : Env → Steps → Run → Unwinding
unfolding unwind compile_program
run_compensation env steps run =
    let program = compile_program steps in
    unwind (length program) env program
      record { run = run; vars = run.vars; pc = 0; is_partial = false }

-- The alert of a compensation, `None` and the empty text being none.
unfoldable pub send_alert : Option String → String → Run → Run
unfolding try_emit fields_of
send_alert none reason run = run
send_alert (some channel) reason run =
    let detail =
      ("run_id", int (pos run.run_id)) ∷ ("reason", str reason) ∷ ("channel", str channel) ∷ [] in
    if str_eq channel ""
    then run
    else try_emit "alert.ops.v1"
        (("severity", str "warn")
          ∷ ("kind", str "workflow_compensation")
          ∷ ("detail", to_json detail)
          ∷ [])
        run

-- The last transaction of `_compensate`.
unfoldable pub end_compensation : Option String → String → Unwinding → Run
unfolding send_alert
end_compensation alert reason u =
    let status = if u.is_partial then compensated_partial else compensated in
    let settled = set_status u.run.cursor status u.run in
    send_alert alert reason (
      append run_compensated none (("reason", str reason) ∷ ("partial", bool u.is_partial) ∷ [])
        settled)

-- The two paths of `_compensate`, after its first entry in the log.
unfoldable pub compensate_by : Env → String → Option Compensation → Run → Run
unfolding run_compensation end_compensation
compensate_by env reason none run =
    append run_failed none (("reason", str reason) ∷ []) (set_status run.cursor failed run)
compensate_by env reason (some comp) run =
    end_compensation comp.alert reason (run_compensation env comp.on_failure run)

-- `_compensate`
unfoldable pub compensate : Env → String → Run → Run
unfolding compensate_by
compensate env reason run =
    compensate_by env reason run.definition.compensation
      (append compensation_started none (("reason", str reason) ∷ []) run)
