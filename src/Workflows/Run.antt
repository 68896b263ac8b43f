-- ===== src/Workflows/Run.antt =====
-- core/workflows/executor.py: a row of `workflow_runs`, with the rows of the other tables that name
-- its id, newest first, and the helpers that change them. `definition` is the joined row of
-- `workflow_definitions`. The `sid` of an instruction is its index.
use growth_operator.Prelude.{
  String, List, ◌∷◌, Option, none, some, ℕ, Bool, true, false, any, ◌==◌, ◌&&◌,
}
use growth_operator.Workflows.Program.{Steps}
use growth_operator.Workflows.Vars.{Vars}

pub data RunStatus : Type 0 where
  queued : RunStatus
  running : RunStatus
  waiting : RunStatus
  completed : RunStatus
  failed : RunStatus
  compensated : RunStatus
  compensated_partial : RunStatus
  superseded : RunStatus

unfoldable pub is_running : RunStatus → Bool
is_running running = true
is_running _ = false

unfoldable pub is_waiting : RunStatus → Bool
is_waiting waiting = true
is_waiting _ = false

-- `status in ("completed", "failed", "compensated", "compensated_partial", "superseded")`
unfoldable pub is_done : RunStatus → Bool
is_done queued = false
is_done running = false
is_done waiting = false
is_done _ = true

pub data EventKind : Type 0 where
  run_started : EventKind
  run_queued : EventKind
  run_completed : EventKind
  run_failed : EventKind
  run_compensated : EventKind
  run_superseded : EventKind
  step_started : EventKind
  step_completed : EventKind
  step_parked : EventKind
  step_failed : EventKind
  step_resumed : EventKind
  branch_taken : EventKind
  human_resolved : EventKind
  tool_resolved : EventKind
  compensation_started : EventKind
  compensation_step : EventKind

pub record RunEvent : Type 0 where
  pub kind : EventKind
  pub step_id : Option ℕ
  pub detail : Vars

pub data WaitStatus : Type 0 where
  pending : WaitStatus
  matched : WaitStatus
  expired : WaitStatus

-- A row of `wait_subscriptions`; the correlation has one key.
pub record Subscription : Type 0 where
  pub step_id : ℕ
  pub wait_for : String
  pub correlation : Vars
  pub fire_at : Option ℕ
  pub timeout_at : Option ℕ
  pub status : WaitStatus

-- What `create_approval` is called with.
pub record ApprovalRequest : Type 0 where
  pub action_type : String
  pub tier : ℕ
  pub payload : Vars

pub record Compensation : Type 0 where
  pub on_failure : Steps
  pub alert : Option String

pub record Definition : Type 0 where
  pub definition_id : ℕ
  pub steps : Steps
  pub compensation : Option Compensation

-- `emitted` are the outbox rows. `agent_calls` are the instructions of the program that called the agent
-- runner, and `compensation_calls` those of the program of `on_failure`; both have the newest first.
pub record Run : Type 0 where
  pub run_id : ℕ
  pub definition : Definition
  pub concurrency_key : Option String
  pub subject : Vars
  pub vars : Vars
  pub status : RunStatus
  pub cursor : ℕ
  pub events : List RunEvent
  pub subscriptions : List Subscription
  pub approvals : List ApprovalRequest
  pub emitted : List (String × Vars)
  pub agent_calls : List ℕ
  pub compensation_calls : List ℕ

-- `_append`
abbrev pub append : EventKind → Option ℕ → Vars → Run → Run
append kind step_id detail run = record run {
  events = record { kind = kind; step_id = step_id; detail = detail } ∷ run.events;
}

unfoldable pub is_completion : EventKind → Bool
is_completion step_completed = true
is_completion _ = false

unfoldable pub is_at : ℕ → Option ℕ → Bool
is_at sid none = false
is_at sid (some i) = i == sid

unfoldable pub completes : ℕ → RunEvent → Bool
unfolding is_completion is_at
completes sid e = is_completion e.kind && is_at sid e.step_id

-- `_step_done`
unfoldable pub step_done : ℕ → Run → Bool
unfolding completes
step_done sid run = any (completes sid) run.events

-- `_set_cursor` without and with a status
abbrev pub set_cursor : ℕ → Run → Run
set_cursor pc run = record run { cursor = pc }

abbrev pub set_status : ℕ → RunStatus → Run → Run
set_status pc status run = record run { cursor = pc; status = status }

-- `UPDATE workflow_runs SET vars`
abbrev pub set_vars : Vars → Run → Run
set_vars vars run = record run { vars = vars }
