-- ===== src/Workflows/Tests.antt =====
-- Runs of the workflow definitions at concrete inputs, and the theorems applied to them.
use growth_operator.Prelude.Int.{pos}
use growth_operator.Prelude.Json.{Json, null, str}
use growth_operator.Workflows.Vars.{parse_duration_s}
use growth_operator.Workflows.Program.{
  AgentTask, HumanTask, Wait, Steps, set, agent_task, wait, human_task, branch, stop, then_step,
  no_case, when, compile_program, emit_steps, instr_at, Instr, agent_op, human_op, jump_op,
  branch_op, end_op, wait_op, set_op,
}
use growth_operator.Workflows.Program.Forward.{compile_program_forward, Leads}
use growth_operator.Workflows.Run.{
  Run, Definition, Subscription, running, waiting, completed, is_waiting, pending, matched,
}
use growth_operator.Workflows.Executor.{Env, tool_ok}
use growth_operator.Workflows.Advance.{drive, run_of}
use growth_operator.Workflows.Resume.{
  Signal, resume_signal, human_signal, on_signals, resume_human, resolved,
}
use growth_operator.Workflows.Resume.Once.{on_signals-call-once, Descends, Below}
use growth_operator.Workflows.Resume.Parked.{drive-Ends, Ends, repeated_decision_passes}
use growth_operator.Workflows.Runs.{TableOp, start_op, signal_op, apply_ops, Concurrency}
use growth_operator.Workflows.Runs.Single.{AtMostOne}
use growth_operator.Workflows.Runs.Start.{apply_ops-AtMostOne, is_policy}
use growth_operator.Workflows.Waits.{claim, is_reply_to, is_timed_out, match_reply, is_pending}
use growth_operator.Workflows.Waits.Claimed.{claim-once, claimable}
use growth_operator.Prelude.{
  String, not, some, List, suc, [], ◌≡◌, ℕ, arith, str_eq, true, ◌&&◌, none, ◌∷◌, Option, length,
  refl,
}

abbrev classify : AgentTask
classify = record {
  archetype = "planner";
  task = "classify";
  input_map = [];
  timeout = none;
  tier = none;
  output = "reason" ∷ [];
  output_as = some "diagnose";
}

abbrev ask_owner : HumanTask
ask_owner = record {
  kind = "approval_gate";
  assignee = some "owner";
  timeout = none;
  payload = none;
  mode = none;
  options_from = none;
  recommended = none;
  label_sink = none;
}

abbrev reply_wait : Wait
reply_wait = record { wait_for = "reply"; timeout = some (str "72h"); event = none }

-- An agent task, a branch to two human tasks in a row or to a wait for a reply, and an event.
abbrev recovery : Steps
recovery = then_step (agent_task classify) (
    then_step
      (branch
        (when "holds" (then_step (human_task ask_owner) (then_step (human_task ask_owner) stop))
          no_case)
        (then_step (wait reply_wait) stop))
      (then_step (set (("done", str "1") ∷ [])) stop))

abbrev sample_env : Env
sample_env = record {
  truthy = λ expr activation. str_eq expr "holds";
  cel = λ expr activation. some (str "k");
  run_agent = λ n t activation. ("status", str "completed") ∷ ("reason", str "price") ∷ [];
  run_tool = λ n t approved activation. tool_ok null;
  split = λ s. s ∷ [];
  now = 1000;
}

abbrev definition : Definition
definition = record { definition_id = 7; steps = recovery; compensation = none }

abbrev fresh : Run
fresh = record {
  run_id = 1;
  definition = definition;
  concurrency_key = some "k";
  subject = ("conversation_id", str "c1") ∷ [];
  vars = [];
  status = running;
  cursor = 0;
  events = [];
  subscriptions = [];
  approvals = [];
  emitted = [];
  agent_calls = [];
  compensation_calls = [];
}

recovery_compiles :
    compile_program recovery
    ≡ agent_op classify
      ∷ branch_op (("holds", 2) ∷ []) 5
      ∷ human_op ask_owner
      ∷ human_op ask_owner
      ∷ jump_op (some 7)
      ∷ wait_op reply_wait
      ∷ jump_op (some 7)
      ∷ set_op (("done", str "1") ∷ [])
      ∷ end_op
      ∷ []
unfolding compile_program
recovery_compiles = refl

days_parse : parse_duration_s (str " 30d ") ≡ some (pos 2592000)
unfolding parse_duration_s
days_parse = refl

bad_duration : parse_duration_s (str "30 days") ≡ none
unfolding parse_duration_s
bad_duration = refl

drive_parks : (run_of (drive sample_env fresh)).cursor ≡ 2
unfolding drive run_of
drive_parks = refl

abbrev approvals_given : List (Env × Signal)
approvals_given =
    (sample_env, resume_signal)
    ∷ (sample_env, human_signal "approved")
    ∷ (sample_env, human_signal "approved")
    ∷ []

completes_after_two : (on_signals approvals_given fresh).status ≡ completed
unfolding on_signals
completes_after_two = refl

compile_program_forward_example :
    let last = length (emit_steps recovery 0) in
    (length (compile_program recovery) ≡ suc last)
    × (instr_at last (compile_program recovery) ≡ some end_op)
    × ((pc : ℕ) (ins : Instr)
        → instr_at pc (compile_program recovery) ≡ some ins
        → Leads pc last ins)
compile_program_forward_example = compile_program_forward recovery

drive-Ends_example : Ends (drive sample_env fresh)
drive-Ends_example = drive-Ends sample_env fresh

on_signals-call-once_example :
    let r = on_signals approvals_given fresh in
    Descends r.agent_calls × Below (suc r.cursor) r.agent_calls
on_signals-call-once_example = on_signals-call-once approvals_given fresh refl

-- Parked at the first human task.
abbrev parked : Run
parked = record fresh { status = waiting; cursor = 2; agent_calls = 0 ∷ [] }

-- Parked there, by a definition whose compensation is one agent step.
abbrev compensable : Run
compensable = record parked {
  definition = record definition {
    compensation =
        some record { on_failure = then_step (agent_task classify) stop; alert = some "ops" };
  };
}

compensation_calls_agent :
    (run_of (resume_human sample_env "rejected" compensable).1).compensation_calls ≡ 0 ∷ []
unfolding resume_human run_of
compensation_calls_agent = refl

repeated_decision_passes_example :
    let r = run_of (resume_human sample_env "approved" parked).1 in
    (is_waiting r.status ≡ true)
    × (r.cursor ≡ 3)
    × (length r.approvals ≡ 1)
    × (resume_human sample_env "approved" r ≡ (true, drive sample_env (resolved "approved" r)))
unfolding is_waiting compile_program instr_at
repeated_decision_passes_example = repeated_decision_passes sample_env parked ask_owner refl refl

abbrev one_at_a_time : Option Concurrency
one_at_a_time = some record { policy = "queue"; key = "subject.contact" }

abbrev two_starts : List (Env × TableOp)
two_starts =
    (sample_env, start_op 1 definition one_at_a_time [])
    ∷ (sample_env, start_op 2 definition one_at_a_time [])
    ∷ (sample_env, signal_op 1 (human_signal "approved"))
    ∷ []

abbrev show_text : Json → String
show_text (str s) = s
show_text _ = ""

apply_ops-AtMostOne_example : AtMostOne (apply_ops show_text two_starts [])
unfolding is_policy
apply_ops-AtMostOne_example =
    apply_ops-AtMostOne show_text two_starts [] (refl, (refl, (tt, tt))) (λ d k. omega arith)

abbrev reply_row : Subscription
reply_row = record {
  step_id = 5;
  wait_for = "reply";
  correlation = ("conversation_id", str "c1") ∷ [];
  fire_at = none;
  timeout_at = some 900;
  status = pending;
}

abbrev waiting_runs : List Run
waiting_runs = record fresh { status = waiting; cursor = 5; subscriptions = reply_row ∷ [] } ∷ []

a_reply_wakes : (match_reply sample_env "c1" waiting_runs).0 ≡ 1
unfolding match_reply
a_reply_wakes = refl

claim-once_example :
    let first = claim (is_reply_to "c1") matched waiting_runs in
    (length first.0 ≡ claimable (is_reply_to "c1") waiting_runs)
    × (length (claim (is_timed_out 1000) matched first.1).0
        ≡ claimable (λ s. is_timed_out 1000 s && not (is_reply_to "c1" s)) waiting_runs)
unfolding is_pending
claim-once_example =
    claim-once (is_reply_to "c1") (is_timed_out 1000) matched matched waiting_runs refl
