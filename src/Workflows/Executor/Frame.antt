-- ===== src/Workflows/Executor/Frame.antt =====
-- What emitting and compensation leave of a run's row as it was.
use growth_operator.Workflows.Vars.{Vars}
use growth_operator.Workflows.Program.{
  Instr, set_op, emit_op, agent_op, tool_op, wait_op, human_op, branch_op, jump_op, noop, end_op,
  compile_program, instr_at,
}
use growth_operator.Workflows.Run.{Run, RunEvent, RunStatus, is_done}
use growth_operator.Workflows.Executor.{
  Env, try_emit, do_emit, Unwinding, unwound, unwind_at, unwind, run_compensation, is_end,
  send_alert, end_compensation, compensate, accepts, event_type_of, activation_of,
  allowed_event_types, append, payload_of, str, compensated_partial, compensation_started, to_json,
  compensated, failed, int, bool, run_compensated, set_status, compensate_by, Compensation,
}
use growth_operator.Prelude.{
  ap, ℕ, str_eq, Option, some, Option-cases, none, contains, inl, List, ◌∷◌, suc, zero, Bool-cases,
  inr, ◌≡◌, true, ◌∙◌, String, refl, Bool, [], false, length, if◌then◌else◌,
}
use growth_operator.Prelude.Int.{pos}

-- The row with another log, other outbox rows and other calls of its compensation.
abbrev pub logged : List RunEvent → List (String × Vars) → List ℕ → Run → Run
logged events emitted calls run = record run {
  events = events;
  emitted = emitted;
  compensation_calls = calls;
}

-- Up to what is logged and emitted, and what compensation calls.
abbrev pub IsLogged : Run → Run → Type 0
IsLogged run r =
    (events : List RunEvent) × (emitted : List (String × Vars)) × (calls : List ℕ) × (r
      ≡ logged events emitted calls run)

IsLogged-refl : (run : Run) → IsLogged run run
IsLogged-refl run = (run.events, run.emitted, run.compensation_calls, refl)

IsLogged-trans : (a b c : Run) → IsLogged a b → IsLogged b c → IsLogged a c
IsLogged-trans a b c (es, out, cs, e) (es', out', cs', e') =
    (es', out', cs', e' ∙ ap (logged es' out' cs') e)

IsLogged-if : (b : Bool) (run r : Run) → IsLogged run r → IsLogged run (if b then r else run)
IsLogged-if true run r h = h
IsLogged-if false run r h = IsLogged-refl run

IsLogged-try_emit : (t : String) (p : Vars) (run : Run) → IsLogged run (try_emit t p run)
unfolding try_emit
IsLogged-try_emit t p run =
    IsLogged-if (accepts t p) run (record run { emitted = (t, p) ∷ run.emitted })
      (run.events, (t, p) ∷ run.emitted, run.compensation_calls, refl)

pub IsLogged-do_emit :
    (env : Env) (event : String) (m a : Vars) (run : Run) → IsLogged run (do_emit env event m a run)
unfolding do_emit
IsLogged-do_emit env event m a run =
    IsLogged-if (contains (event_type_of event) allowed_event_types) run
      (try_emit (event_type_of event) (payload_of env a m) run)
      (IsLogged-try_emit (event_type_of event) (payload_of env a m) run)

IsLogged-unwind_at :
    (env : Env) (u : Unwinding) (ins : Instr) → IsLogged u.run (unwind_at env u ins).run
unfolding unwind_at unwound
IsLogged-unwind_at env u (set_op vars) = (_, u.run.emitted, u.run.compensation_calls, refl)
IsLogged-unwind_at env u (emit_op event m) =
    let (es, out, cs, e) =
      IsLogged-do_emit env event m (activation_of u.vars u.run.subject) u.run in
    (_, out, cs, ap (append _ _ _) e)
IsLogged-unwind_at env u (agent_op t) = (_, u.run.emitted, u.pc ∷ u.run.compensation_calls, refl)
IsLogged-unwind_at env u (branch_op cases default) = IsLogged-refl u.run
IsLogged-unwind_at env u (jump_op (some target)) = IsLogged-refl u.run
IsLogged-unwind_at env u (jump_op none) = IsLogged-refl u.run
IsLogged-unwind_at env u (tool_op _) = IsLogged-refl u.run
IsLogged-unwind_at env u (wait_op _) = IsLogged-refl u.run
IsLogged-unwind_at env u (human_op _) = IsLogged-refl u.run
IsLogged-unwind_at env u noop = IsLogged-refl u.run
IsLogged-unwind_at env u end_op = IsLogged-refl u.run

IsLogged-unwind :
    (fuel : ℕ) (env : Env) (program : List Instr) (u : Unwinding)
    → IsLogged u.run (unwind fuel env program u).run
unfolding unwind
IsLogged-unwind zero env program u = IsLogged-refl u.run
IsLogged-unwind (suc fuel) env program u = elim (Option-cases (instr_at u.pc program)) [
  | inl past ↦ rw (unwind, past) (IsLogged-refl u.run)
  | inr (ins, at) ↦ elim (Bool-cases (is_end ins)) [
    | inl last ↦ rw (unwind, at, last) (IsLogged-refl u.run)
    | inr more ↦
        rw (unwind, at, more)
          (IsLogged-trans u.run (unwind_at env u ins).run _ (IsLogged-unwind_at env u ins)
            (IsLogged-unwind fuel env program (unwind_at env u ins)))
  ]
]

IsLogged-send_alert :
    (alert : Option String) (reason : String) (run : Run)
    → IsLogged run (send_alert alert reason run)
unfolding send_alert
IsLogged-send_alert none reason run = IsLogged-refl run
IsLogged-send_alert (some channel) reason run = elim (Bool-cases (str_eq channel "")) [
  | inl empty ↦ rw empty (IsLogged-refl run)
  | inr named ↦ rw named (
      IsLogged-try_emit "alert.ops.v1"
        (("severity", str "warn")
          ∷ ("kind", str "workflow_compensation")
          ∷ (
            "detail",
            to_json (
                ("run_id", int (pos run.run_id))
                ∷ ("reason", str reason)
                ∷ ("channel", str channel)
                ∷ []),
          )
          ∷ [])
        run)
]

-- `run` with an end of compensation.
abbrev pub IsUnwound : Run → Run → Type 0
IsUnwound run r =
    (status : RunStatus) × (is_done status ≡ true) × IsLogged (record run { status = status }) r

IsUnwound-end_compensation :
    (alert : Option String) (reason : String) (run : Run) (u : Unwinding)
    → IsLogged run u.run
    → IsUnwound run (end_compensation alert reason u)
unfolding end_compensation is_done
IsUnwound-end_compensation alert reason run u (es, out, cs, e) =
    let status = if u.is_partial then compensated_partial else compensated in
    let detail : Vars = ("reason", str reason) ∷ ("partial", bool u.is_partial) ∷ [] in
    let ending = λ (r : Run). append run_compensated none detail (set_status r.cursor status r) in
    (
      status,
      done u.is_partial,
      IsLogged-trans (record run { status = status }) (ending u.run)
          (send_alert alert reason (ending u.run)) (_, out, cs, ap ending e)
          (IsLogged-send_alert alert reason (ending u.run)),
    )
  where
    done : (b : Bool) → is_done (if b then compensated_partial else compensated) ≡ true
    done true = refl
    done false = refl

IsUnwound-compensate_by :
    (env : Env) (reason : String) (comp : Option Compensation) (event : RunEvent) (run : Run)
    → IsUnwound run (compensate_by env reason comp (record run { events = event ∷ run.events }))
unfolding compensate_by run_compensation is_done
IsUnwound-compensate_by env reason none event run =
    (failed, refl, (_, run.emitted, run.compensation_calls, refl))
IsUnwound-compensate_by env reason (some comp) event run =
    let started = record run { events = event ∷ run.events } in
    let program = compile_program comp.on_failure in
    IsUnwound-end_compensation comp.alert reason run (run_compensation env comp.on_failure started)
      (IsLogged-trans run started (run_compensation env comp.on_failure started).run
        (_, run.emitted, run.compensation_calls, refl)
        (IsLogged-unwind (length program) env program
          record { run = started; vars = run.vars; pc = 0; is_partial = false }))

-- Compensation ends the run, and leaves its cursor, variables, subscriptions and the calls of its program.
pub IsUnwound-compensate :
    (env : Env) (reason : String) (run : Run) → IsUnwound run (compensate env reason run)
unfolding compensate
IsUnwound-compensate env reason run =
    IsUnwound-compensate_by env reason run.definition.compensation
      record { kind = compensation_started; step_id = none; detail = ("reason", str reason) ∷ [] }
      run
