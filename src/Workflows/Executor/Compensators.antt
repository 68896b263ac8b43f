-- ===== src/Workflows/Executor/Compensators.antt =====
-- core/workflows/executor.py, _run_compensation: which instructions call the agent runner.
use growth_operator.Workflows.Vars.{Vars, to_json}
use growth_operator.Workflows.Program.{
  Instr, AgentTask, set_op, emit_op, agent_op, tool_op, wait_op, human_op, branch_op, jump_op, noop,
  end_op, compile_program, instr_at,
}
use growth_operator.Workflows.Run.{Run, Definition, Compensation}
use growth_operator.Workflows.Executor.{
  Env, try_emit, do_emit, Unwinding, unwound, unwind_at, unwind, run_compensation, is_end,
  send_alert, end_compensation, compensate, accepts, event_type_of, activation_of,
  allowed_event_types, payload_of, compensate_by,
}
use growth_operator.Prelude.{
  ap, ℕ, str_eq, Option, some, Option-cases, none, contains, inl, List, ◌∷◌, suc, zero, Bool-cases,
  inr, ◌≡◌, true, ◌∙◌, String, refl, Bool, [], false, if◌then◌else◌, All, ◌++◌, length, sym,
}
use growth_operator.Prelude.Json.{str, int}
use growth_operator.Prelude.Int.{pos}
use mathlib.Core.List.{append_assoc}

-- The instruction is an agent step of the program.
abbrev pub IsAgentOf : List Instr → ℕ → Type 0
IsAgentOf program pc = (t : AgentTask) × (instr_at pc program ≡ some (agent_op t))

-- The instruction is an agent step of the compensation of the definition.
abbrev pub IsCompensator : Definition → ℕ → Type 0
IsCompensator definition pc =
    (comp : Compensation) × (definition.compensation ≡ some comp)
    × IsAgentOf (compile_program comp.on_failure) pc

-- Calls of compensation were added, each of which passes the test.
abbrev pub Adds : (ℕ → Type 0) → Run → Run → Type 0
Adds P run r =
    (calls : List ℕ) × (r.compensation_calls ≡ calls ++ run.compensation_calls) × All P calls

Adds-none :
    (P : ℕ → Type 0) (run r : Run) → r.compensation_calls ≡ run.compensation_calls → Adds P run r
Adds-none P run r e = ([], e, tt)

All-append : (P : ℕ → Type 0) (xs ys : List ℕ) → All P xs → All P ys → All P (xs ++ ys)
All-append P [] ys h k = k
All-append P (x ∷ xs) ys (g, h) k = (g, All-append P xs ys h k)

Adds-trans : (P : ℕ → Type 0) (a b c : Run) → Adds P a b → Adds P b c → Adds P a c
Adds-trans P a b c (xs, e, h) (ys, e', k) = (
  ys ++ xs,
  e' ∙ ap (λ (l : List ℕ). ys ++ l) e ∙ sym (append_assoc ys xs a.compensation_calls),
  All-append P ys xs k h,
)

calls-if :
    (b : Bool) (run r : Run)
    → r.compensation_calls ≡ run.compensation_calls
    → (if b then r else run).compensation_calls ≡ run.compensation_calls
calls-if true run r e = e
calls-if false run r e = refl

calls-try_emit :
    (t : String) (p : Vars) (run : Run)
    → (try_emit t p run).compensation_calls ≡ run.compensation_calls
unfolding try_emit
calls-try_emit t p run =
    calls-if (accepts t p) run (record run { emitted = (t, p) ∷ run.emitted }) refl

calls-do_emit :
    (env : Env) (event : String) (m a : Vars) (run : Run)
    → (do_emit env event m a run).compensation_calls ≡ run.compensation_calls
unfolding do_emit
calls-do_emit env event m a run =
    calls-if (contains (event_type_of event) allowed_event_types) run
      (try_emit (event_type_of event) (payload_of env a m) run)
      (calls-try_emit (event_type_of event) (payload_of env a m) run)

Adds-unwind_at :
    (env : Env) (program : List Instr) (u : Unwinding) (ins : Instr)
    → instr_at u.pc program ≡ some ins
    → Adds (IsAgentOf program) u.run (unwind_at env u ins).run
unfolding unwind_at unwound
Adds-unwind_at env program u (set_op vars) at = ([], refl, tt)
Adds-unwind_at env program u (emit_op event m) at =
    ([], calls-do_emit env event m (activation_of u.vars u.run.subject) u.run, tt)
Adds-unwind_at env program u (agent_op t) at = (u.pc ∷ [], refl, ((t, at), tt))
Adds-unwind_at env program u (branch_op cases default) at = ([], refl, tt)
Adds-unwind_at env program u (jump_op (some target)) at = ([], refl, tt)
Adds-unwind_at env program u (jump_op none) at = ([], refl, tt)
Adds-unwind_at env program u (tool_op _) at = ([], refl, tt)
Adds-unwind_at env program u (wait_op _) at = ([], refl, tt)
Adds-unwind_at env program u (human_op _) at = ([], refl, tt)
Adds-unwind_at env program u noop at = ([], refl, tt)
Adds-unwind_at env program u end_op at = ([], refl, tt)

Adds-unwind :
    (fuel : ℕ) (env : Env) (program : List Instr) (u : Unwinding)
    → Adds (IsAgentOf program) u.run (unwind fuel env program u).run
unfolding unwind
Adds-unwind zero env program u = ([], refl, tt)
Adds-unwind (suc fuel) env program u = elim (Option-cases (instr_at u.pc program)) [
  | inl past ↦ rw (unwind, past) ([], refl, tt)
  | inr (ins, at) ↦ elim (Bool-cases (is_end ins)) [
    | inl last ↦ rw (unwind, at, last) ([], refl, tt)
    | inr more ↦
        rw (unwind, at, more)
          (Adds-trans (IsAgentOf program) u.run (unwind_at env u ins).run
            (unwind fuel env program (unwind_at env u ins)).run
            (Adds-unwind_at env program u ins at)
            (Adds-unwind fuel env program (unwind_at env u ins)))
  ]
]

calls-send_alert :
    (alert : Option String) (reason : String) (run : Run)
    → (send_alert alert reason run).compensation_calls ≡ run.compensation_calls
unfolding send_alert
calls-send_alert none reason run = refl
calls-send_alert (some channel) reason run = elim (Bool-cases (str_eq channel "")) [
  | inl empty ↦ rw empty refl
  | inr named ↦ rw named (
      calls-try_emit "alert.ops.v1"
        (("severity", str "warn")
          ∷ ("kind", str "workflow_compensation")
          ∷ (
            "detail",
            to_json (
                ("run_id", int (pos run.run_id))
                ∷ ("reason", str reason)
                ∷ ("channel", str channel)
                ∷ []),
          )
          ∷ [])
        run)
]

All-IsCompensator :
    (definition : Definition) (comp : Compensation) (calls : List ℕ)
    → definition.compensation ≡ some comp
    → All (IsAgentOf (compile_program comp.on_failure)) calls
    → All (IsCompensator definition) calls
All-IsCompensator definition comp [] e h = tt
All-IsCompensator definition comp (c ∷ calls) e (g, h) =
    ((comp, e, g), All-IsCompensator definition comp calls e h)

Adds-compensate_by :
    (env : Env) (reason : String) (comp : Option Compensation) (run : Run)
    → run.definition.compensation ≡ comp
    → Adds (IsCompensator run.definition) run (compensate_by env reason comp run)
unfolding compensate_by run_compensation end_compensation
Adds-compensate_by env reason none run e = ([], refl, tt)
Adds-compensate_by env reason (some comp) run e =
    let program = compile_program comp.on_failure in
    let start : Unwinding = record { run = run; vars = run.vars; pc = 0; is_partial = false } in
    let (calls, same, agents) = Adds-unwind (length program) env program start in
    (
      calls,
      calls-send_alert comp.alert reason _ ∙ same,
      All-IsCompensator run.definition comp calls e agents,
    )

-- What compensation has the agent runner called for are agent steps of `on_failure`.
pub Adds-compensate :
    (env : Env) (reason : String) (run : Run)
    → Adds (IsCompensator run.definition) run (compensate env reason run)
unfolding compensate
Adds-compensate env reason run =
    let (calls, same, agents) = Adds-compensate_by env reason run.definition.compensation _ refl in
    (calls, same, agents)
