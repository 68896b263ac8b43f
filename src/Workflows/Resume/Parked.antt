-- ===== src/Workflows/Resume/Parked.antt =====
-- What resuming does to a parked run, and to one that has ended.
use mathlib.Core.Path.{subst}
use growth_operator.Workflows.Program.{human_op, compile_program, instr_at, HumanTask}
use growth_operator.Workflows.Run.{
  Run, RunStatus, is_waiting, is_running, is_done, queued, running, waiting, completed, failed,
  compensated, compensated_partial, superseded,
}
use growth_operator.Workflows.Executor.{Env}
use growth_operator.Workflows.Advance.{
  Turn, again, returned, ended, drive, run_of, turn, turn_at, advance, fuel_of, park,
}
use growth_operator.Workflows.Advance.Progress.{Moves}
use growth_operator.Workflows.Advance.Live.{Keeps, Stops, drive-Stops}
use growth_operator.Workflows.Resume.{Signal, on_signals, resume_human, resolved}
use growth_operator.Workflows.Resume.Branches.{resume_human-drive}
use growth_operator.Workflows.Resume.Once.{drive_idle}
use growth_operator.Prelude.{
  refl, Bool-cases, some, true, inr, ap, List, sym, inl, ◌∙◌, false, ◌≡◌, Bool, length, suc,
}
use growth_operator.Workflows.Executor.Compensators.{Adds, IsCompensator}

done-idle : (s : RunStatus) → is_done s ≡ true → (is_running s ≡ false) × (is_waiting s ≡ false)
unfolding is_done is_running is_waiting
done-idle completed h = (refl, refl)
done-idle failed h = (refl, refl)
done-idle compensated h = (refl, refl)
done-idle compensated_partial h = (refl, refl)
done-idle superseded h = (refl, refl)
done-idle queued h = cc
done-idle running h = cc
done-idle waiting h = cc

abbrev pub Ends : Turn → Type 0
Ends (again r) = ⊥
Ends (returned r) = is_running r.status ≡ false
Ends (ended r) = is_running r.status ≡ false

Keeps-any :
    (run : Run) (t : Turn)
    → is_running run.status ≡ true
    → Unit {0}
    → Moves run t
    → Keeps (λ r. Unit) (λ r. Unit) t
Keeps-any run (again r) s u m = tt
Keeps-any run (returned r) s u m = tt
Keeps-any run (ended r) s u m = tt

Ends-Stops : (t : Turn) → Stops (λ r. Unit) (λ r. Unit) t → Ends t
Ends-Stops (again r) h = absurd h
Ends-Stops (returned r) (u, h) = h
Ends-Stops (ended r) (u, h) = (done-idle r.status h).0

-- The loop of `_advance` ends: with the fuel given to it, it returns, and its run is no more running.
pub drive-Ends : (env : Env) (run : Run) → Ends (drive env run)
drive-Ends env run = elim (Bool-cases (is_running run.status)) [
  | inl on ↦
      Ends-Stops (drive env run) (drive-Stops (λ r. Unit) (λ r. Unit) Keeps-any env run on tt)
  | inr off ↦ subst Ends (sym (drive_idle env run off)) off
]

-- The run ended at its step, and stays so; only its compensation has called the agent runner.
abbrev pub IsStopped : Run → Run → Type 0
IsStopped run r =
    (r.cursor ≡ run.cursor)
    × (r.agent_calls ≡ run.agent_calls)
    × Adds (IsCompensator run.definition) run r
    × (is_done r.status ≡ true)
    × ((signals : List (Env × Signal)) → on_signals signals r ≡ r)

-- A running run at a `HUMAN` instruction, after the turn.
abbrev at_human : Env → Run → HumanTask → Run
at_human env run h = run_of (turn_at env run run.cursor (human_op h))

turn-human :
    (env : Env) (run : Run) (h : HumanTask)
    → is_running run.status ≡ true
    → instr_at run.cursor (compile_program run.definition.steps) ≡ some (human_op h)
    → turn env run ≡ returned (at_human env run h)
unfolding turn turn_at run_of
turn-human env run h s at = rw (turn, s, at) refl

drive-human :
    (env : Env) (run : Run) (h : HumanTask)
    → is_running run.status ≡ true
    → instr_at run.cursor (compile_program run.definition.steps) ≡ some (human_op h)
    → drive env run ≡ returned (at_human env run h)
unfolding drive fuel_of advance
drive-human env run h s at = rw (advance, turn-human env run h s at) refl

-- Where a `HUMAN` instruction follows the one at which a run waits, a decision `approved` parks the run
-- at that instruction, with one more request for an approval, and the same decision delivered again is
-- taken for the answer to that request: it drives the run on from there.
pub repeated_decision_passes :
    (env : Env) (run : Run) (h : HumanTask)
    → is_waiting run.status ≡ true
    → instr_at (suc run.cursor) (compile_program run.definition.steps) ≡ some (human_op h)
    → let r = run_of (resume_human env "approved" run).1 in
      (is_waiting r.status ≡ true)
      × (r.cursor ≡ suc run.cursor)
      × (length r.approvals ≡ suc (length run.approvals))
      × (resume_human env "approved" r ≡ (true, drive env (resolved "approved" r)))
unfolding run_of turn_at resolved park is_waiting is_running
repeated_decision_passes env run h w at =
    let e =
      resume_human-drive env run "approved" w refl
      ∙ ap (λ (t : Turn). (true, t)) (drive-human env (resolved "approved" run) h refl at) in
    let r = at_human env (resolved "approved" run) h in
    subst
      (λ (p : Bool × Turn).
        (is_waiting (run_of p.1).status ≡ true)
        × ((run_of p.1).cursor ≡ suc run.cursor)
        × (length (run_of p.1).approvals ≡ suc (length run.approvals))
        × (resume_human env "approved" (run_of p.1)
            ≡ (true, drive env (resolved "approved" (run_of p.1)))))
      (sym e) (refl, refl, refl, resume_human-drive env r "approved" refl refl)
