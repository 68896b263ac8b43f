-- ===== src/Workflows/Resume/Once.antt =====
-- No agent step is called twice.
use mathlib.Core.Path.{subst}
use growth_operator.Workflows.Run.{
  Run, is_done, is_running, is_waiting, RunStatus, queued, running, waiting, completed, failed,
  compensated, compensated_partial, superseded,
}
use growth_operator.Workflows.Executor.{Env, compensate}
use growth_operator.Workflows.Executor.Frame.{IsUnwound-compensate}
use growth_operator.Workflows.Advance.{
  Turn, again, returned, ended, drive, advance, turn, run_of, fuel_of,
}
use growth_operator.Workflows.Advance.Progress.{Moves, Called}
use growth_operator.Workflows.Advance.Live.{Keeps, Stops, drive-Stops}
use growth_operator.Prelude.{
  true, List, All, false, inr, suc, ◌∷◌, arith, inl, sym, ◌<◌, ◌≤◌, Bool-cases, String, refl, ℕ, [],
  ◌≡◌, str_eq, Bool,
}
use growth_operator.Workflows.Resume.{
  Signal, resume_signal, wake_signal, human_signal, tool_signal, on_signal, on_signals, woken,
  resolved, tool_decided,
}
use growth_operator.Workflows.Resume.Branches.{
  wake_run-idle, wake_run-drive, resume_human-idle, resume_human-drive, resume_human-compensate,
  resume_tool-idle, resume_tool-drive, resume_tool-compensate,
}

abbrev pub Below : ℕ → List ℕ → Type 0
Below n calls = All (λ c. c < n) calls

-- The calls, newest first, each further in the program than the ones before it.
abbrev pub Descends : List ℕ → Type 0
Descends [] = Unit
Descends (c ∷ calls) = Below c calls × Descends calls

abbrev Until : ℕ → List ℕ → Type 0
Until n calls = Descends calls × Below n calls

-- The calls end at the cursor, and before it in a run that can go on.
abbrev pub IsOnce : Run → Type 0
IsOnce run =
    Until (suc run.cursor) run.agent_calls
    × (is_done run.status ≡ false → Until run.cursor run.agent_calls)

Below-mono : (m n : ℕ) (calls : List ℕ) → m ≤ n → Below m calls → Below n calls
Below-mono m n [] le h = tt
Below-mono m n (c ∷ calls) le (lt, h) = (omega (arith, lt, le), Below-mono m n calls le h)

Until-mono : (m n : ℕ) (calls : List ℕ) → m ≤ n → Until m calls → Until n calls
Until-mono m n calls le (d, b) = (d, Below-mono m n calls le b)

Until-Called :
    (run r : Run)
    → Until run.cursor run.agent_calls
    → Called run r
    → Until (suc run.cursor) r.agent_calls
Until-Called run r u (inl same) =
    subst (Until (suc run.cursor)) (sym same)
      (Until-mono run.cursor (suc run.cursor) run.agent_calls (omega arith) u)
Until-Called run r (d, b) (inr more) =
    subst (Until (suc run.cursor)) (sym more) (
      (b, d),
      (omega arith, Below-mono run.cursor (suc run.cursor) run.agent_calls (omega arith) b),
    )

not-done : (s : RunStatus) → is_running s ≡ true → is_done s ≡ false
unfolding is_running is_done
not-done running h = refl
not-done queued h = refl
not-done waiting h = refl
not-done completed h = cc
not-done failed h = cc
not-done compensated h = cc
not-done compensated_partial h = cc
not-done superseded h = cc

waiting-not-done : (s : RunStatus) → is_waiting s ≡ true → is_done s ≡ false
unfolding is_waiting is_done
waiting-not-done waiting h = refl
waiting-not-done running h = refl
waiting-not-done queued h = refl
waiting-not-done completed h = cc
waiting-not-done failed h = cc
waiting-not-done compensated h = cc
waiting-not-done compensated_partial h = cc
waiting-not-done superseded h = cc

Keeps-IsOnce :
    (run : Run) (t : Turn)
    → is_running run.status ≡ true
    → IsOnce run
    → Moves run t
    → Keeps IsOnce IsOnce t
Keeps-IsOnce run (again r) s (u, before) (ahead, d, on, calls) =
    let next =
      Until-mono (suc run.cursor) r.cursor r.agent_calls (omega (arith, ahead))
        (Until-Called run r (before (not-done run.status s)) calls) in
    (Until-mono r.cursor (suc r.cursor) r.agent_calls (omega arith) next, λ o. next)
Keeps-IsOnce run (returned r) s (u, before) (c, d, off, calls, same) =
    let old = before (not-done run.status s) in
    (
      subst (λ n. Until (suc n) r.agent_calls) (sym c) (Until-Called run r old calls),
      λ open_still.
          subst (λ n. Until n r.agent_calls) (sym c)
            (subst (Until run.cursor) (sym (same open_still)) old),
    )
Keeps-IsOnce run (ended r) s (u, before) (c, d, off, same) =
    let old = before (not-done run.status s) in
    (
      subst (λ n. Until (suc n) r.agent_calls) (sym c) (Until-Called run r old (inl same)),
      λ open_still.
          subst (λ n. Until n r.agent_calls) (sym c) (subst (Until run.cursor) (sym same) old),
    )

of_Stops : (t : Turn) → Stops IsOnce IsOnce t → IsOnce (run_of t)
unfolding run_of
of_Stops (again r) h = absurd h
of_Stops (returned r) h = h.0
of_Stops (ended r) h = h.0

turn_idle : (env : Env) (run : Run) → is_running run.status ≡ false → turn env run ≡ returned run
unfolding turn
turn_idle env run off = rw (turn, off) refl

pub drive_idle :
    (env : Env) (run : Run) → is_running run.status ≡ false → drive env run ≡ returned run
unfolding drive advance fuel_of
drive_idle env run off = rw (advance, turn_idle env run off) refl

IsOnce-drive : (env : Env) (run : Run) → IsOnce run → IsOnce (run_of (drive env run))
unfolding run_of
IsOnce-drive env run h = elim (Bool-cases (is_running run.status)) [
  | inl on ↦ of_Stops (drive env run) (drive-Stops IsOnce IsOnce Keeps-IsOnce env run on h)
  | inr off ↦ rw (drive_idle env run off) h
]

-- A run that is moved on past its step, or left at it.
IsOnce-past :
    (run r : Run)
    → is_waiting run.status ≡ true
    → IsOnce run
    → run.cursor ≤ r.cursor
    → r.agent_calls ≡ run.agent_calls
    → IsOnce r
IsOnce-past run r w (u, before) le same =
    let old = before (waiting-not-done run.status w) in
    let here =
      subst (Until r.cursor) (sym same) (Until-mono run.cursor r.cursor run.agent_calls le old) in
    (Until-mono r.cursor (suc r.cursor) r.agent_calls (omega arith) here, λ o. here)

IsOnce-compensate :
    (env : Env) (reason : String) (run r : Run)
    → is_waiting run.status ≡ true
    → IsOnce run
    → r.cursor ≡ run.cursor
    → r.agent_calls ≡ run.agent_calls
    → IsOnce (compensate env reason r)
IsOnce-compensate env reason run r w h c same =
    let (status, done, (es, out, cs, e)) = IsUnwound-compensate env reason r in
    subst IsOnce (sym e) (
      IsOnce-past run
        (record r { status = status; events = es; emitted = out; compensation_calls = cs }) w h
        (omega (arith, c)) same)

abbrev Fits : Bool × Turn → Type 0
Fits p = IsOnce (run_of p.1)

IsOnce-on_signal :
    (env : Env) (s : Signal) (run : Run) → IsOnce run → IsOnce (run_of (on_signal env s run))
unfolding on_signal woken resolved tool_decided run_of
IsOnce-on_signal env resume_signal run h = IsOnce-drive env run h
IsOnce-on_signal env (wake_signal result) run h = elim (Bool-cases (is_waiting run.status)) [
  | inr off ↦ subst Fits (sym (wake_run-idle env run result off)) h
  | inl w ↦ subst Fits (sym (wake_run-drive env run result w)) (
      IsOnce-drive env (woken result run)
        (IsOnce-past run (woken result run) w h (omega arith) refl))
]
IsOnce-on_signal env (human_signal decision) run h = elim (Bool-cases (is_waiting run.status)) [
  | inr off ↦ subst Fits (sym (resume_human-idle env run decision off)) h
  | inl w ↦ elim (Bool-cases (str_eq decision "approved")) [
    | inl said ↦ subst Fits (sym (resume_human-drive env run decision w said)) (
        IsOnce-drive env (resolved decision run)
          (IsOnce-past run (resolved decision run) w h (rw said (omega arith)) refl))
    | inr refused ↦ subst Fits (sym (resume_human-compensate env run decision w refused)) (
        IsOnce-compensate env "human_task rejected" run (resolved decision run) w h
          (rw refused refl) refl)
  ]
]
IsOnce-on_signal env (tool_signal decision tool) run h = elim (Bool-cases (is_waiting run.status)) [
  | inr off ↦ subst Fits (sym (resume_tool-idle env run decision tool off)) h
  | inl w ↦ elim (Bool-cases (str_eq decision "approved")) [
    | inl said ↦ subst Fits (sym (resume_tool-drive env run decision tool w said)) (
        IsOnce-drive env (tool_decided decision tool run)
          (IsOnce-past run (tool_decided decision tool run) w h (omega arith) refl))
    | inr refused ↦ subst Fits (sym (resume_tool-compensate env run decision tool w refused)) (
        IsOnce-compensate env "tool_call rejected" run (tool_decided decision tool run) w h refl
          refl)
  ]
]

IsOnce-on_signals :
    (signals : List (Env × Signal)) (run : Run) → IsOnce run → IsOnce (on_signals signals run)
unfolding on_signals
IsOnce-on_signals [] run h = h
IsOnce-on_signals ((env, s) ∷ signals) run h =
    IsOnce-on_signals signals (run_of (on_signal env s run)) (IsOnce-on_signal env s run h)

-- From a run with no agent call, whatever signals it receives, one after the other and each to its
-- end, the instructions of its program that called the agent runner are in the order of the program and
-- each of them once, and none of them is after the cursor. Those of its compensation are not among them.
pub on_signals-call-once :
    (signals : List (Env × Signal)) (run : Run)
    → run.agent_calls ≡ []
    → let r = on_signals signals run in Descends r.agent_calls × Below (suc r.cursor) r.agent_calls
on_signals-call-once signals run fresh =
    let start : IsOnce run = (
      subst (Until (suc run.cursor)) (sym fresh) (tt, tt),
      λ o. subst (Until run.cursor) (sym fresh) (tt, tt),
    ) in
    (IsOnce-on_signals signals run start).0
