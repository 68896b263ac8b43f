-- ===== src/Workflows/Runs/Narrow.antt =====
-- An operation on a run that makes no idle run live, and ends none but a live one.
use mathlib.Core.Path.{subst}
use growth_operator.Workflows.Run.{
  Run, RunStatus, is_running, is_done, is_waiting, queued, running, waiting, completed, failed,
  compensated, compensated_partial, superseded,
}
use growth_operator.Workflows.Executor.{Env, compensate}
use growth_operator.Workflows.Executor.Frame.{IsUnwound-compensate}
use growth_operator.Workflows.Advance.{Turn, again, returned, ended, drive, run_of}
use growth_operator.Workflows.Advance.Progress.{Moves, SameOwner}
use growth_operator.Workflows.Advance.Live.{Keeps, Stops, drive-Stops}
use growth_operator.Workflows.Resume.{
  Signal, resume_signal, wake_signal, human_signal, tool_signal, on_signal, woken, resolved,
  tool_decided,
}
use growth_operator.Workflows.Resume.Branches.{
  wake_run-idle, wake_run-drive, resume_human-idle, resume_human-drive, resume_human-compensate,
  resume_tool-idle, resume_tool-drive, resume_tool-compensate,
}
use growth_operator.Workflows.Resume.Once.{drive_idle}
use growth_operator.Workflows.Runs.{is_active, has_key, is_live, option_is}
use growth_operator.Prelude.{
  ◌∙◌, str_eq, Bool-cases, ◌==◌, arith, false, inl, String, refl, ◌≡◌, sym, ◌&&◌, true, ℕ, inr,
  some, ap, str_eq_refl, Option, none,
}

-- From `run` to the run of the turn: the owner is the same, only a live run stays live, and one that
-- ends was live and is not.
abbrev pub Narrows : Run → Turn → Type 0
Narrows run (again r) = SameOwner run r × (is_active r.status ≡ true → is_active run.status ≡ true)
Narrows run (returned r) =
    SameOwner run r × (is_active r.status ≡ true → is_active run.status ≡ true)
Narrows run (ended r) =
    SameOwner run r × (is_active run.status ≡ true) × (is_active r.status ≡ false)

abbrev pub IsNarrow : (Run → Turn) → Type 0
IsNarrow operate = (run : Run) → Narrows run (operate run)

SameOwner-trans : (a b c : Run) → SameOwner a b → SameOwner b c → SameOwner a c
SameOwner-trans a b c (d, k) (d', k') = (d' ∙ d, k' ∙ k)

active_of : (s : RunStatus) → is_running s ≡ true → is_active s ≡ true
unfolding is_running is_active
active_of running h = refl
active_of waiting h = refl
active_of queued h = cc
active_of completed h = cc
active_of failed h = cc
active_of compensated h = cc
active_of compensated_partial h = cc
active_of superseded h = cc

active_of_waiting : (s : RunStatus) → is_waiting s ≡ true → is_active s ≡ true
unfolding is_waiting is_active
active_of_waiting waiting h = refl
active_of_waiting running h = refl
active_of_waiting queued h = cc
active_of_waiting completed h = cc
active_of_waiting failed h = cc
active_of_waiting compensated h = cc
active_of_waiting compensated_partial h = cc
active_of_waiting superseded h = cc

idle_of_done : (s : RunStatus) → is_done s ≡ true → is_active s ≡ false
unfolding is_done is_active
idle_of_done completed h = refl
idle_of_done failed h = refl
idle_of_done compensated h = refl
idle_of_done compensated_partial h = refl
idle_of_done superseded h = refl
idle_of_done queued h = refl
idle_of_done running h = cc
idle_of_done waiting h = cc

Keeps-SameOwner :
    (start run : Run) (t : Turn)
    → is_running run.status ≡ true
    → SameOwner start run
    → Moves run t
    → Keeps (SameOwner start) (SameOwner start) t
Keeps-SameOwner start run (again r) s o m = SameOwner-trans start run r o m.1
Keeps-SameOwner start run (returned r) s o m = SameOwner-trans start run r o m.1
Keeps-SameOwner start run (ended r) s o m = SameOwner-trans start run r o m.1

Narrows-Stops :
    (run : Run) (t : Turn)
    → is_active run.status ≡ true
    → Stops (SameOwner run) (SameOwner run) t
    → Narrows run t
Narrows-Stops run (again r) a h = absurd h
Narrows-Stops run (returned r) a (o, off) = (o, λ x. a)
Narrows-Stops run (ended r) a (o, done) = (o, a, idle_of_done r.status done)

pub IsNarrow-drive : (env : Env) → IsNarrow (drive env)
IsNarrow-drive env run = elim (Bool-cases (is_running run.status)) [
  | inl on ↦
      Narrows-Stops run (drive env run) (active_of run.status on)
        (drive-Stops (SameOwner run) (SameOwner run) (Keeps-SameOwner run) env run on (refl, refl))
  | inr off ↦ subst (Narrows run) (sym (drive_idle env run off)) ((refl, refl), λ a. a)
]

-- From a live run with the same owner.
Narrows-from :
    (run r : Run) (t : Turn)
    → SameOwner run r
    → is_active run.status ≡ true
    → Narrows r t
    → Narrows run t
Narrows-from run r (again x) o a h = (SameOwner-trans run r x o h.0, λ y. a)
Narrows-from run r (returned x) o a h = (SameOwner-trans run r x o h.0, λ y. a)
Narrows-from run r (ended x) o a h = (SameOwner-trans run r x o h.0, a, h.2)

Narrows-compensate :
    (env : Env) (reason : String) (run r : Run)
    → SameOwner run r
    → is_active run.status ≡ true
    → Narrows run (returned (compensate env reason r))
Narrows-compensate env reason run r o a =
    let (status, done, (es, out, cs, e)) = IsUnwound-compensate env reason r in
    subst (λ x. Narrows run (returned x)) (sym e) (o, λ y. a)

Narrows-drive :
    (env : Env) (run r : Run)
    → SameOwner run r
    → is_waiting run.status ≡ true
    → Narrows run (drive env r)
Narrows-drive env run r o w =
    Narrows-from run r (drive env r) o (active_of_waiting run.status w) (IsNarrow-drive env r)

pub IsNarrow-on_signal : (env : Env) (s : Signal) → IsNarrow (on_signal env s)
unfolding on_signal woken resolved tool_decided
IsNarrow-on_signal env resume_signal run = IsNarrow-drive env run
IsNarrow-on_signal env (wake_signal result) run = elim (Bool-cases (is_waiting run.status)) [
  | inr off ↦
      subst (λ p. Narrows run p.1) (sym (wake_run-idle env run result off)) ((refl, refl), λ a. a)
  | inl w ↦
      subst (λ p. Narrows run p.1) (sym (wake_run-drive env run result w))
        (Narrows-drive env run (woken result run) (refl, refl) w)
]
IsNarrow-on_signal env (human_signal decision) run = elim (Bool-cases (is_waiting run.status)) [
  | inr off ↦
      subst (λ p. Narrows run p.1) (sym (resume_human-idle env run decision off))
        ((refl, refl), λ a. a)
  | inl w ↦ elim (Bool-cases (str_eq decision "approved")) [
    | inl said ↦
        subst (λ p. Narrows run p.1) (sym (resume_human-drive env run decision w said))
          (Narrows-drive env run (resolved decision run) (refl, refl) w)
    | inr refused ↦
        subst (λ p. Narrows run p.1) (sym (resume_human-compensate env run decision w refused))
          (Narrows-compensate env "human_task rejected" run (resolved decision run) (refl, refl)
            (active_of_waiting run.status w))
  ]
]
IsNarrow-on_signal env (tool_signal decision tool) run = elim (Bool-cases (is_waiting run.status)) [
  | inr off ↦
      subst (λ p. Narrows run p.1) (sym (resume_tool-idle env run decision tool off))
        ((refl, refl), λ a. a)
  | inl w ↦ elim (Bool-cases (str_eq decision "approved")) [
    | inl said ↦
        subst (λ p. Narrows run p.1) (sym (resume_tool-drive env run decision tool w said))
          (Narrows-drive env run (tool_decided decision tool run) (refl, refl) w)
    | inr refused ↦
        subst (λ p. Narrows run p.1) (sym (resume_tool-compensate env run decision tool w refused))
          (Narrows-compensate env "tool_call rejected" run (tool_decided decision tool run)
            (refl, refl) (active_of_waiting run.status w))
  ]
]

has_key-SameOwner :
    (d : ℕ) (k : String) (run r : Run) → SameOwner run r → has_key d k r ≡ has_key d k run
unfolding has_key
has_key-SameOwner d k run r (e, f) = λ i. (e i).definition_id == d && option_is (f i) k

pub is_live-narrow :
    (d : ℕ) (k : String) (run : Run) (t : Turn)
    → Narrows run t
    → is_live d k (run_of t) ≡ true
    → is_live d k run ≡ true
unfolding is_live run_of
is_live-narrow d k run (again r) (o, a) h = ground (arith, has_key-SameOwner d k run r o, a, h)
is_live-narrow d k run (returned r) (o, a) h = ground (arith, has_key-SameOwner d k run r o, a, h)
is_live-narrow d k run (ended r) (o, a, off) h =
    absurd (ground (arith, has_key-SameOwner d k run r o, a, off, h))

pub has_own_key :
    (r : Run) (k : String)
    → r.concurrency_key ≡ some k
    → has_key r.definition.definition_id k r ≡ true
unfolding has_key
has_own_key r k e =
    let same : option_is r.concurrency_key k ≡ true = ap (λ o. option_is o k) e ∙ str_eq_refl k in
    ground (arith, same)

pub is_live-ended :
    (d : ℕ) (k : String) (run r : Run)
    → SameOwner run r
    → is_active run.status ≡ true
    → has_key d k r ≡ true
    → is_live d k run ≡ true
unfolding is_live
is_live-ended d k run r o on h = ground (arith, has_key-SameOwner d k run r o, on, h)

pub is_live-idle :
    (d : ℕ) (k : String) (run : Run) → is_active run.status ≡ false → is_live d k run ≡ false
unfolding is_live
is_live-idle d k run off = ground (arith, off)

option_is-cases :
    (o : Option String) (k : String)
    → option_is o k ≡ true
    → (j : String) × (o ≡ some j) × (str_eq j k ≡ true)
option_is-cases none k h = absurd (ground (arith, h))
option_is-cases (some j) k h = (j, refl, h)

pub key_of_live :
    (d : ℕ) (k : String) (run : Run)
    → is_live d k run ≡ true
    → (run.definition.definition_id ≡ d)
      × ((j : String) × (run.concurrency_key ≡ some j) × (str_eq j k ≡ true))
unfolding is_live has_key
key_of_live d k run h =
    (ground (arith, h), option_is-cases run.concurrency_key k (ground (arith, h)))
