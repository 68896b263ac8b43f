-- ===== src/Workflows/Runs.antt =====
-- core/workflows/executor.py over the table `workflow_runs`, oldest row first: the concurrency of runs,
-- `start_run`, and the promotion of queued runs. Ids are unique, so an `UPDATE` of the row that a
-- subquery finds changes the first row that passes its test.
pub mod Narrow
mod Counts
pub mod Single
pub mod Start
use mathlib.Core.Option
use growth_operator.Prelude.Json.{Json, str}
use growth_operator.Workflows.Vars.{Vars, to_json, fields_of}
use growth_operator.Workflows.Run.{
  Run, RunStatus, Definition, append, set_status, queued, running, waiting, superseded,
  run_superseded, run_started, run_queued,
}
use growth_operator.Workflows.Executor.{Env}
use growth_operator.Workflows.Advance.{Turn, again, returned, ended, drive, run_of}
use growth_operator.Prelude.{
  [], ◌==◌, String, update_where, Option, none, ◌∷◌, false, Bool, ◌&&◌, some, find?, List, zero,
  length, str_eq, true, map, ◌++◌, ℕ, any, suc, if◌then◌else◌,
}
use growth_operator.Workflows.Resume.{Signal, on_signal}

unfoldable pub has_run_id : ℕ → Run → Bool
has_run_id id run = run.run_id == id

abbrev pub option_is : Option String → String → Bool
option_is none k = false
option_is (some j) k = str_eq j k

-- `org_id = :o AND definition_id = :d AND concurrency_key = :k`
unfoldable pub has_key : ℕ → String → Run → Bool
has_key definition key run =
    run.definition.definition_id == definition && option_is run.concurrency_key key

-- `status IN ('running','waiting')`
unfoldable pub is_active : RunStatus → Bool
is_active running = true
is_active waiting = true
is_active _ = false

unfoldable pub is_queued : RunStatus → Bool
is_queued queued = true
is_queued _ = false

unfoldable pub is_live : ℕ → String → Run → Bool
unfolding has_key is_active
is_live definition key run = has_key definition key run && is_active run.status

unfoldable pub is_next : ℕ → String → Run → Bool
unfolding has_key is_queued
is_next definition key run = has_key definition key run && is_queued run.status

unfoldable pub update_first : (Run → Bool) → (Run → Run) → List Run → List Run
update_first p f [] = []
update_first p f (run ∷ runs) =
    let rest = update_first p f runs in if p run then f run ∷ runs else run ∷ rest

unfoldable pub promoted : Run → Run
promoted run =
    append run_started none (("promoted_from", str "queue") ∷ []) (record run { status = running })

-- The transaction of `_promote_next`: the promoted row and the table.
unfoldable pub promote_next : ℕ → Option String → List Run → Option Run × List Run
unfolding is_next update_first promoted
promote_next definition none runs = (none, runs)
promote_next definition (some key) runs =
    (find? (is_next definition key) runs, update_first (is_next definition key) promoted runs)

-- The rows after the loop of `_advance` has ended so. When a run ended, the next in its queue is
-- promoted and driven. The fuel bounds the promotions.
unfoldable pub promote_chain : ℕ → Env → Turn → List Run → List Run
unfolding promote_next has_run_id promoted drive run_of
promote_chain fuel env (again run) runs = runs
promote_chain fuel env (returned run) runs = runs
promote_chain zero env (ended run) runs = runs
promote_chain (suc fuel) env (ended run) runs =
    let (next, runs') = promote_next run.definition.definition_id run.concurrency_key runs in
    elim next [
      | none ↦ runs'
      | some q ↦ elim (find? (has_run_id q.run_id) runs') [
        | none ↦ runs'
        | some r ↦
            promote_chain fuel env (drive env r)
              (update_where (has_run_id q.run_id) (λ x. run_of (drive env x)) runs')
      ]
    ]

-- An operation on the run with an id, with the promotions that follow it.
unfoldable pub run_in : Env → (Run → Turn) → ℕ → List Run → List Run
unfolding promote_chain has_run_id run_of
run_in env operate id runs = elim (find? (has_run_id id) runs) [
  | none ↦ runs
  | some run ↦
      promote_chain (length runs) env (operate run)
        (update_where (has_run_id id) (λ r. run_of (operate r)) runs)
]

pub data Decision : Type 0 where
  start : Decision
  drop : Decision
  queue : Decision

unfoldable pub supersede : Run → Run
supersede run =
    append run_superseded none (("by", str "replace") ∷ []) (set_status 0 superseded run)

-- The branches of `_apply_concurrency`: whether a run is live, whether the policy is `drop`, `queue`,
-- `replace`.
unfoldable pub concurrency_by :
    Bool → Bool → Bool → Bool → ℕ → String → List Run → Decision × List Run
unfolding is_live supersede
concurrency_by false is_drop is_queue is_replace definition key runs = (start, runs)
concurrency_by true true is_queue is_replace definition key runs = (drop, runs)
concurrency_by true false true is_replace definition key runs = (queue, runs)
concurrency_by true false false true definition key runs =
    (start, update_where (is_live definition key) supersede runs)
concurrency_by true false false false definition key runs = (start, runs)

-- `_apply_concurrency`: the decision, and the table
unfoldable pub apply_concurrency : ℕ → String → String → List Run → Decision × List Run
unfolding is_live concurrency_by
apply_concurrency definition policy key runs =
    concurrency_by (any (is_live definition key) runs) (str_eq policy "drop")
      (str_eq policy "queue") (str_eq policy "replace") definition key runs

-- `conc["policy"]` and `conc["key"]`
pub record Concurrency : Type 0 where
  pub policy : String
  pub key : String

-- The key of a new run, `None` where it does not evaluate; `show` is `str`.
unfoldable pub key_of : Env → (Json → String) → Option Concurrency → Vars → Option String
unfolding fields_of
key_of env show none subject = none
key_of env show (some conc) subject =
    Option.map show (env.cel conc.key (("subject", to_json subject) ∷ []))

unfoldable pub decide : Option Concurrency → ℕ → Option String → List Run → Decision × List Run
unfolding apply_concurrency
decide (some conc) definition (some key) runs = apply_concurrency definition conc.policy key runs
decide _ definition _ runs = (start, runs)

unfoldable pub new_run : RunStatus → ℕ → Definition → Option String → Vars → Run
unfolding fields_of
new_run status id definition key subject = record {
  run_id = id;
  definition = definition;
  concurrency_key = key;
  subject = subject;
  vars = [];
  status = status;
  cursor = 0;
  events =
      record {
        kind = elim status [ queued ↦ run_queued | _ ↦ run_started ];
        step_id = none;
        detail = ("subject", to_json subject) ∷ [];
      }
      ∷ [];
  subscriptions = [];
  approvals = [];
  emitted = [];
  agent_calls = [];
  compensation_calls = [];
}

-- The rest of `start_run` after the decision.
unfoldable pub start_by :
    Decision → Env → ℕ → Definition → Option String → Vars → List Run → Option ℕ × List Run
unfolding new_run run_in drive
start_by drop env id definition key subject runs = (none, runs)
start_by queue env id definition key subject runs =
    (some id, runs ++ new_run queued id definition key subject ∷ [])
start_by start env id definition key subject runs =
    (some id, run_in env (drive env) id (runs ++ new_run running id definition key subject ∷ []))

-- `start_run`: the id of the run, `none` where it was skipped, and the table
unfoldable pub start_run :
    Env
    → (Json → String)
    → ℕ
    → Definition
    → Option Concurrency
    → Vars
    → List Run
    → Option ℕ × List Run
unfolding key_of decide start_by
start_run env show id definition conc subject runs =
    let key = key_of env show conc subject in
    let decided = decide conc definition.definition_id key runs in
    start_by decided.0 env id definition key subject decided.1

-- What changes the table: a start, or a signal for a run.
pub data TableOp : Type 0 where
  start_op : ℕ → Definition → Option Concurrency → Vars → TableOp
  signal_op : ℕ → Signal → TableOp

unfoldable pub apply_op : Env → (Json → String) → TableOp → List Run → List Run
unfolding start_run run_in on_signal
apply_op env show (start_op id definition conc subject) runs =
    (start_run env show id definition conc subject runs).1
apply_op env show (signal_op id s) runs = run_in env (on_signal env s) id runs

unfoldable pub apply_ops : (Json → String) → List (Env × TableOp) → List Run → List Run
unfolding apply_op
apply_ops show [] runs = runs
apply_ops show ((env, op) ∷ ops) runs = apply_ops show ops (apply_op env show op runs)
