-- ===== src/Workflows/Resume.antt =====
-- core/workflows/executor.py: what moves a parked run on, `wake_run`, `resume_human` and
-- `resume_tool`..
pub mod Branches
pub mod Once
pub mod Parked
use growth_operator.Workflows.Vars.{Vars, put, to_json, fields_of, texts_of, items_of}
use growth_operator.Workflows.Run.{
  Run, append, is_waiting, running, waiting, step_resumed, human_resolved, tool_resolved,
}
use growth_operator.Workflows.Executor.{Env, compensate}
use growth_operator.Workflows.Advance.{Turn, returned, drive, run_of}
use growth_operator.Prelude.Json.{Json, null, str, arr}
use growth_operator.Prelude.{
  str_le, str_eq, Option, String, [], some, lookup, if◌then◌else◌, List, suc, false, Bool, true,
  none, ◌∷◌,
}

-- The transaction of `wake_run`.
unfoldable pub woken : String → Run → Run
unfolding put fields_of
woken result run = append step_resumed none (("result", str result) ∷ []) (record run {
  vars = put "wait" (to_json (("result", str result) ∷ [])) run.vars;
  status = running;
  cursor = suc run.cursor;
})

-- `wake_run`: whether the run was waiting, and its end
unfoldable pub wake_run : Env → String → Run → Bool × Turn
unfolding woken is_waiting drive
wake_run env result run = elim (is_waiting run.status) [
  | true ↦ (true, drive env (woken result run))
  | false ↦ (false, returned run)
]

-- The transaction of `resume_human`.
unfoldable pub resolved : String → Run → Run
unfolding put fields_of
resolved decision run =
    let approved = str_eq decision "approved" in
    append human_resolved none (("decision", str decision) ∷ []) (record run {
      vars = put "human" (to_json (("decision", str decision) ∷ [])) run.vars;
      status = if approved then running else waiting;
      cursor = if approved then suc run.cursor else run.cursor;
    })

-- The branches of `resume_human`: whether the run waits, whether the decision approves.
unfoldable pub resume_human_if : Bool → Bool → Env → String → Run → Bool × Turn
unfolding resolved drive compensate
resume_human_if false approved env decision run = (false, returned run)
resume_human_if true true env decision run = (true, drive env (resolved decision run))
resume_human_if true false env decision run =
    (true, returned (compensate env "human_task rejected" (resolved decision run)))

-- `resume_human`
unfoldable pub resume_human : Env → String → Run → Bool × Turn
unfolding resume_human_if is_waiting
resume_human env decision run =
    resume_human_if (is_waiting run.status) (str_eq decision "approved") env decision run

-- A text among sorted texts, once.
unfoldable pub insert_text : String → List String → List String
insert_text s [] = s ∷ []
insert_text s (t ∷ ts) =
    let rest = insert_text s ts in
    if str_eq s t then t ∷ ts else if str_le s t then s ∷ t ∷ ts else t ∷ rest

-- `sorted(set(texts))`
unfoldable pub sorted_set : List String → List String
unfolding insert_text
sorted_set [] = []
sorted_set (s ∷ ss) = insert_text s (sorted_set ss)

-- `new_vars` of `resume_tool`
unfoldable pub approved_vars : Bool → Option String → Vars → Vars
unfolding put texts_of items_of sorted_set
approved_vars true (some tool) vars =
    if str_eq tool ""
    then vars
    else put "_approved_tools"
        (arr (items_of (sorted_set (tool ∷ texts_of (lookup "_approved_tools" vars))))) vars
approved_vars _ _ vars = vars

abbrev text_or_null : Option String → Json
text_or_null none = null
text_or_null (some s) = str s

-- The transaction of `resume_tool`: the cursor stays.
unfoldable pub tool_decided : String → Option String → Run → Run
unfolding approved_vars
tool_decided decision tool run =
    let approved = str_eq decision "approved" in
    append tool_resolved none (("decision", str decision) ∷ ("tool", text_or_null tool) ∷ [])
      (record run {
        vars = approved_vars approved tool run.vars;
        status = if approved then running else waiting;
      })

-- The branches of `resume_tool`.
unfoldable pub resume_tool_if : Bool → Bool → Env → String → Option String → Run → Bool × Turn
unfolding tool_decided drive compensate
resume_tool_if false approved env decision tool run = (false, returned run)
resume_tool_if true true env decision tool run = (true, drive env (tool_decided decision tool run))
resume_tool_if true false env decision tool run =
    (true, returned (compensate env "tool_call rejected" (tool_decided decision tool run)))

-- `resume_tool`
unfoldable pub resume_tool : Env → String → Option String → Run → Bool × Turn
unfolding resume_tool_if is_waiting
resume_tool env decision tool run =
    resume_tool_if (is_waiting run.status) (str_eq decision "approved") env decision tool run

-- What can happen to a run.
pub data Signal : Type 0 where
  resume_signal : Signal
  wake_signal : String → Signal
  human_signal : String → Signal
  tool_signal : String → Option String → Signal

-- `resume_run` after a crash, and the three above
unfoldable pub on_signal : Env → Signal → Run → Turn
unfolding wake_run resume_human resume_tool drive
on_signal env resume_signal run = drive env run
on_signal env (wake_signal result) run = (wake_run env result run).1
on_signal env (human_signal decision) run = (resume_human env decision run).1
on_signal env (tool_signal decision tool) run = (resume_tool env decision tool run).1

-- Signals one after the other, each in the surroundings it meets.
unfoldable pub on_signals : List (Env × Signal) → Run → Run
unfolding on_signal run_of
on_signals [] run = run
on_signals ((env, s) ∷ signals) run = on_signals signals (run_of (on_signal env s run))
