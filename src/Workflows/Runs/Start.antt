-- ===== src/Workflows/Runs/Start.antt =====
-- Starting a run under a policy of concurrency.
use mathlib.Core.Path.{subst}
use growth_operator.Workflows.Vars.{Vars}
use growth_operator.Workflows.Run.{Run, Definition, queued, running}
use growth_operator.Workflows.Executor.{Env}
use growth_operator.Workflows.Advance.{drive}
use growth_operator.Workflows.Runs.{
  is_active, is_live, Decision, start, drop, queue, supersede, apply_concurrency, Concurrency,
  key_of, decide, new_run, start_run, TableOp, start_op, signal_op, apply_op, apply_ops,
  concurrency_by, Json, start_by,
}
use growth_operator.Prelude.Counts.{
  filter-append_le, filter-append_eq, filter-none, filter-update_none, filter-update_le,
}
use growth_operator.Workflows.Runs.Narrow.{
  IsNarrow-drive, IsNarrow-on_signal, is_live-idle, key_of_live,
}
use growth_operator.Workflows.Runs.Single.{
  live_count, AtMostOne, IsVacant, AtMostOne-run_in, vacant_of,
}
use growth_operator.Prelude.{
  Option, ◌≡◌, Bool-cases, Bool, refl, inl, inr, none, any, String, ◌||◌, List, some, str_eq, true,
  false, ℕ, arith, ◌∷◌, ◌++◌, ◌∙◌, sym, [], All, update_where,
}
use growth_operator.Workflows.Resume.{on_signal}

-- The policies that the schema allows.
unfoldable pub is_policy : String → Bool
is_policy p = str_eq p "drop" || str_eq p "queue" || str_eq p "replace"

-- A definition has no concurrency, or one of the policies.
abbrev pub HasPolicy : Option Concurrency → Type 0
HasPolicy none = Unit
HasPolicy (some conc) = is_policy conc.policy ≡ true

-- The rows after the decision, and, where a run starts, no live run of its key.
abbrev IsDecided : ℕ → Option String → Decision × List Run → Type 0
IsDecided d key r = AtMostOne r.1 × (r.0 ≡ start → IsVacant d key r.1)

is_live-supersede : (d' : ℕ) (k' : String) (run : Run) → is_live d' k' (supersede run) ≡ false
unfolding supersede is_active
is_live-supersede d' k' run = is_live-idle d' k' (supersede run) refl

not_start-drop : drop ≡ start → ⊥
not_start-drop e = cc

not_start-queue : queue ≡ start → ⊥
not_start-queue e = cc

IsVacant-some :
    (d : ℕ) (key : String) (runs : List Run)
    → live_count d key runs ≡ 0
    → IsVacant d (some key) runs
IsVacant-some d key runs z k e =
    subst (λ (x : String). live_count d x runs ≡ 0) (some-injective e) z
  where
    some-injective : {a b : String} → some a ≡ some b → a ≡ b
    some-injective h = cc

IsDecided-by :
    (live is_drop is_queue is_replace : Bool) (d : ℕ) (key : String) (runs : List Run)
    → any (is_live d key) runs ≡ live
    → is_drop || is_queue || is_replace ≡ true
    → AtMostOne runs
    → IsDecided d (some key) (concurrency_by live is_drop is_queue is_replace d key runs)
unfolding concurrency_by
IsDecided-by false is_drop is_queue is_replace d key runs e known one =
    (one, λ s. IsVacant-some d key runs (filter-none (is_live d key) runs e))
IsDecided-by true true is_queue is_replace d key runs e known one =
    (one, λ s. absurd (not_start-drop s))
IsDecided-by true false true is_replace d key runs e known one =
    (one, λ s. absurd (not_start-queue s))
IsDecided-by true false false true d key runs e known one = (
  λ d' k'. omega (
    arith,
    one d' k',
    filter-update_le (is_live d key) (is_live d' k') supersede runs
        (λ x h. absurd (ground (arith, h, is_live-supersede d' k' x))),
  ),
  λ s.
      IsVacant-some d key (update_where (is_live d key) supersede runs)
        (filter-update_none (is_live d key) supersede runs (λ x h. is_live-supersede d key x)),
)
IsDecided-by true false false false d key runs e known one = absurd (ground (arith, known))

IsDecided-decide :
    (env : Env) (show : Json → String) (conc : Option Concurrency) (d : ℕ) (subject : Vars)
    (runs : List Run)
    → HasPolicy conc
    → AtMostOne runs
    → IsDecided d (key_of env show conc subject) (decide conc d (key_of env show conc subject) runs)
unfolding decide key_of apply_concurrency is_policy
IsDecided-decide env show none d subject runs known one = (one, λ s k e. absurd (ground (arith, e)))
IsDecided-decide env show (some conc) d subject runs known one =
    keyed (key_of env show (some conc) subject)
  where
    keyed : (key : Option String) → IsDecided d key (decide (some conc) d key runs)
    keyed none = (one, λ s k e. absurd (ground (arith, e)))
    keyed (some key) =
        IsDecided-by (any (is_live d key) runs) (str_eq conc.policy "drop")
          (str_eq conc.policy "queue") (str_eq conc.policy "replace") d key runs refl known one

-- A new running run where its key has no live run.
AtMostOne-append :
    (d : ℕ) (key : Option String) (runs : List Run) (run : Run)
    → run.definition.definition_id ≡ d
    → run.concurrency_key ≡ key
    → IsVacant d key runs
    → AtMostOne runs
    → AtMostOne (runs ++ run ∷ [])
AtMostOne-append d key runs run of_d of_key free one d' k' = elim (Bool-cases (is_live d' k' run)) [
  | inr off ↦ omega (arith, one d' k', filter-append_eq (is_live d' k') runs run off)
  | inl on ↦
      let (same_d, (k, at, same_k)) = key_of_live d' k' run on in
      omega (
        arith,
        filter-append_le (is_live d' k') runs run,
        vacant_of d d' k k' runs (sym of_d ∙ same_d) same_k (free k (sym of_key ∙ at)),
      )
]

AtMostOne-start_by :
    (decision : Decision) (env : Env) (id : ℕ) (definition : Definition) (key : Option String)
    (subject : Vars) (runs : List Run)
    → AtMostOne runs
    → (decision ≡ start → IsVacant definition.definition_id key runs)
    → AtMostOne (start_by decision env id definition key subject runs).1
unfolding start_by new_run is_active
AtMostOne-start_by drop env id definition key subject runs one free = one
AtMostOne-start_by queue env id definition key subject runs one free = λ d k.
    let waits = new_run queued id definition key subject in
    omega (arith, one d k, filter-append_eq (is_live d k) runs waits (is_live-idle d k waits refl))
AtMostOne-start_by start env id definition key subject runs one free =
    let run = new_run running id definition key subject in
    AtMostOne-run_in env (drive env) id (runs ++ run ∷ []) (IsNarrow-drive env)
      (AtMostOne-append definition.definition_id key runs run refl refl (free refl) one)

AtMostOne-start_run :
    (env : Env) (show : Json → String) (id : ℕ) (definition : Definition)
    (conc : Option Concurrency) (subject : Vars) (runs : List Run)
    → HasPolicy conc
    → AtMostOne runs
    → AtMostOne (start_run env show id definition conc subject runs).1
unfolding start_run
AtMostOne-start_run env show id definition conc subject runs known one =
    let d = definition.definition_id in
    let key = key_of env show conc subject in
    let decided = IsDecided-decide env show conc d subject runs known one in
    AtMostOne-start_by (decide conc d key runs).0 env id definition key subject
      (decide conc d key runs).1 decided.0 decided.1

-- The starts have a policy that the schema allows.
abbrev pub IsAllowed : TableOp → Type 0
IsAllowed (start_op id definition conc subject) = HasPolicy conc
IsAllowed (signal_op id s) = Unit

AtMostOne-apply_op :
    (env : Env) (show : Json → String) (op : TableOp) (runs : List Run)
    → IsAllowed op
    → AtMostOne runs
    → AtMostOne (apply_op env show op runs)
unfolding apply_op
AtMostOne-apply_op env show (start_op id definition conc subject) runs known one =
    AtMostOne-start_run env show id definition conc subject runs known one
AtMostOne-apply_op env show (signal_op id s) runs known one =
    AtMostOne-run_in env (on_signal env s) id runs (IsNarrow-on_signal env s) one

-- From a table in which each definition has at most one live run for each concurrency key, starts
-- under the policies `drop`, `queue` and `replace`, and signals for runs, with the promotions of queued
-- runs that follow them, lead to a table of which the same holds.
pub apply_ops-AtMostOne :
    (show : Json → String) (ops : List (Env × TableOp)) (runs : List Run)
    → All (λ o. IsAllowed o.1) ops
    → AtMostOne runs
    → AtMostOne (apply_ops show ops runs)
unfolding apply_ops
apply_ops-AtMostOne show [] runs known one = one
apply_ops-AtMostOne show ((env, op) ∷ ops) runs (allowed, known) one =
    apply_ops-AtMostOne show ops (apply_op env show op runs) known
      (AtMostOne-apply_op env show op runs allowed one)
