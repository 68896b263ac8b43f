-- ===== src/Workflows/Runs/Single.antt =====
-- At most one live run of a definition for a concurrency key.
use mathlib.Core.Path.{subst}
use mathlib.Core.Path.{subst}
use growth_operator.Workflows.Run.{Run}
use growth_operator.Workflows.Executor.{Env}
use growth_operator.Workflows.Advance.{Turn, again, returned, ended, drive, run_of}
use growth_operator.Workflows.Runs.{
  has_run_id, has_key, is_live, is_next, promoted, promote_next, promote_chain, run_in, option_is,
}
use growth_operator.Workflows.Runs.Narrow.{
  IsNarrow, Narrows, is_live-narrow, has_own_key, is_live-ended, is_live-idle, IsNarrow-drive,
}
use growth_operator.Workflows.Runs.Counts.{filter-update_first_le, filter-update_first_eq}
use growth_operator.Prelude.Counts.{filter-update_le, filter-update_lt}
use growth_operator.Prelude.{
  ◌≡◌, true, some, ℕ, String, arith, length, ◌∙◌, ◌≤◌, filter, ap, Option, false, Bool, List,
  update_where, find?, str_eq, zero, inl, none, str_eq_iff, ◌==◌, Option-cases, inr, Bool-cases,
  sym, ◌&&◌, suc, refl, find?-sound,
}

abbrev pub live_count : ℕ → String → List Run → ℕ
live_count d k runs = length (filter (is_live d k) runs)

-- For each definition and key.
abbrev pub AtMostOne : List Run → Type 0
AtMostOne runs = (d : ℕ) (k : String) → live_count d k runs ≤ 1

abbrev pub IsVacant : ℕ → Option String → List Run → Type 0
IsVacant d key runs = (k : String) → key ≡ some k → live_count d k runs ≡ 0

abbrev IsFreed : Turn → List Run → Type 0
IsFreed (ended r) runs = IsVacant r.definition.definition_id r.concurrency_key runs
IsFreed (returned r) runs = Unit
IsFreed (again r) runs = Unit

AtMostOne-update :
    (p : Run → Bool) (operate : Run → Turn) (runs : List Run)
    → IsNarrow operate
    → AtMostOne runs
    → AtMostOne (update_where p (λ r. run_of (operate r)) runs)
AtMostOne-update p operate runs narrow one d k = omega (
  arith,
  one d k,
  filter-update_le p (is_live d k) (λ r. run_of (operate r)) runs
      (λ x. is_live-narrow d k x (operate x) (narrow x)),
)

-- An operation that ends a live run leaves its key without one.
IsFreed-update :
    (p : Run → Bool) (operate : Run → Turn) (runs : List Run) (r : Run) (t : Turn)
    → IsNarrow operate
    → AtMostOne runs
    → find? p runs ≡ some r
    → operate r ≡ t
    → Narrows r t
    → IsFreed t (update_where p (λ x. run_of (operate x)) runs)
unfolding run_of
IsFreed-update p operate runs r (again r') narrow one at e n = tt
IsFreed-update p operate runs r (returned r') narrow one at e n = tt
IsFreed-update p operate runs r (ended r') narrow one at e (o, on, off) = λ k key.
    let d = r'.definition.definition_id in
    let live : is_live d k r ≡ true = is_live-ended d k r r' o on (has_own_key r' k key) in
    let idle : is_live d k (run_of (operate r)) ≡ false =
      ap (λ t. is_live d k (run_of t)) e ∙ is_live-idle d k r' off in
    omega (
      arith,
      one d k,
      filter-update_lt p p (is_live d k) (λ x. run_of (operate x)) runs r
          (λ x. is_live-narrow d k x (operate x) (narrow x)) at (find?-sound p runs r at) live idle,
    )

option_is-some :
    (o : Option String) (j k : String)
    → option_is o j ≡ true
    → option_is o k ≡ true
    → str_eq j k ≡ true
option_is-some none j k h g = absurd (ground (arith, h))
option_is-some (some s) j k h g =
    let a = (str_eq_iff s j).0 h in
    let b = (str_eq_iff s k).0 g in subst (λ (x : String). str_eq x k ≡ true) a g

-- A run has one definition and one key.
has_key_unique :
    (d d' : ℕ) (k k' : String) (run : Run)
    → has_key d k run ≡ true
    → has_key d' k' run ≡ true
    → (d ≡ d') × (str_eq k k' ≡ true)
unfolding has_key
has_key_unique d d' k k' run h g = (
  ground (arith, h, g),
  option_is-some run.concurrency_key k k' (ground (arith, h)) (ground (arith, g)),
)

is_next-key : (d : ℕ) (k : String) (run : Run) → is_next d k run ≡ true → has_key d k run ≡ true
unfolding is_next
is_next-key d k run h = ground (arith, h)

is_live-key : (d : ℕ) (k : String) (run : Run) → is_live d k run ≡ true → has_key d k run ≡ true
unfolding is_live
is_live-key d k run h = ground (arith, h)

has_key-promoted : (d : ℕ) (k : String) (run : Run) → has_key d k (promoted run) ≡ has_key d k run
unfolding promoted has_key
has_key-promoted d k run = refl

pub vacant_of :
    (d d' : ℕ) (k k' : String) (runs : List Run)
    → d ≡ d'
    → str_eq k k' ≡ true
    → live_count d k runs ≡ 0
    → live_count d' k' runs ≡ 0
vacant_of d d' k k' runs e s z =
    let same = (str_eq_iff k k').0 s in
    subst (λ (x : ℕ). live_count x k' runs ≡ 0) e
      (subst (λ (x : String). live_count d x runs ≡ 0) same z)

-- A promotion where no run of the key is live.
AtMostOne-promote_next :
    (d : ℕ) (key : Option String) (runs : List Run)
    → AtMostOne runs
    → IsVacant d key runs
    → AtMostOne (promote_next d key runs).1
unfolding promote_next
AtMostOne-promote_next d none runs one free d' k' = one d' k'
AtMostOne-promote_next d (some k) runs one free d' k' = elim (Bool-cases (d == d' && str_eq k k')) [
  | inl same ↦
      let zero_live =
        vacant_of d d' k k' runs (ground (arith, same)) (ground (arith, same)) (free k refl) in
      omega (arith, zero_live, filter-update_first_le (is_next d k) (is_live d' k') promoted runs)
  | inr other ↦ omega (
    arith,
    one d' k',
    filter-update_first_eq (is_next d k) (is_live d' k') promoted runs (distinct other),
  )
]
  where
    distinct :
        (d == d' && str_eq k k') ≡ false
        → (x : Run) → is_next d k x ≡ true
        → is_live d' k' (promoted x) ≡ true
        → is_live d' k' x ≡ true
    distinct other x n l =
        let both =
          has_key_unique d d' k k' x (is_next-key d k x n)
            (sym (has_key-promoted d' k' x) ∙ is_live-key d' k' (promoted x) l) in
        absurd (ground (arith, other, both.0, both.1))

AtMostOne-promote_chain :
    (fuel : ℕ) (env : Env) (t : Turn) (runs : List Run)
    → AtMostOne runs
    → IsFreed t runs
    → AtMostOne (promote_chain fuel env t runs)
unfolding promote_chain
AtMostOne-promote_chain fuel env (again r) runs one free = one
AtMostOne-promote_chain fuel env (returned r) runs one free = one
AtMostOne-promote_chain zero env (ended r) runs one free = one
AtMostOne-promote_chain (suc fuel) env (ended r) runs one free =
    let d = r.definition.definition_id in
    let after = (promote_next d r.concurrency_key runs).1 in
    let one_after = AtMostOne-promote_next d r.concurrency_key runs one free in
    elim (Option-cases (promote_next d r.concurrency_key runs).0) [
      | inl nobody ↦ rw (promote_chain, nobody) one_after
      | inr (q, found) ↦ elim (Option-cases (find? (has_run_id q.run_id) after)) [
        | inl missing ↦ rw (promote_chain, found, missing) one_after
        | inr (x, at) ↦
            rw (promote_chain, found, at)
              (AtMostOne-promote_chain fuel env (drive env x)
                (update_where (has_run_id q.run_id) (λ y. run_of (drive env y)) after)
                (AtMostOne-update (has_run_id q.run_id) (drive env) after (IsNarrow-drive env)
                  one_after)
                (IsFreed-update (has_run_id q.run_id) (drive env) after x (drive env x)
                  (IsNarrow-drive env) one_after at refl (IsNarrow-drive env x)))
      ]
    ]

pub AtMostOne-run_in :
    (env : Env) (operate : Run → Turn) (id : ℕ) (runs : List Run)
    → IsNarrow operate
    → AtMostOne runs
    → AtMostOne (run_in env operate id runs)
unfolding run_in
AtMostOne-run_in env operate id runs narrow one = elim (Option-cases (find? (has_run_id id) runs)) [
  | inl missing ↦ rw (run_in, missing) one
  | inr (r, at) ↦
      rw (run_in, at)
        (AtMostOne-promote_chain (length runs) env (operate r)
          (update_where (has_run_id id) (λ x. run_of (operate x)) runs)
          (AtMostOne-update (has_run_id id) operate runs narrow one)
          (IsFreed-update (has_run_id id) operate runs r (operate r) narrow one at refl (narrow r)))
]
