-- ===== src/Mediation/Limits/Window.antt =====
-- No 60-second window holds more calls than the limit allows; budgets count what is recorded.
use growth_operator.Mediation.Limits.{RateEntry, is_key, is_recent, prune, check_rate, second}
use growth_operator.Prelude.{
  Bool, if◌then◌else◌, arith, String, str_eq_iff, filter, length, some, ◌≡◌, List, refl, leb, inr,
  inl, ◌≤◌, [], true, ◌&&◌, Option, ℕ, ◌∷◌, Option-cases, Bool-cases, ◌<◌, length-filter_mono, ltb,
  ◌+◌, ◌*◌,
}

-- The calls that were let through and the sorted sets, after a sequence of calls, the newest first.
unfoldable pub run_calls :
    (ℕ → String → Option ℕ) → List RateEntry → List RateEntry × List RateEntry
run_calls limits [] = ([], [])
run_calls limits (c ∷ older) =
    let (let_through, entries) = run_calls limits older in
    let (ok, entries') =
      check_rate c.score c.instance_id c.tool (limits c.instance_id c.tool) entries in
    (if ok then c ∷ let_through else let_through, entries')

abbrev pub last_time : List RateEntry → ℕ
last_time [] = 0
last_time (c ∷ older) = c.score

-- The clock does not go back.
abbrev pub InOrder : List RateEntry → Type 0
InOrder [] = Unit
InOrder (c ∷ older) = (last_time older ≤ c.score) × InOrder older

-- The call is one of the key's, and is in the 60 seconds up to a time.
abbrev pub in_window : ℕ → String → ℕ → RateEntry → Bool
in_window instance tool until e =
    is_key instance tool e && (ltb until (e.score + 60 * second) && leb e.score until)

abbrev key_recent : ℕ → String → ℕ → RateEntry → Bool
key_recent instance tool now e = is_key instance tool e && is_recent now e

count_prune :
    (instance : ℕ) (tool : String) (instance' : ℕ) (tool' : String) (now until : ℕ)
    (entries : List RateEntry)
    → now ≤ until
    → length (filter (key_recent instance tool until) (prune now instance' tool' entries))
      ≡ length (filter (key_recent instance tool until) entries)
unfolding prune is_recent
count_prune instance tool instance' tool' now until [] le = refl
count_prune instance tool instance' tool' now until (e ∷ entries) le =
    ground (arith, count_prune instance tool instance' tool' now until entries le)

-- What is left of the key after pruning is what is recent.
count_kept :
    (instance : ℕ) (tool : String) (now : ℕ) (entries : List RateEntry)
    → length (filter (is_key instance tool) (prune now instance tool entries))
      ≡ length (filter (key_recent instance tool now) entries)
unfolding prune
count_kept instance tool now [] = refl
count_kept instance tool now (e ∷ entries) = ground (arith, count_kept instance tool now entries)

module _ (limits : ℕ → String → Option ℕ) (instance : ℕ) (tool : String) (per_min : ℕ)
    (limited : limits instance tool ≡ some per_min) where
  abbrev count : ℕ → List RateEntry → ℕ
  count until xs = length (filter (key_recent instance tool until) xs)

  limits_of_key :
      (c : RateEntry) → is_key instance tool c ≡ true → limits c.instance_id c.tool ≡ some per_min
  unfolding is_key
  limits_of_key c h =
      let same : instance ≡ c.instance_id = ground arith in
      let same_tool : c.tool ≡ tool = (str_eq_iff c.tool tool).0 (ground arith) in
      rw (← same, same_tool) limited

  -- One call: the sorted sets gain what is let through, if it is the key's.
  count-step :
      (c : RateEntry) (until : ℕ) (entries let_through : List RateEntry)
      → c.score ≤ until
      → count until entries ≡ count until let_through
      → let (ok, entries') =
          check_rate c.score c.instance_id c.tool (limits c.instance_id c.tool) entries in
        count until entries' ≡ count until (if ok then c ∷ let_through else let_through)
  unfolding check_rate
  count-step c until entries let_through le h = elim (Option-cases (limits c.instance_id c.tool)) [
    | inl free ↦ ground (arith, limits_of_key c)
    | inr (n, set) ↦
        ground (arith, set, count_prune instance tool c.instance_id c.tool c.score until entries le)
  ]

  -- The sorted sets agree with what was let through, from the last call on.
  count_same :
      (cs : List RateEntry) (until : ℕ)
      → InOrder cs
      → last_time cs ≤ until
      → count until (run_calls limits cs).1 ≡ count until (run_calls limits cs).0
  unfolding run_calls
  count_same [] until o le = refl
  count_same (c ∷ older) until o le =
      count-step c until _ _ le (count_same older until o.1 (omega (arith, o.0)))

  -- A call of the key is let through only if its window has room.
  count-lt-of-ok :
      (c : RateEntry) (entries : List RateEntry)
      → is_key instance tool c ≡ true
      → (check_rate c.score c.instance_id c.tool (limits c.instance_id c.tool) entries).0 ≡ true
      → count c.score entries < per_min
  unfolding check_rate is_key
  count-lt-of-ok c entries h ok =
      let set = limits_of_key c h in
      let same : c.instance_id ≡ instance = ground arith in
      let same_tool : c.tool ≡ tool = (str_eq_iff c.tool tool).0 (ground arith) in
      ground (arith, set, same, same_tool, count_kept instance tool c.score entries)

  window-le-count :
      (until now : ℕ) (xs : List RateEntry)
      → now ≤ until
      → length (filter (in_window instance tool until) xs) ≤ count now xs
  unfolding is_recent
  window-le-count until now xs le =
      length-filter_mono (in_window instance tool until) (key_recent instance tool now) xs
        (λ e h. ground arith)

  -- No window of 60 seconds, wherever it ends, has more calls of the key that were let through than
  -- the limit: a limit of `n` lets at most `n` of them through in a window, over any sequence of
  -- calls for this and other keys in the order of the clock.
  pub run_calls-within-limit :
      (cs : List RateEntry) (until : ℕ)
      → InOrder cs
      → length (filter (in_window instance tool until) (run_calls limits cs).0) ≤ per_min
  unfolding run_calls
  run_calls-within-limit [] until o = omega arith
  run_calls-within-limit (c ∷ older) until o =
      let ih = run_calls-within-limit older until o.1 in
      elim (Bool-cases (in_window instance tool until c)) [
        | inl there ↦
            elim (Bool-cases
              (check_rate c.score c.instance_id c.tool (limits c.instance_id c.tool)
                (run_calls limits older).1).0) [
                  | inl ok ↦
                      let room = count-lt-of-ok c (run_calls limits older).1 (ground arith) ok in
                      let same = count_same older c.score o.1 o.0 in
                      let le =
                        window-le-count until c.score (run_calls limits older).0 (ground arith) in
                      ground (arith, ok, there, room, same, le)
                  | inr refused ↦ ground (arith, refused, ih)
                ]
        | inr other ↦ ground (arith, other, ih)
      ]
