-- ===== src/Workflows/Advance/Live.antt =====
-- The loop of `_advance` ends, and what it leaves of a run.
use growth_operator.Workflows.Program.{Instr, compile_program, instr_at}
use growth_operator.Workflows.Run.{Run, is_done, is_running}
use growth_operator.Workflows.Executor.{Env}
use growth_operator.Workflows.Advance.{Turn, again, returned, ended, turn, advance, drive, fuel_of}
use growth_operator.Workflows.Advance.Progress.{Moves, Moves-turn}
use growth_operator.Prelude.{
  true, ◌<◌, some, false, ◌∷◌, suc, ℕ, ◌≡◌, length, refl, zero, List, [], arith, ap, inl, ◌+◌, inr,
  Option-cases,
}

instr_at_lt :
    (pc : ℕ) (program : List Instr) (ins : Instr)
    → instr_at pc program ≡ some ins
    → pc < length program
unfolding instr_at
instr_at_lt pc [] ins h = absurd (ground (arith, h))
instr_at_lt zero (i ∷ program) ins h = omega arith
instr_at_lt (suc pc) (i ∷ program) ins h = omega (arith, instr_at_lt pc program ins h)

abbrev size_of : Run → ℕ
size_of run = length (compile_program run.definition.steps)

-- A turn that goes round ran an instruction.
abbrev IsInside : Run → Turn → Type 0
IsInside run (again r) = run.cursor < size_of run
IsInside run (returned r) = Unit
IsInside run (ended r) = Unit

IsInside-any : (run : Run) (t : Turn) → run.cursor < size_of run → IsInside run t
IsInside-any run (again r) h = h
IsInside-any run (returned r) h = tt
IsInside-any run (ended r) h = tt

IsInside-turn : (env : Env) (run : Run) → is_running run.status ≡ true → IsInside run (turn env run)
unfolding turn
IsInside-turn env run s =
    elim (Option-cases (instr_at run.cursor (compile_program run.definition.steps))) [
      | inl past ↦ rw (turn, s, past) tt
      | inr (ins, at) ↦ IsInside-any run (turn env run) (instr_at_lt run.cursor _ ins at)
    ]

-- `P` of a run that goes on or is parked, `Q` of one that ended.
abbrev pub Keeps : (Run → Type 0) → (Run → Type 0) → Turn → Type 0
Keeps P Q (again r) = P r
Keeps P Q (returned r) = P r
Keeps P Q (ended r) = Q r

-- The loop returned, with these of its run.
abbrev pub Stops : (Run → Type 0) → (Run → Type 0) → Turn → Type 0
Stops P Q (again r) = ⊥
Stops P Q (returned r) = P r × (is_running r.status ≡ false)
Stops P Q (ended r) = Q r × (is_done r.status ≡ true)

module _ (P Q : Run → Type 0)
    (keeps : (run : Run) (t : Turn)
      → is_running run.status ≡ true
      → P run
      → Moves run t
      → Keeps P Q t) where
  Stops-turn :
      (fuel : ℕ) (env : Env) (run : Run) (t : Turn)
      → turn env run ≡ t
      → is_running run.status ≡ true
      → P run
      → Moves run t
      → IsInside run t
      → size_of run < run.cursor + suc fuel
      → ((r : Run)
          → is_running r.status ≡ true
          → P r
          → 0 < fuel
          → size_of r < r.cursor + fuel
          → Stops P Q (advance fuel env r))
      → Stops P Q (advance (suc fuel) env run)
  unfolding advance
  Stops-turn fuel env run (again r) e s p moves inside enough rest =
      let size : size_of r ≡ size_of run = ap (λ d. length (compile_program d.steps)) moves.1.0 in
      rw (advance, e)
        (rest r moves.2 (keeps run (again r) s p moves) (omega (arith, inside, enough))
          (omega (arith, size, moves.0, enough)))
  Stops-turn fuel env run (returned r) e s p moves inside enough rest =
      rw (advance, e) (keeps run (returned r) s p moves, moves.2)
  Stops-turn fuel env run (ended r) e s p moves inside enough rest =
      rw (advance, e) (keeps run (ended r) s p moves, moves.2)

  -- The rule of the loop: what the turns keep holds where it returns, and the fuel is enough.
  pub advance-Stops :
      (fuel : ℕ) (env : Env) (run : Run)
      → is_running run.status ≡ true
      → P run
      → 0 < fuel
      → size_of run < run.cursor + fuel
      → Stops P Q (advance fuel env run)
  advance-Stops zero env run s p some_fuel enough = absurd (omega (arith, some_fuel))
  advance-Stops (suc fuel) env run s p some_fuel enough =
      Stops-turn fuel env run (turn env run) refl s p (Moves-turn env run s)
        (IsInside-turn env run s) enough (advance-Stops fuel env)

  pub drive-Stops :
      (env : Env) (run : Run) → is_running run.status ≡ true → P run → Stops P Q (drive env run)
  unfolding drive fuel_of
  drive-Stops env run s p = advance-Stops (fuel_of run) env run s p (omega arith) (omega arith)
