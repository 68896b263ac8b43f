-- ===== src/Workflows/Executor/Unwound.antt =====
-- core/workflows/executor.py, _run_compensation: its loop comes to the end of its program.
use growth_operator.Workflows.Program.{
  Instr, Steps, set_op, emit_op, agent_op, tool_op, wait_op, human_op, branch_op, jump_op, noop,
  end_op, compile_program, instr_at, emit_steps,
}
use growth_operator.Workflows.Program.Forward.{Leads, compile_program_forward}
use growth_operator.Workflows.Run.{Run}
use growth_operator.Workflows.Executor.{
  Env, Unwinding, unwound, unwind_at, unwind, run_compensation, is_end, activation_of,
}
use growth_operator.Workflows.Advance.Progress.{target-Ahead}
use growth_operator.Prelude.{
  ap, ℕ, Option, some, Option-cases, none, inl, List, ◌∷◌, suc, zero, Bool-cases, inr, ◌≡◌, true,
  ◌∙◌, refl, [], false, length, sym, ◌<◌, ◌≤◌, ◌+◌, arith, ◌⊎◌,
}

-- What `compile_program_forward` says of a program whose last instruction is at `last`.
abbrev IsCompiled : ℕ → List Instr → Type 0
IsCompiled last program =
    (instr_at last program ≡ some end_op)
    × ((pc : ℕ) (ins : Instr) → instr_at pc program ≡ some ins → Leads pc last ins)

some_instr : {a b : Instr} → some a ≡ some b → a ≡ b
some_instr e = cc

le-cases : (a b : ℕ) → a ≤ b → (a < b) ⊎ (a ≡ b)
le-cases zero zero h = inr refl
le-cases zero (suc b) h = inl (omega arith)
le-cases (suc a) zero h = absurd (omega (arith, h))
le-cases (suc a) (suc b) h = elim (le-cases a b (omega (arith, h))) [
  | inl lt ↦ inl (omega (arith, lt))
  | inr same ↦ inr (ap (λ n. suc n) same)
]

-- An instruction that is no `END` leads on, and not past the last one.
unwind_at_forward :
    (env : Env) (last : ℕ) (u : Unwinding) (ins : Instr)
    → u.pc < last
    → Leads u.pc last ins
    → is_end ins ≡ false
    → (u.pc < (unwind_at env u ins).pc) × ((unwind_at env u ins).pc ≤ last)
unfolding unwind_at unwound is_end
unwind_at_forward env last u (set_op _) lt h e = (omega arith, omega (arith, lt))
unwind_at_forward env last u (emit_op _ _) lt h e = (omega arith, omega (arith, lt))
unwind_at_forward env last u (agent_op _) lt h e = (omega arith, omega (arith, lt))
unwind_at_forward env last u (tool_op _) lt h e = (omega arith, omega (arith, lt))
unwind_at_forward env last u (wait_op _) lt h e = (omega arith, omega (arith, lt))
unwind_at_forward env last u (human_op _) lt h e = (omega arith, omega (arith, lt))
unwind_at_forward env last u noop lt h e = (omega arith, omega (arith, lt))
unwind_at_forward env last u (jump_op (some target)) lt ((ahead, within), t) e = (ahead, within)
unwind_at_forward env last u (jump_op none) lt (g, t) e = absurd t
unwind_at_forward env last u (branch_op cases default) lt ((h, d), t) e =
    target-Ahead env (activation_of u.vars u.run.subject) cases default u.pc last h d
unwind_at_forward env last u end_op lt h e = cc

-- Where a program has no instruction, it has none further on.
instr_at-past :
    (program : List Instr) (pc last : ℕ)
    → pc ≤ last
    → instr_at pc program ≡ none
    → instr_at last program ≡ none
unfolding instr_at
instr_at-past [] pc last le h = refl
instr_at-past (i ∷ program) zero last le h = cc
instr_at-past (i ∷ program) (suc pc) zero le h = absurd (omega (arith, le))
instr_at-past (i ∷ program) (suc pc) (suc last) le h =
    instr_at-past program pc last (omega (arith, le)) h

is_end-end : (ins : Instr) → is_end ins ≡ true → ins ≡ end_op
unfolding is_end
is_end-end (set_op _) e = cc
is_end-end (emit_op _ _) e = cc
is_end-end (agent_op _) e = cc
is_end-end (tool_op _) e = cc
is_end-end (wait_op _) e = cc
is_end-end (human_op _) e = cc
is_end-end (jump_op _) e = cc
is_end-end (branch_op _ _) e = cc
is_end-end noop e = cc
is_end-end end_op e = refl

-- An instruction that is no `END` stands before the last one.
before-last :
    (last pc : ℕ) (program : List Instr) (ins : Instr)
    → instr_at last program ≡ some end_op
    → instr_at pc program ≡ some ins
    → is_end ins ≡ false
    → pc ≤ last
    → pc < last
unfolding is_end
before-last last pc program ins ended at e le = elim (le-cases pc last le) [
  | inl lt ↦ lt
  | inr same ↦
      absurd (differ (some_instr (sym ended ∙ ap (λ n. instr_at n program) (sym same) ∙ at)))
]
  where
    differ : end_op ≡ ins → ⊥
    differ p = cc

unwind-ends :
    (env : Env) (last : ℕ) (program : List Instr)
    → IsCompiled last program
    → (fuel : ℕ) (u : Unwinding) → u.pc ≤ last
    → last < u.pc + fuel
    → instr_at (unwind fuel env program u).pc program ≡ some end_op
unfolding unwind
unwind-ends env last program c zero u le enough = absurd (omega (arith, le, enough))
unwind-ends env last program c (suc fuel) u le enough =
    elim (Option-cases (instr_at u.pc program)) [
      | inl past ↦ absurd (clash (instr_at-past program u.pc last le past) c.0)
      | inr (ins, at) ↦ elim (Bool-cases (is_end ins)) [
        | inl end ↦ rw (unwind, at, end) (at ∙ ap (λ i. some i) (is_end-end ins end))
        | inr goes ↦
            let ahead =
              unwind_at_forward env last u ins (before-last last u.pc program ins c.0 at goes le)
                (c.1 u.pc ins at) goes in
            rw (unwind, at, goes)
              (unwind-ends env last program c fuel (unwind_at env u ins) ahead.1
                (omega (arith, ahead.0, enough)))
      ]
    ]
  where
    clash : {a : Option Instr} → a ≡ none → a ≡ some end_op → ⊥
    clash p q = cc

-- The compensation of these steps, from this run, comes to the `END` of its program.
abbrev pub Unwinds : Env → Steps → Run → Type 0
Unwinds env steps run =
    instr_at (run_compensation env steps run).pc (compile_program steps) ≡ some end_op

-- The loop of `_run_compensation` comes to the `END` of its program: the fuel is enough.
pub run_compensation-ends : (env : Env) (steps : Steps) (run : Run) → Unwinds env steps run
unfolding run_compensation
run_compensation-ends env steps run =
    let (size, ended, leads) = compile_program_forward steps in
    unwind-ends env (length (emit_steps steps 0)) (compile_program steps) (ended, leads)
      (length (compile_program steps))
      record { run = run; vars = run.vars; pc = 0; is_partial = false } (omega arith)
      (omega (arith, size))
