-- ===== src/Workflows/Program/Forward.antt =====
-- Every instruction of a compiled program has its targets, all of them ahead of it.
use growth_operator.Prelude.{
  ℕ, ◌+◌, ◌≤◌, suc, List, [], ◌∷◌, ◌++◌, none, some, ◌≡◌, refl, All, length, length-append, arith,
  zero,
}
use mathlib.Core.Path.{subst}
use growth_operator.Workflows.Program.{
  Instr, set_op, emit_op, agent_op, tool_op, wait_op, human_op, branch_op, jump_op, noop, end_op,
  fill, with_target, emit_step, emit_steps, emit_cases, compile_program, instr_at, Step, Steps,
  Cases, set, emit, agent_task, tool_call, wait, human_task, branch, loop, stop, then_step, no_case,
  when,
}
use growth_operator.Workflows.Program.Blocks.{
  Goes, IsForward, IsForward-append, IsForward-branch, All-below, All-within, join,
}

mutual
  unfolding emit_step

  emit_step-IsForward :
      (s : Step) (base : ℕ) → IsForward base (base + length (emit_step s base)) (emit_step s base)
  emit_step-IsForward (set _) base = (tt, tt)
  emit_step-IsForward (emit _ _) base = (tt, tt)
  emit_step-IsForward (agent_task _) base = (tt, tt)
  emit_step-IsForward (tool_call _) base = (tt, tt)
  emit_step-IsForward (wait _) base = (tt, tt)
  emit_step-IsForward (human_task _) base = (tt, tt)
  emit_step-IsForward (branch cases default) base =
      let cs = emit_cases-IsForward cases (suc base) in
      IsForward-branch base
        (suc (
          suc base
          + length (emit_cases cases (suc base)).1
          + length (emit_steps default (suc base + length (emit_cases cases (suc base)).1))))
        (emit_cases cases (suc base)).0 (emit_cases cases (suc base)).1
        (emit_steps default (suc base + length (emit_cases cases (suc base)).1)) refl
        (All-below base (suc base) (suc base + length (emit_cases cases (suc base)).1)
          (emit_cases cases (suc base)).0 (omega arith) cs.0)
        cs.1 (emit_steps-IsForward default (suc base + length (emit_cases cases (suc base)).1))
  emit_step-IsForward loop base = (tt, tt)

  emit_steps-IsForward :
      (ss : Steps) (base : ℕ)
      → IsForward base (base + length (emit_steps ss base)) (emit_steps ss base)
  emit_steps-IsForward stop base = tt
  emit_steps-IsForward (then_step s ss) base =
      join base (emit_step s base) (emit_steps ss (base + length (emit_step s base)))
        (emit_step-IsForward s base) (emit_steps-IsForward ss (base + length (emit_step s base)))

  emit_cases-IsForward :
      (cs : Cases) (base : ℕ)
      → let r = emit_cases cs base in
        All (λ c. base ≤ c.1 × c.1 ≤ base + length r.1) r.0 × IsForward base (base + length r.1) r.1
  emit_cases-IsForward no_case base = (tt, tt)
  emit_cases-IsForward (when test ss cs) base =
      let body = emit_steps ss base in
      let code = body ++ jump_op none ∷ [] in
      let rest = emit_cases-IsForward cs (base + length code) in
      let more = (emit_cases cs (base + length code)).1 in
      let size = length-append {0} code more in
      (
        (
          (omega arith, omega arith),
          All-within (base + length code) base (base + length code + length more)
              (base + length (code ++ more)) (emit_cases cs (base + length code)).0 (omega arith)
              (omega (arith, size)) rest.0,
        ),
        join base code more
            (join base body (jump_op none ∷ []) (emit_steps-IsForward ss base) (tt, tt)) rest.1,
      )

abbrev HasTarget : Instr → Type 0
HasTarget (jump_op none) = ⊥
HasTarget _ = Unit

HasTarget-with_target : (e : ℕ) (ins : Instr) → HasTarget (with_target e ins)
unfolding with_target
HasTarget-with_target e (jump_op none) = tt
HasTarget-with_target e (jump_op (some t)) = tt
HasTarget-with_target e (branch_op _ _) = tt
HasTarget-with_target e (set_op _) = tt
HasTarget-with_target e (emit_op _ _) = tt
HasTarget-with_target e (agent_op _) = tt
HasTarget-with_target e (tool_op _) = tt
HasTarget-with_target e (wait_op _) = tt
HasTarget-with_target e (human_op _) = tt
HasTarget-with_target e noop = tt
HasTarget-with_target e end_op = tt

-- `fill` leaves no jump without a target.
HasTarget-fill : (e : ℕ) (code : List Instr) → All HasTarget (fill e code)
unfolding fill
HasTarget-fill e [] = tt
HasTarget-fill e (ins ∷ code) = (HasTarget-with_target e ins, HasTarget-fill e code)

All-append : (xs ys : List Instr) → All HasTarget xs → All HasTarget ys → All HasTarget (xs ++ ys)
All-append [] ys h k = k
All-append (x ∷ xs) ys (g, h) k = (g, All-append xs ys h k)

HasTarget-emit_step : (s : Step) (base : ℕ) → All HasTarget (emit_step s base)
unfolding emit_step
HasTarget-emit_step (set _) base = (tt, tt)
HasTarget-emit_step (emit _ _) base = (tt, tt)
HasTarget-emit_step (agent_task _) base = (tt, tt)
HasTarget-emit_step (tool_call _) base = (tt, tt)
HasTarget-emit_step (wait _) base = (tt, tt)
HasTarget-emit_step (human_task _) base = (tt, tt)
HasTarget-emit_step (branch cases default) base = (tt, HasTarget-fill _ _)
HasTarget-emit_step loop base = (tt, tt)

HasTarget-emit_steps : (ss : Steps) (base : ℕ) → All HasTarget (emit_steps ss base)
unfolding emit_step
HasTarget-emit_steps stop base = tt
HasTarget-emit_steps (then_step s ss) base =
    All-append (emit_step s base) (emit_steps ss (base + length (emit_step s base)))
      (HasTarget-emit_step s base) (HasTarget-emit_steps ss (base + length (emit_step s base)))

-- The instruction at `pc` has its targets, all of them ahead of it and up to `end`.
abbrev pub Leads : ℕ → ℕ → Instr → Type 0
Leads pc end ins = Goes pc end ins × HasTarget ins

some-injective : {a b : Instr} → some a ≡ some b → a ≡ b
some-injective h = cc

Leads-instr_at :
    (base e pc : ℕ) (code : List Instr) (ins : Instr)
    → IsForward base e code
    → All HasTarget code
    → instr_at pc code ≡ some ins
    → Leads (base + pc) e ins
unfolding instr_at
Leads-instr_at base e pc [] ins h k at = absurd (ground (arith, at))
Leads-instr_at base e zero (i ∷ code) ins (g, h) (t, k) at =
    subst (λ x. Leads (base + 0) e x) (some-injective at)
      (subst (λ p. Goes p e i) (omega arith) g, t)
Leads-instr_at base e (suc pc) (i ∷ code) ins (g, h) (t, k) at =
    subst (λ p. Leads p e ins) (omega arith) (Leads-instr_at (suc base) e pc code ins h k at)

instr_at-last : (body : List Instr) → instr_at (length body) (body ++ end_op ∷ []) ≡ some end_op
unfolding instr_at
instr_at-last [] = refl
instr_at-last (i ∷ body) = instr_at-last body

-- The last instruction of a compiled program is its `END`, and each instruction has all its targets,
-- every one of them after the instruction and not after that `END`. So a run has no cycle.
pub compile_program_forward :
    (steps : Steps)
    → let last = length (emit_steps steps 0) in
      (length (compile_program steps) ≡ suc last)
      × (instr_at last (compile_program steps) ≡ some end_op)
      × ((pc : ℕ) (ins : Instr)
          → instr_at pc (compile_program steps) ≡ some ins
          → Leads pc last ins)
unfolding compile_program
compile_program_forward steps =
    let body = emit_steps steps 0 in
    let last = length body in
    let forward =
      IsForward-append 0 last body (end_op ∷ [])
        (subst (λ n. IsForward 0 n body) (omega arith) (emit_steps-IsForward steps 0)) (tt, tt) in
    (
      omega (arith, length-append {0} body (end_op ∷ [])),
      instr_at-last body,
      λ pc ins at.
          subst (λ p. Leads p last ins) (omega arith)
            (Leads-instr_at 0 last pc (body ++ end_op ∷ []) ins forward
              (All-append body (end_op ∷ []) (HasTarget-emit_steps steps 0) (tt, tt)) at),
    )
