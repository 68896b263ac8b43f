-- ===== src/Workflows/Program/Blocks.antt =====
-- Blocks of instructions whose targets lie ahead of them and inside the block.
use growth_operator.Prelude.{
  ℕ, ◌+◌, ◌<◌, ◌≤◌, suc, List, [], ◌∷◌, ◌++◌, none, some, ◌≡◌, refl, All, length, length-append,
  arith, sym, String,
}
use mathlib.Core.Path.{subst}
use growth_operator.Workflows.Program.{
  Instr, set_op, emit_op, agent_op, tool_op, wait_op, human_op, branch_op, jump_op, noop, end_op,
  fill, with_target,
}

abbrev pub Ahead : ℕ → ℕ → ℕ → Type 0
Ahead pc end target = pc < target × target ≤ end

-- The targets of the instruction at `pc`, up to `end`.
abbrev pub Goes : ℕ → ℕ → Instr → Type 0
Goes pc end (branch_op targets default) = All (λ c. Ahead pc end c.1) targets × Ahead pc end default
Goes pc end (jump_op (some target)) = Ahead pc end target
Goes pc end _ = Unit

abbrev pub IsForward : ℕ → ℕ → List Instr → Type 0
IsForward pc end [] = Unit
IsForward pc end (ins ∷ code) = Goes pc end ins × IsForward (suc pc) end code

All-mono-Ahead :
    (pc e e' : ℕ) (targets : List (String × ℕ))
    → e ≤ e'
    → All (λ c. Ahead pc e c.1) targets
    → All (λ c. Ahead pc e' c.1) targets
All-mono-Ahead pc e e' [] le h = tt
All-mono-Ahead pc e e' (c ∷ cs) le ((lo, hi), h) =
    ((lo, omega (arith, hi, le)), All-mono-Ahead pc e e' cs le h)

Goes-mono : (pc e e' : ℕ) (ins : Instr) → e ≤ e' → Goes pc e ins → Goes pc e' ins
Goes-mono pc e e' (branch_op targets default) le (h, (lo, hi)) =
    (All-mono-Ahead pc e e' targets le h, (lo, omega (arith, hi, le)))
Goes-mono pc e e' (jump_op (some t)) le (lo, hi) = (lo, omega (arith, hi, le))
Goes-mono pc e e' (jump_op none) le h = tt
Goes-mono pc e e' (set_op _) le h = tt
Goes-mono pc e e' (emit_op _ _) le h = tt
Goes-mono pc e e' (agent_op _) le h = tt
Goes-mono pc e e' (tool_op _) le h = tt
Goes-mono pc e e' (wait_op _) le h = tt
Goes-mono pc e e' (human_op _) le h = tt
Goes-mono pc e e' noop le h = tt
Goes-mono pc e e' end_op le h = tt

IsForward-mono :
    (pc e e' : ℕ) (code : List Instr) → e ≤ e' → IsForward pc e code → IsForward pc e' code
IsForward-mono pc e e' [] le h = tt
IsForward-mono pc e e' (ins ∷ code) le (g, h) =
    (Goes-mono pc e e' ins le g, IsForward-mono (suc pc) e e' code le h)

pub IsForward-append :
    (pc e : ℕ) (xs ys : List Instr)
    → IsForward pc e xs
    → IsForward (pc + length xs) e ys
    → IsForward pc e (xs ++ ys)
IsForward-append pc e [] ys h k = subst (λ p. IsForward p e ys) (omega arith) k
IsForward-append pc e (x ∷ xs) ys (g, h) k =
    (g, IsForward-append (suc pc) e xs ys h (subst (λ p. IsForward p e ys) (omega arith) k))

Goes-with_target :
    (pc e : ℕ) (ins : Instr) → suc pc ≤ e → Goes pc e ins → Goes pc e (with_target e ins)
unfolding with_target
Goes-with_target pc e (jump_op none) le g = (omega (arith, le), omega arith)
Goes-with_target pc e (jump_op (some t)) le g = g
Goes-with_target pc e (branch_op t d) le g = g
Goes-with_target pc e (set_op _) le g = g
Goes-with_target pc e (emit_op _ _) le g = g
Goes-with_target pc e (agent_op _) le g = g
Goes-with_target pc e (tool_op _) le g = g
Goes-with_target pc e (wait_op _) le g = g
Goes-with_target pc e (human_op _) le g = g
Goes-with_target pc e noop le g = g
Goes-with_target pc e end_op le g = g

IsForward-fill :
    (pc e : ℕ) (code : List Instr)
    → pc + length code ≤ e
    → IsForward pc e code
    → IsForward pc e (fill e code)
unfolding fill
IsForward-fill pc e [] le h = tt
IsForward-fill pc e (ins ∷ code) le (g, h) = (
  Goes-with_target pc e ins (omega (arith, le)) g,
  IsForward-fill (suc pc) e code (omega (arith, le)) h,
)

length-fill : (e : ℕ) (code : List Instr) → length (fill e code) ≡ length code
unfolding fill
length-fill e [] = refl
length-fill e (ins ∷ code) = omega (arith, length-fill e code)

-- A branch, from its parts.
pub IsForward-branch :
    (base e : ℕ) (targets : List (String × ℕ)) (code default_code : List Instr)
    → e ≡ suc (suc base + length code + length default_code)
    → All (λ c. Ahead base (suc base + length code) c.1) targets
    → IsForward (suc base) (suc base + length code) code
    → IsForward (suc base + length code) (suc base + length code + length default_code) default_code
    → let block = fill e (code ++ (default_code ++ jump_op none ∷ [])) in
      IsForward base
        (base + suc (length block))
        (branch_op targets (suc base + length code) ∷ block)
IsForward-branch base e targets code default_code size ahead h k =
    let raw = code ++ (default_code ++ jump_op none ∷ []) in
    let ends : suc base + length raw ≡ e = omega (
      arith,
      size,
      length-append {0} code (default_code ++ jump_op none ∷ []),
      length-append {0} default_code (jump_op none ∷ []),
    ) in
    let end : base + suc (length (fill e raw)) ≡ e = omega (arith, ends, length-fill e raw) in
    let tail =
      IsForward-append (suc base + length code) e default_code (jump_op none ∷ [])
        (IsForward-mono (suc base + length code) (suc base + length code + length default_code) e
          default_code (omega (arith, size)) k)
        (tt, tt) in
    let whole =
      IsForward-append (suc base) e code (default_code ++ jump_op none ∷ [])
        (IsForward-mono (suc base) (suc base + length code) e code (omega (arith, size)) h) tail in
    subst (λ n. IsForward base n (branch_op targets (suc base + length code) ∷ fill e raw))
      (sym end)
      (
        (
          All-mono-Ahead base (suc base + length code) e targets (omega (arith, size)) ahead,
          (omega arith, omega (arith, size)),
        ),
        IsForward-fill (suc base) e raw (omega (arith, ends)) whole,
      )

pub All-below :
    (base lo end : ℕ) (targets : List (String × ℕ))
    → base < lo
    → All (λ c. lo ≤ c.1 × c.1 ≤ end) targets
    → All (λ c. Ahead base end c.1) targets
All-below base lo end [] lt h = tt
All-below base lo end (c ∷ cs) lt ((a, b), h) =
    ((omega (arith, a, lt), b), All-below base lo end cs lt h)

pub All-within :
    (lo lo' end end' : ℕ) (targets : List (String × ℕ))
    → lo' ≤ lo
    → end ≤ end'
    → All (λ c. lo ≤ c.1 × c.1 ≤ end) targets
    → All (λ c. lo' ≤ c.1 × c.1 ≤ end') targets
All-within lo lo' end end' [] le le' h = tt
All-within lo lo' end end' (c ∷ cs) le le' ((a, b), h) =
    ((omega (arith, a, le), omega (arith, b, le')), All-within lo lo' end end' cs le le' h)

-- Two blocks that follow each other.
pub join :
    (base : ℕ) (xs ys : List Instr)
    → IsForward base (base + length xs) xs
    → IsForward (base + length xs) (base + length xs + length ys) ys
    → IsForward base (base + length (xs ++ ys)) (xs ++ ys)
join base xs ys h k =
    subst (λ n. IsForward base n (xs ++ ys)) (omega (arith, length-append {0} xs ys))
      (IsForward-append base (base + length xs + length ys) xs ys
        (IsForward-mono base (base + length xs) (base + length xs + length ys) xs (omega arith) h)
        k)
