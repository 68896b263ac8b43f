-- ===== src/Workflows/Program.antt =====
-- core/workflows/program.py: the compiler of a definition's nested steps into a list of
-- instructions. `emit` appends to `program`; here a step becomes its block of instructions, and the
-- length that `program` has before it is an argument.
pub mod Blocks
pub mod Forward
use growth_operator.Prelude.{
  String, List, [], ◌∷◌, ◌++◌, Option, none, some, ℕ, ◌+◌, length, suc, zero,
}
use growth_operator.Prelude.Json.{Json}
use growth_operator.Workflows.Vars.{Vars}

pub record AgentTask : Type 0 where
  pub archetype : String
  pub task : String
  pub input_map : Vars
  pub timeout : Option Json
  pub tier : Option Json
  pub output : List String
  pub output_as : Option String

pub record ToolCall : Type 0 where
  pub name : String
  pub input_map : Vars
  pub output_as : Option String
  pub timeout : Option Json

pub record Wait : Type 0 where
  pub wait_for : String
  pub timeout : Option Json
  pub event : Option String

pub record HumanTask : Type 0 where
  pub kind : String
  pub assignee : Option String
  pub timeout : Option Json
  pub payload : Option Json
  pub mode : Option String
  pub options_from : Option String
  pub recommended : Option String
  pub label_sink : Option String

-- The steps of a validated definition.
mutual
  pub data Step : Type 0 where
    set : Vars → Step
    emit : String → Vars → Step
    agent_task : AgentTask → Step
    tool_call : ToolCall → Step
    wait : Wait → Step
    human_task : HumanTask → Step
    branch : Cases → Steps → Step
    loop : Step

  pub data Steps : Type 0 where
    stop : Steps
    then_step : Step → Steps → Steps

  pub data Cases : Type 0 where
    no_case : Cases
    when : String → Steps → Cases → Cases

-- The instructions. A `JUMP` has no target until its branch ends.
pub data Instr : Type 0 where
  set_op : Vars → Instr
  emit_op : String → Vars → Instr
  agent_op : AgentTask → Instr
  tool_op : ToolCall → Instr
  wait_op : Wait → Instr
  human_op : HumanTask → Instr
  branch_op : List (String × ℕ) → ℕ → Instr
  jump_op : Option ℕ → Instr
  noop : Instr
  end_op : Instr

-- `program[j]["target"] = end`, where the instruction is a jump that still has no target
unfoldable pub with_target : ℕ → Instr → Instr
with_target end (jump_op none) = jump_op (some end)
with_target end ins = ins

-- `for j in end_jumps`
unfoldable pub fill : ℕ → List Instr → List Instr
unfolding with_target
fill end [] = []
fill end (ins ∷ code) = with_target end ins ∷ fill end code

unfoldable mutual
  unfolding fill

  -- `emit` of one step
  pub emit_step : Step → ℕ → List Instr
  emit_step (set vars) base = set_op vars ∷ []
  emit_step (emit event payload_map) base = emit_op event payload_map ∷ []
  emit_step (agent_task t) base = agent_op t ∷ []
  emit_step (tool_call t) base = tool_op t ∷ []
  emit_step (wait w) base = wait_op w ∷ []
  emit_step (human_task h) base = human_op h ∷ []
  emit_step (branch cases default) base =
      let targets = (emit_cases cases (suc base)).0 in
      let code = (emit_cases cases (suc base)).1 in
      let default_at = suc base + length code in
      let default_code = emit_steps default default_at in
      let end = suc (default_at + length default_code) in
      branch_op targets default_at ∷ fill end (code ++ (default_code ++ jump_op none ∷ []))
  emit_step loop base = noop ∷ []

  pub emit_steps : Steps → ℕ → List Instr
  emit_steps stop base = []
  emit_steps (then_step s steps) base =
      let code = emit_step s base in code ++ emit_steps steps (base + length code)

  -- The targets of the cases, and their code with a jump after each.
  pub emit_cases : Cases → ℕ → List (String × ℕ) × List Instr
  emit_cases no_case base = ([], [])
  emit_cases (when test steps cases) base =
      let code = emit_steps steps base ++ jump_op none ∷ [] in
      let rest = emit_cases cases (base + length code) in ((test, base) ∷ rest.0, code ++ rest.1)

unfoldable pub compile_program : Steps → List Instr
unfolding emit_step
compile_program steps = emit_steps steps 0 ++ end_op ∷ []

-- `program[pc]`
unfoldable pub instr_at : ℕ → List Instr → Option Instr
instr_at pc [] = none
instr_at zero (ins ∷ program) = some ins
instr_at (suc pc) (ins ∷ program) = instr_at pc program
