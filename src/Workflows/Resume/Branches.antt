-- ===== src/Workflows/Resume/Branches.antt =====
-- The calls of core/workflows/executor.py that resume a run, branch by branch.
use growth_operator.Workflows.Run.{Run, is_waiting}
use growth_operator.Workflows.Executor.{Env, compensate}
use growth_operator.Workflows.Advance.{returned, drive}
use growth_operator.Workflows.Resume.{
  wake_run, resume_human, resume_tool, woken, resolved, tool_decided, resume_human_if,
  resume_tool_if,
}
use growth_operator.Prelude.{refl, true, false, str_eq, ◌≡◌, String, Option}

module _ (env : Env) (run : Run) where
  pub wake_run-idle :
      (result : String)
      → is_waiting run.status ≡ false
      → wake_run env result run ≡ (false, returned run)
  unfolding wake_run
  wake_run-idle result off = rw (wake_run, off) refl

  pub wake_run-drive :
      (result : String)
      → is_waiting run.status ≡ true
      → wake_run env result run ≡ (true, drive env (woken result run))
  unfolding wake_run
  wake_run-drive result w = rw (wake_run, w) refl

  pub resume_human-idle :
      (decision : String)
      → is_waiting run.status ≡ false
      → resume_human env decision run ≡ (false, returned run)
  unfolding resume_human resume_human_if
  resume_human-idle decision off =
      λ i. resume_human_if (off i) (str_eq decision "approved") env decision run

  pub resume_human-drive :
      (decision : String)
      → is_waiting run.status ≡ true
      → str_eq decision "approved" ≡ true
      → resume_human env decision run ≡ (true, drive env (resolved decision run))
  unfolding resume_human resume_human_if
  resume_human-drive decision w d = λ i. resume_human_if (w i) (d i) env decision run

  pub resume_human-compensate :
      (decision : String)
      → is_waiting run.status ≡ true
      → str_eq decision "approved" ≡ false
      → resume_human env decision run
        ≡ (true, returned (compensate env "human_task rejected" (resolved decision run)))
  unfolding resume_human resume_human_if
  resume_human-compensate decision w d = λ i. resume_human_if (w i) (d i) env decision run

  pub resume_tool-idle :
      (decision : String) (tool : Option String)
      → is_waiting run.status ≡ false
      → resume_tool env decision tool run ≡ (false, returned run)
  unfolding resume_tool resume_tool_if
  resume_tool-idle decision tool off =
      λ i. resume_tool_if (off i) (str_eq decision "approved") env decision tool run

  pub resume_tool-drive :
      (decision : String) (tool : Option String)
      → is_waiting run.status ≡ true
      → str_eq decision "approved" ≡ true
      → resume_tool env decision tool run ≡ (true, drive env (tool_decided decision tool run))
  unfolding resume_tool resume_tool_if
  resume_tool-drive decision tool w d = λ i. resume_tool_if (w i) (d i) env decision tool run

  pub resume_tool-compensate :
      (decision : String) (tool : Option String)
      → is_waiting run.status ≡ true
      → str_eq decision "approved" ≡ false
      → resume_tool env decision tool run
        ≡ (true, returned (compensate env "tool_call rejected" (tool_decided decision tool run)))
  unfolding resume_tool resume_tool_if
  resume_tool-compensate decision tool w d = λ i. resume_tool_if (w i) (d i) env decision tool run
