-- ===== src/Orchestrator.antt =====
-- src/taskweave/pipeline/pipeline_orchestrator.py over one pipeline: its commands, the run phase, the
-- callbacks that the runners call, and the clean-up. Its tasks have a SynchronousStrategy or an
-- ExternalStrategy: a pool is not modelled. A `_runner` is never an ExternalStrategy object (that
-- strategy's runner is None), so that the test `isinstance(task._runner, ExternalStrategy)` of
-- `_next_task` always fails.
pub mod Invariant
pub mod Outcomes
pub mod Single
mod Examples
use taskweave.Base.{
  ℕ, suc, ◌+◌, ◌-◌, ◌==◌, Bool, true, false, if◌then◌else◌, ◌||◌, leb, Option, none, some, List, [],
  ◌∷◌, length, get_elem?, range_from, Outcome, done, raised, Stmt, fail, skip, for_each, ◌>>=◌,
  ◌>>◌, update,
}
use taskweave.Exceptions.{Exception, attribute_error, unbound_local, stop_iteration}
use taskweave.Protocol.{TaskId, same_task_id}
use taskweave.Lifecycle.{Cycle, TaskState, PipelineState, task_state_enum}
use taskweave.Runtime.{
  FinalStatus, Manager, RunnerObject, subprocess, no_runner, PipelineTask, World, Outside,
  finally_called, cancel_called, perform, with_task, put_task, task_change, pipeline_change,
}
use taskweave.Runtime.Subprocess.{add_worker, stop_worker, completion_loop}

-- CancelPolicy.
pub data CancelPolicy : Type 0 where
  cancel_all cancel_pending_only drain : CancelPolicy

module _ (o : Outside) where
  unfoldable pub on_task_start : ℕ → Stmt World Unit
  on_task_start i = task_change o i TaskState.running

  -- `task._runner.run(…)`; None has no attribute `run`.
  abbrev pub runner_run : RunnerObject → ℕ → Stmt World Unit
  runner_run subprocess i = add_worker o i (on_task_start i)
  runner_run no_runner i = fail attribute_error

  abbrev pub runner_cleanup : RunnerObject → ℕ → Stmt World Unit
  runner_cleanup subprocess i = stop_worker o i
  runner_cleanup no_runner i = fail attribute_error

  unfoldable pub run_task : ℕ → Stmt World Unit
  run_task i = with_task i λ t. runner_run t.runner i

  -- With no task left it assigns `PipelineState.DONE`, which does not exist.
  unfoldable pub next_task : ℕ → Stmt World Unit
  unfolding run_task
  next_task i w = if leb (length w.tasks) i then (raised attribute_error, w) else run_task i w

  unfoldable pub start_pipeline : Stmt World Unit
  start_pipeline = do next_task 0; pipeline_change o PipelineState.running

  abbrev call_finally : FinalStatus → PipelineTask → Stmt World Unit
  call_finally status t =
      if t.has_on_finally then perform o (finally_called t.name status) else skip

  -- The end of `_on_task_success`, for the state of the task after this one, if there is one.
  unfoldable after_success : ℕ → Option PipelineTask → Stmt World Unit
  after_success i none = pipeline_change o PipelineState.success
  after_success i (some next) =
      if task_state_enum.eqb next.cycle.state TaskState.canceled
      then pipeline_change o PipelineState.canceled
      else next_task (i + 1)

  unfoldable pub on_task_success : ℕ → Stmt World Unit
  unfolding after_success
  on_task_success i = do
    with_task i λ t. runner_cleanup t.runner i
    with_task i λ t. call_finally FinalStatus.success t
    task_change o i TaskState.success
    λ w. after_success i (get_elem? w.tasks (i + 1)) w

  unfoldable cancel_from : ℕ → ℕ → Stmt World Unit
  cancel_from i n = for_each (range_from i n) (λ j. task_change o j TaskState.canceled)

  unfoldable pub on_task_failure : ℕ → Stmt World Unit
  unfolding cancel_from
  on_task_failure i = do
    task_change o i TaskState.failed
    pipeline_change o PipelineState.failed
    with_task i λ t. call_finally FinalStatus.failure t
    with_task i λ t. runner_cleanup t.runner i
    λ w. cancel_from (i + 1) (length w.tasks - (i + 1)) w

  -- The completion thread of the task's manager, when the process ends with this code.
  unfoldable pub complete : ℕ → ℕ → Stmt World Unit
  complete i returncode = do
    with_task i
        λ t. update (put_task i (record t { manager = record (t.manager) { watched = false } }))
    completion_loop o i returncode (on_task_success i) (on_task_failure i)

  -- The user's callback of `_cleanup_pipeline`. `reason` is the local `cancel_reason`, which only
  -- the branch above the call assigns.
  abbrev call_cancel : Bool → PipelineTask → Stmt World Unit
  call_cancel reason t =
      if t.has_on_cancel
      then if reason
        then perform o (cancel_called t.name (some FinalStatus.canceled))
        else fail unbound_local
      else skip

  -- The tasks that the policy cancels, by their state.
  abbrev selects : CancelPolicy → TaskState → Bool
  selects cancel_all s =
      task_state_enum.eqb s TaskState.pending || task_state_enum.eqb s TaskState.running
  selects cancel_pending_only s = task_state_enum.eqb s TaskState.pending
  selects drain s = false

  abbrev cancel_task : CancelPolicy → ℕ → PipelineTask → Stmt World Unit
  cancel_task cancel_all i t = runner_cleanup t.runner i
  cancel_task cancel_pending_only i t = task_change o i TaskState.canceled
  cancel_task drain i t = skip

  unfoldable cleanup_each : CancelPolicy → List ℕ → Bool → Stmt World Unit
  cleanup_each policy [] reason = skip
  cleanup_each policy (i ∷ rest) reason = with_task i λ t.
      let selected = selects policy t.cycle.state in
      do
        (if selected then cancel_task policy i t else skip)
        call_cancel (reason || selected) t
        cleanup_each policy rest (reason || selected)

  unfoldable cleanup_tasks : CancelPolicy → Stmt World Unit
  unfolding cleanup_each
  cleanup_tasks cancel_all w =
      (cleanup_each cancel_all (range_from 0 (length w.tasks)) false
          >> pipeline_change o PipelineState.canceled)
        w
  cleanup_tasks cancel_pending_only w =
      cleanup_each cancel_pending_only (range_from 0 (length w.tasks)) false w
  cleanup_tasks drain w = (done tt, w)

  -- `_cleanup_pipeline`, which is all that `stop_pipeline` does.
  unfoldable pub stop_pipeline : CancelPolicy → Stmt World Unit
  unfolding cleanup_tasks
  stop_pipeline policy = do pipeline_change o PipelineState.stopping; cleanup_tasks policy

  -- `next(iter([t for t in pipeline.tasks if t.name == id]))`, by its place.
  abbrev pub index_of : TaskId → ℕ → List PipelineTask → Option ℕ
  index_of id i [] = none
  index_of id i (t ∷ ts) =
      let rest = index_of id (i + 1) ts in if same_task_id t.name id then some i else rest

  abbrev pub stop_at : Option ℕ → Stmt World Unit
  stop_at none = fail stop_iteration
  stop_at (some i) = with_task i λ t. runner_cleanup t.runner i

  unfoldable pub stop_task : TaskId → Stmt World Unit
  stop_task id w = stop_at (index_of id 0 w.tasks) w
