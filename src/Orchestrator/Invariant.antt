-- ===== src/Orchestrator/Invariant.antt =====
-- Any sequence of commands and callbacks on one pipeline, each in its own thread: what one of them
-- raises ends that thread only.
use taskweave.Base.{
  ℕ, ◌+◌, ◌-◌, Bool, if◌then◌else◌, ◌||◌, true, Option, none, some, List, [], ◌∷◌, get_elem?,
  Outcome, Stmt, skip, fail, ◌>>◌, Keeps, >>-Keeps, for_each-Keeps, if-Keeps, if_both, refl, length,
  range_from, leb, false, update,
}
use taskweave.Exceptions.{unbound_local}
use taskweave.Protocol.{TaskId}
use taskweave.Lifecycle.{TaskState, PipelineState, task_state_enum}
use taskweave.Runtime.{
  FinalStatus, PipelineTask, World, Outside, RunnerObject, subprocess, no_runner, finally_called,
  cancel_called, with_task, put_task, task_change, pipeline_change,
}
use taskweave.Runtime.Sealed.{
  IsSealed, with_task-Keeps, task_change-Keeps, pipeline_change-Keeps, client_call-Keeps,
}
use taskweave.Runtime.Subprocess.Kept.{add_worker-Keeps, stop_worker-Keeps, completion_loop-Keeps}
use taskweave.Orchestrator.{
  CancelPolicy, cancel_all, cancel_pending_only, drain, on_task_start, run_task, next_task,
  start_pipeline, stop_pipeline, stop_at, stop_task, index_of, complete, on_task_success,
  on_task_failure, runner_run, runner_cleanup, after_success, cancel_from, cleanup_each,
  cleanup_tasks, call_cancel, cancel_task, call_finally, selects,
}

-- What happens to a pipeline: a client starts or stops it, or stops a task, or the process of a task
-- ends.
pub data Event : Type 0 where
  start : Event
  exit : (task code : ℕ) → Event
  stop : CancelPolicy → Event
  stop_one : TaskId → Event

abbrev pub handle : Outside → Event → Stmt World Unit
handle o start = start_pipeline o
handle o (exit i code) = complete o i code
handle o (stop policy) = stop_pipeline o policy
handle o (stop_one id) = stop_task o id

abbrev pub run_events : Outside → List Event → World → World
run_events o [] w = w
run_events o (e ∷ es) w = run_events o es (handle o e w).1

module _ (o : Outside) (n : ℕ) where
  runner_run-Keeps : (r : RunnerObject) (i : ℕ) → Keeps (IsSealed n) (runner_run o r i)
  runner_run-Keeps subprocess i = add_worker-Keeps n o i (on_task_start o i)
  runner_run-Keeps no_runner i = λ w p. p

  runner_cleanup-Keeps : (r : RunnerObject) (i : ℕ) → Keeps (IsSealed n) (runner_cleanup o r i)
  runner_cleanup-Keeps subprocess i = stop_worker-Keeps n o i
  runner_cleanup-Keeps no_runner i = λ w p. p

  next_task-Keeps : (i : ℕ) → Keeps (IsSealed n) (next_task o i)
  unfolding next_task run_task
  next_task-Keeps i w p =
      if_both (λ (out : Outcome Unit × World). IsSealed n (out.1)) (leb (length w.tasks) i) p
        (with_task-Keeps n i (λ t. runner_run o t.runner i) (λ t. runner_run-Keeps t.runner i) w p)

  start_pipeline-Keeps : Keeps (IsSealed n) (start_pipeline o)
  unfolding start_pipeline
  start_pipeline-Keeps =
      >>-Keeps (IsSealed n) (next_task o 0) _ (next_task-Keeps 0)
        (pipeline_change-Keeps n o PipelineState.running)

  after_success-Keeps :
      (i : ℕ) (next : Option PipelineTask) → Keeps (IsSealed n) (after_success o i next)
  unfolding after_success
  after_success-Keeps i none = pipeline_change-Keeps n o PipelineState.success
  after_success-Keeps i (some next) =
      if-Keeps (IsSealed n) (task_state_enum.eqb next.cycle.state TaskState.canceled)
        (pipeline_change o PipelineState.canceled) (next_task o (i + 1))
        (pipeline_change-Keeps n o PipelineState.canceled) (next_task-Keeps (i + 1))

  call_finally-Keeps :
      (status : FinalStatus) (t : PipelineTask) → Keeps (IsSealed n) (call_finally o status t)
  call_finally-Keeps status t =
      client_call-Keeps n o t.has_on_finally (finally_called t.name status) refl

  on_task_success-Keeps : (i : ℕ) → Keeps (IsSealed n) (on_task_success o i)
  unfolding on_task_success
  on_task_success-Keeps i =
      >>-Keeps (IsSealed n) (with_task i clean) _
        (with_task-Keeps n i clean (λ t. runner_cleanup-Keeps t.runner i))
        (>>-Keeps (IsSealed n) (with_task i finally) _
          (with_task-Keeps n i finally (call_finally-Keeps FinalStatus.success))
          (>>-Keeps (IsSealed n) (task_change o i TaskState.success) _
            (task_change-Keeps n o i TaskState.success)
            (λ w. after_success-Keeps i (get_elem? w.tasks (i + 1)) w)))
    where
      clean : PipelineTask → Stmt World Unit
      clean t = runner_cleanup o t.runner i

      finally : PipelineTask → Stmt World Unit
      finally t = call_finally o FinalStatus.success t

  cancel_from-Keeps : (i k : ℕ) → Keeps (IsSealed n) (cancel_from o i k)
  unfolding cancel_from
  cancel_from-Keeps i k =
      for_each-Keeps (IsSealed n) (range_from i k) (λ j. task_change o j TaskState.canceled)
        (λ j. task_change-Keeps n o j TaskState.canceled)

  on_task_failure-Keeps : (i : ℕ) → Keeps (IsSealed n) (on_task_failure o i)
  unfolding on_task_failure
  on_task_failure-Keeps i =
      >>-Keeps (IsSealed n) (task_change o i TaskState.failed) _
        (task_change-Keeps n o i TaskState.failed)
        (>>-Keeps (IsSealed n) (pipeline_change o PipelineState.failed) _
          (pipeline_change-Keeps n o PipelineState.failed)
          (>>-Keeps (IsSealed n) (with_task i finally) _
            (with_task-Keeps n i finally (call_finally-Keeps FinalStatus.failure))
            (>>-Keeps (IsSealed n) (with_task i clean) _
              (with_task-Keeps n i clean (λ t. runner_cleanup-Keeps t.runner i))
              (λ w. cancel_from-Keeps (i + 1) (length w.tasks - (i + 1)) w))))
    where
      clean : PipelineTask → Stmt World Unit
      clean t = runner_cleanup o t.runner i

      finally : PipelineTask → Stmt World Unit
      finally t = call_finally o FinalStatus.failure t

  complete-Keeps : (i code : ℕ) → Keeps (IsSealed n) (complete o i code)
  unfolding complete
  complete-Keeps i code =
      >>-Keeps (IsSealed n) (with_task i unwatch) _
        (with_task-Keeps n i unwatch (λ t w p. record { sealed = p.sealed; count = p.count }))
        (completion_loop-Keeps n o i code (on_task_success o i) (on_task_failure o i)
          (on_task_success-Keeps i) (on_task_failure-Keeps i))
    where
      unwatch : PipelineTask → Stmt World Unit
      unwatch t =
          update (put_task i (record t { manager = record (t.manager) { watched = false } }))

  call_cancel-Keeps :
      (reason : Bool) (t : PipelineTask) → Keeps (IsSealed n) (call_cancel o reason t)
  call_cancel-Keeps true t =
      client_call-Keeps n o t.has_on_cancel (cancel_called t.name (some FinalStatus.canceled)) refl
  call_cancel-Keeps false t =
      if-Keeps (IsSealed n) t.has_on_cancel (fail unbound_local) skip (λ w p. p) (λ w p. p)

  cancel_task-Keeps :
      (policy : CancelPolicy) (i : ℕ) (t : PipelineTask)
      → Keeps (IsSealed n) (cancel_task o policy i t)
  cancel_task-Keeps cancel_all i t = runner_cleanup-Keeps t.runner i
  cancel_task-Keeps cancel_pending_only i t = task_change-Keeps n o i TaskState.canceled
  cancel_task-Keeps drain i t = λ w p. p

  cleanup_each-Keeps :
      (policy : CancelPolicy) (is : List ℕ) (reason : Bool)
      → Keeps (IsSealed n) (cleanup_each o policy is reason)
  unfolding cleanup_each
  cleanup_each-Keeps policy [] reason = λ w p. p
  cleanup_each-Keeps policy (i ∷ rest) reason = with_task-Keeps n i body λ t.
      >>-Keeps (IsSealed n) (chosen t) _
        (if-Keeps (IsSealed n) (selects o policy t.cycle.state) (cancel_task o policy i t) skip
          (cancel_task-Keeps policy i t) (λ w p. p))
        (>>-Keeps (IsSealed n) (call_cancel o (reason || selects o policy t.cycle.state) t) _
          (call_cancel-Keeps (reason || selects o policy t.cycle.state) t)
          (cleanup_each-Keeps policy rest (reason || selects o policy t.cycle.state)))
    where
      chosen : PipelineTask → Stmt World Unit
      chosen t = if selects o policy t.cycle.state then cancel_task o policy i t else skip

      body : PipelineTask → Stmt World Unit
      body t =
          chosen t
          >> (call_cancel o (reason || selects o policy t.cycle.state) t
              >> cleanup_each o policy rest (reason || selects o policy t.cycle.state))

  cleanup_tasks-Keeps : (policy : CancelPolicy) → Keeps (IsSealed n) (cleanup_tasks o policy)
  unfolding cleanup_tasks
  cleanup_tasks-Keeps cancel_all = λ w.
      >>-Keeps (IsSealed n) (cleanup_each o cancel_all (range_from 0 (length w.tasks)) false) _
        (cleanup_each-Keeps cancel_all (range_from 0 (length w.tasks)) false)
        (pipeline_change-Keeps n o PipelineState.canceled) w
  cleanup_tasks-Keeps cancel_pending_only =
      λ w. cleanup_each-Keeps cancel_pending_only (range_from 0 (length w.tasks)) false w
  cleanup_tasks-Keeps drain = λ w p. p

  stop_pipeline-Keeps : (policy : CancelPolicy) → Keeps (IsSealed n) (stop_pipeline o policy)
  unfolding stop_pipeline
  stop_pipeline-Keeps policy =
      >>-Keeps (IsSealed n) (pipeline_change o PipelineState.stopping) _
        (pipeline_change-Keeps n o PipelineState.stopping) (cleanup_tasks-Keeps policy)

  stop_at-Keeps : (found : Option ℕ) → Keeps (IsSealed n) (stop_at o found)
  stop_at-Keeps none = λ w p. p
  stop_at-Keeps (some i) =
      with_task-Keeps n i (λ t. runner_cleanup o t.runner i) (λ t. runner_cleanup-Keeps t.runner i)

  stop_task-Keeps : (id : TaskId) → Keeps (IsSealed n) (stop_task o id)
  unfolding stop_task
  stop_task-Keeps id w = stop_at-Keeps (index_of o id 0 w.tasks) w

  pub handle-Keeps : (e : Event) → Keeps (IsSealed n) (handle o e)
  handle-Keeps start = start_pipeline-Keeps
  handle-Keeps (exit i code) = complete-Keeps i code
  handle-Keeps (stop policy) = stop_pipeline-Keeps policy
  handle-Keeps (stop_one id) = stop_task-Keeps id

-- Once one of the shared flags `_done` and `_init` of SubProcessManager is set, one of them stays set
-- and the number of started processes stays the same over every sequence of starts, stops of the
-- pipeline or of a task, and process ends, whatever the outside does.
pub run_events-IsSealed :
    (o : Outside) (n : ℕ) (events : List Event) (w : World)
    → IsSealed n w
    → IsSealed n (run_events o events w)
run_events-IsSealed o n [] w p = p
run_events-IsSealed o n (e ∷ events) w p =
    run_events-IsSealed o n events (handle o e w).1 (handle-Keeps o n e w p)
