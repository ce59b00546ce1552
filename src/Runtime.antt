-- ===== src/Runtime.antt =====
-- The state that a running pipeline shares: its life cycle, its tasks, each with the manager object
-- of its runner, and what SubProcessManager keeps at class level. `client n e` says whether the
-- user's callback that the n-th effect calls raises; `clock` answers `time.time()`.
pub mod Subprocess
pub mod Sealed
use taskweave.Base.{
  ℕ, suc, ◌+◌, String, Bool, true, false, if◌then◌else◌, Option, none, some, is_some, List, [], ◌∷◌,
  ◌++◌, length, get_elem?, set, Outcome, done, raised, Stmt, fail, skip, ◌>>=◌, ◌>>◌, update,
}
use taskweave.Exceptions.{Exception, attribute_error, index_error}
use taskweave.Protocol.{LogEvent, TaskId, SourceType, MsgType}
use taskweave.Lifecycle.{
  Cycle, Held, Lifecycle, TaskState, PipelineState, task_transitions, pipeline_transitions, noop,
  on_end, task_transition, pipeline_transition,
}
use taskweave.Lifecycle.Cleanup.{final_states}

-- FinalStatus.
pub data FinalStatus : Type 0 where
  success canceled failure : FinalStatus

-- What the pipeline does to the outside, in order. `emitted` is a state event that reaches the
-- session's sinks, `finally_called` and `cancel_called` are the user's callbacks.
pub data Effect : Type 0 where
  started terminated : TaskId → Effect
  emitted : LogEvent → Effect
  callback_error : TaskId → Effect
  finally_called : TaskId → FinalStatus → Effect
  cancel_called : TaskId → Option FinalStatus → Effect

-- How many processes were started.
abbrev pub started_count : List Effect → ℕ
started_count [] = 0
started_count (started _ ∷ trace) = suc (started_count trace)
started_count (_ ∷ trace) = started_count trace

-- SubProcessManager, less its two events. `on_cancel` is an attribute that only `add_worker` sets.
pub record Manager : Type 0 where
  pub has_process : Bool
  pub on_cancel : Option (Unit {0})
  pub watched : Bool

-- The value of `_runner`: a SubprocessTaskRunner, or None for an ExternalStrategy.
pub data RunnerObject : Type 0 where
  subprocess no_runner : RunnerObject

-- PipelineTask.
pub record PipelineTask : Type 0 where
  pub name : TaskId
  pub runner : RunnerObject
  pub manager : Manager
  pub cycle : Cycle TaskState
  pub has_backend : Bool
  pub has_on_cancel : Bool
  pub has_on_finally : Bool

-- RuntimePipeline, with `_done` and `_init` of SubProcessManager. The two are dataclass defaults,
-- made once for the class, so that all managers of the process share them.
pub record World : Type 0 where
  pub id : TaskId
  pub cycle : Cycle PipelineState
  pub tasks : List PipelineTask
  pub is_done : Bool
  pub is_init : Bool
  pub readings : ℕ
  pub trace : List Effect

-- What the program takes from outside.
pub record Outside : Type 0 where
  pub client : ℕ → Effect → Option Exception
  pub spawn : TaskId → Option Exception
  pub clock : ℕ → ℕ

abbrev pub raise_option : {W : Type 0} → Option Exception → Stmt W Unit
raise_option none w = (done tt, w)
raise_option (some e) w = (raised e, w)

-- An effect that runs a callback of the user.
unfoldable pub perform : Outside → Effect → Stmt World Unit
perform o e w = raise_option (o.client (length w.trace) e) (record w { trace = w.trace ++ e ∷ [] })

abbrev pub note : Effect → Stmt World Unit
note e w = (done tt, record w { trace = w.trace ++ e ∷ [] })

abbrev pub at_task :
    {A : Type 0} → Option PipelineTask → (PipelineTask → Stmt World A) → Stmt World A
at_task none body = fail index_error
at_task (some t) body = body t

-- `pipeline.tasks[idx]`
abbrev pub with_task : {A : Type 0} → ℕ → (PipelineTask → Stmt World A) → Stmt World A
with_task i body w = at_task (get_elem? w.tasks i) body w

abbrev pub put_task : ℕ → PipelineTask → World → World
put_task i t w = record w { tasks = set w.tasks i t }

-- The life cycle that `PipelineTask.__init__` builds from what `_hydrate_pipeline` passes. The
-- cleanup of a task with a backend asks `self.obs` for `stream_writer`, which it does not have.
unfoldable pub task_lifecycle : Outside → PipelineTask → Lifecycle World TaskState
unfolding perform
task_lifecycle o t = record {
  source_id = t.name;
  source_type = SourceType.task;
  transitions = task_transitions;
  on_transition = λ old new event. perform o (emitted event);
  cleanup = on_end final_states (if t.has_backend then fail attribute_error else skip);
}

unfoldable pub pipeline_lifecycle : Outside → World → Lifecycle World PipelineState
unfolding perform
pipeline_lifecycle o w = record {
  source_id = w.id;
  source_type = SourceType.pipeline;
  transitions = pipeline_transitions;
  on_transition = λ old new event. perform o (emitted event);
  cleanup = noop;
}

-- `task.cycle.transition(new)` on the task number `i`.
unfoldable pub task_change : Outside → ℕ → TaskState → Stmt World Unit
unfolding task_lifecycle task_transition
task_change o i new = with_task i λ t w.
    let (r, h) =
      task_transition o.clock (task_lifecycle o t) new
        (record { cycle = t.cycle; readings = w.readings; rest = w }) in
    (r, put_task i (record t { cycle = h.cycle }) (record (h.rest) { readings = h.readings }))

-- `pipeline.cycle.transition(new)`
unfoldable pub pipeline_change : Outside → PipelineState → Stmt World Unit
unfolding pipeline_lifecycle pipeline_transition
pipeline_change o new w =
    let (r, h) =
      pipeline_transition o.clock (pipeline_lifecycle o w) new
        (record { cycle = w.cycle; readings = w.readings; rest = w }) in
    (r, record (h.rest) { cycle = h.cycle; readings = h.readings })
