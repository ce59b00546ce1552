-- ===== src/Plans.antt =====
-- How a plan becomes pipelines: `execute_plan`, `_hydrate_pipeline` and `_handle_task_persistence` of
-- src/taskweave/pipeline/pipeline_orchestrator.py, RuntimePipeline.add_task, PoolProvider and the
-- strategies of src/taskweave/tasks, and SessionControl of src/taskweave/session/session_control.py.
-- A TaskId is a key by its identity. A task keeps the text that its name had when it was hydrated; its
-- command and its `on_success` and `on_failure`, which nothing calls, are left out, and a producer
-- belongs to one task. The session's id, which a new session draws, is an argument of `reset`.
mod Data
pub mod Hydration
pub mod Execution
pub mod Sessions
pub mod Ending
pub mod Pools
mod Examples
unfoldable pub use Data.*
use native.Mathlib.Decide.{ℕ_discrete}
use taskweave.Base.{
  ℕ, ◌+◌, String, Bool, true, false, if◌then◌else◌, Option, none, some, is_some, List, [], ◌∷◌,
  ◌++◌, length, contains, Outcome, done, raised, Stmt, give, fail, skip, update, for_each, ◌>>=◌,
  ◌>>◌, Key, Dict, find, store, string_key,
}
use taskweave.Exceptions.{Exception, key_error, value_error, attribute_error}
use taskweave.Protocol.{TaskId, SourceType, same_task_id}
use taskweave.Lifecycle.{
  Cycle, Held, Lifecycle, TaskState, PipelineState, SessionState, noop, session_transition,
  session_transitions,
}
use taskweave.Logging.{LogStore, register, make_log_id}
use taskweave.Bus.{ObservabilityPolicy}
use taskweave.Orchestrator.{CancelPolicy}
use taskweave.Workers.{WorkerManager, new_manager}

-- `PoolTaskRunner(manager = manager)`, whose `__post_init__` sets the limit of the manager to its own
-- default.
abbrev pub default_max_parallel : ℕ
default_max_parallel = 4

unfoldable pub pool_task_runner : WorkerManager → WorkerManager
pool_task_runner manager = record manager { max_count = default_max_parallel }

unfoldable pub add_pool : String → ℕ → Stmt SessionControl Strategy
unfolding pool_task_runner
add_pool name max_parallel = do
  update λ s. record s {
    pools = store s.pools name (length s.managers);
    managers = s.managers ++ pool_task_runner (new_manager max_parallel) ∷ [];
  }
  give (Strategy.pool name max_parallel)

-- `context.pools[self.pool_name]`
abbrev pub pool_of : Option ℕ → Stmt SessionControl Runner
pool_of none = fail key_error
pool_of (some i) = give (pool_runner i)

-- `task.strategy._get_runner(context)` of `define_runner`.
unfoldable pub get_runner : Strategy → TaskId → Stmt SessionControl Runner
get_runner (pool name max_parallel) id s = pool_of (find s.pools name) s
get_runner synchronous id s = (done (subprocess_runner id.value), s)
get_runner external id s = (done no_runner, s)

-- `make_sink` of the two producers, for a context with a backend.
abbrev pub make_sink : Producer → Producer
make_sink (log_event persists) = log_event true
make_sink classifying = classifying

abbrev pub new_cycle : {S : Type 0} → S → Cycle S
new_cycle s = record { state = s; started_at = 0 }

-- `PipelineTask(…)`, whose runner is assigned later.
abbrev pub pipeline_task : Task → PipelineTask
pipeline_task t = record {
  name = t.name;
  strategy = t.strategy;
  runner = subprocess_runner "";
  producer = t.producer;
  backend = t.backend;
  has_on_cancel = t.has_on_cancel;
  has_on_finally = t.has_on_finally;
  cycle = new_cycle TaskState.pending;
}

abbrev pub runtime_pipeline : TaskId → TaskId → RuntimePipeline
runtime_pipeline id session_id = record {
  id = id;
  session_id = session_id;
  tasks = [];
  task_names = [];
  cycle = new_cycle PipelineState.pending;
  early_exit = false;
}

-- `RuntimePipeline.add_task`; the task is the last one of the pipeline.
unfoldable pub add_task : RuntimePipeline → Task → Stmt SessionControl RuntimePipeline
add_task p t =
    if contains same_task_id p.task_names t.name
    then fail value_error
    else give
        (record p { task_names = t.name ∷ p.task_names; tasks = p.tasks ++ pipeline_task t ∷ [] })

abbrev pub pipeline_of : Option RuntimePipeline → Stmt SessionControl RuntimePipeline
pipeline_of none = fail key_error
pipeline_of (some p) = give p

-- PipelineOrchestrator.add_task: the task keeps the runner that its constructor gives it.
unfoldable pub add_task_to : TaskId → Task → Stmt SessionControl Unit
unfolding add_task
add_task_to id t = do
  p ← λ s. pipeline_of (find s.pipelines id.ident) s
  p' ← add_task p t
  update λ s. record s { pipelines = store s.pipelines id.ident p' }

-- `task._runner = …`, on the last task.
abbrev pub assign_runner : List PipelineTask → Runner → List PipelineTask
assign_runner [] r = []
assign_runner (t ∷ []) r = record t { runner = r } ∷ []
assign_runner (t ∷ u ∷ ts) r = t ∷ assign_runner (u ∷ ts) r

module _ (o : Environment) where
  abbrev pub make_id : ℕ → TaskId → TaskId → TaskId
  make_id n = let (ts, suffix) = o.stamp n in make_log_id ts suffix

  -- `self.obs.log_store.register(…)`
  unfoldable pub register_name : TaskId → TaskId → Stmt SessionControl TaskId
  register_name session source s =
      let (r, logs) = register o.clock (make_id s.log_store.readings) session source s.log_store in
      (r, record s { log_store = logs })

  abbrev pub raise_if : Option Exception → Stmt SessionControl Unit
  raise_if none = skip
  raise_if (some e) = fail e

  -- `_handle_task_persistence`, for the producer that the task has after it.
  unfoldable pub handle_task_persistence :
      TaskId → Producer → Option ℕ → Stmt SessionControl Producer
  handle_task_persistence name producer none = give producer
  handle_task_persistence name producer (some b) = do
    raise_if (o.make_runner b name.value)
    update λ s. record s { contexts = store s.contexts name.ident b }
    give (make_sink producer)

  -- The body of the loop of `_hydrate_pipeline`.
  unfoldable pub hydrate_task : RuntimePipeline → Task → Stmt SessionControl RuntimePipeline
  unfolding register_name handle_task_persistence add_task get_runner
  hydrate_task p t = do
    name ← register_name (p.session_id) (t.name)
    producer ← handle_task_persistence name (t.producer) (t.backend)
    p' ← add_task p (record t { name = name; producer = producer })
    r ← get_runner (t.strategy) name
    give (record p' { tasks = assign_runner p'.tasks r })

  unfoldable pub hydrate_tasks : List Task → RuntimePipeline → Stmt SessionControl RuntimePipeline
  unfolding hydrate_task
  hydrate_tasks [] p = give p
  hydrate_tasks (t ∷ ts) p = do p' ← hydrate_task p t; hydrate_tasks ts p'

  unfoldable pub hydrate_pipeline : TaskId → Pipeline → Stmt SessionControl Unit
  unfolding hydrate_tasks
  hydrate_pipeline session_id pipeline = do
    p ← hydrate_tasks (pipeline.tasks) (runtime_pipeline pipeline.id session_id)
    update λ s. record s { pipelines = store s.pipelines pipeline.id.ident p }

  unfoldable pub add_pipeline : TaskId → Pipeline → Stmt SessionControl TaskId
  unfolding hydrate_pipeline
  add_pipeline session_id pipeline = do hydrate_pipeline session_id pipeline; give (pipeline.id)

  unfoldable pub execute_plan : TaskId → ExecutionPlan → Stmt SessionControl Unit
  unfolding hydrate_pipeline
  execute_plan session_id plan = do
    update λ s. record s { cancel_policy = plan.cancel_policy }
    for_each (plan.pipelines) (hydrate_pipeline session_id)

  -- `session.cycle.transition(new)`; its `on_transition` does nothing.
  unfoldable pub session_change : SessionState → Stmt SessionControl Unit
  unfolding session_transition
  session_change new s =
      let (r, h) =
        session_transition o.clock
          (record {
            source_id = s.id;
            source_type = SourceType.session;
            transitions = session_transitions;
            on_transition = λ old new event. skip;
            cleanup = noop;
          })
          new (record { cycle = s.cycle; readings = s.readings; rest = tt {0} }) in
      (r, record s { cycle = h.cycle; readings = h.readings })

  unfoldable pub execute : ExecutionPlan → Stmt SessionControl Unit
  unfolding execute_plan session_change
  execute plan = do
    update λ s. record s { observability_policy = plan.observability_policy }
    λ s. execute_plan s.id plan s
    session_change SessionState.running

  -- `start`, for what `start_all_pipelines` does.
  unfoldable pub start : Stmt SessionControl Unit → Stmt SessionControl Unit
  unfolding session_change
  start start_all = do session_change SessionState.running; start_all

  -- `stop_all_pipelines`: the loop is over the keys, and a TaskId has no life cycle.
  unfoldable pub stop_all : Dict ℕ RuntimePipeline → Stmt SessionControl Unit
  stop_all [] = skip
  stop_all (entry ∷ rest) = fail attribute_error

  unfoldable pub stop : Stmt SessionControl Unit
  unfolding session_change stop_all
  stop = do
    session_change SessionState.stopping
    λ s. stop_all s.pipelines s
    session_change SessionState.canceled

-- `reset`, with the id of the new session.
unfoldable pub reset : TaskId → CancelPolicy → Stmt SessionControl Unit
reset id policy = update λ s. record s {
  id = id;
  cycle = new_cycle SessionState.pending;
  pools = [];
  pipelines = [];
  cancel_policy = policy;
}
