-- ===== src/Snapshots.antt =====
-- What a session tells about itself: src/taskweave/snapshots, the methods `snapshot` of PipelineTask,
-- RuntimePipeline, Session and SessionControl, and the channel of a session that is to carry them,
-- ObservabilityContext of src/taskweave/buses/observability_context.py.
pub mod Session
pub mod Executed
pub mod Channel
pub mod Dialects
mod Examples
use taskweave.Base.{
  ℕ, ℤ, pos, minus, suc, ◌+◌, ◌-◌, ◌==◌, leb, String, Bool, if◌then◌else◌, List, [], ◌∷◌, Outcome,
  done, raised, Stmt, give, fail, skip, update, ◌>>=◌, ◌>>◌, Option, none, some, Dict, store,
  string_key,
}
use taskweave.Exceptions.{Exception, attribute_error, type_error}
use taskweave.Protocol.{TaskId, LogEvent}
use taskweave.Lifecycle.{
  Cycle, TaskState, PipelineState, SessionState, task_state_enum, pipeline_state_enum,
}
use taskweave.Bus.{
  ObservabilityPolicy, Client, MiniBus, SinkScope, register_sink, on_event, emit_internal,
}
use taskweave.Plans.{PipelineTask, RuntimePipeline, SessionControl, Environment, nat_key}

-- TaskSnapshot, without its two constant fields. `elapsed` is an integer, since the clock may be set
-- back.
pub record TaskSnapshot : Type 0 where
  pub name : TaskId
  pub state : String
  pub started_at : ℕ
  pub elapsed : ℤ
  pub last_error : String

pub record PipelineSnapshot : Type 0 where
  pub id : String
  pub session_id : String
  pub tasks : Dict String TaskSnapshot
  pub state : String
  pub started_at : ℕ
  pub elapsed : ℤ
  pub early_exit : Bool

pub record SessionSnapshot : Type 0 where
  pub id : String
  pub state : String
  pub started_at : ℕ
  pub elapsed : ℤ
  pub pipelines : Dict String PipelineSnapshot

-- `str(state)` of a SessionState, which is no `.value`.
abbrev pub session_state_text : SessionState → String
session_state_text SessionState.pending = "SessionState.PENDING"
session_state_text SessionState.running = "SessionState.RUNNING"
session_state_text SessionState.stopping = "SessionState.STOPPING"
session_state_text SessionState.success = "SessionState.SUCCESS"
session_state_text SessionState.failed = "SessionState.FAILED"
session_state_text SessionState.canceled = "SessionState.CANCELED"

-- `task.last_error`, which nothing sets.
abbrev pub last_error_of : PipelineTask → Stmt SessionControl String
last_error_of t = fail attribute_error

module _ (o : Environment) where
  -- `time.time() - started_at if started_at else 0`
  unfoldable pub elapsed_since : ℕ → Stmt SessionControl ℤ
  elapsed_since started_at s =
      if started_at == 0
      then (done (pos 0), s)
      else (done (minus (o.clock s.readings) started_at), record s { readings = s.readings + 1 })

  unfoldable pub task_snapshot : PipelineTask → Stmt SessionControl TaskSnapshot
  unfolding elapsed_since
  task_snapshot t = do
    elapsed ← elapsed_since (t.cycle.started_at)
    error ← last_error_of t
    give (record {
      name = t.name;
      state = task_state_enum.value t.cycle.state;
      started_at = t.cycle.started_at;
      elapsed = elapsed;
      last_error = error;
    })

  -- `{str(t.name) : t.snapshot() for t in tasks}`
  unfoldable pub task_snapshots :
      Dict String TaskSnapshot → List PipelineTask → Stmt SessionControl (Dict String TaskSnapshot)
  unfolding task_snapshot
  task_snapshots acc [] = give acc
  task_snapshots acc (t ∷ ts) = do
    snap ← task_snapshot t
    task_snapshots (store acc t.name.value snap) ts

  unfoldable pub pipeline_snapshot : RuntimePipeline → Stmt SessionControl PipelineSnapshot
  unfolding task_snapshots elapsed_since
  pipeline_snapshot p = do
    tasks ← task_snapshots [] (p.tasks)
    elapsed ← elapsed_since (p.cycle.started_at)
    give (record {
      id = p.id.value;
      session_id = p.session_id.value;
      tasks = tasks;
      state = pipeline_state_enum.value p.cycle.state;
      started_at = p.cycle.started_at;
      elapsed = elapsed;
      early_exit = p.early_exit;
    })

  -- `{str(id) : p.snapshot() for id, p in pipelines.items()}`; a pipeline stands under its own id.
  unfoldable pub pipeline_snapshots :
      Dict String PipelineSnapshot
      → Dict ℕ RuntimePipeline
      → Stmt SessionControl (Dict String PipelineSnapshot)
  unfolding pipeline_snapshot
  pipeline_snapshots acc [] = give acc
  pipeline_snapshots acc ((k, p) ∷ ps) = do
    snap ← pipeline_snapshot p
    pipeline_snapshots (store acc p.id.value snap) ps

  unfoldable pub snapshot : Stmt SessionControl SessionSnapshot
  unfolding elapsed_since pipeline_snapshots
  snapshot = do
    elapsed ← λ s. elapsed_since s.cycle.started_at s
    pipelines ← λ s. pipeline_snapshots [] s.pipelines s
    λ s. (
      done (record {
        id = s.id.value;
        state = session_state_text s.cycle.state;
        started_at = s.cycle.started_at;
        elapsed = elapsed;
        pipelines = pipelines;
      }),
      s,
    )

-- The bus of a new ObservabilityContext: the client's callback is its one sink.
unfoldable pub new_bus : ℕ → ObservabilityPolicy → Outcome ℕ × MiniBus SessionSnapshot
new_bus on_event policy = register_sink on_event SinkScope.global_scope none (record {
  global_sinks = [];
  error_sinks = [];
  scoped_sinks = [];
  contexts = [];
  policy = policy;
  seen = [];
  delivered = [];
})

-- The getter that SessionControl gives the bus is its method `snapshot`, which takes no event; the bus
-- calls it with one.
abbrev pub snapshot_getter : LogEvent → Outcome SessionSnapshot
snapshot_getter event = raised type_error

module _ (client : Client SessionSnapshot) where
  -- `obs.emit`, which passes by the bus and its numbers.
  unfoldable pub obs_emit : LogEvent → Stmt (MiniBus SessionSnapshot) Unit
  unfolding on_event
  obs_emit event = on_event client event none

  -- `emit_internal` of the bus of a session.
  unfoldable pub session_emit_internal : LogEvent → Stmt (MiniBus SessionSnapshot) Unit
  unfolding emit_internal
  session_emit_internal event = emit_internal client snapshot_getter event
