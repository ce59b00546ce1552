-- ===== src/Lifecycle/Examples.antt =====
-- Concrete inputs of the theorems on life cycles.
use taskweave.Base.{ℕ, ◌+◌, ◌≤◌, List, [], ◌∷◌, raised, skip, ◌≡◌, refl}
use taskweave.Exceptions.{attribute_error}
use taskweave.Protocol.{TaskId, SourceType}
use taskweave.Lifecycle.{
  Held, Lifecycle, TaskState, PipelineState, SessionState, task_state_enum, noop, on_end,
  task_transition, task_transitions, pipeline_transitions, session_transitions,
}
use taskweave.Lifecycle.Graph.{task_rank, task_requests, task_requests-le_rank}
use taskweave.Lifecycle.Cleanup.{final_states, counted, task_requests-counted}

abbrev clock : ℕ → ℕ
clock n = n + 50

abbrev id : TaskId
id = record { ident = 1; value = "fetch" }

abbrev quiet : Lifecycle ℕ TaskState
quiet = record {
  source_id = id;
  source_type = SourceType.task;
  transitions = task_transitions;
  on_transition = λ old new e. skip;
  cleanup = noop;
}

-- A cleanup that raises, as the one of a task with a backend does.
abbrev broken : Lifecycle ℕ TaskState
broken = record quiet { cleanup = on_end final_states (λ w. (raised attribute_error, w)) }

abbrev at : TaskState → Held ℕ TaskState
at s = record { cycle = record { state = s; started_at = 0 }; readings = 0; rest = 0 }

abbrev requests : List TaskState
requests = TaskState.running ∷ TaskState.success ∷ TaskState.failed ∷ TaskState.canceled ∷ []

task_requests_runs : (task_requests clock quiet requests (at TaskState.pending)).0 ≡ 2
unfolding task_requests task_transition
task_requests_runs = refl

task_requests-le_rank_example :
    (task_requests clock quiet requests (at TaskState.pending)).0
      + task_rank (task_requests clock quiet requests (at TaskState.pending)).1.cycle.state
    ≤ 2
task_requests-le_rank_example = task_requests-le_rank clock quiet requests (at TaskState.pending)

task_requests-counted_example :
    (task_requests clock (counted quiet) requests (at TaskState.pending)).1.rest ≡ 3
task_requests-counted_example =
    task_requests-counted clock quiet (λ old new e n. refl) requests (at TaskState.pending)

abbrev pipeline : Lifecycle ℕ PipelineState
pipeline = record {
  source_id = id;
  source_type = SourceType.pipeline;
  transitions = pipeline_transitions;
  on_transition = λ old new e. skip;
  cleanup = noop;
}

abbrev pipeline_running : Held ℕ PipelineState
pipeline_running = record {
  cycle = record { state = PipelineState.running; started_at = 0 };
  readings = 0;
  rest = 0;
}

abbrev session : Lifecycle ℕ SessionState
session = record {
  source_id = id;
  source_type = SourceType.session;
  transitions = session_transitions;
  on_transition = λ old new e. skip;
  cleanup = noop;
}

abbrev session_running : Held ℕ SessionState
session_running = record {
  cycle = record { state = SessionState.running; started_at = 0 };
  readings = 0;
  rest = 0;
}
