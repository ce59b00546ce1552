-- ===== src/Orchestrator/Examples.antt =====
-- Concrete inputs of the theorems on the orchestrator.
use taskweave.Base.{
  ℕ, ◌+◌, true, false, none, some, List, [], ◌∷◌, get_elem?, drop, done, raised, ◌≡◌, refl,
}
use taskweave.Exceptions.{runtime_error}
use taskweave.Protocol.{TaskId}
use taskweave.Lifecycle.{TaskState, PipelineState}
use taskweave.Runtime.{PipelineTask, World, Outside, started_count}
use taskweave.Runtime.Sealed.{IsSealed}
use taskweave.Orchestrator.{cancel_all, stop_pipeline}
use taskweave.Orchestrator.Invariant.{Event, start, exit, stop, run_events, run_events-IsSealed}
use taskweave.Orchestrator.Outcomes.{
  calm, new_task, ready, state_of, after_start, after_exit, stop_pipeline_fails,
  start_pipeline_runs, first_task_failure,
}

abbrev clock : ℕ → ℕ
clock n = n + 7

abbrev id : TaskId
id = record { ident = 0; value = "nightly" }

abbrev fetch : TaskId
fetch = record { ident = 1; value = "fetch" }

abbrev store : TaskId
store = record { ident = 2; value = "store" }

abbrev second : PipelineTask
second = new_task store true true false

-- Every process fails to start.
abbrev no_spawn : Outside
no_spawn = record { client = λ n e. none; spawn = λ t. some runtime_error; clock = clock }

abbrev schedule : List Event
schedule = exit 0 0 ∷ start ∷ stop cancel_all ∷ exit 1 2 ∷ []

stop_pipeline_fails_example :
    stop_pipeline no_spawn cancel_all (ready id second [])
    ≡ (raised runtime_error, ready id second [])
stop_pipeline_fails_example = stop_pipeline_fails no_spawn cancel_all (ready id second [])

start_pipeline_runs_example :
    let out = after_start clock id fetch true false true (second ∷ []) in
    (out.0 ≡ done tt)
    × (out.1.cycle.state ≡ PipelineState.running)
    × (state_of (get_elem? out.1.tasks 0) ≡ some TaskState.running)
    × (drop 1 out.1.tasks ≡ second ∷ [])
    × (started_count out.1.trace ≡ 1)
    × (out.1.is_init ≡ true)
start_pipeline_runs_example = start_pipeline_runs clock id fetch true false true (second ∷ [])

first_task_failure_example :
    let w = (after_exit clock id fetch false true true (new_task store false true true ∷ []) 3).1 in
    (state_of (get_elem? w.tasks 0) ≡ some TaskState.failed)
    × (state_of (get_elem? w.tasks 1) ≡ some TaskState.canceled)
    × (w.cycle.state ≡ PipelineState.failed)
first_task_failure_example = first_task_failure clock id fetch true true store true true 2

abbrev stopped_world : World
stopped_world = record (ready id second []) { is_done = true }

run_events-IsSealed_example : IsSealed 0 (run_events (calm clock) schedule stopped_world)
run_events-IsSealed_example =
    run_events-IsSealed (calm clock) 0 schedule stopped_world
      (record { sealed = refl; count = refl })
