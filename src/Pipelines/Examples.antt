-- ===== src/Pipelines/Examples.antt =====
-- Concrete inputs of the theorems on several pipelines.
use taskweave.Base.{
  ℕ, ◌+◌, true, false, none, some, List, [], ◌∷◌, get_elem?, drop, done, ◌≡◌, refl,
}
use taskweave.Exceptions.{runtime_error}
use taskweave.Protocol.{TaskId}
use taskweave.Lifecycle.{TaskState, PipelineState}
use taskweave.Runtime.{PipelineTask, World, Outside, started_count}
use taskweave.Orchestrator.{cancel_all}
use taskweave.Orchestrator.Invariant.{start, exit, stop}
use taskweave.Orchestrator.Outcomes.{calm, new_task, ready, state_of}
use taskweave.Pipelines.{Command, start_all, stop_all, one, start_all_pipelines, run_commands}
use taskweave.Pipelines.Sealed.{pipelines, one_process_in_all}
use taskweave.Pipelines.Starting.{AllIdle, start_all_runs}

abbrev clock : ℕ → ℕ
clock n = n + 7

abbrev task_id : ℕ → TaskId
task_id n = record { ident = n; value = "task" }

abbrev others : List World
others = ready (task_id 3) (new_task (task_id 4) true true false) [] ∷ []

abbrev rest : List PipelineTask
rest = new_task (task_id 2) false false true ∷ []

-- Every process fails to start.
abbrev no_spawn : Outside
no_spawn = record { client = λ n e. none; spawn = λ t. some runtime_error; clock = clock }

abbrev commands : List Command
commands = one 0 (exit 0 0) ∷ start_all ∷ one 1 start ∷ stop_all ∷ one 1 (stop cancel_all) ∷ []

one_process_in_all_example :
    started_count
      (run_commands no_spawn commands
        (start_all_pipelines
          (calm clock)
          (pipelines (task_id 0) (task_id 1) true false true rest others)).1).shared.trace
    ≡ 1
one_process_in_all_example =
    one_process_in_all (task_id 0) (task_id 1) true false true clock rest others no_spawn commands

start_all_runs_example :
    let out =
      start_all_pipelines
        (calm clock)
        (pipelines (task_id 0) (task_id 1) true false true rest others) in
    (out.0 ≡ done tt)
    × ((w : World) × (ws : List World) × (out.1.worlds ≡ w ∷ ws)
        × (w.cycle.state ≡ PipelineState.running)
        × (state_of (get_elem? w.tasks 0) ≡ some TaskState.running)
        × (drop 1 w.tasks ≡ rest)
        × AllIdle others ws)
    × (started_count out.1.shared.trace ≡ 1)
start_all_runs_example =
    start_all_runs clock (task_id 0) (task_id 1) true false true rest others
      ((refl, (new_task (task_id 4) true true false, [], refl, refl)), tt)
