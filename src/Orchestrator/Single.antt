-- ===== src/Orchestrator/Single.antt =====
-- How many processes a pipeline starts.
use taskweave.Base.{ℕ, Bool, true, false, ◌||◌, List, ◌≡◌, refl, ap, ◌∙◌}
use taskweave.Protocol.{TaskId}
use taskweave.Runtime.{PipelineTask, Outside, started_count, World}
use taskweave.Runtime.Sealed.{IsSealed}
use taskweave.Orchestrator.Outcomes.{after_start, start_pipeline_runs}
use taskweave.Orchestrator.Invariant.{Event, run_events, run_events-IsSealed}

or_true : (b : Bool) → (b || true) ≡ true
or_true true = refl
or_true false = refl

pub IsSealed-by_init : (w : World) → w.is_init ≡ true → started_count w.trace ≡ 1 → IsSealed 1 w
IsSealed-by_init w init count = record {
  sealed = ap (λ b. w.is_done || b) init ∙ or_true w.is_done;
  count = count;
}

-- After the start of the first pipeline of a Python process, where then no callback raises and the
-- first task's process starts, no sequence of starts, stops of the pipeline or of
-- a task, and process ends gets a second process started, whatever the outside
-- does from there on: of all the tasks of the pipeline, none of which uses a pool, only the first is
-- ever run.
pub one_process_ever :
    (clock : ℕ → ℕ) (id name : TaskId) (backend cancels finishes : Bool) (rest : List PipelineTask)
    (o : Outside) (events : List Event)
    → started_count
        (run_events o events (after_start clock id name backend cancels finishes rest).1).trace
      ≡ 1
one_process_ever clock id name backend cancels finishes rest o events =
    let (_, _, _, _, count, init) =
      start_pipeline_runs clock id name backend cancels finishes rest in
    let w = (after_start clock id name backend cancels finishes rest).1 in
    (run_events-IsSealed o 1 events w (IsSealed-by_init w init count)).count
