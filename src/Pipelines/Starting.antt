-- ===== src/Pipelines/Starting.antt =====
-- What `start_all_pipelines` does to each pipeline.
use taskweave.Base.{
  ℕ, Bool, true, some, List, [], ◌∷◌, ◌++◌, drop, get_elem?, ◌+◌, >>-done, Outcome, done, ◌≡◌, refl,
  ap, sym, subst, ◌∙◌, arith,
}
use taskweave.Exceptions.{text}
use taskweave.Protocol.{TaskId, LogEvent, MsgType, SourceType, default_routing}
use taskweave.Lifecycle.{TaskState, PipelineState}
use taskweave.Runtime.{
  World, PipelineTask, emitted, subprocess, started_count, perform, pipeline_change,
}
use taskweave.Runtime.Sealed.{started_count-append}
use taskweave.Runtime.Subprocess.{add_worker}
use taskweave.Orchestrator.{start_pipeline, next_task, run_task}
use taskweave.Orchestrator.Outcomes.{calm, state_of, after_start, start_pipeline_runs}
use taskweave.Pipelines.{Shared, Pipelines, load, shared_of, go_on, start_each, start_all_pipelines}
use taskweave.Pipelines.Sealed.{pipelines}

-- A pipeline that was not started yet, with a first task that a subprocess runs.
abbrev pub IsFresh : World → Type 0
IsFresh w =
    (w.cycle.state ≡ PipelineState.pending)
    × ((t : PipelineTask) × (ts : List PipelineTask) × (w.tasks ≡ t ∷ ts) × (t.runner ≡ subprocess))

abbrev pub AllFresh : List World → Type 0
AllFresh [] = Unit
AllFresh (w ∷ ws) = IsFresh w × AllFresh ws

-- The second list has the tasks of the first, untouched, in pipelines that are RUNNING.
abbrev pub AllIdle : List World → List World → Type 0
AllIdle [] [] = Unit
AllIdle [] (v ∷ vs) = ⊥
AllIdle (w ∷ ws) [] = ⊥
AllIdle (w ∷ ws) (v ∷ vs) =
    (v.tasks ≡ w.tasks) × (v.cycle.state ≡ PipelineState.running) × AllIdle ws vs

module _ (clock : ℕ → ℕ) where
  next_task-sealed :
      (w : World) (t : PipelineTask) (ts : List PipelineTask)
      → w.is_init ≡ true
      → w.tasks ≡ t ∷ ts
      → t.runner ≡ subprocess
      → next_task (calm clock) 0 w ≡ (done tt, w)
  unfolding next_task run_task add_worker
  next_task-sealed w t ts init tasks runner = ground (arith, init, tasks, runner)

  -- The event and the state that a pending pipeline has when it runs.
  abbrev run_event : World → LogEvent
  run_event w = record {
    source_id = w.id;
    state = some "running";
    msg_type = MsgType.state_change;
    source_type = SourceType.pipeline;
    timestamp = clock (w.readings + 1);
    routing = default_routing;
    sequence = 0;
    msg = text "";
  }

  abbrev running_world : World → World
  running_world w = record w {
    cycle = record { state = PipelineState.running; started_at = clock w.readings };
    readings = w.readings + 2;
    trace = w.trace ++ emitted (run_event w) ∷ [];
  }

  pipeline_change-run :
      (w : World)
      → w.cycle.state ≡ PipelineState.pending
      → pipeline_change (calm clock) PipelineState.running w ≡ (done tt, running_world w)
  unfolding pipeline_change perform
  pipeline_change-run w pending = ground (arith, pending)

  -- A pipeline that starts when the shared flag is set.
  start_later :
      (w : World)
      → w.is_init ≡ true
      → IsFresh w
      → start_pipeline (calm clock) w ≡ (done tt, running_world w)
  unfolding start_pipeline
  start_later w init (pending, (t, ts, tasks, runner)) =
      >>-done (next_task (calm clock) 0) (pipeline_change (calm clock) PipelineState.running)
        (next_task-sealed w t ts init tasks runner)
      ∙ pipeline_change-run w pending

  start_each-later :
      (ws : List World) (s : Shared)
      → s.is_init ≡ true
      → AllFresh ws
      → let out = start_each (calm clock) ws s in
        (out.0 ≡ done tt)
        × AllIdle ws out.1.worlds
        × (started_count out.1.shared.trace ≡ started_count s.trace)
  unfolding start_each
  start_each-later [] s init fresh = (refl, tt, refl)
  start_each-later (w ∷ ws) s init (fresh, rest) =
      let w' = running_world (load s w) in
      let e = start_later (load s w) init fresh in
      let (ok, idle, count) = start_each-later ws (shared_of w') init rest in
      let later = start_each (calm clock) ws (shared_of w') in
      let stepped : start_each (calm clock) (w ∷ ws) s
          ≡ (later.0, record (later.1) { worlds = w' ∷ later.1.worlds }) =
        λ i. go_on (e i).0 (e i).1 ws (start_each (calm clock) ws (shared_of (e i).1)) in
      (
        ap (λ out. out.0) stepped ∙ ok,
        subst (λ (out : Outcome Unit × Pipelines). AllIdle (w ∷ ws) out.1.worlds) (sym stepped)
            (refl, refl, idle),
        ap (λ out. started_count out.1.shared.trace) stepped
            ∙ count
            ∙ started_count-append (emitted (run_event (load s w))) s.trace refl,
      )

  module _ (id name : TaskId) (backend cancels finishes : Bool) where
    -- `start_all_pipelines` returns, when no callback raises and the first process starts, over
    -- pipelines that were not started yet and have first tasks that a subprocess runs: then every
    -- pipeline is RUNNING, but only the first task of the first one runs, in the one process that was
    -- started, and the tasks of all other pipelines are as they were. (The first use of the Python
    -- process.)
    pub start_all_runs :
        (rest : List PipelineTask) (others : List World)
        → AllFresh others
        → let out =
            start_all_pipelines
              (calm clock)
              (pipelines id name backend cancels finishes rest others) in
          (out.0 ≡ done tt)
          × ((w : World) × (ws : List World) × (out.1.worlds ≡ w ∷ ws)
              × (w.cycle.state ≡ PipelineState.running)
              × (state_of (get_elem? w.tasks 0) ≡ some TaskState.running)
              × (drop 1 w.tasks ≡ rest)
              × AllIdle others ws)
          × (started_count out.1.shared.trace ≡ 1)
    unfolding start_all_pipelines start_each
    start_all_runs rest others fresh =
        let (ok, running, first, tail, count, init) =
          start_pipeline_runs clock id name backend cancels finishes rest in
        let out = after_start clock id name backend cancels finishes rest in
        let (ok', idle, count') = start_each-later others (shared_of out.1) init fresh in
        let later = start_each (calm clock) others (shared_of out.1) in
        let stepped : go_on (out.0) (out.1) others later
            ≡ (later.0, record (later.1) { worlds = out.1 ∷ later.1.worlds }) =
          λ i. go_on (ok i) (out.1) others later in
        (
          ap (λ o. o.0) stepped ∙ ok',
          (out.1, later.1.worlds, ap (λ o. o.1.worlds) stepped, running, first, tail, idle),
          ap (λ o. started_count o.1.shared.trace) stepped ∙ count' ∙ count,
        )
