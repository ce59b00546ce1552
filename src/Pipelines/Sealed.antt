-- ===== src/Pipelines/Sealed.antt =====
-- How many processes all the pipelines start.
use taskweave.Base.{
  ℕ, zero, suc, Bool, true, false, ◌||◌, List, [], ◌∷◌, Outcome, done, raised, Stmt, Keeps, ◌≡◌,
}
use taskweave.Protocol.{TaskId}
use taskweave.Runtime.{World, PipelineTask, Outside, started_count}
use taskweave.Runtime.Sealed.{IsSealed}
use taskweave.Orchestrator.{start_pipeline}
use taskweave.Orchestrator.Invariant.{handle, handle-Keeps, start}
use taskweave.Orchestrator.Outcomes.{calm, ready, new_task, after_start, start_pipeline_runs}
use taskweave.Orchestrator.Single.{IsSealed-by_init}
use taskweave.Pipelines.{
  Shared, Pipelines, load, shared_of, on_pipeline, go_on, start_each, start_all_pipelines,
  stop_keys, Command, start_all, stop_all, one, command, run_commands,
}

-- IsSealed, of what the pipelines share.
pub record IsClosed (n : ℕ) (s : Shared) : Type 0 where
  pub sealed : (s.is_done || s.is_init) ≡ true
  pub count : started_count s.trace ≡ n

module _ (o : Outside) (n : ℕ) where
  on_pipeline-IsClosed :
      (i : ℕ) (body : Stmt World Unit) (ws : List World) (s : Shared)
      → Keeps (IsSealed n) body
      → IsClosed n s
      → IsClosed n (on_pipeline i body ws s).1.shared
  unfolding on_pipeline
  on_pipeline-IsClosed i body [] s keeps c = c
  on_pipeline-IsClosed zero body (w ∷ ws) s keeps c =
      closed (keeps (load s w) (record { sealed = c.sealed; count = c.count }))
    where
      closed : IsSealed n (body (load s w)).1 → IsClosed n (shared_of (body (load s w)).1)
      closed p = record { sealed = p.sealed; count = p.count }
  on_pipeline-IsClosed (suc i) body (w ∷ ws) s keeps c = on_pipeline-IsClosed i body ws s keeps c

  go_on-IsClosed :
      (r : Outcome Unit) (w : World) (ws : List World) (rest : Outcome Unit × Pipelines)
      → IsClosed n (shared_of w)
      → IsClosed n rest.1.shared
      → IsClosed n (go_on r w ws rest).1.shared
  go_on-IsClosed (done _) w ws rest c d = d
  go_on-IsClosed (raised e) w ws rest c d = c

  pub start_each-IsClosed :
      (ws : List World) (s : Shared) → IsClosed n s → IsClosed n (start_each o ws s).1.shared
  unfolding start_each
  start_each-IsClosed [] s c = c
  start_each-IsClosed (w ∷ ws) s c =
      let p = handle-Keeps o n start (load s w) (record { sealed = c.sealed; count = c.count }) in
      let w' = (start_pipeline o (load s w)).1 in
      let c' : IsClosed n (shared_of w') = record { sealed = p.sealed; count = p.count } in
      go_on-IsClosed (start_pipeline o (load s w)).0 w' ws (start_each o ws (shared_of w')) c'
        (start_each-IsClosed ws (shared_of w') c')

  stop_keys-IsClosed :
      (ws : List World) (p : Pipelines) → IsClosed n p.shared → IsClosed n (stop_keys ws p).1.shared
  unfolding stop_keys
  stop_keys-IsClosed [] p c = c
  stop_keys-IsClosed (w ∷ ws) p c = c

  command-IsClosed :
      (c : Command) (p : Pipelines) → IsClosed n p.shared → IsClosed n (command o c p).1.shared
  unfolding command
  command-IsClosed start_all p c = start_each-IsClosed p.worlds p.shared c
  command-IsClosed stop_all p c = stop_keys-IsClosed p.worlds p c
  command-IsClosed (one i e) p c =
      on_pipeline-IsClosed i (handle o e) p.worlds p.shared (handle-Keeps o n e) c

  pub run_commands-IsClosed :
      (cs : List Command) (p : Pipelines)
      → IsClosed n p.shared
      → IsClosed n (run_commands o cs p).shared
  run_commands-IsClosed [] p c = c
  run_commands-IsClosed (e ∷ cs) p c =
      run_commands-IsClosed cs (command o e p).1 (command-IsClosed e p c)

-- Before the first pipeline of the Python process starts.
abbrev pub untouched : Shared
untouched = record { is_done = false; is_init = false; readings = 0; trace = [] }

module _ (id name : TaskId) (backend cancels finishes : Bool) where
  -- Some pipelines, of which the first has just been made and starts with the given task.
  abbrev pub pipelines : List PipelineTask → List World → Pipelines
  pipelines rest others = record {
    worlds = ready id (new_task name backend cancels finishes) rest ∷ others;
    shared = untouched;
  }

  -- After `start_all_pipelines` as the first use of the process, where no callback raises and the
  -- first process starts, no sequence of commands on any of the pipelines, and of process ends, gets a
  -- second process started, whatever the outside does from there on: of all the tasks of all the
  -- pipelines, none of which uses a pool, only the first task of the first pipeline is ever run.
  pub one_process_in_all :
      (clock : ℕ → ℕ) (rest : List PipelineTask) (others : List World) (o : Outside)
      (commands : List Command)
      → started_count
          (run_commands o commands
            (start_all_pipelines (calm clock) (pipelines rest others)).1).shared.trace
        ≡ 1
  unfolding start_all_pipelines start_each
  one_process_in_all clock rest others o commands =
      let (_, _, _, _, count, init) =
        start_pipeline_runs clock id name backend cancels finishes rest in
      let out = after_start clock id name backend cancels finishes rest in
      let p = IsSealed-by_init out.1 init count in
      let c : IsClosed 1 (shared_of out.1) = record { sealed = p.sealed; count = p.count } in
      (run_commands-IsClosed o 1 commands
        (start_all_pipelines (calm clock) (pipelines rest others)).1
        (go_on-IsClosed o 1 out.0 out.1 others (start_each (calm clock) others (shared_of out.1)) c
          (start_each-IsClosed (calm clock) 1 others (shared_of out.1) c))).count
