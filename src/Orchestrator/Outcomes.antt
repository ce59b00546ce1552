-- ===== src/Orchestrator/Outcomes.antt =====
-- Commands and callbacks on one pipeline whose user callbacks do not raise.
use taskweave.Base.{
  ℕ, suc, Bool, true, false, Option, none, some, List, [], ◌∷◌, get_elem?, Outcome, done, raised,
  ◌≡◌, refl, arith, drop, subst, sym,
}
use taskweave.Exceptions.{runtime_error}
use taskweave.Protocol.{TaskId}
use taskweave.Lifecycle.{TaskState, PipelineState}
use taskweave.Runtime.{
  PipelineTask, World, Outside, Effect, subprocess, started_count, perform, task_change,
  pipeline_change, cancel_called, finally_called, FinalStatus,
}
use taskweave.Runtime.Subprocess.{
  add_worker, stop_worker, completion_loop, start_process, execute_callback, on_cancel,
}
use taskweave.Orchestrator.{
  CancelPolicy, next_task, run_task, start_pipeline, stop_pipeline, complete, on_task_start,
  on_task_success, on_task_failure,
}

-- Stopping a pipeline raises RuntimeError under every policy and in every state, and nothing at all
-- changes: no task is cancelled, no process is terminated, no callback is called.
pub stop_pipeline_fails :
    (o : Outside) (policy : CancelPolicy) (w : World)
    → stop_pipeline o policy w ≡ (raised runtime_error, w)
unfolding stop_pipeline pipeline_change
stop_pipeline_fails o policy w = ground arith

-- The user's callbacks return, and every process starts.
abbrev pub calm : (ℕ → ℕ) → Outside
calm clock = record { client = λ n e. none; spawn = λ id. none; clock = clock }

-- A task before its pipeline starts.
abbrev pub new_task : TaskId → (backend cancels finishes : Bool) → PipelineTask
new_task name backend cancels finishes = record {
  name = name;
  runner = subprocess;
  manager = record { has_process = false; on_cancel = none; watched = false };
  cycle = record { state = TaskState.pending; started_at = 0 };
  has_backend = backend;
  has_on_cancel = cancels;
  has_on_finally = finishes;
}

-- The first pipeline of the process, before it starts.
abbrev pub ready : TaskId → PipelineTask → List PipelineTask → World
ready id t rest = record {
  id = id;
  cycle = record { state = PipelineState.pending; started_at = 0 };
  tasks = t ∷ rest;
  is_done = false;
  is_init = false;
  readings = 0;
  trace = [];
}

-- The callbacks of the user, in order.
abbrev pub user_callbacks : List Effect → List Effect
user_callbacks [] = []
user_callbacks (finally_called n status ∷ rest) = finally_called n status ∷ user_callbacks rest
user_callbacks (cancel_called n status ∷ rest) = cancel_called n status ∷ user_callbacks rest
user_callbacks (_ ∷ rest) = user_callbacks rest

abbrev pub state_of : Option PipelineTask → Option TaskState
state_of none = none
state_of (some t) = some (t.cycle.state)

module _ (clock : ℕ → ℕ) (id name : TaskId) (backend cancels finishes : Bool) where
  -- After `start_pipeline` over a new first task and the given others.
  abbrev pub after_start : List PipelineTask → Outcome Unit × World
  after_start rest =
      start_pipeline (calm clock) (ready id (new_task name backend cancels finishes) rest)

  -- And after the process of the first task has ended with the code.
  abbrev pub after_exit : List PipelineTask → ℕ → Outcome Unit × World
  after_exit rest code = complete (calm clock) 0 code (after_start rest).1

program : Unit {0}
unfolding start_pipeline next_task run_task add_worker start_process on_task_start task_change
    pipeline_change complete completion_loop execute_callback on_task_success on_task_failure
    stop_worker on_cancel perform
program = tt

module _ (clock : ℕ → ℕ) (id name : TaskId) where
  -- Starting a pipeline starts the process of its first task and no other; task and pipeline are
  -- then RUNNING, the tasks behind the first are as they were, and the shared flag `_init` is set.
  -- (The first pipeline of a Python process, where the user's callbacks do not raise and every
  -- process starts.)
  pub start_pipeline_runs :
      (backend cancels finishes : Bool) (rest : List PipelineTask)
      → let out = after_start clock id name backend cancels finishes rest in
        (out.0 ≡ done tt)
        × (out.1.cycle.state ≡ PipelineState.running)
        × (state_of (get_elem? out.1.tasks 0) ≡ some TaskState.running)
        × (drop 1 out.1.tasks ≡ rest)
        × (started_count out.1.trace ≡ 1)
        × (out.1.is_init ≡ true)
  unfolding program
  start_pipeline_runs backend cancels finishes rest = ground arith

  -- A started pipeline of one task without a backend, whose process ends with code 0, is SUCCESS,
  -- and so is its task. (The first pipeline of a Python process, where the user's callbacks do not
  -- raise and every process starts.)
  pub single_task_success :
      (cancels finishes : Bool)
      → let w = (after_exit clock id name false cancels finishes [] 0).1 in
        (w.cycle.state ≡ PipelineState.success)
        × (state_of (get_elem? w.tasks 0) ≡ some TaskState.success)
  unfolding program
  single_task_success true true = (refl, refl)
  single_task_success true false = (refl, refl)
  single_task_success false true = (refl, refl)
  single_task_success false false = (refl, refl)

  -- When the first of two tasks, without a backend, ends with code 0 and the second has a
  -- subprocess runner, the second is not started: it stays as it was, the first task is SUCCESS,
  -- the pipeline stays RUNNING, and one process has been started in all. (The first pipeline of a
  -- Python process, where the user's callbacks do not raise and every process starts.)
  pub second_task_stalls :
      (cancels finishes : Bool) (next : TaskId) (backend' cancels' finishes' : Bool)
      → let rest = new_task next backend' cancels' finishes' ∷ [] in
        let w = (after_exit clock id name false cancels finishes rest 0).1 in
        (state_of (get_elem? w.tasks 0) ≡ some TaskState.success)
        × (drop 1 w.tasks ≡ rest)
        × (w.cycle.state ≡ PipelineState.running)
        × (started_count w.trace ≡ 1)
  unfolding program
  second_task_stalls true true next b c f = (refl, refl, refl, refl)
  second_task_stalls true false next b c f = (refl, refl, refl, refl)
  second_task_stalls false true next b c f = (refl, refl, refl, refl)
  second_task_stalls false false next b c f = (refl, refl, refl, refl)

  -- A first and only task with a backend whose process ends with code 0 does not become SUCCESS, as
  -- its cleanup raises: task and pipeline stay RUNNING, and the flag `_done` is set. (The first
  -- pipeline of a Python process, where the user's callbacks do not raise and every process
  -- starts.)
  pub backend_task_stalls :
      (cancels finishes : Bool)
      → let w = (after_exit clock id name true cancels finishes [] 0).1 in
        (state_of (get_elem? w.tasks 0) ≡ some TaskState.running)
        × (w.cycle.state ≡ PipelineState.running)
        × (w.is_done ≡ true)
  unfolding program
  backend_task_stalls true true = (refl, refl, refl)
  backend_task_stalls true false = (refl, refl, refl)
  backend_task_stalls false true = (refl, refl, refl)
  backend_task_stalls false false = (refl, refl, refl)

  -- The exit code matters only by whether it is 0.
  complete-failure :
      (o : Outside) (code : ℕ) (w : World) → complete o 0 (suc code) w ≡ complete o 0 1 w
  unfolding complete completion_loop
  complete-failure o code w = ground arith

  exit_one :
      (cancels finishes : Bool) (next : TaskId) (cancels' finishes' : Bool)
      → let rest = new_task next false cancels' finishes' ∷ [] in
        let w = (after_exit clock id name false cancels finishes rest 1).1 in
        (state_of (get_elem? w.tasks 0) ≡ some TaskState.failed)
        × (state_of (get_elem? w.tasks 1) ≡ some TaskState.canceled)
        × (w.cycle.state ≡ PipelineState.failed)
  unfolding program
  exit_one true true next c f = (refl, refl, refl)
  exit_one true false next c f = (refl, refl, refl)
  exit_one false true next c f = (refl, refl, refl)
  exit_one false false next c f = (refl, refl, refl)

  -- When the process of the first of two tasks, both without a backend, ends with a code other than
  -- 0, the first task and the pipeline are FAILED and the second task is CANCELED. (The first
  -- pipeline of a Python process, where the user's callbacks do not raise and every process
  -- starts.)
  pub first_task_failure :
      (cancels finishes : Bool) (next : TaskId) (cancels' finishes' : Bool) (code : ℕ)
      → let rest = new_task next false cancels' finishes' ∷ [] in
        let w = (after_exit clock id name false cancels finishes rest (suc code)).1 in
        (state_of (get_elem? w.tasks 0) ≡ some TaskState.failed)
        × (state_of (get_elem? w.tasks 1) ≡ some TaskState.canceled)
        × (w.cycle.state ≡ PipelineState.failed)
  first_task_failure cancels finishes next c f code =
      subst
        (λ out.
          (state_of (get_elem? out.1.tasks 0) ≡ some TaskState.failed)
          × (state_of (get_elem? out.1.tasks 1) ≡ some TaskState.canceled)
          × (out.1.cycle.state ≡ PipelineState.failed))
        (sym (complete-failure (calm clock) code _)) (exit_one cancels finishes next c f)

  -- A first and only task without a backend whose process ends with code 0 and whose user gave both
  -- callbacks: the callback for a cancellation is called too, and first, although nothing was
  -- cancelled. (The first pipeline of a Python process, where the user's callbacks do not raise and
  -- every process starts.)
  pub on_cancel_after_success :
      user_callbacks (after_exit clock id name false true true [] 0).1.trace
      ≡ cancel_called name none ∷ finally_called name FinalStatus.success ∷ []
  unfolding program
  on_cancel_after_success = refl
