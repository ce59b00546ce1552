-- ===== src/Workers/Pool.antt =====
-- The task runners of src/taskweave/tasks/task_runner.py other than that of a subprocess: PoolTaskRunner
-- over its manager, NoOpRunner and ExternalRunner. A task's command, producer and heart beat are only
-- passed on.
use taskweave.Base.{
  ℕ, leb, false, if◌then◌else◌, Option, [], ◌∷◌, ◌++◌, length, done, raised, Stmt, fail, skip,
  store, string_key, ◌>>◌, ◌≡◌, refl, Bool-cases, inl, inr,
}
use taskweave.Exceptions.{attribute_error, type_error, not_implemented}
use taskweave.Protocol.{TaskId}
use taskweave.Workers.{
  WorkerManager, WorkItem, Worker, add_worker, start_new, reset_worker_instance, stop_worker,
  remove_worker, new_context,
}

-- The callbacks that a task passes to the run.
pub record TaskCallbacks : Type 0 where
  pub on_start : Option ℕ
  pub on_success : Option ℕ
  pub on_failure : Option ℕ
  pub on_cancel : Option ℕ

abbrev pub work_item : TaskId → TaskCallbacks → WorkItem
work_item id c = record {
  name = id.value;
  on_start = c.on_start;
  on_success = c.on_success;
  on_failure = c.on_failure;
  on_cancel = c.on_cancel;
}

-- `PoolTaskRunner.run`
unfoldable pub pool_run :
    (ℕ → Stmt WorkerManager Unit) → TaskId → TaskCallbacks → Stmt WorkerManager Unit
pool_run callbacks id c = add_worker callbacks (work_item id c)

-- `PoolTaskRunner.cleanup`
unfoldable pub pool_cleanup : TaskId → Stmt WorkerManager Unit
pool_cleanup id = do stop_worker (id.value); remove_worker (id.value); skip

-- The runner of a task that was never submitted, and one that is not there yet.
unfoldable pub no_op_run : {W : Type 0} → Stmt W Unit
no_op_run = fail not_implemented

unfoldable pub no_op_cleanup : {W : Type 0} → Stmt W Unit
no_op_cleanup = fail not_implemented

unfoldable pub external_run : {W : Type 0} → Stmt W Unit
external_run = fail not_implemented

-- A worker that was made and never started.
abbrev unstarted : Worker
unstarted = record { is_alive = false; success_event = false; pipe_closed = false }

-- A task of a pool is never started. On a pool that is full it waits; on one with room the run raises
-- TypeError and leaves a worker that takes a place.
pub pool_run-eq :
    (callbacks : ℕ → Stmt WorkerManager Unit) (id : TaskId) (c : TaskCallbacks) (m : WorkerManager)
    → pool_run callbacks id c m ≡ (
        if leb m.max_count (length m.workers)
        then (done tt, record m { waiting = m.waiting ++ work_item id c ∷ [] })
        else (raised type_error, record m { workers = store m.workers id.value unstarted }))
unfolding pool_run add_worker start_new reset_worker_instance new_context
pool_run-eq callbacks id c m = elim (Bool-cases (leb m.max_count (length m.workers))) [
  | inl full ↦ rw full refl
  | inr room ↦ rw room refl
]

-- The clean-up after a task of a pool raises AttributeError and changes nothing.
pub pool_cleanup-fails :
    (id : TaskId) (m : WorkerManager) → pool_cleanup id m ≡ (raised attribute_error, m)
unfolding pool_cleanup stop_worker
pool_cleanup-fails id m = refl
