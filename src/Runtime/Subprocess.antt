-- ===== src/Runtime/Subprocess.antt =====
-- src/taskweave/workers/subprocess_manager.py: a manager of one subprocess, and the two threads that it
-- starts. The heart beat and the reading of the output are not part of this state.
pub mod Kept
use taskweave.Base.{
  ℕ, ◌==◌, Bool, true, false, if◌then◌else◌, ◌||◌, Option, none, some, List, [], ◌∷◌, ◌++◌, Outcome,
  done, raised, Stmt, fail, skip, catch, ◌>>=◌, ◌>>◌, update,
}
use taskweave.Exceptions.{Exception, attribute_error}
use taskweave.Runtime.{
  Manager, PipelineTask, World, Outside, Effect, started, terminated, callback_error, cancel_called,
  perform, note, raise_option, with_task, put_task,
}

module _ (o : Outside) where
  abbrev set_manager : ℕ → (Manager → Manager) → Stmt World Unit
  set_manager i f = with_task i λ t. update (put_task i (record t { manager = f t.manager }))

  -- `_start`: the process, its completion thread, and the callback in between.
  unfoldable pub start_process : ℕ → Stmt World Unit → Stmt World Unit
  start_process i on_start = do
    with_task i λ t. raise_option (o.spawn t.name)
    set_manager i (λ m. record m { has_process = true })
    with_task i λ t. note (started t.name)
    on_start
    set_manager i (λ m. record m { watched = true })

  abbrev worker_body : ℕ → Stmt World Unit → Stmt World Unit
  worker_body i on_start = do
    set_manager i (λ m. record m { on_cancel = some tt })
    start_process i on_start
    update λ w. record w { is_init = true }

  unfoldable pub add_worker : ℕ → Stmt World Unit → Stmt World Unit
  unfolding start_process
  add_worker i on_start w =
      if w.is_done || w.is_init then (done tt, w) else worker_body i on_start w

  unfoldable on_callback_error : ℕ → Exception → Stmt World Unit
  on_callback_error i e = with_task i λ t. perform o (callback_error t.name)

  unfoldable pub execute_callback : ℕ → Stmt World Unit → Stmt World Unit
  unfolding on_callback_error
  execute_callback i callback w =
      if w.is_done then (done tt, w) else catch callback (on_callback_error i) w

  -- The lambda that `_run_task` passes as `on_cancel`: it gives the user's callback no outcome.
  unfoldable pub on_cancel : PipelineTask → Stmt World Unit
  unfolding perform
  on_cancel t = if t.has_on_cancel then perform o (cancel_called t.name none) else skip

  unfoldable call_on_cancel : Option (Unit {0}) → ℕ → PipelineTask → Stmt World Unit
  unfolding execute_callback on_cancel
  call_on_cancel none i t = fail attribute_error
  call_on_cancel (some _) i t = execute_callback i (on_cancel t)

  unfoldable pub stop_worker : ℕ → Stmt World Unit
  unfolding call_on_cancel
  stop_worker i = do
    with_task i λ t. if t.manager.has_process then note (terminated t.name) else skip
    with_task i λ t. call_on_cancel t.manager.on_cancel i t
    update λ w. record w { is_done = true }

  -- `_completion_loop`, when the process has ended with the code.
  unfoldable pub completion_loop : ℕ → ℕ → Stmt World Unit → Stmt World Unit → Stmt World Unit
  unfolding execute_callback
  completion_loop i returncode on_success on_failure = do
    execute_callback i (if returncode == 0 then on_success else on_failure)
    update λ w. record w { is_done = true }
