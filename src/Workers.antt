-- ===== src/Workers.antt =====
-- The methods of WorkerManager, src/taskweave/workers/worker_manager.py, each a step of its own: the
-- locks of the source guard single counters, and a step is atomic here. `callbacks n` is what the
-- callback n does to the manager: it may call its methods and may raise.
mod Contexts
pub mod Dead
pub mod Adding
pub mod Process
pub mod Pool
pub mod Dispatch
mod Examples
unfoldable pub use Contexts.*
use taskweave.Base.{
  ℕ, suc, ◌+◌, ◌==◌, leb, String, Bool, true, false, if◌then◌else◌, not, ◌&&◌, Option, none, some,
  is_some, List, [], ◌∷◌, ◌++◌, length, Outcome, done, raised, Stmt, give, fail, skip, update,
  catch, ◌>>=◌, ◌>>◌, Dict, find, store, erase, string_key,
}
use taskweave.Exceptions.{
  Exception, runtime_error, key_error, type_error, value_error, attribute_error, os_error,
}
use taskweave.Lifecycle.{TaskState}
use taskweave.Runtime.{FinalStatus}

-- `BasicWorker.terminate`: a second `send` finds the connection closed. Waiting for the process is
-- over when it has ended.
unfoldable pub terminate : String → Worker → Stmt WorkerManager Unit
terminate name w =
    if w.pipe_closed
    then fail os_error
    else put_worker name (record w { is_alive = false; pipe_closed = true })

-- `stop_worker` asks for `_stopp_worker`, which there is not.
unfoldable pub stop_worker : String → Stmt WorkerManager Unit
stop_worker name = fail attribute_error

unfoldable pub join_worker : String → Stmt WorkerManager Unit
unfolding assert_transition
join_worker name = do
  assert_transition name WorkerState.running
  λ m. if is_some (find m.workers name) then (done tt, m) else (raised value_error, m)

unfoldable pub remove_worker : String → Stmt WorkerManager String
unfolding assert_transition terminate set_stopped
remove_worker name = do
  assert_transition name stopped
  w ← get_worker name
  terminate name w
  set_stopped name "worker stopped and removed"
  c ← get_context name
  update λ m. record m { workers = erase m.workers name }
  give (state_value c.state)

-- `all(ctx.state != RUNNING for ctx in …)`
abbrev none_running : Dict String WorkerContext → Bool
none_running [] = true
none_running ((name, c) ∷ rest) = not (same_state c.state WorkerState.running) && none_running rest

unfoldable pub all_stopped : WorkerManager → Bool
all_stopped m = none_running m.worker_ctx

-- `get_worker_status`, `none` for the message on a worker that is not there.
unfoldable status_of : Option Worker → String → Stmt WorkerManager (Option String)
unfolding set_error
status_of none name = give none
status_of (some w) name = do
  c ← get_context name
  (if same_state c.state WorkerState.running && not w.is_alive
      then set_error name "Worker wasn't alive when getting status"
      else skip)
  c' ← get_context name
  give (some (state_value c'.state))

unfoldable pub get_worker_status : String → Stmt WorkerManager (Option String)
unfolding status_of
get_worker_status name m = status_of (find m.workers name) name m

module _ (callbacks : ℕ → Stmt WorkerManager Unit) where
  -- `if callable(cb): cb()`
  unfoldable call_back : Option ℕ → Stmt WorkerManager Unit
  call_back none = skip
  call_back (some n) = do update λ m. record m { called = n ∷ m.called }; callbacks n

  unfoldable pub start_worker : String → Stmt WorkerManager String
  unfolding assert_transition set_running call_back
  start_worker name = do
    assert_transition name WorkerState.pending
    w ← get_worker name
    put_worker name (record w { is_alive = true })
    set_running name "start worker"
    cb ← λ m. item_of (find m.on_start_cbs name) m
    call_back cb
    update λ m. record m { completion_threads = store m.completion_threads name true }
    update λ m. record m { starts = m.starts + 1; is_done = false }
    c ← get_context name
    give (state_value c.state)

  unfoldable start_new : WorkItem → Stmt WorkerManager Unit
  unfolding reset_worker_instance start_worker
  start_new item = do reset_worker_instance item; start_worker (item.name); skip

  unfoldable pub add_worker : WorkItem → Stmt WorkerManager Unit
  unfolding start_new
  add_worker item m =
      if leb m.max_count (length m.workers)
      then (done tt, record m { waiting = m.waiting ++ item ∷ [] })
      else start_new item m

  -- `_execute_callback`, for a name with its lock and its mark; the bus takes the report of an
  -- exception.
  unfoldable on_callback_error : String → Exception → Stmt WorkerManager Unit
  on_callback_error name e = update λ m. record m { errors = name ∷ m.errors }

  unfoldable run_callback : String → ℕ → Bool → Stmt WorkerManager Unit
  unfolding on_callback_error call_back
  run_callback name cb true = skip
  run_callback name cb false = do
    update λ m. record m { completion_done = store m.completion_done name true }
    catch (call_back (some cb)) (on_callback_error name)

  unfoldable pub execute_callback : String → ℕ → Stmt WorkerManager Unit
  unfolding run_callback
  execute_callback name cb = do
    marked ← λ m. item_of (find m.completion_done name) m
    run_callback name cb marked

  abbrev pub execute_option : String → Option ℕ → Stmt WorkerManager Unit
  execute_option name none = skip
  execute_option name (some cb) = execute_callback name cb

  -- `_stop_worker`. A callback for the cancellation is never called: `FinalStatus.STOPPED`, its
  -- argument, does not exist.
  unfoldable cancel_callback : Option ℕ → Stmt WorkerManager Unit
  cancel_callback none = skip
  cancel_callback (some cb) = fail attribute_error

  unfoldable pub stop_running : String → Stmt WorkerManager String
  unfolding assert_transition terminate cancel_callback
  stop_running name = do
    assert_transition name WorkerState.running
    w ← get_worker name
    if w.is_alive then terminate name w else skip
    update λ m. record m { ends = m.ends + 1 }
    c ← get_context name
    put_context name (record c { state = stopped })
    cb ← λ m. item_of (find m.on_cancel_cbs name) m
    cancel_callback cb
    c' ← get_context name
    give (state_value c'.state)

  -- The end of `_on_completed`: the next waiting item, whose failure is only printed, and the counters.
  unfoldable dispatch : List WorkItem → Stmt WorkerManager Unit
  unfolding add_worker
  dispatch [] = skip
  dispatch (item ∷ rest) = do update λ m. record m { waiting = rest }; add_worker item

  unfoldable count_end : Stmt WorkerManager Unit
  count_end = update λ m. record m {
    ends = m.ends + 1;
    is_done = if m.starts == m.ends + 1 then true else m.is_done;
  }

  unfoldable take_next : Stmt WorkerManager Unit
  unfolding dispatch count_end
  take_next = do catch (λ m. dispatch m.waiting m) (λ e. skip); count_end

  unfoldable conclude_success : String → Stmt WorkerManager Unit
  unfolding set_success execute_callback
  conclude_success name = do
    set_success name
    cb ← λ m. item_of (find m.on_success_cbs name) m
    execute_option name cb

  unfoldable conclude_failure : String → Stmt WorkerManager Unit
  unfolding set_error execute_callback
  conclude_failure name = do
    set_error name "see logs"
    cb ← λ m. item_of (find m.on_failure_cbs name) m
    execute_option name cb

  unfoldable conclude : String → Worker → Stmt WorkerManager Unit
  unfolding conclude_success conclude_failure
  conclude name w = if w.success_event then conclude_success name else conclude_failure name

  unfoldable pub on_completed : String → Stmt WorkerManager Unit
  unfolding conclude take_next
  on_completed name = do w ← get_worker name; conclude name w; take_next

  -- `_handle_worker_completion`, when the process has ended: what `join_worker` raises is printed.
  unfoldable pub handle_worker_completion : String → Stmt WorkerManager Unit
  unfolding join_worker on_completed
  handle_worker_completion name = do
    catch (do w ← get_worker name; join_worker name) (λ e. skip)
    on_completed name
