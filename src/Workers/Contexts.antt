-- ===== src/Workers/Contexts.antt =====
-- What the worker manager of src/taskweave/workers/worker_manager.py keeps of each worker, with the
-- states and the context of src/taskweave/states, and `_reset_worker_instance`, which makes them. A
-- callback is a number. `_active` is `starts` less `ends`. The queue of log events, the dispatch
-- thread, the heart beats and time stamps are not part of this state.
use taskweave.Base.{
  ℕ, String, Bool, true, false, if◌then◌else◌, Option, none, some, List, [], Stmt, give, fail, skip,
  update, ◌>>=◌, ◌>>◌, Dict, find, store, string_key,
}
use taskweave.Exceptions.{runtime_error, key_error, type_error}
use taskweave.Lifecycle.{TaskState}

-- WorkerState. `STOPPED` has the value of `PENDING`, so that it is another name of that member.
pub data WorkerState : Type 0 where
  pending running success error : WorkerState

abbrev pub stopped : WorkerState
stopped = WorkerState.pending

abbrev pub same_state : WorkerState → WorkerState → Bool
same_state WorkerState.pending WorkerState.pending = true
same_state WorkerState.running WorkerState.running = true
same_state WorkerState.success WorkerState.success = true
same_state WorkerState.error WorkerState.error = true
same_state _ _ = false

-- `worker_state.value`
unfoldable pub state_value : WorkerState → String
state_value WorkerState.pending = "stopped"
state_value WorkerState.running = "running"
state_value WorkerState.success = "success"
state_value WorkerState.error = "error"

-- WORKER_TO_TASK: the entry of `STOPPED` replaces that of `PENDING`.
unfoldable pub worker_to_task : WorkerState → TaskState
worker_to_task WorkerState.pending = TaskState.canceled
worker_to_task WorkerState.running = TaskState.running
worker_to_task WorkerState.success = TaskState.success
worker_to_task WorkerState.error = TaskState.failed

-- WorkerContext. Its messages are kept less the name that stands before them.
pub record WorkerContext : Type 0 where
  pub state : WorkerState
  pub last_action : String
  pub last_error : String

-- A BasicWorker: its process, its success event, and its end of the pipe.
pub record Worker : Type 0 where
  pub is_alive : Bool
  pub success_event : Bool
  pub pipe_closed : Bool

-- WorkItem, whose producer and arguments the manager only passes on.
pub record WorkItem : Type 0 where
  pub name : String
  pub on_start : Option ℕ
  pub on_success : Option ℕ
  pub on_failure : Option ℕ
  pub on_cancel : Option ℕ

pub record WorkerManager : Type 0 where
  pub workers : Dict String Worker
  pub worker_ctx : Dict String WorkerContext
  pub on_start_cbs : Dict String (Option ℕ)
  pub on_success_cbs : Dict String (Option ℕ)
  pub on_failure_cbs : Dict String (Option ℕ)
  pub on_cancel_cbs : Dict String (Option ℕ)
  pub completion_done : Dict String Bool
  pub completion_threads : Dict String Bool
  pub max_count : ℕ
  pub waiting : List WorkItem
  pub starts : ℕ
  pub ends : ℕ
  pub is_done : Bool
  pub called : List ℕ
  pub errors : List String

-- `WorkerManager(max_count = n)`
abbrev pub new_manager : ℕ → WorkerManager
new_manager n = record {
  workers = [];
  worker_ctx = [];
  on_start_cbs = [];
  on_success_cbs = [];
  on_failure_cbs = [];
  on_cancel_cbs = [];
  completion_done = [];
  completion_threads = [];
  max_count = n;
  waiting = [];
  starts = 0;
  ends = 0;
  is_done = false;
  called = [];
  errors = [];
}

-- `d[k]`
abbrev pub item_of : {V : Type 0} → Option V → Stmt WorkerManager V
item_of none = fail key_error
item_of (some v) = give v

abbrev pub get_worker : String → Stmt WorkerManager Worker
get_worker name m = item_of (find m.workers name) m

abbrev pub get_context : String → Stmt WorkerManager WorkerContext
get_context name m = item_of (find m.worker_ctx name) m

abbrev pub put_worker : String → Worker → Stmt WorkerManager Unit
put_worker name w = update λ m. record m { workers = store m.workers name w }

abbrev pub put_context : String → WorkerContext → Stmt WorkerManager Unit
put_context name c = update λ m. record m { worker_ctx = store m.worker_ctx name c }

unfoldable pub set_state : String → WorkerState → String → Stmt WorkerManager Unit
set_state name state action = do
  c ← get_context name
  put_context name (record c { state = state; last_action = action })

-- The setters of WorkerContext.
unfoldable pub set_running : String → String → Stmt WorkerManager Unit
unfolding set_state
set_running name action = set_state name WorkerState.running action

unfoldable pub set_stopped : String → String → Stmt WorkerManager Unit
unfolding set_state
set_stopped name action = set_state name stopped action

unfoldable pub set_pending : String → String → Stmt WorkerManager Unit
unfolding set_state
set_pending name action = set_state name WorkerState.pending action

unfoldable pub set_error : String → String → Stmt WorkerManager Unit
set_error name message = do
  c ← get_context name
  put_context name (record c { state = WorkerState.error; last_error = message })

unfoldable pub set_success : String → Stmt WorkerManager Unit
set_success name = do
  c ← get_context name
  put_context name (record c { state = WorkerState.success })

-- `_assert_transition`
unfoldable pub assert_state : Option WorkerContext → WorkerState → Stmt WorkerManager Unit
assert_state none required = fail runtime_error
assert_state (some c) required = if same_state c.state required then skip else fail runtime_error

unfoldable pub assert_transition : String → WorkerState → Stmt WorkerManager Unit
unfolding assert_state
assert_transition name required m = assert_state (find m.worker_ctx name) required m

-- `WorkerContext(name = …, sink = …)`: the class takes no `sink`.
unfoldable pub new_context : Stmt WorkerManager WorkerContext
new_context = fail type_error

-- `Heartbeat(name, bus, cfg)`: the class takes keywords only.
unfoldable pub new_heartbeat : Stmt WorkerManager Unit
new_heartbeat = fail type_error

unfoldable pub reset_worker_instance : WorkItem → Stmt WorkerManager Unit
unfolding new_context new_heartbeat set_pending
reset_worker_instance item = do
  put_worker (item.name) (record { is_alive = false; success_event = false; pipe_closed = false })
  c ← new_context
  put_context (item.name) c
  update λ m. record m {
    on_start_cbs = store m.on_start_cbs item.name item.on_start;
    on_success_cbs = store m.on_success_cbs item.name item.on_success;
    on_failure_cbs = store m.on_failure_cbs item.name item.on_failure;
    on_cancel_cbs = store m.on_cancel_cbs item.name item.on_cancel;
    completion_done = store m.completion_done item.name false;
  }
  new_heartbeat
  update λ m. record m { completion_threads = store m.completion_threads item.name false }
  set_pending (item.name) "initial state"
