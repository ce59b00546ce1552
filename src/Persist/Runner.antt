-- ===== src/Persist/Runner.antt =====
-- src/taskweave/persist/persist_backend.py: FileBackendRunner, which keeps a task's lines in a bounded
-- number of rotating files. The producer's side (`write`, `close`) and the consumer thread
-- (`consume`) are separate steps; each is atomic here.
-- `disk n` says whether the n-th call of the operating system succeeds or raises OSError. A write is
-- visible in the file at once. `clock n` is the answer to the n-th reading of the clock.
-- The lines that `queue` holds end with their newline; `none` is the poison pill.
pub mod Retention
pub mod Slots
pub mod Healthy
pub mod Frames
mod Examples
use Prim.Native.String.{◌++◌ as str_append}
use taskweave.Base.{
  put_file, ℕ, suc, ◌+◌, ◌-◌, String, Bool, true, false, if◌then◌else◌, ltb, leb, ◌==◌, ◌&&◌, not,
  Option, none, some, List, [], ◌∷◌, ◌++◌, length, drop, Stmt, Outcome, done, raised, give, fail,
  skip, update, catch, for_each, ◌>>=◌, ◌>>◌,
}
use taskweave.Exceptions.{
  BackendErrorKind, circuit_open, queue_full, thread_died, Exception, value_error, attribute_error,
  os_error, transient, fatal, never_returns, Message, text, backend_fatal_error, backend_is_open,
}
use taskweave.Protocol.{LogEvent, TaskId, MsgType, SourceType, default_routing}
use taskweave.Persist.Breaker.{PersistConfig, Guarded, new_breaker, call}

-- What a call of `error_sink` reports: the fields of its LogEvent.
pub record ErrorEvent : Type 0 where
  pub source_id : String
  pub msg_type : MsgType
  pub msg : Message
  pub timestamp : ℕ

pub record Runner : Type 0 where
  pub max_lines : ℕ
  pub max_files : ℕ
  pub min_drain_threshold : ℕ
  pub source_id : String
  pub file_index : ℕ
  pub buffer : List String
  pub handle : Option ℕ
  pub files : ℕ → List String
  pub disk_calls : ℕ
  pub thread_died : Bool
  pub stop_event : Bool
  pub thread_ended : Bool
  pub queue : List (Option String)
  pub errors : List ErrorEvent

abbrev pub queue_size : ℕ
queue_size = 10000

-- `_get_file_index`: 1, 2, …, max_files, and again from 1.
unfoldable pub next_index : ℕ → ℕ → ℕ
next_index max_files i = if leb max_files i then 1 else i + 1

module _ (disk : ℕ → Bool) where
  unfoldable pub disk_call : Stmt Runner Unit
  disk_call r =
      let r' = record r { disk_calls = r.disk_calls + 1 } in
      if disk r.disk_calls then (done tt, r') else (raised os_error, r')

  -- `_create_handle`, `_get_handle`: the mode "w" empties the file.
  unfoldable pub create_handle : Stmt Runner Unit
  unfolding disk_call
  create_handle = do
    disk_call
    update λ r. record r { handle = some r.file_index; files = put_file r.files r.file_index [] }

  write_to : Option ℕ → String → Stmt Runner Unit
  unfolding disk_call
  write_to none line = fail value_error
  write_to (some i) line = do
    disk_call
    update λ r. record r { files = put_file r.files i (r.files i ++ line ∷ []) }

  unfoldable pub handle_write : String → Stmt Runner Unit
  unfolding write_to
  handle_write line r = write_to r.handle line r

  unfoldable pub write_buffer : Stmt Runner Unit
  unfolding handle_write
  write_buffer r = for_each r.buffer handle_write r

  unfoldable pub rotate : Stmt Runner Unit
  unfolding disk_call create_handle write_buffer next_index
  rotate = do
    update (λ r. record r { handle = none })
    disk_call
    create_handle
    write_buffer
    disk_call
    update λ r. record r { buffer = []; file_index = next_index r.max_files r.file_index }

  unfoldable pub append : String → Stmt Runner Unit
  unfolding rotate
  append line = do
    update (λ r. record r { buffer = r.buffer ++ line ∷ [] })
    λ r. if leb r.max_lines (length r.buffer) then rotate r else (done tt, r)

  -- The `except (OSError, IOError) as e` of `_loop`: it marks the thread dead and then reads
  -- `e.msg`, an attribute that an OSError does not have, so that nothing is reported.
  unfoldable pub on_append_error : Exception → Stmt Runner Unit
  on_append_error os_error = do update (λ r. record r { thread_died = true }); fail attribute_error
  on_append_error e = fail e

  unfoldable pub loop_body : String → Stmt Runner Unit
  unfolding append on_append_error
  loop_body line = catch (append line) on_append_error

  -- After one line the thread goes on, or ends by the exception.
  abbrev pub loop_after :
      Outcome Unit → Runner → (Runner → Outcome Unit × Runner) → Outcome Unit × Runner
  loop_after (done _) r next = next r
  loop_after (raised e) r next = (raised e, record r { thread_ended = true })

  -- The consumer thread over the queue's present content, until it waits, or ends.
  unfoldable pub loop : List (Option String) → Stmt Runner Unit
  loop [] r = (done tt, record r { queue = [] })
  loop (none ∷ q) r = (done tt, record r { queue = q; thread_ended = true })
  loop (some line ∷ q) r =
      let (outcome, r') = loop_body line (record r { queue = q }) in loop_after outcome r' (loop q)

  -- Its exception ends the thread and reaches nobody.
  unfoldable pub consume : Runner → Runner
  unfolding loop loop_body
  consume r =
      if r.thread_ended
      then r
      else if r.stop_event
      then record r { thread_ended = true }
      else (loop r.queue r).1

  -- `except OSError: pass`
  ignore_os_error : Exception → Stmt Runner Unit
  ignore_os_error os_error = skip
  ignore_os_error e = fail e

  unfoldable pub conclude_rotation : Stmt Runner Unit
  unfolding disk_call write_buffer ignore_os_error
  conclude_rotation =
      catch
        (do
          write_buffer
          disk_call
          update (λ r. record r { buffer = []; handle = none })
          disk_call)
        ignore_os_error
