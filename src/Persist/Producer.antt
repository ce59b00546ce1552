-- ===== src/Persist/Producer.antt =====
-- src/taskweave/persist/persist_backend.py: the producer's side of FileBackendRunner (`write`, `_write`,
-- `_cleanup`, `_drain_last_messages`, `close`) and its constructor. The producer holds the circuit
-- breaker around the runner.
pub mod Drain
pub mod Queue
pub mod Closing
pub mod Faults
mod Examples
use Prim.Native.String.{◌++◌ as str_append}
use taskweave.Base.{
  ℕ, suc, ◌+◌, ◌-◌, String, Bool, true, false, if◌then◌else◌, ltb, leb, ◌&&◌, not, Option, none,
  some, List, [], ◌∷◌, ◌++◌, length, drop, Stmt, Outcome, done, raised, fail, skip, update, catch,
  ◌>>=◌, ◌>>◌,
}
use taskweave.Exceptions.{
  circuit_open, queue_full, thread_died, Exception, transient, fatal, never_returns, Message, text,
  backend_fatal_error, backend_is_open,
}
use taskweave.Protocol.{LogEvent, TaskId, MsgType, SourceType, default_routing}
use taskweave.Persist.Breaker.{PersistConfig, Guarded, new_breaker, call}
use taskweave.Persist.Runner.{
  ErrorEvent, Runner, queue_size, create_handle, consume, conclude_rotation,
}

-- FileBackend: what the user configures.
pub record FileBackend : Type 0 where
  pub max_lines : ℕ
  pub max_files : ℕ
  pub config : PersistConfig
  pub min_drain_threshold : Option ℕ

-- The property `_min_drain_threshold`.
unfoldable pub effective_threshold : FileBackend → ℕ
effective_threshold b = elim (b.min_drain_threshold) [ some n ↦ n | none ↦ b.max_lines ]

-- `_write`
unfoldable pub enqueue : String → Stmt Runner Unit
enqueue line r =
    if r.thread_died
    then (raised (transient thread_died (text "consumer thread died")), r)
    else if leb queue_size (length r.queue)
    then (raised (transient queue_full (text "backend dispatch queue full")), r)
    else (done tt, record r { queue = r.queue ++ some line ∷ [] })

-- `deque(maxlen = keep).append`
unfoldable pub push_last : ℕ → List String → String → List String
push_last keep kept line = drop (length kept + 1 - keep) (kept ++ line ∷ [])

unfoldable pub last_resort : Option String → String
last_resort none = "[LAST_RESORT] : None"
last_resort (some line) = str_append "[LAST_RESORT] : " line

unfoldable pub drain : ℕ → List String → List (Option String) → List String
unfolding push_last last_resort
drain keep kept [] = kept
drain keep kept (m ∷ q) = drain keep (push_last keep kept (last_resort m)) q

-- What the drain leaves in the queue is one poison pill.
unfoldable pub drain_last_messages : Runner → List String × Runner
unfolding drain
drain_last_messages r = (drain 3 [] r.queue, record r { queue = none ∷ [] })

module _ (disk : ℕ → Bool) where
  extend_and_conclude : List String → Stmt Runner Unit
  unfolding conclude_rotation
  extend_and_conclude last r = conclude_rotation disk (record r { buffer = r.buffer ++ last })

  unfoldable pub cleanup : Stmt Runner Unit
  unfolding drain_last_messages extend_and_conclude
  cleanup r =
      let (last, r') = drain_last_messages (record r { thread_died = true }) in
      extend_and_conclude last (consume disk r')

  -- `self._thread_died = True; self._queue.put(None); self._thread.join()`
  end_thread : Runner → Runner
  end_thread r =
      record (consume disk (record r { thread_died = true; queue = r.queue ++ none ∷ [] })) {
        thread_ended = true;
      }

  -- `queue.join()` waits for every line to be appended: for ever, if the consumer dies before that.
  close_joining : Stmt Runner Unit
  unfolding end_thread
  close_joining r =
      let r' = consume disk r in
      if r'.thread_died then (raised never_returns, r') else (done tt, end_thread r')

  close_draining : Stmt Runner Unit
  unfolding end_thread drain_last_messages extend_and_conclude
  close_draining r =
      let (last, r') = drain_last_messages (record r { stop_event = true }) in
      extend_and_conclude last (end_thread r')

  unfoldable pub close : Stmt Runner Unit
  unfolding close_joining close_draining
  close r =
      if not r.thread_died && ltb (length r.queue) r.min_drain_threshold
      then close_joining r
      else close_draining r

  -- FileBackendRunner.__init__: it opens the first file, which may raise.
  unfoldable pub new_runner :
      FileBackend → String → (ℕ → List String) → Outcome Unit × Guarded Runner
  unfolding effective_threshold
  new_runner b id files =
      let (opened, r) = create_handle disk (record {
        max_lines = b.max_lines;
        max_files = b.max_files;
        min_drain_threshold = effective_threshold b;
        source_id = id;
        file_index = 1;
        buffer = [];
        handle = none;
        files = files;
        disk_calls = 0;
        thread_died = false;
        stop_event = false;
        thread_ended = false;
        queue = [];
        errors = [];
      }) in
      (opened, record { breaker = new_breaker b.config; readings = 0; rest = r })

  module _ (clock : ℕ → ℕ) where
    -- `error_sink(LogEvent(…))`
    unfoldable pub propagate : MsgType → Message → Stmt (Guarded Runner) Unit
    propagate kind msg g =
        let event : ErrorEvent = record {
          source_id = g.rest.source_id;
          msg_type = kind;
          msg = msg;
          timestamp = clock g.readings;
        } in
        (
          done tt,
          record g {
            readings = g.readings + 1;
            rest = record (g.rest) { errors = g.rest.errors ++ event ∷ [] };
          },
        )

    cleanup_guarded : Stmt (Guarded Runner) Unit
    unfolding cleanup
    cleanup_guarded g = let (outcome, r) = cleanup g.rest in (outcome, record g { rest = r })

    -- The handlers of `write`. A transient failure other than CIRCUIT_OPEN is dropped, and the bare
    -- `except:` drops everything else.
    on_write_error : Exception → Stmt (Guarded Runner) Unit
    unfolding propagate cleanup_guarded
    on_write_error (fatal kind msg) = do
      propagate MsgType.backend_failure (backend_fatal_error kind msg)
      cleanup_guarded
    on_write_error (transient circuit_open msg) =
        propagate MsgType.backend_open (backend_is_open circuit_open msg)
    on_write_error _ = skip

    unfoldable pub write : String → Stmt (Guarded Runner) Unit
    unfolding enqueue on_write_error
    write line g =
        if g.rest.thread_died
        then (done tt, g)
        else catch (call clock (enqueue line)) on_write_error g
