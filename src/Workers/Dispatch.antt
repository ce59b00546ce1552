-- ===== src/Workers/Dispatch.antt =====
-- The queue of log events of WorkerManager, src/taskweave/workers/worker_manager.py: the thread that
-- reads it, `format_status`, which empties it, and `destroy`. `none` in the queue is the poison pill.
use taskweave.Base.{
  String, Option, none, some, List, [], ◌∷◌, ◌++◌, Outcome, done, raised, Stmt, fail, update, ◌>>◌,
  ◌≡◌, refl,
}
use taskweave.Exceptions.{key_error, never_returns}
use taskweave.Protocol.{LogEvent, TaskId}

pub record Dispatch : Type 0 where
  pub message_queue : List (Option LogEvent)
  pub heartbeats : List String
  pub beats : List LogEvent

-- `self.heartbeats[event.source_id]`: the keys are texts, and a TaskId is equal to none of them.
abbrev pub heartbeat_of : List String → TaskId → Option String
heartbeat_of names id = none

abbrev pub give_beat : Option String → LogEvent → Stmt Dispatch Unit
give_beat none event = fail key_error
give_beat (some name) event = update λ d. record d { beats = event ∷ d.beats }

-- The thread, on what the queue holds; on an empty queue it waits.
unfoldable pub dispatch_loop : List (Option LogEvent) → Stmt Dispatch Unit
dispatch_loop [] = do update λ d. record d { message_queue = [] }; fail never_returns
dispatch_loop (none ∷ queue) = update λ d. record d { message_queue = queue }
dispatch_loop (some event ∷ queue) = do
  update λ d. record d { message_queue = queue }
  λ d. give_beat (heartbeat_of d.heartbeats event.source_id) event d
  dispatch_loop queue

-- WorkerStatus.
pub record WorkerStatus : Type 0 where
  pub status : String
  pub messages : List (Option LogEvent)

unfoldable pub format_status : String → Stmt Dispatch WorkerStatus
format_status text d =
    (done (record { status = text; messages = d.message_queue }), record d { message_queue = [] })

-- `destroy`, when the thread has not read yet: the pill is put behind what is queued, and joining the
-- thread is over when it has ended, by whatever.
abbrev pub join_thread : Outcome Unit × Dispatch → Outcome Unit × Dispatch
join_thread (raised never_returns, d) = (raised never_returns, d)
join_thread (r, d) = (done tt, d)

unfoldable pub destroy : Stmt Dispatch Unit
unfolding dispatch_loop
destroy d =
    let queue = d.message_queue ++ none ∷ [] in
    join_thread (dispatch_loop queue (record d { message_queue = queue }))

-- No event of a worker reaches its heart beat, and so none the bus: the thread ends at the first one.
pub dispatch_loop-mute :
    (queue : List (Option LogEvent)) (d : Dispatch) → (dispatch_loop queue d).1.beats ≡ d.beats
unfolding dispatch_loop
dispatch_loop-mute [] d = refl
dispatch_loop-mute (none ∷ queue) d = refl
dispatch_loop-mute (some event ∷ queue) d = refl

-- `destroy` returns, whatever is queued, and no event has reached a heart beat then.
pub destroy-returns : (d : Dispatch) → ((destroy d).0 ≡ done tt) × ((destroy d).1.beats ≡ d.beats)
unfolding destroy dispatch_loop
destroy-returns d = by d.message_queue
  where
    by :
        (queue : List (Option LogEvent))
        → ((destroy (record d { message_queue = queue })).0 ≡ done tt)
          × ((destroy (record d { message_queue = queue })).1.beats ≡ d.beats)
    by [] = (refl, refl)
    by (none ∷ queue) = (refl, refl)
    by (some event ∷ queue) = (refl, refl)
