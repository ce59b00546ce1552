-- ===== src/Workers/Dead.antt =====
-- What a manager does from its construction on.
use taskweave.Base.{
  ℕ, leb, String, Option, none, some, List, [], ◌∷◌, length, Outcome, raised, Stmt, skip, catch,
  ◌>>◌, ◌>>=◌, >>=-raised, Keeps, >>-Keeps, >>=-Keeps, catch-Keeps, if_both, ◌≡◌, refl, sym, subst,
  arith, find, string_key,
}
use taskweave.Exceptions.{Exception, runtime_error, key_error, type_error}
use taskweave.Workers.{
  get_context, WorkerManager, WorkItem, Worker, WorkerState, new_manager, stopped, item_of,
  get_worker, assert_transition, reset_worker_instance, new_context, set_success, set_error,
  stop_worker, join_worker, remove_worker, get_worker_status, status_of, add_worker, start_new,
  start_worker, stop_running, take_next, conclude, conclude_success, conclude_failure, on_completed,
  handle_worker_completion,
}

-- No worker was ever given a context or started, and no callback was called.
pub record IsDead (m : WorkerManager) : Type 0 where
  pub contexts : m.worker_ctx ≡ []
  pub starts : m.starts ≡ 0
  pub called : m.called ≡ []

-- What can happen to a manager.
pub data Event : Type 0 where
  add : WorkItem → Event
  start remove stop stop_by_force completed status : String → Event

module _ (callbacks : ℕ → Stmt WorkerManager Unit) where
  -- Each event in a thread of its own: what it raises ends that thread.
  abbrev pub handle : Event → WorkerManager → WorkerManager
  handle (add item) m = (add_worker callbacks item m).1
  handle (start name) m = (start_worker callbacks name m).1
  handle (remove name) m = (remove_worker name m).1
  handle (stop name) m = (stop_worker name m).1
  handle (stop_by_force name) m = (stop_running callbacks name m).1
  handle (completed name) m = (handle_worker_completion callbacks name m).1
  handle (status name) m = (get_worker_status name m).1

  abbrev pub handles : List Event → WorkerManager → WorkerManager
  handles [] m = m
  handles (e ∷ events) m = handles events (handle e m)

-- Without a context every transition is refused.
assert_transition-IsDead :
    (name : String) (required : WorkerState) (m : WorkerManager)
    → IsDead m
    → assert_transition name required m ≡ (raised runtime_error, m)
unfolding assert_transition
assert_transition-IsDead name required m p = ground (arith, p.contexts)

get_context-IsDead :
    (name : String) (m : WorkerManager) → IsDead m → get_context name m ≡ (raised key_error, m)
get_context-IsDead name m p = ground (arith, p.contexts)

-- The state after a statement that raises at its start.
unchanged :
    {A : Type 0} {m : WorkerManager} {out : Outcome A × WorkerManager} {e : Exception}
    → out ≡ (raised e, m)
    → IsDead m
    → IsDead out.1
unchanged {m} p = subst (λ out. IsDead (out.1)) (sym p)

reset_worker_instance-raises :
    (item : WorkItem) (m : WorkerManager)
    → reset_worker_instance item m ≡ (raised type_error, (reset_worker_instance item m).1)
unfolding reset_worker_instance new_context
reset_worker_instance-raises item m = refl

reset_worker_instance-IsDead : (item : WorkItem) → Keeps IsDead (reset_worker_instance item)
unfolding reset_worker_instance new_context
reset_worker_instance-IsDead item m p = record {
  contexts = p.contexts;
  starts = p.starts;
  called = p.called;
}

remove_worker-IsDead : (name : String) → Keeps IsDead (remove_worker name)
unfolding remove_worker
remove_worker-IsDead name m p =
    unchanged
      (>>=-raised (assert_transition name stopped) _ (assert_transition-IsDead name stopped m p)) p

get_worker_status-IsDead : (name : String) → Keeps IsDead (get_worker_status name)
unfolding get_worker_status
get_worker_status-IsDead name m p = kept (find m.workers name)
  where
    kept : (w : Option Worker) → IsDead (status_of w name m).1
    kept none = p
    kept (some w) = unchanged (>>=-raised (get_context name) _ (get_context-IsDead name m p)) p

join_worker-IsDead : (name : String) → Keeps IsDead (join_worker name)
unfolding join_worker
join_worker-IsDead name m p =
    unchanged
      (>>=-raised (assert_transition name WorkerState.running) _
        (assert_transition-IsDead name WorkerState.running m p))
      p

module _ (callbacks : ℕ → Stmt WorkerManager Unit) where
  start_worker-IsDead : (name : String) → Keeps IsDead (start_worker callbacks name)
  unfolding start_worker
  start_worker-IsDead name m p =
      unchanged
        (>>=-raised (assert_transition name WorkerState.pending) _
          (assert_transition-IsDead name WorkerState.pending m p))
        p

  stop_running-IsDead : (name : String) → Keeps IsDead (stop_running callbacks name)
  unfolding stop_running
  stop_running-IsDead name m p =
      unchanged
        (>>=-raised (assert_transition name WorkerState.running) _
          (assert_transition-IsDead name WorkerState.running m p))
        p

  add_worker-IsDead : (item : WorkItem) → Keeps IsDead (add_worker callbacks item)
  unfolding add_worker start_new
  add_worker-IsDead item m p =
      if_both (λ (out : Outcome Unit × WorkerManager). IsDead (out.1))
        (leb m.max_count (length m.workers))
        (record { contexts = p.contexts; starts = p.starts; called = p.called })
        (unchanged
          (>>=-raised (reset_worker_instance item) (λ _. start_worker callbacks item.name >> skip)
            (reset_worker_instance-raises item m))
          (reset_worker_instance-IsDead item m p))

  conclude-IsDead :
      (name : String) (w : Worker) (m : WorkerManager)
      → IsDead m
      → conclude callbacks name w m ≡ (raised key_error, m)
  unfolding conclude conclude_success conclude_failure set_success set_error
  conclude-IsDead name w m p = ground (arith, p.contexts)

  on_completed-IsDead : (name : String) → Keeps IsDead (on_completed callbacks name)
  unfolding on_completed
  on_completed-IsDead name m p = kept (find m.workers name)
    where
      rest : Worker → Stmt WorkerManager Unit
      rest w = conclude callbacks name w >> take_next callbacks

      kept : (w : Option Worker) → IsDead ((item_of w >>= rest) m).1
      kept none = p
      kept (some w) =
          unchanged
            (>>=-raised (conclude callbacks name w) (λ _. take_next callbacks)
              (conclude-IsDead name w m p))
            p

  get_worker-IsDead : (name : String) → Keeps IsDead (get_worker name)
  get_worker-IsDead name m p = kept (find m.workers name)
    where
      kept : (w : Option Worker) → IsDead (item_of w m).1
      kept none = p
      kept (some w) = p

  handle_worker_completion-IsDead :
      (name : String) → Keeps IsDead (handle_worker_completion callbacks name)
  unfolding handle_worker_completion
  handle_worker_completion-IsDead name =
      >>-Keeps IsDead (catch joined (λ e. skip)) (on_completed callbacks name)
        (catch-Keeps IsDead joined (λ e. skip)
          (>>=-Keeps IsDead (get_worker name) (λ w. join_worker name) (get_worker-IsDead name)
            (λ w. join_worker-IsDead name))
          (λ e m p. p))
        (on_completed-IsDead name)
    where
      joined : Stmt WorkerManager Unit
      joined = get_worker name >>= λ w. join_worker name

  handle-IsDead : (e : Event) (m : WorkerManager) → IsDead m → IsDead (handle callbacks e m)
  unfolding stop_worker
  handle-IsDead (add item) m p = add_worker-IsDead item m p
  handle-IsDead (start name) m p = start_worker-IsDead name m p
  handle-IsDead (remove name) m p = remove_worker-IsDead name m p
  handle-IsDead (stop name) m p = p
  handle-IsDead (stop_by_force name) m p = stop_running-IsDead name m p
  handle-IsDead (completed name) m p = handle_worker_completion-IsDead name m p
  handle-IsDead (status name) m p = get_worker_status-IsDead name m p

  handles-IsDead :
      (events : List Event) (m : WorkerManager) → IsDead m → IsDead (handles callbacks events m)
  handles-IsDead [] m p = p
  handles-IsDead (e ∷ events) m p =
      handles-IsDead events (handle callbacks e m) (handle-IsDead e m p)

  -- No sequence of calls and process ends, on a manager of any size, ever starts a worker or calls one
  -- of the task's callbacks, whatever those would do.
  pub handles_start_nothing :
      (n : ℕ) (events : List Event)
      → let m = handles callbacks events (new_manager n) in
        (m.worker_ctx ≡ []) × (m.starts ≡ 0) × (m.called ≡ [])
  handles_start_nothing n events =
      let p =
        handles-IsDead events (new_manager n)
          (record { contexts = refl; starts = refl; called = refl }) in
      (p.contexts, p.starts, p.called)
