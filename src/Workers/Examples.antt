-- ===== src/Workers/Examples.antt =====
-- Concrete inputs of the theorems on the worker manager.
use taskweave.Base.{
  ℕ, zero, suc, String, false, none, some, List, [], ◌∷◌, drop, take, done, raised, Stmt, ◌≡◌, refl,
  string_key,
}
use taskweave.Exceptions.{runtime_error}
use taskweave.Workers.{WorkerManager, WorkItem, new_manager}
use taskweave.Workers.Dead.{Event, add, start, completed, handles, handles_start_nothing}
use taskweave.Workers.Adding.{adds, places, adds_wait}
use taskweave.Workers.Process.{Command, signal}

-- The first callback returns, all others raise.
abbrev callbacks : ℕ → Stmt WorkerManager Unit
callbacks zero m = (done tt, m)
callbacks (suc n) m = (raised runtime_error, m)

abbrev item : String → WorkItem
item name = record {
  name = name;
  on_start = some 0;
  on_success = some 1;
  on_failure = none;
  on_cancel = none;
}

abbrev events : List Event
events = add (item "a") ∷ start "a" ∷ completed "a" ∷ add (item "b") ∷ []

handles_start_nothing_example :
    let m = handles callbacks events (new_manager 1) in
    (m.worker_ctx ≡ []) × (m.starts ≡ 0) × (m.called ≡ [])
handles_start_nothing_example = handles_start_nothing callbacks 1 events

abbrev items : List WorkItem
items = item "a" ∷ item "b" ∷ item "c" ∷ []

adds_wait_example :
    let m = adds callbacks items (new_manager 2) in
    (m.waiting ≡ drop 2 items) × (m.workers ≡ places (take 2 items)) × (m.starts ≡ 0)
unfolding string_key
adds_wait_example = adds_wait callbacks 2 items (refl, (refl, (refl, tt)))

-- A command that is told to exit and is ended by a signal.
abbrev killed : Command
killed = record {
  launch = none;
  turns =
      record { has_ended = false; message = none }
      ∷ record { has_ended = false; message = some "EXIT" }
      ∷ [];
  early = [];
  late = [];
  exit_code = signal 15;
}
