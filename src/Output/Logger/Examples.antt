-- ===== src/Output/Logger/Examples.antt =====
-- Concrete inputs of the theorem on WorkerLogger.
use taskweave.Base.{String, Bool, false, none, List, [], ◌∷◌, done, ◌>>◌, ◌≡◌, refl, arith}
use text.Mathlib.Text.{starts_with}
use taskweave.Output.Logger.{WorkerLogger, init, push, close}
use taskweave.Output.Logger.Accounting.{push_each}
use taskweave.Output.Logger.Closing.{Logged, life-Logged}

abbrev is_event : String → Bool
is_event line = starts_with line "["

abbrev blank : WorkerLogger
blank = record {
  max_lines = 0;
  max_files = 0;
  event_buffer = [];
  progress_buffer = [];
  event_count = 0;
  file_index = 0;
  event_handle = none;
  summary_open = false;
  progress_open = false;
  summary_file = [];
  progress_file = [];
  events = λ _. [];
}

abbrev lines : List String
lines = "[a" ∷ "size=1" ∷ "b" ∷ "[c" ∷ "[d" ∷ "[e" ∷ "size=2" ∷ "[f" ∷ []

abbrev ended : WorkerLogger
ended = ((init 2 2 >> push_each is_event lines >> close) blank).1

-- Of two files, the second batch is in that of number 0 and the rest in that of number 1, where the
-- first was.
overwritten : (ended.events 0 ≡ "[d" ∷ "[e" ∷ []) × (ended.events 1 ≡ "[f" ∷ [])
unfolding init push close
overwritten = (refl, refl)

life-Logged_example :
    (((init 2 2 >> push_each is_event lines >> close) blank).0 ≡ done tt)
    × Logged is_event lines ended
life-Logged_example = life-Logged is_event 2 2 lines blank (omega arith) (omega arith)
