-- ===== src/Persist/Producer/Examples.antt =====
-- Concrete inputs of the theorems on the file backend.
use mathlib.Core.List.{flatten}
use taskweave.Base.{
  ℕ, zero, suc, ◌≤◌, String, Bool, true, false, Option, some, List, [], ◌∷◌, map, ltb, not, length,
  raised, ◌≡◌, refl, arith,
}
use taskweave.Exceptions.{attribute_error}
use taskweave.Persist.Breaker.{Guarded, config_local, config_network, new_breaker}
use taskweave.Persist.Runner.{Runner, consume, loop, append}
use taskweave.Persist.Runner.Slots.{slot}
use taskweave.Persist.Runner.Retention.{Retains}
use taskweave.Persist.Producer.{close}
use taskweave.Persist.Producer.Closing.{Closed, close-Retains}
use taskweave.Persist.Producer.Faults.{loop_fault_silent}

abbrev healthy_disk : ℕ → Bool
healthy_disk n = true

-- Its fifth call fails.
abbrev failing_disk : ℕ → Bool
failing_disk n = not (ltb 3 n)

abbrev noon : ℕ → ℕ
noon i = 12

abbrev queued_lines : List String
queued_lines = "a" ∷ "b" ∷ "c" ∷ []

abbrev open_runner : Runner
open_runner = record {
  max_lines = 2;
  max_files = 2;
  min_drain_threshold = 10;
  source_id = "fetch";
  file_index = 1;
  buffer = [];
  handle = some 1;
  files = λ i. [];
  disk_calls = 0;
  thread_died = false;
  stop_event = false;
  thread_ended = false;
  queue = map some queued_lines;
  errors = [];
}

abbrev wide_runner : Runner
wide_runner = record open_runner { max_lines = 100 }

abbrev dead : Guarded Runner
dead = record {
  breaker = new_breaker config_local;
  readings = 0;
  rest = record open_runner { thread_died = true };
}

abbrev open_backend : Guarded Runner
open_backend = record { breaker = new_breaker config_network; readings = 0; rest = open_runner }

open_runner-Retains : Retains [] open_runner
unfolding flatten slot
open_runner-Retains = record {
  batches = [];
  whole = refl;
  full = tt;
  short = omega arith;
  index = refl;
  kept = tt;
}

closed_without_c :
    let r = (close healthy_disk open_runner).1 in
    (r.files 1 ≡ "a" ∷ "b" ∷ []) × (r.files 2 ≡ []) × (r.buffer ≡ "c" ∷ [])
unfolding close consume
closed_without_c = (refl, refl, refl)

close-Retains_example : Closed queued_lines (close healthy_disk open_runner)
close-Retains_example =
    close-Retains healthy_disk (λ n. refl) queued_lines [] open_runner (omega arith)
      (record { alive = refl; runs = refl; unstopped = refl; queued = refl }) open_runner-Retains
      (omega arith)

-- The disk's fifth call is the flush of the first rotation.
abbrev second_line : Runner
second_line = record open_runner { buffer = "a" ∷ []; queue = [] }

loop_fault_silent_example :
    ((loop failing_disk (some "b" ∷ some "c" ∷ []) second_line).0 ≡ raised attribute_error)
    × ((loop failing_disk (some "b" ∷ some "c" ∷ []) second_line).1.thread_died ≡ true)
    × ((loop failing_disk (some "b" ∷ some "c" ∷ []) second_line).1.thread_ended ≡ true)
    × ((loop failing_disk (some "b" ∷ some "c" ∷ []) second_line).1.queue ≡ some "c" ∷ [])
    × ((loop failing_disk (some "b" ∷ some "c" ∷ []) second_line).1.errors ≡ [])
unfolding append
loop_fault_silent_example = loop_fault_silent failing_disk "b" (some "c" ∷ []) second_line refl

replicate : ℕ → Option String → List (Option String)
replicate zero x = []
replicate (suc n) x = x ∷ replicate n x

le-length-replicate : (n : ℕ) (x : Option String) → n ≤ length (replicate n x)
unfolding replicate
le-length-replicate zero x = omega arith
le-length-replicate (suc n) x = omega (arith, le-length-replicate n x)

abbrev full_backend : Guarded Runner
full_backend = record open_backend {
  rest = record open_runner { queue = replicate 10000 (some "x") };
}
