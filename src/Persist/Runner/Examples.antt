-- ===== src/Persist/Runner/Examples.antt =====
-- Concrete inputs of the theorems on the consumer thread.
use mathlib.Core.List.{flatten}
use taskweave.Base.{
  ℕ, String, Bool, true, false, some, List, [], ◌∷◌, map, ltb, not, ◌≡◌, refl, inr, arith,
}
use taskweave.Persist.Runner.{Runner, consume, loop}
use taskweave.Persist.Runner.Slots.{slot}
use taskweave.Persist.Runner.Frames.{InRange, loop-InRange}
use taskweave.Persist.Runner.Retention.{Retains, Consumed, loop-Retains}

abbrev healthy_disk : ℕ → Bool
healthy_disk n = true

-- Its fifth call fails.
abbrev failing_disk : ℕ → Bool
failing_disk n = not (ltb 3 n)

abbrev start : Runner
start = record {
  max_lines = 2;
  max_files = 2;
  min_drain_threshold = 10;
  source_id = "fetch";
  file_index = 1;
  buffer = [];
  handle = some 1;
  files = λ i. [];
  disk_calls = 0;
  thread_died = false;
  stop_event = false;
  thread_ended = false;
  queue = [];
  errors = [];
}

abbrev seven : List String
seven = "a" ∷ "b" ∷ "c" ∷ "d" ∷ "e" ∷ "f" ∷ "g" ∷ []

start-Retains : Retains [] start
unfolding flatten slot
start-Retains = record {
  batches = [];
  whole = refl;
  full = tt;
  short = omega arith;
  index = refl;
  kept = tt;
}

-- The third batch has overwritten the first one, and one line waits in the buffer.
rotated :
    let r = (loop healthy_disk (map some seven) start).1 in
    (r.files 1 ≡ "e" ∷ "f" ∷ []) × (r.files 2 ≡ "c" ∷ "d" ∷ []) × (r.buffer ≡ "g" ∷ [])
unfolding consume
rotated = (refl, refl, refl)

loop-Retains_example :
    Consumed healthy_disk (λ n. refl) seven start (loop healthy_disk (map some seven) start)
loop-Retains_example =
    loop-Retains healthy_disk (λ n. refl) seven [] start (omega arith) start-Retains

loop-InRange_example : InRange 2 3 [] (loop failing_disk (map some seven) start).1
loop-InRange_example =
    loop-InRange failing_disk 2 3 [] (inr (omega arith)) (omega arith) (map some seven) start
      (record {
        limit = refl;
        index_pos = omega arith;
        index_le = omega arith;
        opened = inr (1, refl, omega arith, omega arith);
        untouched = refl;
      })
