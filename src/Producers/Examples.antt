-- ===== src/Producers/Examples.antt =====
-- Concrete inputs of the theorems on producers.
use taskweave.Base.{ℕ, ◌+◌, true, false, arith, none, some, [], ◌∷◌, done, ◌≡◌, refl, string_key}
use taskweave.Exceptions.{text}
use taskweave.Protocol.{MsgType, SourceType, LogEvent}
use taskweave.Persist.Runner.{Runner}
use taskweave.Bus.{MiniBus, safe, persist}
use taskweave.Producers.{Counters, log_event_line}
use taskweave.Producers.Identity.{line_unpersisted}

abbrev clock : ℕ → ℕ
clock n = n + 40

abbrev counters : Counters
counters = record { objects = 5; readings = 0 }

abbrev backend : Runner
backend = record {
  max_lines = 2;
  max_files = 3;
  min_drain_threshold = 2;
  source_id = "fetch";
  file_index = 1;
  buffer = [];
  handle = some 1;
  files = λ i. [];
  disk_calls = 0;
  thread_died = false;
  stop_event = false;
  thread_ended = false;
  queue = [];
  errors = [];
}

-- The task `fetch` has a backend.
abbrev bus : MiniBus ℕ
bus = record {
  global_sinks = [];
  error_sinks = [];
  scoped_sinks = [];
  contexts = (record { ident = 3; value = "fetch" }, backend) ∷ [];
  policy = safe;
  seen = [];
  delivered = [];
}

abbrev fetched : LogEvent
fetched = record {
  source_id = record { ident = 5; value = "fetch" };
  state = none;
  msg_type = MsgType.log_line;
  source_type = SourceType.task;
  timestamp = 40;
  routing = record { forward = true; persist = true };
  sequence = 0;
  msg = text "fetched";
}

line_unpersisted_example : persist fetched bus ≡ (done tt, bus)
unfolding log_event_line
line_unpersisted_example =
    line_unpersisted clock "fetch" "fetched" counters bus true fetched (omega arith, tt) refl
