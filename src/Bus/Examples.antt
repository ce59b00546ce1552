-- ===== src/Bus/Examples.antt =====
-- Concrete inputs of the theorems on the bus. Snapshots are numbers.
use taskweave.Base.{
  ℕ, ◌+◌, Bool, true, false, none, some, [], ◌∷◌, Outcome, done, raised, fail, ◌≡◌, refl,
}
use taskweave.Exceptions.{runtime_error, client, text}
use taskweave.Protocol.{LogEvent, TaskId, MsgType, SourceType}
use taskweave.Persist.Runner.{Runner}
use taskweave.Bus.{Client, MiniBus, ObservabilityPolicy, safe, last_seen, emit}
use taskweave.Bus.Order.{IsNumbered, emit-IsNumbered}
use taskweave.Bus.Reentry.{answering, at, with_two, emit_answered}
use taskweave.Bus.Sinks.{calm, sent, numbered, emit_delivers}

abbrev fetch : TaskId
fetch = record { ident = 1; value = "fetch" }

abbrev line : Bool → LogEvent
line persist = record {
  source_id = fetch;
  state = none;
  msg_type = MsgType.log_line;
  source_type = SourceType.task;
  timestamp = 12;
  routing = record { forward = true; persist = persist };
  sequence = 0;
  msg = text "fetched";
}

abbrev backend : Runner
backend = record {
  max_lines = 2;
  max_files = 3;
  min_drain_threshold = 2;
  source_id = "fetch";
  file_index = 1;
  buffer = [];
  handle = some 1;
  files = λ i. [];
  disk_calls = 0;
  thread_died = false;
  stop_event = false;
  thread_ended = false;
  queue = [];
  errors = [];
}

-- Two global sinks, no event so far.
abbrev bus : ObservabilityPolicy → MiniBus ℕ
bus policy = record {
  global_sinks = 4 ∷ 5 ∷ [];
  error_sinks = [];
  scoped_sinks = [];
  contexts = (fetch, backend) ∷ [];
  policy = policy;
  seen = [];
  delivered = [];
}

abbrev scoped_bus : MiniBus ℕ
scoped_bus = record (bus safe) { scoped_sinks = (fetch, 7) ∷ []; error_sinks = 6 ∷ [] }

-- Every sink raises.
abbrev failing : Client ℕ
failing n d = fail (client n)

abbrev snapshot : LogEvent → Outcome ℕ
snapshot event = done 3

abbrev no_snapshot : LogEvent → Outcome ℕ
no_snapshot event = raised runtime_error

bus-IsNumbered : (policy : ObservabilityPolicy) → IsNumbered (bus policy)
bus-IsNumbered policy = record { below = λ id. tt; ordered = tt }

emit-IsNumbered_example : IsNumbered (emit failing (line false) (bus safe)).1
emit-IsNumbered_example =
    emit-IsNumbered failing (line false) (λ n d b. refl) (bus safe) (bus-IsNumbered safe)

emit_delivers_example :
    let out = emit calm (line true) (bus safe) in
    (out.0 ≡ done tt)
    × (out.1.delivered ≡ sent (numbered (bus safe) (line true)) (4 ∷ 5 ∷ []) [])
    × (last_seen fetch out.1 ≡ last_seen fetch (bus safe) + 2)
emit_delivers_example = emit_delivers (line true) (bus safe) refl

-- The sink 4 answers the event with another one.
abbrev again : LogEvent
again = record (line true) { msg = text "again" }

emit_answered_example :
    (emit (answering again 0) (line false) (with_two 4 5 (bus safe))).1.delivered
    ≡ at (line false) 5 1 ∷ at again 5 2 ∷ at again 4 2 ∷ at (line false) 4 1 ∷ []
emit_answered_example = emit_answered (line false) again 4 5 (bus safe) refl
