-- ===== src/Benchmark/Examples.antt =====
-- Concrete inputs of the theorem on the benchmark collector.
use taskweave.Base.{none, List, [], ◌∷◌}
use taskweave.Exceptions.{text}
use taskweave.Protocol.{MsgType, SourceType, LogEvent, default_routing}

abbrev event : MsgType → LogEvent
event t = record {
  source_id = record { ident = 2; value = "fetch" };
  state = none;
  msg_type = t;
  source_type = SourceType.task;
  timestamp = 9;
  routing = default_routing;
  sequence = 0;
  msg = text "10 %";
}

abbrev events : List LogEvent
events = event MsgType.state_change ∷ event MsgType.progress ∷ event MsgType.backend_failure ∷ []
