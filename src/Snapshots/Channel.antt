-- ===== src/Snapshots/Channel.antt =====
-- What reaches the error sinks of a session, and what a line dialect makes of it.
use taskweave.Base.{◌≡◌}
use taskweave.Exceptions.{type_error}
use taskweave.Protocol.{LogEvent}
use taskweave.Bus.{MiniBus, last_seen}
use taskweave.Bus.Sinks.{calm, number}
use taskweave.Bus.Internal.{
  internal_outcome, internal_deliveries, sequence_on_failure, emit_internal_blind,
}
use taskweave.Snapshots.{SessionSnapshot, session_emit_internal}

-- In a session, whatever its state, an internal event gets the number after its source's last one, and
-- that number is kept as the one of the failure. Under the safe policy the report then raises TypeError
-- and reaches no sink, since the getter of the session takes no event; under the other it reaches each
-- error sink once, in the order of registration, if these return and do not call the bus.
pub session_internal_blind :
    (event : LogEvent) (b : MiniBus SessionSnapshot)
    → let out = session_emit_internal calm event b in
      (out.0 ≡ internal_outcome type_error b.policy)
      × (out.1.delivered ≡ internal_deliveries b.policy b event)
      × (last_seen event.source_id out.1 ≡ number b event)
      × (sequence_on_failure event.source_id out.1 ≡ number b event)
unfolding session_emit_internal
session_internal_blind event b = emit_internal_blind type_error event b
