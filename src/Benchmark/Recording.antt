-- ===== src/Benchmark/Recording.antt =====
-- What a collector has recorded.
use taskweave.Base.{ℕ, ◌+◌, List, [], ◌∷◌, done, raised, ◌≡◌, refl, arith}
use taskweave.Exceptions.{Exception, key_error, attribute_error}
use taskweave.Protocol.{MsgType, LogEvent}
use taskweave.Benchmark.{
  BenchmarkCollector, new_collector, collect, collect_type, record_duration, record_heartbeat_gap,
}

module _ (clock : ℕ → ℕ) where
  -- A session that calls the collector with one event after the other and goes on after an exception;
  -- it counts the calls that returned.
  unfoldable pub collects : List LogEvent → BenchmarkCollector → ℕ × BenchmarkCollector
  collects [] c = (0, c)
  collects (event ∷ events) c =
      let (outcome, c') = collect clock event c in
      let (n, last) = collects events c' in (elim outcome [ done _ ↦ n + 1 | raised _ ↦ n ], last)

  collect_type-new :
      (t : MsgType) (event : LogEvent)
      → (e : Exception) × (collect_type clock t event new_collector ≡ (raised e, new_collector))
  unfolding collect_type record_duration record_heartbeat_gap
  collect_type-new MsgType.state_change event = (key_error, refl)
  collect_type-new MsgType.log_line event = (key_error, refl)
  collect_type-new MsgType.progress event = (key_error, refl)
  collect_type-new MsgType.banner event = (key_error, refl)
  collect_type-new MsgType.activity event = (attribute_error, refl)
  collect_type-new MsgType.task_done event = (attribute_error, refl)
  collect_type-new MsgType.early_exit event = (attribute_error, refl)
  collect_type-new MsgType.quality event = (attribute_error, refl)
  collect_type-new MsgType.event event = (attribute_error, refl)
  collect_type-new MsgType.error event = (attribute_error, refl)
  collect_type-new MsgType.dialect_error event = (attribute_error, refl)
  collect_type-new MsgType.backend_failure event = (attribute_error, refl)
  collect_type-new MsgType.backend_open event = (attribute_error, refl)
  collect_type-new MsgType.callback_error event = (attribute_error, refl)
  collect_type-new MsgType.heartbeat_timeout event = (attribute_error, refl)

  -- A new collector never records anything: whatever events it is called with, no call returns, and it
  -- is as it was.
  pub collects_nothing :
      (events : List LogEvent) → collects events new_collector ≡ (0, new_collector)
  unfolding collects collect
  collects_nothing [] = refl
  collects_nothing (event ∷ events) =
      let (e, raises) = collect_type-new event.msg_type event in
      ground (arith, raises, collects_nothing events)
