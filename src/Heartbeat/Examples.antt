-- ===== src/Heartbeat/Examples.antt =====
-- Concrete inputs of the theorems on the heart beat.
use taskweave.Base.{ℕ, Bool, true, false, none, ◌≡◌, refl, arith}
use taskweave.Heartbeat.{default_config, heartbeat_loop}
use taskweave.Heartbeat.Timing.{beats_keep_alive}

abbrev silence : ℕ → Bool
silence n = false

abbrev chatter : ℕ → Bool
chatter n = true

beats_keep_alive_example : heartbeat_loop default_config chatter 100 0 0 0 ≡ none
beats_keep_alive_example =
    beats_keep_alive default_config chatter 100 (omega arith) (omega arith) (λ n. refl)
