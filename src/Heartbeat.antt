-- ===== src/Heartbeat.antt =====
-- src/taskweave/buses/heartbeat.py and heartbeat_config.py: the thread that reports a silent task.
-- Times are natural numbers of seconds. `beats n` says whether an event of the task came during the
-- n-th sleep of the thread; the two threads' updates of `_attempts` do not overlap.
pub mod Timing
mod Examples
use taskweave.Base.{
  ℕ, zero, suc, ◌+◌, ◌*◌, ltb, Bool, true, false, if◌then◌else◌, ◌&&◌, Option, none, some,
}
use taskweave.Protocol.{MsgType}

pub record HeartbeatConfig : Type 0 where
  pub threshold : ℕ
  pub max_threshold : ℕ
  pub max_attempts : ℕ

abbrev pub default_config : HeartbeatConfig
default_config = record { threshold = 5; max_threshold = 15; max_attempts = 5 }

-- The events that show that the task is alive.
unfoldable pub resets : MsgType → Bool
resets MsgType.progress = true
resets MsgType.event = true
resets MsgType.log_line = true
resets MsgType.banner = true
resets MsgType.error = true
resets _ = false

-- `beat`, for what it does to `_attempts`.
unfoldable pub beat : MsgType → ℕ → ℕ
unfolding resets
beat type attempts = if resets type then 0 else attempts

-- When the loop is over: after so many sleeps, and so many seconds of them.
pub record Timeout : Type 0 where
  pub sleeps : ℕ
  pub slept : ℕ

-- The two tests of the loop.
abbrev pub goes_on : HeartbeatConfig → ℕ → Bool
goes_on cfg attempts =
    ltb attempts cfg.max_attempts && ltb (cfg.threshold * attempts) cfg.max_threshold

-- `_attempts` after a sleep.
abbrev pub after_sleep : Bool → ℕ → ℕ
after_sleep heard attempts = if heard then 1 else attempts + 1

-- `_heartbeat_loop` for so many rounds, and `none` if it is not over then. It ends by emitting
-- HEARTBEAT_TIMEOUT.
unfoldable pub heartbeat_loop :
    HeartbeatConfig → (ℕ → Bool) → ℕ → (attempts sleeps slept : ℕ) → Option Timeout
heartbeat_loop cfg beats zero attempts sleeps slept = none
heartbeat_loop cfg beats (suc rounds) attempts sleeps slept =
    let rest =
      heartbeat_loop cfg beats rounds (after_sleep (beats sleeps) attempts) (sleeps + 1)
        (slept + cfg.threshold * attempts) in
    if goes_on cfg attempts then rest else some (record { sleeps = sleeps; slept = slept })
