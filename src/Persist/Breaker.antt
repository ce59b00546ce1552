-- ===== src/Persist/Breaker.antt =====
-- src/taskweave/persist/circuit_breaker.py, with the configurations of
-- src/taskweave/utils/circuit_breaker_config.py. `clock n` is the answer to the n-th reading of the
-- clock, in ticks; a time-out is a number of ticks.
pub mod Laws
pub mod Runs
mod Examples
use taskweave.Base.{
  ℕ, ◌+◌, Bool, true, false, if◌then◌else◌, ltb, leb, Option, none, some, Stmt, Outcome, done,
  raised, give, fail, ◌>>=◌, ◌>>◌,
}
use taskweave.Exceptions.{
  BackendErrorKind, rate_limited, unavailable, timeout, circuit_open, bad_request, unauthorized,
  os_fault, queue_full, thread_died, unknown, Exception, transient, fatal, Message, text,
  failures_on_breaker, fatal_in_breaker,
}

pub record PersistConfig : Type 0 where
  pub threshold : ℕ
  pub recovery_timeout : ℕ
  pub retry_on_queue_full : Bool

abbrev pub config_local : PersistConfig
config_local = record { threshold = 1; recovery_timeout = 0; retry_on_queue_full = false }

abbrev pub config_network : PersistConfig
config_network = record { threshold = 5; recovery_timeout = 30; retry_on_queue_full = true }

pub record CircuitBreaker : Type 0 where
  pub config : PersistConfig
  pub failures : ℕ
  pub open_since : Option ℕ

abbrev pub new_breaker : PersistConfig → CircuitBreaker
new_breaker config = record { config = config; failures = 0; open_since = none }

-- The breaker, the clock readings so far, and the state that the guarded function acts on.
pub record Guarded (W : Type 0) : Type 0 where
  pub breaker : CircuitBreaker
  pub readings : ℕ
  pub rest : W

-- How a failure is passed on; `none` if no branch raises.
unfoldable pub triage : PersistConfig → BackendErrorKind → Message → Option Exception
triage c queue_full msg =
    if c.retry_on_queue_full
    then some (transient queue_full (failures_on_breaker c.threshold))
    else some (fatal queue_full (fatal_in_breaker msg))
triage c rate_limited msg = some (transient rate_limited (failures_on_breaker c.threshold))
triage c unavailable msg = some (transient unavailable (failures_on_breaker c.threshold))
triage c timeout msg = some (transient timeout (failures_on_breaker c.threshold))
triage c unknown msg = some (transient unknown (failures_on_breaker c.threshold))
triage c bad_request msg = some (fatal bad_request (fatal_in_breaker msg))
triage c unauthorized msg = some (fatal unauthorized (fatal_in_breaker msg))
triage c os_fault msg = some (fatal os_fault (fatal_in_breaker msg))
triage c thread_died msg = some (fatal thread_died (fatal_in_breaker msg))
triage c circuit_open msg = none

abbrev pub raise_some : {W : Type 0} → Option Exception → Stmt W Unit
raise_some none g = (done tt, g)
raise_some (some e) g = (raised e, g)

module _ {W : Type 0} (clock : ℕ → ℕ) where
  -- `now - open_since > recovery_timeout`, written without the subtraction.
  open_from : Option ℕ → Stmt (Guarded W) Bool
  open_from none g = (done false, g)
  open_from (some since) g =
      if ltb (since + g.breaker.config.recovery_timeout) (clock g.readings)
      then (
        done false,
        record g { breaker = record (g.breaker) { open_since = none }; readings = g.readings + 1 },
      )
      else (done true, record g { readings = g.readings + 1 })

  unfoldable pub is_open : Stmt (Guarded W) Bool
  unfolding open_from
  is_open g = open_from g.breaker.open_since g

  count_failure : Stmt (Guarded W) Unit
  count_failure g =
      let b = g.breaker in
      if leb b.config.threshold (b.failures + 1)
      then (
        done tt,
        record g {
          breaker = record b { failures = b.failures + 1; open_since = some (clock g.readings) };
          readings = g.readings + 1;
        },
      )
      else (done tt, record g { breaker = record b { failures = b.failures + 1 } })

  -- The handler of a BackendException.
  handle : BackendErrorKind → Message → Stmt (Guarded W) Unit
  unfolding count_failure triage
  handle kind msg = do count_failure; λ g. raise_some (triage g.breaker.config kind msg) g

  -- The `try` statement, once the guarded function has ended.
  conclude : Outcome Unit → Stmt (Guarded W) Unit
  unfolding handle
  conclude (done _) g = (done tt, record g { breaker = record (g.breaker) { failures = 0 } })
  conclude (raised (transient kind msg)) g = handle kind msg g
  conclude (raised (fatal kind msg)) g = handle kind msg g
  conclude (raised e) g = (raised e, g)

  guarded : Stmt W Unit → Stmt (Guarded W) Unit
  unfolding conclude
  guarded fn g = let (r, w) = fn g.rest in conclude r (record g { rest = w })

  unfoldable pub call : Stmt W Unit → Stmt (Guarded W) Unit
  unfolding is_open guarded
  call fn = do
    opened ← is_open
    if opened then fail (transient circuit_open (text "backend unavailable")) else guarded fn
