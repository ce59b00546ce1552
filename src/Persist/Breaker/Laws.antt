-- ===== src/Persist/Breaker/Laws.antt =====
-- One call through the circuit breaker.
use taskweave.Base.{
  ℕ, ◌+◌, ◌≤◌, ◌<◌, Bool, true, false, leb, Option, none, some, is_some, Stmt, Outcome, done,
  raised, ◌≡◌, ◌⊎◌, ◌↔◌, inl, inr, arith,
}
use taskweave.Exceptions.{
  BackendErrorKind, circuit_open, bad_request, unauthorized, os_fault, queue_full, thread_died,
  Exception, transient, fatal, Message, text,
}
use taskweave.Persist.Breaker.{CircuitBreaker, PersistConfig, Guarded, call, triage}

-- An open breaker has counted at least the threshold.
abbrev pub IsSound : CircuitBreaker → Type 0
IsSound b = (b.open_since ≡ none) ⊎ (b.config.threshold ≤ b.failures)

-- The kinds that the breaker passes on as fatal.
abbrev pub IsPermanent : PersistConfig → BackendErrorKind → Type 0
IsPermanent c kind =
    (kind ≡ bad_request)
    ⊎ (kind ≡ unauthorized)
    ⊎ (kind ≡ os_fault)
    ⊎ (kind ≡ thread_died)
    ⊎ ((kind ≡ queue_full) × (c.retry_on_queue_full ≡ false))

abbrev pub is_fatal : Outcome Unit → Bool
is_fatal (raised (fatal _ _)) = true
is_fatal _ = false

abbrev ends : Option Exception → Outcome Unit
ends none = done tt
ends (some e) = raised e

triage_fatal :
    (c : PersistConfig) (kind : BackendErrorKind) (msg : Message)
    → (is_fatal (ends (triage c kind msg)) ≡ true) ↔ IsPermanent c kind
unfolding triage
triage_fatal c kind msg = ground arith

triage_swallows :
    (c : PersistConfig) (kind : BackendErrorKind) (msg : Message)
    → (ends (triage c kind msg) ≡ done tt) ↔ (kind ≡ circuit_open)
unfolding triage
triage_swallows c kind msg = ground arith

module _ {W : Type 0} (clock : ℕ → ℕ) (fn : Stmt W Unit) (g : Guarded W) where
  -- The next call reaches the guarded function: the breaker is closed, or has been open for longer
  -- than the recovery time-out.
  abbrev pub Admits : Type 0
  Admits =
      (g.breaker.open_since ≡ none)
      ⊎ ((since : ℕ) × (g.breaker.open_since ≡ some since)
          × (since + g.breaker.config.recovery_timeout < clock g.readings))

  -- While the breaker is open and the time-out has not passed, a call raises CIRCUIT_OPEN, the
  -- guarded function is not run, and the breaker stays as it is.
  pub call_short_circuits :
      (since : ℕ)
      → g.breaker.open_since ≡ some since
      → clock g.readings ≤ since + g.breaker.config.recovery_timeout
      → ((call clock fn g).0 ≡ raised (transient circuit_open (text "backend unavailable")))
        × ((call clock fn g).1.rest ≡ g.rest)
        × ((call clock fn g).1.breaker ≡ g.breaker)
  unfolding call
  call_short_circuits since e h = ground arith

  -- An admitted call runs the function once, whatever it does.
  pub call_runs : Admits → (call clock fn g).1.rest ≡ (fn g.rest).1
  unfolding call
  call_runs (inl e) = ground arith
  call_runs (inr (since, e, h)) = ground arith

  -- An admitted call that succeeds closes the breaker and forgets the failures.
  pub call_success :
      Admits
      → (fn g.rest).0 ≡ done tt
      → ((call clock fn g).0 ≡ done tt)
        × ((call clock fn g).1.breaker.failures ≡ 0)
        × ((call clock fn g).1.breaker.open_since ≡ none)
  unfolding call
  call_success (inl e) ok = ground arith
  call_success (inr (since, e, h)) ok = ground arith

  -- The function raised one of the two backend exceptions.
  abbrev pub Fails : BackendErrorKind → Message → Type 0
  Fails kind msg =
      ((fn g.rest).0 ≡ raised (transient kind msg)) ⊎ ((fn g.rest).0 ≡ raised (fatal kind msg))

  -- An admitted call that fails counts the failure, and opens the breaker exactly when the count
  -- has reached the threshold.
  pub call_failure :
      (kind : BackendErrorKind) (msg : Message)
      → Admits
      → Fails kind msg
      → ((call clock fn g).1.breaker.failures ≡ g.breaker.failures + 1)
        × (is_some (call clock fn g).1.breaker.open_since
            ≡ leb g.breaker.config.threshold (g.breaker.failures + 1))
  unfolding call
  call_failure kind msg (inl e) failed = ground arith
  call_failure kind msg (inr (since, e, h)) failed = ground arith

  call_result :
      (kind : BackendErrorKind) (msg : Message)
      → Admits
      → Fails kind msg
      → (call clock fn g).0 ≡ ends (triage g.breaker.config kind msg)
  unfolding call
  call_result kind msg (inl e) failed = ground arith
  call_result kind msg (inr (since, e, h)) failed = ground arith

  -- A failed call raises the fatal exception exactly for the permanent kinds.
  pub call_fatal_iff :
      (kind : BackendErrorKind) (msg : Message)
      → Admits
      → Fails kind msg
      → (is_fatal (call clock fn g).0 ≡ true) ↔ IsPermanent g.breaker.config kind
  call_fatal_iff kind msg admits failed =
      rw (call_result kind msg admits failed) (triage_fatal g.breaker.config kind msg)

  -- A CIRCUIT_OPEN failure of the function itself (one breaker behind another) is swallowed: the
  -- call returns as if the function had succeeded. It is the only kind that is.
  pub call_swallows_iff :
      (kind : BackendErrorKind) (msg : Message)
      → Admits
      → Fails kind msg
      → ((call clock fn g).0 ≡ done tt) ↔ (kind ≡ circuit_open)
  call_swallows_iff kind msg admits failed =
      rw (call_result kind msg admits failed) (triage_swallows g.breaker.config kind msg)

  -- Every call, of any function with any outcome, keeps the breaker sound and its configuration.
  pub call-IsSound :
      IsSound g.breaker
      → IsSound (call clock fn g).1.breaker
        × ((call clock fn g).1.breaker.config ≡ g.breaker.config)
  unfolding call
  call-IsSound sound = ground arith
