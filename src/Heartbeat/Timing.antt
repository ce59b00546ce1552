-- ===== src/Heartbeat/Timing.antt =====
-- When the heart beat gives a task up.
use taskweave.Base.{
  ℕ, zero, suc, ◌+◌, ◌*◌, ◌≤◌, ◌<◌, Bool, true, none, some, ◌≡◌, refl, ap, ◌∙◌, arith,
}
use taskweave.Heartbeat.{HeartbeatConfig, Timeout, goes_on, after_sleep, heartbeat_loop}

module _ (cfg : HeartbeatConfig) (beats : ℕ → Bool) where
  -- The loop that runs to its end: with these results, for every number of rounds from some on.
  abbrev pub Ends : ℕ → (attempts sleeps slept : ℕ) → (Timeout → Type 0) → Type 0
  Ends rounds attempts sleeps slept P =
      (t : Timeout) × (heartbeat_loop cfg beats rounds attempts sleeps slept ≡ some t) × P t

  loop-round :
      (rounds attempts sleeps slept : ℕ)
      → goes_on cfg attempts ≡ true
      → heartbeat_loop cfg beats (suc rounds) attempts sleeps slept
        ≡ heartbeat_loop cfg beats rounds
            (after_sleep (beats sleeps) attempts)
            (sleeps + 1)
            (slept + cfg.threshold * attempts)
  unfolding heartbeat_loop
  loop-round rounds attempts sleeps slept on = ground (arith, on)

  alive :
      (rounds attempts sleeps slept : ℕ)
      → attempts ≤ 1
      → 1 < cfg.max_attempts
      → cfg.threshold < cfg.max_threshold
      → ((n : ℕ) → beats n ≡ true)
      → heartbeat_loop cfg beats rounds attempts sleeps slept ≡ none
  unfolding heartbeat_loop
  alive zero attempts sleeps slept few more short heard = refl
  alive (suc rounds) attempts sleeps slept few more short heard =
      loop-round rounds attempts sleeps slept (goes attempts few)
      ∙ ap
          (λ b.
            heartbeat_loop cfg beats rounds (after_sleep b attempts) (sleeps + 1)
              (slept + cfg.threshold * attempts))
          (heard sleeps)
      ∙ alive rounds 1 (sleeps + 1) (slept + cfg.threshold * attempts) (omega arith) more short
          heard
    where
      goes : (a : ℕ) → a ≤ 1 → goes_on cfg a ≡ true
      goes zero h = ground arith
      goes (suc zero) h = ground arith
      goes (suc (suc a)) h = absurd (omega arith)

  -- A task with a beat in every sleep is never reported, however long it runs, if the configuration
  -- leaves room for a second attempt.
  pub beats_keep_alive :
      (rounds : ℕ)
      → 1 < cfg.max_attempts
      → cfg.threshold < cfg.max_threshold
      → ((n : ℕ) → beats n ≡ true)
      → heartbeat_loop cfg beats rounds 0 0 0 ≡ none
  beats_keep_alive rounds more short heard = alive rounds 0 0 0 (omega arith) more short heard
