-- ===== src/Persist/Producer/Queue.antt =====
-- What a write does to the queue and to the thread.
use taskweave.Base.{
  ℕ, ◌+◌, ◌≤◌, ◌<◌, String, Bool, true, false, none, some, [], ◌∷◌, ◌++◌, length, done, ◌≡◌, arith,
}
use taskweave.Persist.Breaker.{Guarded, call, triage}
use taskweave.Persist.Runner.{Runner, queue_size}
use taskweave.Persist.Producer.{write}

module _ (disk : ℕ → Bool) (clock : ℕ → ℕ) (line : String) (g : Guarded Runner) where
  -- A line is accepted when the breaker is closed, the consumer lives and the queue has room: it is
  -- then the last of the queue, no error is reported, and the failures are forgotten.
  pub write_accepted :
      g.breaker.open_since ≡ none
      → g.rest.thread_died ≡ false
      → length g.rest.queue < queue_size
      → write disk clock line g ≡ (
        done tt,
        record g {
          breaker = record (g.breaker) { failures = 0 };
          rest = record (g.rest) { queue = g.rest.queue ++ some line ∷ [] };
        },
      )
  unfolding write call
  write_accepted closed alive room = ground arith

  -- With the network configuration a full queue drops the line in silence: no exception, no
  -- report, and the queue stays; only the failure is counted.
  pub write_full_dropped :
      g.breaker.open_since ≡ none
      → g.breaker.config.retry_on_queue_full ≡ true
      → g.rest.thread_died ≡ false
      → queue_size ≤ length g.rest.queue
      → ((write disk clock line g).0 ≡ done tt)
        × ((write disk clock line g).1.rest ≡ g.rest)
        × ((write disk clock line g).1.breaker.failures ≡ g.breaker.failures + 1)
  unfolding write call triage
  write_full_dropped closed retry alive full = ground arith
