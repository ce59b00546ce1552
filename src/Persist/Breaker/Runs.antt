-- ===== src/Persist/Breaker/Runs.antt =====
-- Sequences of calls through one circuit breaker.
use Prim.Native.Nat.{min}
use taskweave.Base.{
  ℕ, zero, suc, ◌+◌, ◌-◌, ◌≤◌, ◌<◌, none, some, Stmt, raised, ◌≡◌, refl, ◌∙◌, ◌⊎◌, inl, inr, arith,
}
use taskweave.Exceptions.{BackendErrorKind, transient, Message}
use taskweave.Persist.Breaker.{Guarded, call}

module _ {W : Type 0} (clock : ℕ → ℕ) (fn : Stmt W Unit) where
  -- `n` calls one after another, whatever each of them raises.
  unfoldable pub calls : ℕ → Guarded W → Guarded W
  calls zero g = g
  calls (suc n) g = calls n (call clock fn g).1

  -- What `n` runs of the function leave.
  unfoldable pub runs : ℕ → W → W
  runs zero w = w
  runs (suc n) w = runs n (fn w).1

  call_open_step :
      (since : ℕ) (g : Guarded W)
      → g.breaker.open_since ≡ some since
      → clock g.readings ≤ since + g.breaker.config.recovery_timeout
      → ((call clock fn g).1.rest ≡ g.rest)
        × ((call clock fn g).1.breaker ≡ g.breaker)
        × ((call clock fn g).1.readings ≡ g.readings + 1)
  unfolding call
  call_open_step since g e h = ground arith

  -- Once it is open, and as long as no reading of the clock is past the time-out, no number of
  -- calls reaches the function: the state that it acts on stays, and so does the breaker.
  pub calls_open :
      (n since : ℕ) (g : Guarded W)
      → g.breaker.open_since ≡ some since
      → ((i : ℕ) → i < g.readings + n → clock i ≤ since + g.breaker.config.recovery_timeout)
      → ((calls n g).rest ≡ g.rest) × ((calls n g).breaker ≡ g.breaker)
  unfolding calls
  calls_open zero since g e h = (refl, refl)
  calls_open (suc n) since g e h =
      let (rest, kept, read) = call_open_step since g e (h g.readings (omega arith)) in
      let (rest', kept') =
        calls_open n since (call clock fn g).1 (rw kept e)
          (λ i below. rw kept (h i (omega (arith, read)))) in
      (rest' ∙ rest, kept' ∙ kept)

  module _ (kind : BackendErrorKind) (msg : Message)
      (fails : (w : W) → (fn w).0 ≡ raised (transient kind msg)) where
    call_failed_step :
        (g : Guarded W)
        → g.breaker.open_since ≡ none
        → ((call clock fn g).1.rest ≡ (fn g.rest).1)
          × ((call clock fn g).1.breaker.config ≡ g.breaker.config)
          × ((call clock fn g).1.breaker.failures ≡ g.breaker.failures + 1)
          × (((call clock fn g).1.breaker.open_since ≡ none)
                × (g.breaker.failures + 1 < g.breaker.config.threshold)
              ⊎ ((call clock fn g).1.breaker.open_since ≡ some (clock g.readings))
                × (g.breaker.config.threshold ≤ g.breaker.failures + 1))
    unfolding call
    call_failed_step g e = ground (arith, fails g.rest)

    -- A function that always fails is run until the failures reach the threshold and no more,
    -- however often it is called, if all readings of the clock lie within the time-out.
    pub calls_failing :
        (n : ℕ) (g : Guarded W)
        → g.breaker.open_since ≡ none
        → g.breaker.failures < g.breaker.config.threshold
        → ((i j : ℕ) → clock i ≤ clock j + g.breaker.config.recovery_timeout)
        → (calls n g).rest ≡ runs (min n (g.breaker.config.threshold - g.breaker.failures)) g.rest
    unfolding calls runs
    calls_failing zero g e below near =
        let none_left : min 0 (g.breaker.config.threshold - g.breaker.failures) ≡ 0 = omega arith in
        rw none_left
    calls_failing (suc n) g e below near =
        let left = g.breaker.config.threshold - g.breaker.failures in
        let (rest, same, counted, state) = call_failed_step g e in
        elim state [
          | inl (closed, more) ↦
              let fewer : min (suc n) left
                  ≡ suc (min n (g.breaker.config.threshold - (g.breaker.failures + 1))) =
                omega arith in
              let ih =
                calls_failing n (call clock fn g).1 closed (rw (same, counted) more)
                  (λ i j. rw same (near i j)) in
              rw fewer (rw (same, counted, rest) at ih)
          | inr (opened, last) ↦
              let one : min (suc n) left ≡ 1 = omega arith in
              let (stays, _) =
                calls_open n (clock g.readings) (call clock fn g).1 opened
                  (λ i _. rw same (near i g.readings)) in
              rw one (stays ∙ rest)
        ]
