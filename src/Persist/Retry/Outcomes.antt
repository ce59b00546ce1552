-- ===== src/Persist/Retry/Outcomes.antt =====
-- How a call that is retried ends.
use taskweave.Base.{
  ℕ, zero, suc, ◌+◌, ◌≤◌, ◌<◌, subst, sym, Option, none, some, Outcome, done, raised, ◌≡◌, ◌⊎◌, inl,
  inr, refl, arith,
}
use taskweave.Exceptions.{Exception}
use taskweave.Persist.Retry.{Tries, power, attempts_from, retry_with_backoff}

Option-cases : {A : Type 0} (o : Option A) → (o ≡ none) ⊎ ((a : A) × (o ≡ some a))
Option-cases none = inl refl
Option-cases (some a) = inr (a, refl)

module _ (fn : ℕ → Option Exception) where
  -- After some failed attempts: the last call has returned, or it was the last attempt and has raised.
  abbrev pub Ends : ℕ → Outcome (Unit {0}) × Tries → Type 0
  Ends max (out, s) =
      (last : ℕ) × (s.calls ≡ suc last)
      × (s.calls ≤ max)
      × (s.slept + 1 ≡ power last)
      × (((fn last ≡ none) × (out ≡ done tt))
          ⊎ ((e : Exception) × (fn last ≡ some e) × (out ≡ raised e) × (s.calls ≡ max)))

  attempts_from-returned :
      (max left : ℕ) (s : Tries)
      → fn s.calls ≡ none
      → attempts_from fn max s.calls (suc left) s
        ≡ (done tt, record { calls = suc s.calls; slept = s.slept })
  unfolding attempts_from
  attempts_from-returned max left s returned = ground (arith, returned)

  attempts_from-last :
      (max left : ℕ) (s : Tries) (e : Exception)
      → s.calls + 1 ≡ max
      → fn s.calls ≡ some e
      → attempts_from fn max s.calls (suc left) s
        ≡ (raised e, record { calls = suc s.calls; slept = s.slept })
  unfolding attempts_from
  attempts_from-last max left s e last raises = ground (arith, raises, last)

  attempts_from-again :
      (max left : ℕ) (s : Tries) (e : Exception)
      → s.calls + 1 < max
      → fn s.calls ≡ some e
      → attempts_from fn max s.calls (suc left) s
        ≡ attempts_from fn max
            (suc s.calls)
            left
            (record { calls = suc s.calls; slept = s.slept + power s.calls })
  unfolding attempts_from
  attempts_from-again max left s e more raises = ground (arith, raises, more)

  ends_returned :
      (max left : ℕ) (s : Tries)
      → s.calls + suc left ≡ max
      → s.slept + 1 ≡ power s.calls
      → fn s.calls ≡ none
      → Ends max (attempts_from fn max s.calls (suc left) s)
  ends_returned max left s room slept returned =
      subst (Ends max) (sym (attempts_from-returned max left s returned))
        (s.calls, refl, omega (arith, room), slept, inl (returned, refl))

  attempts_from-Ends :
      (max left : ℕ) (s : Tries)
      → s.calls + suc left ≡ max
      → s.slept + 1 ≡ power s.calls
      → Ends max (attempts_from fn max s.calls (suc left) s)
  attempts_from-Ends max zero s room slept = elim (Option-cases (fn s.calls)) [
    | inl returned ↦ ends_returned max zero s room slept returned
    | inr (e, raises) ↦
        subst (Ends max) (sym (attempts_from-last max zero s e room raises))
          (s.calls, refl, omega (arith, room), slept, inr (e, raises, refl, omega (arith, room)))
  ]
  attempts_from-Ends max (suc left) s room slept = elim (Option-cases (fn s.calls)) [
    | inl returned ↦ ends_returned max (suc left) s room slept returned
    | inr (e, raises) ↦
        subst (Ends max) (sym (attempts_from-again max (suc left) s e (omega (arith, room)) raises))
          (attempts_from-Ends max left
            (record { calls = suc s.calls; slept = s.slept + power s.calls }) (omega (arith, room))
            (omega (arith, slept)))
  ]

  -- A call that is retried is tried at most `max_attempts` times, which is not 0. It returns when the
  -- last try has returned, and it raises what the last try has raised when that was try number
  -- `max_attempts`; the whole seconds slept are one less than 2 to the number of tries before the last.
  pub retry_with_backoff-Ends :
      (max : ℕ) → 0 < max → Ends max (retry_with_backoff fn max (record { calls = 0; slept = 0 }))
  unfolding retry_with_backoff
  retry_with_backoff-Ends zero some_left = elim some_left [ ]
  retry_with_backoff-Ends (suc left) some_left =
      attempts_from-Ends (suc left) left (record { calls = 0; slept = 0 }) (omega arith) refl
