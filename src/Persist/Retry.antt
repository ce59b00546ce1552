-- ===== src/Persist/Retry.antt =====
-- src/taskweave/persist/retry_with_backoff.py. `fn n` is what the n-th call of the function does: it
-- returns, or raises. Of a sleep the whole seconds are kept; the random part is less than one more.
pub mod Outcomes
mod Examples
use taskweave.Base.{
  ℕ, zero, suc, ◌+◌, ◌*◌, ◌==◌, if◌then◌else◌, Option, none, some, Outcome, done, raised, Stmt,
}
use taskweave.Exceptions.{Exception}

pub record Tries : Type 0 where
  pub calls : ℕ
  pub slept : ℕ

-- `2 ** attempt`
abbrev pub power : ℕ → ℕ
power zero = 1
power (suc n) = 2 * power n

module _ (fn : ℕ → Option Exception) (max_attempts : ℕ) where
  -- The loop, from an attempt on, with so many left.
  unfoldable pub attempts_from : ℕ → ℕ → Stmt Tries Unit
  attempts_from attempt zero s = (done tt, s)
  attempts_from attempt (suc left) s =
      let s' = record s { calls = suc s.calls } in
      let rest = attempts_from (suc attempt) left (record s' { slept = s.slept + power attempt }) in
      elim (fn s.calls) [
        | none ↦ (done tt, s')
        | some e ↦ if attempt + 1 == max_attempts then (raised e, s') else rest
      ]

  unfoldable pub retry_with_backoff : Stmt Tries Unit
  unfolding attempts_from
  retry_with_backoff = attempts_from 0 max_attempts
