-- ===== src/Persist/Retry/Examples.antt =====
-- A concrete input of the theorem on retries.
use taskweave.Base.{ℕ, suc, zero, Option, none, some}
use taskweave.Exceptions.{Exception, client}

-- Two failures, then a success.
abbrev fn : ℕ → Option Exception
fn zero = some (client 0)
fn (suc zero) = some (client 1)
fn (suc (suc n)) = none
