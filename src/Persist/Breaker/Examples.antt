-- ===== src/Persist/Breaker/Examples.antt =====
-- Concrete inputs of the theorems on the circuit breaker.
use taskweave.Base.{ℕ, ◌+◌, some, Stmt, done, raised, ◌≡◌, refl, inr, arith}
use taskweave.Exceptions.{
  timeout, queue_full, circuit_open, transient, fatal, text, fatal_in_breaker, failures_on_breaker,
}
use taskweave.Persist.Breaker.{Guarded, config_local, config_network, new_breaker, call}
use taskweave.Persist.Breaker.Laws.{IsSound, call_short_circuits, call-IsSound}
use taskweave.Persist.Breaker.Runs.{calls}

abbrev noon : ℕ → ℕ
noon i = 12

abbrev timing_out : Stmt ℕ Unit
timing_out n = (raised (transient timeout (text "late")), n + 1)

abbrev full : Stmt ℕ Unit
full n = (raised (transient queue_full (text "full")), n + 1)

abbrev behind_breaker : Stmt ℕ Unit
behind_breaker n = (raised (transient circuit_open (text "open")), n)

abbrev working : Stmt ℕ Unit
working n = (done tt, n + 1)

abbrev fresh : Guarded ℕ
fresh = record { breaker = new_breaker config_network; readings = 0; rest = 0 }

abbrev fresh_local : Guarded ℕ
fresh_local = record { breaker = new_breaker config_local; readings = 0; rest = 0 }

abbrev tripped : Guarded ℕ
tripped = record {
  breaker = record { config = config_network; failures = 5; open_since = some 3 };
  readings = 0;
  rest = 0;
}

late : ℕ → ℕ
late i = 100

fifth_call_opens : (calls noon timing_out 5 fresh).breaker.open_since ≡ some 12
unfolding calls call
fifth_call_opens = refl

local_full_is_fatal :
    (call noon full fresh_local).0 ≡ raised (fatal queue_full (fatal_in_breaker (text "full")))
unfolding call
local_full_is_fatal = refl

network_full_is_transient :
    (call noon full fresh).0 ≡ raised (transient queue_full (failures_on_breaker 5))
unfolding call
network_full_is_transient = refl

call_short_circuits_example :
    ((call noon working tripped).0 ≡ raised (transient circuit_open (text "backend unavailable")))
    × ((call noon working tripped).1.rest ≡ 0)
    × ((call noon working tripped).1.breaker ≡ tripped.breaker)
call_short_circuits_example = call_short_circuits noon working tripped 3 refl (omega arith)

call-IsSound_example :
    IsSound (call noon timing_out tripped).1.breaker
    × ((call noon timing_out tripped).1.breaker.config ≡ config_network)
call-IsSound_example = call-IsSound noon timing_out tripped (inr (omega arith))
