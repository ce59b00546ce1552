-- ===== src/Logging/Examples.antt =====
-- Concrete inputs of the theorems on the log store.
use taskweave.Base.{
  ℕ, ◌+◌, String, Bool, true, if◌then◌else◌, none, [], ◌∷◌, done, ◌≡◌, ◌≢◌, refl, arith, Dict, find,
  string_key,
}
use taskweave.Protocol.{TaskId}
use taskweave.Logging.{
  SessionData, malformed, holds, LogStore, default_max_age, make_log_id, register, resolve, cleanup,
  is_expired,
}
use taskweave.Logging.Index.{registered, resolve-register}
use taskweave.Logging.Expiry.{NodupKeys, expired_at, cleanup_keeps}

abbrev clock : ℕ → ℕ
clock n = n + 5000000

abbrev session : TaskId
session = record { ident = 0; value = "session_1" }

abbrev fetch : TaskId
fetch = record { ident = 1; value = "fetch" }

abbrev make_id : TaskId → TaskId → TaskId
make_id name s = make_log_id "8f2c01aa" "x7Qz" name s

abbrev old_logs : SessionData
old_logs = record { timestamp = 12; list = "fetch_log" ∷ [] }

abbrev index : Dict String SessionData
index = ("session_0", old_logs) ∷ ("session_1", record { timestamp = 4000000; list = [] }) ∷ []

abbrev store_now : LogStore
store_now = record {
  max_age = default_max_age;
  known_names = [];
  index = holds index;
  files = "fetch_log" ∷ [];
  readings = 0;
}

abbrev matches : String → String → Bool
matches id file = true

readable : holds index ≢ malformed
readable e = ground (arith, e)

resolve-register_example :
    (resolve "session_1" (register clock make_id session fetch store_now).1).0
    ≡ done (registered clock make_id session fetch store_now)
resolve-register_example = resolve-register clock make_id session fetch store_now readable

index-NodupKeys : NodupKeys index
unfolding string_key
index-NodupKeys = (refl, (refl, tt))

cleanup_keeps_example :
    ((cleanup matches clock store_now).0 ≡ done tt)
    × ((after : Dict String SessionData) × ((cleanup matches clock store_now).1.index ≡ holds after)
        × (find after "session_0" ≡ (
            if expired_at (is_expired clock default_max_age 5000000) (find index "session_0")
            then none
            else find index "session_0")))
cleanup_keeps_example = cleanup_keeps matches clock store_now index refl index-NodupKeys "session_0"
