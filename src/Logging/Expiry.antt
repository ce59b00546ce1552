-- ===== src/Logging/Expiry.antt =====
-- What the cleanup of the log directory keeps.
use taskweave.Base.{
  ℕ, ◌+◌, ◌-◌, ◌*◌, ◌≤◌, ◌<◌, String, Bool, false, if◌then◌else◌, Option, none, some, List, [], ◌∷◌,
  done, ◌≡◌, refl, arith, Dict, find, erase, string_key, same, contains,
}
use taskweave.Logging.{
  SessionData, holds, LogStore, default_max_age, cleanup, cleanup_index, loaded, is_expired,
  to_delete, delete_all,
}

-- No key twice, as in every JSON object that was loaded.
abbrev pub NodupKeys : Dict String SessionData → Type 0
NodupKeys [] = Unit
NodupKeys ((k, v) ∷ d) = (find d k ≡ none) × NodupKeys d

find-erase :
    (d : Dict String SessionData) (k j : String)
    → NodupKeys d
    → find (erase d k) j ≡ (if same k j then none else find d j)
find-erase [] k j u = ground arith
find-erase ((i, v) ∷ d) k j (new, u) = ground (arith, find-erase d k j u)

erase-NodupKeys : (d : Dict String SessionData) (k : String) → NodupKeys d → NodupKeys (erase d k)
erase-NodupKeys [] k u = u
erase-NodupKeys ((i, v) ∷ d) k (new, u) = ground (arith, erase-NodupKeys d k u, find-erase d k i u)

find-delete_all :
    (ids : List String) (d : Dict String SessionData) (j : String)
    → NodupKeys d
    → find (delete_all ids d) j ≡ (if contains same ids j then none else find d j)
find-delete_all [] d j u = refl
find-delete_all (id ∷ ids) d j u =
    ground (arith, find-delete_all ids (erase d id) j (erase-NodupKeys d id u), find-erase d id j u)

abbrev pub expired_at : (SessionData → Bool) → Option SessionData → Bool
expired_at expired none = false
expired_at expired (some v) = expired v

contains-to_delete :
    (expired : SessionData → Bool) (d : Dict String SessionData) (j : String)
    → NodupKeys d
    → contains same (to_delete expired d) j ≡ expired_at expired (find d j)
contains-to_delete expired [] j u = refl
contains-to_delete expired ((i, v) ∷ d) j (new, u) =
    ground (arith, contains-to_delete expired d j u)

module _ (matches : String → String → Bool) (clock : ℕ → ℕ) (s : LogStore)
    (index : Dict String SessionData) (held : s.index ≡ holds index)
    (unique : NodupKeys index) where
  -- The index after the cleanup.
  abbrev pub kept : Dict String SessionData
  kept = delete_all (to_delete (is_expired clock s.max_age (clock s.readings)) index) index

  cleanup-index :
      ((cleanup matches clock s).0 ≡ done tt) × ((cleanup matches clock s).1.index ≡ holds kept)
  unfolding cleanup cleanup_index loaded
  cleanup-index = ground (arith, held)

  find-kept :
      (session : String)
      → find kept session ≡ (
          if expired_at (is_expired clock s.max_age (clock s.readings)) (find index session)
          then none
          else find index session)
  find-kept session = ground (
    arith,
    find-delete_all (to_delete (is_expired clock s.max_age (clock s.readings)) index) index session
        unique,
    contains-to_delete (is_expired clock s.max_age (clock s.readings)) index session unique,
  )

  -- The cleanup of a readable index returns, and the index then holds just the sessions whose age is
  -- at most `max_age`, with their data as before.
  pub cleanup_keeps :
      (session : String)
      → ((cleanup matches clock s).0 ≡ done tt)
        × ((after : Dict String SessionData) × ((cleanup matches clock s).1.index ≡ holds after)
            × (find after session ≡ (
                if expired_at (is_expired clock s.max_age (clock s.readings)) (find index session)
                then none
                else find index session)))
  cleanup_keeps session =
      let (returned, written) = cleanup-index in (returned, (kept, written, find-kept session))

  -- The doc says that what is older than 49 days goes. Times are seconds and `max_age` counts
  -- milliseconds: under the default a session stays until it is a thousand times as old.
  pub cleanup_keeps_old :
      (session : String) (logs : SessionData)
      → s.max_age ≡ default_max_age
      → find index session ≡ some logs
      → logs.timestamp + 49 * 24 * 3600 < clock s.readings
      → clock s.readings - logs.timestamp ≤ 49 * 24 * 3600 * 1000
      → (after : Dict String SessionData) × ((cleanup matches clock s).1.index ≡ holds after)
        × (find after session ≡ some logs)
  cleanup_keeps_old session logs default known old young =
      (kept, cleanup-index.1, ground (arith, find-kept session, known, default, young))
