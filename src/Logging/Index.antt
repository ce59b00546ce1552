-- ===== src/Logging/Index.antt =====
-- Registering and looking up.
use taskweave.Base.{
  ℕ, ◌+◌, String, false, some, [], ◌∷◌, done, raised, ◌≡◌, ◌≢◌, arith, Dict, find, store,
  string_key, find-store, same,
}
use taskweave.Exceptions.{runtime_error, attribute_error}
use taskweave.Protocol.{TaskId}
use taskweave.Logging.{
  SessionData, IndexFile, missing, malformed, holds, LogStore, get_name, fresh_data, load_content,
  append_name, encoded, register, resolve, resolve_in, entry_of, reader,
}

-- The sessions of an index that can be read.
abbrev pub sessions_of : IndexFile → Dict String SessionData
sessions_of missing = []
sessions_of malformed = []
sessions_of (holds index) = index

module _ (clock : ℕ → ℕ) (make_id : TaskId → TaskId → TaskId) (session source : TaskId) where
  -- What a registration puts into the index.
  abbrev pub registered : LogStore → SessionData
  registered s = record {
    timestamp = clock (s.readings + 1);
    list = (make_id source session).value ∷ [];
  }

  -- With an index that is missing or can be read, `register` returns the name that was made, and the
  -- index holds the session with this one name; what was registered for the session before is lost,
  -- the other sessions stay.
  pub register_result :
      (s : LogStore)
      → s.index ≢ malformed
      → let out = register clock make_id session source s in
        (out.0 ≡ done (make_id source session))
        × (out.1.index ≡ holds (store (sessions_of s.index) session.value (registered s)))
        × (out.1.readings ≡ s.readings + 2)
        × (out.1.files ≡ s.files)
  unfolding register get_name fresh_data load_content append_name encoded
  register_result s readable = ground arith

  -- A malformed index makes `register` raise RuntimeError, and the index file stays.
  pub register_malformed :
      (s : LogStore)
      → s.index ≡ malformed
      → let out = register clock make_id session source s in
        (out.0 ≡ raised runtime_error) × (out.1.index ≡ malformed)
  unfolding register get_name fresh_data load_content append_name encoded
  register_malformed s broken = ground arith

  -- A session whose last registration was this one is looked up with this one log, also when others
  -- were registered before.
  pub resolve-register :
      (s : LogStore)
      → s.index ≢ malformed
      → (resolve session.value (register clock make_id session source s).1).0 ≡ done (registered s)
  unfolding resolve resolve_in entry_of
  resolve-register s readable =
      let (_, index, _, _) = register_result s readable in
      ground
        (arith, index, find-store (sessions_of s.index) session.value session.value (registered s))

  -- Other sessions are looked up as before.
  pub resolve-register_other :
      (s : LogStore) (index : Dict String SessionData) (other : String)
      → s.index ≡ holds index
      → same session.value other ≡ false
      → (resolve other (register clock make_id session source s).1).0 ≡ (resolve other s).0
  unfolding resolve resolve_in entry_of
  resolve-register_other s index other held differ =
      let (_, kept, _, _) = register_result s (λ e. ground (arith, held, e)) in
      ground (arith, kept, held, find-store index session.value other (registered s))

-- The logs of a session can never be read: the reader asks a JSON object for its attribute `list`.
pub reader_fails :
    (session : String) (s : LogStore) (index : Dict String SessionData) (logs : SessionData)
    → s.index ≡ holds index
    → find index session ≡ some logs
    → reader session s ≡ (raised attribute_error, s)
unfolding reader resolve resolve_in entry_of
reader_fails session s index logs held known = ground (arith, held, known)
