-- ===== src/Logging.antt =====
-- src/taskweave/logging: LogStore with its index file (log_store.py), make_log_id.py, and LogReader.
-- `clock` answers `time()` in whole seconds; `matches id file` is the glob pattern of `cleanup`; the
-- directory can be written. A file of the index is missing, malformed, or holds a JSON object.
pub mod Index
pub mod Expiry
pub mod Tail
mod Examples
use Prim.Native.String.{◌++◌ as str_append}
use taskweave.Base.{
  ℕ, suc, ◌+◌, ◌-◌, ◌*◌, ltb, String, Bool, true, false, if◌then◌else◌, ◌||◌, Option, none, some,
  is_some, List, [], ◌∷◌, ◌++◌, length, drop, Outcome, done, raised, Stmt, give, fail, skip, update,
  ◌>>=◌, ◌>>◌, Dict, find, store, erase, string_key,
}
use taskweave.Exceptions.{
  Exception, runtime_error, key_error, value_error, attribute_error, os_error,
}
use taskweave.Protocol.{TaskId}

-- SessionData.
pub record SessionData : Type 0 where
  pub timestamp : ℕ
  pub list : List String

pub data IndexFile : Type 0 where
  missing malformed : IndexFile
  holds : Dict String SessionData → IndexFile

pub record LogStore : Type 0 where
  pub max_age : ℕ
  pub known_names : List String
  pub index : IndexFile
  pub files : List String
  pub readings : ℕ

-- `float(49 * 24 * 3600 * 1000)`
abbrev pub default_max_age : ℕ
default_max_age = 4233600000

-- `TaskId.increment`, which changes the object and returns it.
unfoldable pub increment : TaskId → String → TaskId
increment id suffix = record id { value = str_append id.value suffix }

-- `make_log_id`, for the text of the time and of the suffix.
unfoldable pub make_log_id : String → String → TaskId → TaskId → TaskId
unfolding increment
make_log_id ts suffix name session = increment name (
    str_append "_"
      (str_append ts (str_append "_" (str_append session.value (str_append "_" suffix)))))

-- `name in self._known_names`: the set holds texts, and a TaskId is equal to no text.
abbrev is_known : List String → TaskId → Bool
is_known names name = false

-- `_get_name`. The loop ends at once, since its test is false for every name.
unfoldable pub get_name : (TaskId → TaskId → TaskId) → TaskId → TaskId → Stmt LogStore TaskId
get_name make_id source session s =
    let name = make_id source session in
    let names = s.known_names in
    if is_known names name
    then (raised Exception.never_returns, s)
    else (done name, record s { known_names = name.value ∷ names })

-- The dictionary that `register` works on: what was loaded, whose keys are texts, and the entry of the
-- session's TaskId, which is a key of its own.
pub record LogContent : Type 0 where
  pub texts : Dict String SessionData
  pub own : Option SessionData

-- `{k: SessionData(**v) …}`, or the error of `register` and `_get_index` on a malformed file.
loaded : IndexFile → Stmt LogStore (Dict String SessionData)
loaded missing = fail os_error
loaded malformed = fail runtime_error
loaded (holds index) = give index

abbrev with_own : LogContent → SessionData → LogContent
with_own content fresh =
    if is_some content.own then content else record content { own = some fresh }

-- The `exists` test and both branches.
load_content : IndexFile → SessionData → Stmt LogStore LogContent
unfolding loaded
load_content missing fresh = give (record { texts = []; own = some fresh })
load_content file fresh = do
  texts ← loaded file
  give (with_own (record { texts = texts; own = none }) fresh)

-- `json.dump(…, cls = Encoder)`: keys become texts, and a later entry replaces one of the same text.
encoded : Dict String SessionData → String → Option SessionData → Dict String SessionData
encoded texts session none = texts
encoded texts session (some own) = store texts session own

module _ (clock : ℕ → ℕ) where
  -- `SessionData()`
  fresh_data : Stmt LogStore SessionData
  fresh_data s = (
    done (record { timestamp = clock s.readings; list = [] }),
    record s { readings = s.readings + 1 },
  )

  -- `log_content[session_id].list` with the name added, or a new SessionData.
  append_name : Option SessionData → String → Stmt LogStore SessionData
  unfolding fresh_data
  append_name none name = fail key_error
  append_name (some data') name = elim (data'.list) [
    | [] ↦ fresh_data >>= λ newer. give (record newer { list = name ∷ [] })
    | x ∷ xs ↦ give (record data' { list = (x ∷ xs) ++ name ∷ [] })
  ]

  unfoldable pub register : (TaskId → TaskId → TaskId) → TaskId → TaskId → Stmt LogStore TaskId
  unfolding get_name fresh_data load_content append_name encoded
  register make_id session source = do
    name ← get_name make_id source session
    fresh ← fresh_data
    content ← λ s. load_content s.index fresh s
    own ← append_name (content.own) (name.value)
    update λ s. record s { index = holds (encoded content.texts session.value (some own)) }
    give name

  -- `cleanup`: the sessions that are too old, and their files.
  abbrev pub is_expired : ℕ → ℕ → SessionData → Bool
  is_expired max_age now data' = ltb max_age (now - data'.timestamp)

abbrev pub to_delete : (SessionData → Bool) → Dict String SessionData → List String
to_delete expired [] = []
to_delete expired ((id, data') ∷ sessions) =
    let rest = to_delete expired sessions in if expired data' then id ∷ rest else rest

abbrev pub delete_all : List String → Dict String SessionData → Dict String SessionData
delete_all [] sessions = sessions
delete_all (id ∷ ids) sessions = delete_all ids (erase sessions id)

module _ (matches : String → String → Bool) where
  abbrev pub unlink : String → List String → List String
  unlink session [] = []
  unlink session (file ∷ files) =
      let rest = unlink session files in if matches session file then rest else file ∷ rest

  -- The loop over the sessions: what stays of the files, and `to_delete`.
  expire_files : (SessionData → Bool) → Dict String SessionData → List String → List String
  expire_files expired [] files = files
  expire_files expired ((id, data') ∷ sessions) files =
      expire_files expired sessions (if expired data' then unlink id files else files)

  cleanup_index : (ℕ → ℕ) → IndexFile → Stmt LogStore Unit
  unfolding loaded expire_files
  cleanup_index clock missing = skip
  cleanup_index clock file = do
    now ← λ s. (done (clock s.readings), record s { readings = s.readings + 1 })
    sessions ← loaded file
    update λ s.
        let expired = is_expired clock s.max_age now in
        record s {
          files = expire_files expired sessions s.files;
          index = holds (delete_all (to_delete expired sessions) sessions);
        }

  unfoldable pub cleanup : (ℕ → ℕ) → Stmt LogStore Unit
  unfolding cleanup_index
  cleanup clock s = cleanup_index clock s.index s

-- `resolve`, which returns the JSON object itself.
entry_of : Option SessionData → Stmt LogStore SessionData
entry_of none = fail key_error
entry_of (some data') = give data'

resolve_in : IndexFile → String → Stmt LogStore SessionData
unfolding entry_of
resolve_in missing session = fail os_error
resolve_in malformed session = fail value_error
resolve_in (holds index) session = entry_of (find index session)

unfoldable pub resolve : String → Stmt LogStore SessionData
unfolding resolve_in
resolve session s = resolve_in s.index session s

-- `reader`, up to `session_data.list`, which a JSON object does not have.
unfoldable pub reader : String → Stmt LogStore String
unfolding resolve
reader session = do data' ← resolve session; fail attribute_error

-- `LogReader.tail`: a deque of at most n lines, which gives up its first line for a new one.
abbrev pub slide : ℕ → List String → String → List String
slide n window line = let longer = window ++ line ∷ [] in drop (length longer - n) longer

abbrev pub deque_of : ℕ → List String → List String → List String
deque_of n window [] = window
deque_of n window (line ∷ lines) = deque_of n (slide n window line) lines

abbrev pub tail : ℕ → List String → List String
tail n lines = deque_of n [] lines
