-- ===== src/Exceptions.antt =====
-- The exceptions that the modelled code raises or handles.
-- BackendErrorKind is src/taskweave_protocol/backend_error_kind.py; the two backend exceptions with
-- their fields are src/taskweave/persist/backend_exception.py. Python's own carry no text here.
use Prim.Native.Nat.{ℕ}
use Prim.Native.String.{String}

pub data BackendErrorKind : Type 0 where
  rate_limited unavailable timeout circuit_open : BackendErrorKind
  bad_request unauthorized os_fault queue_full thread_died unknown : BackendErrorKind

-- A message: a literal text, or one of the format strings of the sources with its arguments.
pub data Message : Type 0 where
  text : String → Message
  failures_on_breaker : ℕ → Message
  fatal_in_breaker : Message → Message
  backend_fatal_error backend_is_open : BackendErrorKind → Message → Message
  callback_failed : Message

-- `client n` is an exception of the user's own code. `never_returns` is no exception of Python: it
-- marks a statement that waits for ever, and no modelled handler catches it.
pub data Exception : Type 0 where
  runtime_error value_error key_error attribute_error type_error : Exception
  index_error assertion_error stop_iteration os_error unbound_local not_implemented : Exception
  zero_division : Exception
  transient fatal : (kind : BackendErrorKind) (msg : Message) → Exception
  client : ℕ → Exception
  never_returns : Exception
