-- ===== src/Protocol.antt =====
-- src/taskweave_protocol: the enums and records that travel between the components (msg_type.py,
-- source_type.py, output_type.py, routing_policy.py, log_event.py) and src/taskweave/utils/task_id.py.
-- Times are natural numbers of clock ticks.
use taskweave.Base.{ℕ, String, Bool, Option, true, false, ◌==◌}
use taskweave.Exceptions.{Message}

pub data MsgType : Type 0 where
  state_change activity task_done early_exit progress quality event log_line banner : MsgType
  error dialect_error backend_failure backend_open callback_error heartbeat_timeout : MsgType

pub data SourceType : Type 0 where
  task pipeline session : SourceType

pub data OutputType : Type 0 where
  progress log_line banner verbose discard error : OutputType

pub record RoutingPolicy : Type 0 where
  pub forward : Bool
  pub persist : Bool

-- TaskId defines neither `__eq__` nor `__hash__`, so a dictionary tells two of them apart by object
-- identity, here `ident`, and not by their text.
pub record TaskId : Type 0 where
  pub ident : ℕ
  pub value : String

abbrev pub same_task_id : TaskId → TaskId → Bool
same_task_id a b = a.ident == b.ident

-- The field `parsed`, which is opaque to the library, is left out.
pub record LogEvent : Type 0 where
  pub source_id : TaskId
  pub state : Option String
  pub msg_type : MsgType
  pub source_type : SourceType
  pub timestamp : ℕ
  pub routing : RoutingPolicy
  pub sequence : ℕ
  pub msg : Message

abbrev pub default_routing : RoutingPolicy
default_routing = record { forward = true; persist = false }
