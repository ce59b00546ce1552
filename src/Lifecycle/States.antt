-- ===== src/Lifecycle/States.antt =====
-- src/taskweave/states: the enums of the three life cycles, and their transition tables
-- (src/taskweave/lifecycle/*_transitions.py).
use taskweave.Base.{ℕ, ◌==◌, Bool, true, String, List, [], ◌∷◌, ◌≡◌, ◌↔◌, arith}

-- An enum: its equality, `.value`, and the member RUNNING.
pub record Enum (S : Type 0) : Type 0 where
  pub eqb : S → S → Bool
  pub eqb_iff : (a b : S) → (eqb a b ≡ true) ↔ (a ≡ b)
  pub value : S → String
  pub running : S

pub data TaskState : Type 0 where
  pending running success failed canceled : TaskState

abbrev task_state_number : TaskState → ℕ
task_state_number TaskState.pending = 0
task_state_number TaskState.running = 1
task_state_number TaskState.success = 2
task_state_number TaskState.failed = 3
task_state_number TaskState.canceled = 4

abbrev task_state_eqb : TaskState → TaskState → Bool
task_state_eqb a b = task_state_number a == task_state_number b

pub task_state_eqb_iff : (a b : TaskState) → (task_state_eqb a b ≡ true) ↔ (a ≡ b)
task_state_eqb_iff a b = ground arith

abbrev task_state_value : TaskState → String
task_state_value TaskState.pending = "pending"
task_state_value TaskState.running = "running"
task_state_value TaskState.success = "success"
task_state_value TaskState.failed = "failed"
task_state_value TaskState.canceled = "canceled"

instance abbrev pub task_state_enum : Enum TaskState
task_state_enum = record {
  eqb = task_state_eqb;
  eqb_iff = task_state_eqb_iff;
  value = task_state_value;
  running = TaskState.running;
}

abbrev pub task_transitions : List (TaskState × List TaskState)
task_transitions =
    (TaskState.pending, TaskState.running ∷ TaskState.canceled ∷ [])
    ∷ (TaskState.running, TaskState.success ∷ TaskState.failed ∷ TaskState.canceled ∷ [])
    ∷ []

pub data PipelineState : Type 0 where
  pending running canceled stopping failed success : PipelineState

abbrev pipeline_state_number : PipelineState → ℕ
pipeline_state_number PipelineState.pending = 0
pipeline_state_number PipelineState.running = 1
pipeline_state_number PipelineState.canceled = 2
pipeline_state_number PipelineState.stopping = 3
pipeline_state_number PipelineState.failed = 4
pipeline_state_number PipelineState.success = 5

abbrev pipeline_state_eqb : PipelineState → PipelineState → Bool
pipeline_state_eqb a b = pipeline_state_number a == pipeline_state_number b

pub pipeline_state_eqb_iff : (a b : PipelineState) → (pipeline_state_eqb a b ≡ true) ↔ (a ≡ b)
pipeline_state_eqb_iff a b = ground arith

abbrev pipeline_state_value : PipelineState → String
pipeline_state_value PipelineState.pending = "pending"
pipeline_state_value PipelineState.running = "running"
pipeline_state_value PipelineState.canceled = "canceled"
pipeline_state_value PipelineState.stopping = "stopping"
pipeline_state_value PipelineState.failed = "failed"
pipeline_state_value PipelineState.success = "success"

instance abbrev pub pipeline_state_enum : Enum PipelineState
pipeline_state_enum = record {
  eqb = pipeline_state_eqb;
  eqb_iff = pipeline_state_eqb_iff;
  value = pipeline_state_value;
  running = PipelineState.running;
}

abbrev pub pipeline_transitions : List (PipelineState × List PipelineState)
pipeline_transitions =
    (PipelineState.pending, PipelineState.running ∷ PipelineState.canceled ∷ [])
    ∷ (
      PipelineState.running,
      PipelineState.success ∷ PipelineState.failed ∷ PipelineState.canceled ∷ [],
    )
    ∷ []

pub data SessionState : Type 0 where
  pending running stopping success failed canceled : SessionState

abbrev session_state_number : SessionState → ℕ
session_state_number SessionState.pending = 0
session_state_number SessionState.running = 1
session_state_number SessionState.stopping = 2
session_state_number SessionState.success = 3
session_state_number SessionState.failed = 4
session_state_number SessionState.canceled = 5

abbrev session_state_eqb : SessionState → SessionState → Bool
session_state_eqb a b = session_state_number a == session_state_number b

pub session_state_eqb_iff : (a b : SessionState) → (session_state_eqb a b ≡ true) ↔ (a ≡ b)
session_state_eqb_iff a b = ground arith

abbrev session_state_value : SessionState → String
session_state_value SessionState.pending = "pending"
session_state_value SessionState.running = "running"
session_state_value SessionState.stopping = "stopping"
session_state_value SessionState.success = "ssuccess"
session_state_value SessionState.failed = "failed"
session_state_value SessionState.canceled = "canceled"

instance abbrev pub session_state_enum : Enum SessionState
session_state_enum = record {
  eqb = session_state_eqb;
  eqb_iff = session_state_eqb_iff;
  value = session_state_value;
  running = SessionState.running;
}

abbrev pub session_transitions : List (SessionState × List SessionState)
session_transitions =
    (SessionState.pending, SessionState.running ∷ SessionState.canceled ∷ [])
    ∷ (
      SessionState.running,
      SessionState.success ∷ SessionState.failed ∷ SessionState.canceled ∷ [],
    )
    ∷ []
