-- ===== src/Plans/Data.antt =====
-- What a session is made of: the tasks, pipelines and plans that a client writes, from
-- src/taskweave/tasks and src/taskweave/pipeline, and SessionControl with what it runs of them.
use native.Mathlib.Decide.{ℕ_discrete}
use taskweave.Base.{ℕ, String, Bool, Option, List, Key, Dict, string_key}
use taskweave.Exceptions.{Exception}
use taskweave.Protocol.{TaskId}
use taskweave.Lifecycle.{Cycle, TaskState, PipelineState, SessionState}
use taskweave.Logging.{LogStore}
use taskweave.Bus.{ObservabilityPolicy}
use taskweave.Orchestrator.{CancelPolicy}
use taskweave.Workers.{WorkerManager}

instance unfoldable pub nat_key : Key ℕ
nat_key = record { dec = ℕ_discrete }

-- An ExecutionStrategy.
pub data Strategy : Type 0 where
  pool : String → ℕ → Strategy
  synchronous external : Strategy

-- A LogProducer: LogEventProducer, with whether its events are to be persisted, or ClassifyingProducer.
pub data Producer : Type 0 where
  log_event : Bool → Producer
  classifying : Producer

-- Task. A backend is a number.
pub record Task : Type 0 where
  pub name : TaskId
  pub strategy : Strategy
  pub producer : Producer
  pub backend : Option ℕ
  pub has_on_cancel : Bool
  pub has_on_finally : Bool

pub record Pipeline : Type 0 where
  pub id : TaskId
  pub tasks : List Task

pub record ExecutionPlan : Type 0 where
  pub cancel_policy : CancelPolicy
  pub observability_policy : ObservabilityPolicy
  pub pools : List (String × ℕ)
  pub pipelines : List Pipeline

-- A TaskRunner: the one of a pool, which its tasks share, with the number of its manager; that of a
-- subprocess, with the text its manager is named by; or None.
pub data Runner : Type 0 where
  pool_runner : ℕ → Runner
  subprocess_runner : String → Runner
  no_runner : Runner

-- PipelineTask. Its cleanup closes the backend, if the task has one.
pub record PipelineTask : Type 0 where
  pub name : TaskId
  pub strategy : Strategy
  pub runner : Runner
  pub producer : Producer
  pub backend : Option ℕ
  pub has_on_cancel : Bool
  pub has_on_finally : Bool
  pub cycle : Cycle TaskState

pub record RuntimePipeline : Type 0 where
  pub id : TaskId
  pub session_id : TaskId
  pub tasks : List PipelineTask
  pub task_names : List TaskId
  pub cycle : Cycle PipelineState
  pub early_exit : Bool

-- SessionControl with its session, its orchestrator, its pools and what it observes with. `pools` are
-- the runners of the pools by their names, `contexts` the runners of backends by their tasks.
pub record SessionControl : Type 0 where
  pub id : TaskId
  pub cycle : Cycle SessionState
  pub log_store : LogStore
  pub pools : Dict String ℕ
  pub managers : List WorkerManager
  pub contexts : Dict ℕ ℕ
  pub pipelines : Dict ℕ RuntimePipeline
  pub cancel_policy : CancelPolicy
  pub observability_policy : ObservabilityPolicy
  pub readings : ℕ

-- What the program takes from outside: the clock, of which the log store and the session count their
-- readings apart, the texts of the time and the suffix that
-- `make_log_id` draws, and whether a backend can make its runner.
pub record Environment : Type 0 where
  pub clock : ℕ → ℕ
  pub stamp : ℕ → String × String
  pub make_runner : ℕ → String → Option Exception
