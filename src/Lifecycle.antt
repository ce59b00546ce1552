-- ===== src/Lifecycle.antt =====
-- src/taskweave/lifecycle and the state enums of src/taskweave/states: a state with a table of allowed
-- changes, a cleanup that some of the states trigger, and a callback.
-- The three classes TaskLifecycle, PipelineLifecycle and SessionLifecycle override `transition` with
-- one text over their own enum: it is `transition` here, over any `Enum`, and the three instances.
-- Callbacks act on the rest `W` of the program's state; `clock n` is the answer to the n-th reading
-- of `time.time()`.
mod States
pub mod Graph
pub mod Cleanup
pub mod Kept
mod Examples
pub use States.*
use taskweave.Base.{
  ℕ, ◌+◌, String, Bool, if◌then◌else◌, Option, some, List, [], ◌∷◌, contains, Stmt, Outcome, done,
  raised, give, fail, skip, update, ◌>>=◌, ◌>>◌,
}
use taskweave.Exceptions.{runtime_error, text}
use taskweave.Protocol.{LogEvent, TaskId, SourceType, MsgType, default_routing}

pub record Cycle (S : Type 0) : Type 0 where
  pub state : S
  pub started_at : ℕ

-- The object with what its callbacks can reach, and the number of clock readings so far.
pub record Held (W S : Type 0) : Type 0 where
  pub cycle : Cycle S
  pub readings : ℕ
  pub rest : W

-- CleanupStrategy.
pub record CleanupStrategy (W S : Type 0) : Type 0 where
  pub triggers : List S
  pub handler : Stmt W Unit

abbrev pub noop : {W S : Type 0} → CleanupStrategy W S
noop = record { triggers = []; handler = skip }

abbrev pub on_end : {W S : Type 0} → List S → Stmt W Unit → CleanupStrategy W S
on_end triggers handler = record { triggers = triggers; handler = handler }

-- What the constructor sets and nothing changes.
pub record Lifecycle (W S : Type 0) : Type 0 where
  pub source_id : TaskId
  pub source_type : SourceType
  pub transitions : List (S × List S)
  pub on_transition : S → S → LogEvent → Stmt W Unit
  pub cleanup : CleanupStrategy W S

-- A statement about the rest of the state.
abbrev pub outside : {W S : Type 0} → Stmt W Unit → Stmt (Held W S) Unit
outside body h = let (r, w) = body h.rest in (r, record h { rest = w })

module _ {S : Type 0} ⦃enum : Enum S⦄ where
  -- `transitions.get(state, set())`
  abbrev pub allowed : List (S × List S) → S → List S
  allowed [] s = []
  allowed ((t, targets) ∷ table) s = if enum.eqb t s then targets else allowed table s

  unfoldable pub cleanup_do : {W : Type 0} → CleanupStrategy W S → S → Stmt W Unit
  cleanup_do strategy new =
      if contains enum.eqb strategy.triggers new then strategy.handler else skip

  unfoldable pub get_event : {W : Type 0} → Lifecycle W S → S → ℕ → LogEvent
  get_event c new now = record {
    source_id = c.source_id;
    state = some (enum.value new);
    msg_type = MsgType.state_change;
    source_type = c.source_type;
    timestamp = now;
    routing = default_routing;
    sequence = 0;
    msg = text "";
  }

  module _ {W : Type 0} (clock : ℕ → ℕ) (c : Lifecycle W S) (new : S) where
    check_allowed : Stmt (Held W S) Unit
    check_allowed h =
        if contains enum.eqb (allowed c.transitions h.cycle.state) new
        then (done tt, h)
        else (raised runtime_error, h)

    set_started : Stmt (Held W S) Unit
    set_started h =
        if enum.eqb new enum.running
        then (
          done tt,
          record h {
            cycle = record { state = h.cycle.state; started_at = clock h.readings };
            readings = h.readings + 1;
          },
        )
        else (done tt, h)

    -- `old = self.state; self.state = new; self.on_transition(old, new, self.get_event(new))`
    move : Stmt (Held W S) Unit
    unfolding get_event
    move h =
        outside (c.on_transition h.cycle.state new (get_event c new (clock h.readings))) (record h {
          cycle = record { state = new; started_at = h.cycle.started_at };
          readings = h.readings + 1;
        })

    unfoldable pub transition : Stmt (Held W S) Unit
    unfolding cleanup_do check_allowed set_started move
    transition = do outside (cleanup_do c.cleanup new); check_allowed; set_started; move

-- The three classes, each with its table.
module _ {W : Type 0} (clock : ℕ → ℕ) where
  unfoldable pub task_transition : Lifecycle W TaskState → TaskState → Stmt (Held W TaskState) Unit
  unfolding transition
  task_transition c new = transition clock (record c { transitions = task_transitions }) new

  unfoldable pub pipeline_transition :
      Lifecycle W PipelineState → PipelineState → Stmt (Held W PipelineState) Unit
  unfolding transition
  pipeline_transition c new = transition clock (record c { transitions = pipeline_transitions }) new

  unfoldable pub session_transition :
      Lifecycle W SessionState → SessionState → Stmt (Held W SessionState) Unit
  unfolding transition
  session_transition c new = transition clock (record c { transitions = session_transitions }) new
