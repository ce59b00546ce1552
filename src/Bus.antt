-- ===== src/Bus.antt =====
-- src/taskweave/buses/mini_bus.py, src/taskweave/info_stream/stream_writer.py and
-- src/taskweave/persist/persist_registry.py: events get a number per source and reach the sinks.
-- A sink is a number; `Snap` stands for SessionSnapshot. The dictionaries are association lists under
-- `same_task_id`.
pub mod Order
pub mod Sinks
pub mod Internal
pub mod Reentry
mod Examples
use text.Mathlib.Text.{◌==◌ as same_text}
use taskweave.Base.{
  ℕ, suc, ◌+◌, ◌-◌, String, Bool, true, false, if◌then◌else◌, Option, none, some, is_some, List, [],
  ◌∷◌, ◌++◌, length, Outcome, done, raised, Stmt, give, fail, skip, for_each, ◌>>=◌, ◌>>◌, update,
}
use taskweave.Exceptions.{Exception, runtime_error, key_error, attribute_error}
use taskweave.Protocol.{LogEvent, TaskId, same_task_id}
use taskweave.Persist.Runner.{Runner}

pub record SeenSequences : Type 0 where
  pub sequence_on_failure : ℕ
  pub last_seen : ℕ

-- Enveloppe.
pub record Enveloppe (Snap : Type 0) : Type 0 where
  pub event : LogEvent
  pub session_snapshot : Option Snap
  pub last_seen_sequences : Option (List (String × SeenSequences))

-- One call of a sink.
pub record Delivery (Snap : Type 0) : Type 0 where
  pub sink : ℕ
  pub enveloppe : Enveloppe Snap

pub data SinkScope : Type 0 where
  global_scope scoped : SinkScope

pub data ObservabilityPolicy : Type 0 where
  safe best_effort : ObservabilityPolicy

-- MiniBus with its StreamWriter and PersistRegistry. `delivered` is newest first.
pub record MiniBus (Snap : Type 0) : Type 0 where
  pub global_sinks : List ℕ
  pub error_sinks : List ℕ
  pub scoped_sinks : List (TaskId × ℕ)
  pub contexts : List (TaskId × Runner)
  pub policy : ObservabilityPolicy
  pub seen : List (TaskId × SeenSequences)
  pub delivered : List (Delivery Snap)

-- `d.get(id)`, `d[id] = v` and `del d[id]` of a dictionary.
module _ {V : Type 0} where
  abbrev pub lookup : List (TaskId × V) → TaskId → Option V
  lookup [] id = none
  lookup ((k, v) ∷ d) id = if same_task_id k id then some v else lookup d id

  abbrev pub assign : List (TaskId × V) → TaskId → V → List (TaskId × V)
  assign [] id v = (id, v) ∷ []
  assign ((k, v) ∷ d) id u =
      let rest = assign d id u in if same_task_id k id then (k, u) ∷ d else (k, v) ∷ rest

  abbrev pub remove : List (TaskId × V) → TaskId → List (TaskId × V)
  remove [] id = []
  remove ((k, v) ∷ d) id = let rest = remove d id in if same_task_id k id then d else (k, v) ∷ rest

-- `{str(k) : asdict(v) for k, v in d.items()}`: of two sources with one text the last is kept, in
-- the place of the first.
abbrev assign_text :
    List (String × SeenSequences) → String → SeenSequences → List (String × SeenSequences)
assign_text [] key v = (key, v) ∷ []
assign_text ((k, v) ∷ d) key u =
    let rest = assign_text d key u in if same_text k key then (k, u) ∷ d else (k, v) ∷ rest

abbrev texts_from :
    List (String × SeenSequences) → List (TaskId × SeenSequences) → List (String × SeenSequences)
texts_from acc [] = acc
texts_from acc ((id, v) ∷ d) = texts_from (assign_text acc id.value v) d

abbrev pub by_text : List (TaskId × SeenSequences) → List (String × SeenSequences)
by_text seen = texts_from [] seen

-- The entry of a source, made on the first access.
abbrev pub entry : Option SeenSequences → SeenSequences
entry none = record { sequence_on_failure = 0; last_seen = 0 }
entry (some s) = s

-- What the sinks do when they are called.
abbrev pub Client : Type 0 → Type 0
Client Snap = ℕ → Delivery Snap → Stmt (MiniBus Snap) Unit

module _ {Snap : Type 0} where
  -- `register_sink`, which returns the place of the sink, or None.
  unfoldable pub register_sink : ℕ → SinkScope → Option TaskId → Stmt (MiniBus Snap) ℕ
  register_sink cb SinkScope.global_scope id b =
      (done (length b.global_sinks), record b { global_sinks = b.global_sinks ++ cb ∷ [] })
  register_sink cb SinkScope.scoped none b = (raised runtime_error, b)
  register_sink cb SinkScope.scoped (some id) b =
      let sinks = assign b.scoped_sinks id cb in
      (done (length sinks - 1), record b { scoped_sinks = sinks })

  unfoldable pub register_error_sink : ℕ → Stmt (MiniBus Snap) Unit
  register_error_sink cb b = (done tt, record b { error_sinks = b.error_sinks ++ cb ∷ [] })

  unfoldable pub unregister_sink : TaskId → Stmt (MiniBus Snap) Unit
  unregister_sink id b =
      if is_some (lookup b.scoped_sinks id)
      then (done tt, record b { scoped_sinks = remove b.scoped_sinks id })
      else (raised key_error, b)

  unfoldable pub add_context : TaskId → Runner → Stmt (MiniBus Snap) Unit
  add_context id backend b = (done tt, record b { contexts = assign b.contexts id backend })

  -- `ctx.write(str(id), f"{event.format()}\n")`: `format` asks the module `time` for `locale_time`,
  -- which it does not have.
  unfoldable persist_in : Option Runner → Stmt (MiniBus Snap) Unit
  persist_in none = skip
  persist_in (some ctx) = fail attribute_error

  unfoldable pub persist : LogEvent → Stmt (MiniBus Snap) Unit
  unfolding persist_in
  persist event b = persist_in (lookup b.contexts event.source_id) b

  -- `self._last_seen_sequences[id].last_seen += 1`
  unfoldable bump : TaskId → Stmt (MiniBus Snap) Unit
  bump id = update λ b.
      let s = entry (lookup b.seen id) in
      record b { seen = assign b.seen id (record s { last_seen = s.last_seen + 1 }) }

  abbrev pub last_seen : TaskId → MiniBus Snap → ℕ
  last_seen id b = (entry (lookup b.seen id)).last_seen

  unfoldable on_failure : TaskId → ℕ → Stmt (MiniBus Snap) Unit
  on_failure id sequence = update λ b.
      let s = entry (lookup b.seen id) in
      record b { seen = assign b.seen id (record s { sequence_on_failure = sequence }) }

  -- `client n d` is what the n-th call of a sink, with `d`, does: it may raise, and it may call the bus
  -- again, to emit for example. `snapshot` says what the snapshot getter answers. The loop over the
  -- sinks has those that are registered when it starts: no sink registers another while it is called. An
  -- event is a value: what a sink changes in the event that it gets is not seen by the next one.
  module _ (client : Client Snap) where
    unfoldable deliver : Enveloppe Snap → ℕ → Stmt (MiniBus Snap) Unit
    deliver enveloppe sink b =
        let d : Delivery Snap = record { sink = sink; enveloppe = enveloppe } in
        client (length b.delivered) d (record b { delivered = d ∷ b.delivered })

    abbrev pub persist_scoped : LogEvent → Stmt (MiniBus Snap) Unit
    persist_scoped event b =
        if is_some (lookup b.scoped_sinks event.source_id)
        then if event.routing.persist then persist event b else (done tt, b)
        else (done tt, b)

    -- `StreamWriter._on_event`
    unfoldable pub on_event : LogEvent → Option Snap → Stmt (MiniBus Snap) Unit
    unfolding deliver persist
    on_event event snapshot = do
      persist_scoped event
      λ b.
          for_each b.global_sinks
            (deliver
              (record { event = event; session_snapshot = snapshot; last_seen_sequences = none }))
            b

    -- `StreamWriter._on_internal_event`
    unfoldable pub on_internal_event :
        LogEvent → Option Snap → Option (List (String × SeenSequences)) → Stmt (MiniBus Snap) Unit
    unfolding deliver
    on_internal_event event snapshot sequences b =
        for_each b.error_sinks
          (deliver (record {
            event = event;
            session_snapshot = snapshot;
            last_seen_sequences = sequences;
          }))
          b

    unfoldable pub emit : LogEvent → Stmt (MiniBus Snap) Unit
    unfolding bump on_event
    emit event = do
      bump (event.source_id)
      λ b. on_event (record event { sequence = last_seen event.source_id b }) none b
      bump (event.source_id)

    module _ (snapshot : LogEvent → Outcome Snap) where
      unfoldable by_policy : ObservabilityPolicy → LogEvent → Stmt (MiniBus Snap) Unit
      unfolding on_internal_event
      by_policy safe event = do
        snap ← λ b. (snapshot event, b)
        λ b. on_internal_event event (some snap) (some (by_text b.seen)) b
      by_policy best_effort event = on_internal_event event none none

      -- `_handle_observability_policy`
      unfoldable handle_policy : LogEvent → Stmt (MiniBus Snap) Unit
      unfolding on_failure by_policy
      handle_policy event = do
        on_failure (event.source_id) (event.sequence)
        λ b. by_policy b.policy event b

      unfoldable pub emit_internal : LogEvent → Stmt (MiniBus Snap) Unit
      unfolding bump handle_policy
      emit_internal event = do
        bump (event.source_id)
        λ b. handle_policy (record event { sequence = last_seen event.source_id b }) b
