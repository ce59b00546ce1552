-- ===== src/Plans/Ending.antt =====
-- How a session ends: `stop` and `_wait_for_stop` of src/taskweave/session/session_control.py, and
-- `stop_pipeline`, which only passes on.
use taskweave.Base.{
  ℕ, Bool, true, false, if◌then◌else◌, ◌||◌, List, [], ◌∷◌, Outcome, done, raised, Stmt, fail, skip,
  ◌>>◌, Dict, ◌≡◌, refl, subst, sym, arith, >>-done,
}
use taskweave.Exceptions.{runtime_error, attribute_error, never_returns}
use taskweave.Lifecycle.{TaskState, SessionState, session_transition}
use taskweave.Plans.{
  PipelineTask, RuntimePipeline, SessionControl, Environment, nat_key, session_change,
  ExecutionPlan, execute, start, stop,
}
use taskweave.Plans.Sessions.{start_after_execute}

abbrev pub is_running : TaskState → Bool
is_running TaskState.running = true
is_running _ = false

abbrev pub any_task_running : List PipelineTask → Bool
any_task_running [] = false
any_task_running (t ∷ ts) = is_running t.cycle.state || any_task_running ts

abbrev pub any_running : Dict ℕ RuntimePipeline → Bool
any_running [] = false
any_running ((k, p) ∷ ps) = any_task_running p.tasks || any_running ps

-- The loop, over the pipelines as they are at each look at them.
abbrev pub wait_quiet : List (Dict ℕ RuntimePipeline) → Stmt SessionControl Unit
wait_quiet [] = fail never_returns
wait_quiet (ps ∷ looks) = let rest = wait_quiet looks in if any_running ps then rest else skip

module _ (o : Environment) where
  -- `_wait_for_stop`: what is emitted is the result of `transition`, None, which has no `source_id`.
  unfoldable pub wait_for_stop : List (Dict ℕ RuntimePipeline) → Stmt SessionControl Unit
  unfolding session_change
  wait_for_stop looks = do
    wait_quiet looks
    session_change o SessionState.success
    fail attribute_error

  -- A session cannot be stopped: in every state `stop` raises RuntimeError before it does anything, since
  -- no state of a session may be followed by STOPPING.
  pub stop-fails : (s : SessionControl) → stop o s ≡ (raised runtime_error, s)
  unfolding stop session_change session_transition
  stop-fails s = by s.cycle.state
    where
      by :
          (state : SessionState)
          → stop o (record s { cycle = record { state = state; started_at = s.cycle.started_at } })
            ≡ (
              raised runtime_error,
              record s { cycle = record { state = state; started_at = s.cycle.started_at } },
            )
      by SessionState.pending = refl
      by SessionState.running = refl
      by SessionState.stopping = refl
      by SessionState.success = refl
      by SessionState.failed = refl
      by SessionState.canceled = refl

  -- Some look finds no task running.
  abbrev pub is_quiet : List (Dict ℕ RuntimePipeline) → Bool
  is_quiet [] = false
  is_quiet (ps ∷ looks) = if any_running ps then is_quiet looks else true

  wait_quiet-run :
      (looks : List (Dict ℕ RuntimePipeline)) (s : SessionControl)
      → is_quiet looks ≡ true
      → wait_quiet looks s ≡ (done tt, s)
  wait_quiet-run [] s h = absurd (ground (arith, h))
  wait_quiet-run (ps ∷ looks) s h = ground (arith, h, wait_quiet-run looks s)

  -- Waiting for a running session, some look at which finds no task running: the session succeeds, and
  -- the wait raises AttributeError all the same.
  pub wait_for_stop-raises :
      (looks : List (Dict ℕ RuntimePipeline)) (s : SessionControl)
      → is_quiet looks ≡ true
      → s.cycle.state ≡ SessionState.running
      → let out = wait_for_stop looks s in
        (out.0 ≡ raised attribute_error) × (out.1.cycle.state ≡ SessionState.success)
  unfolding wait_for_stop session_change session_transition
  wait_for_stop-raises looks s quiet running =
      subst Ends (sym (>>-done (wait_quiet looks) last (wait_quiet-run looks s quiet)))
        (ground (arith, running))
    where
      Ends : Outcome Unit × SessionControl → Type 0
      Ends out = (out.0 ≡ raised attribute_error) × (out.1.cycle.state ≡ SessionState.success)

      last : Stmt SessionControl Unit
      last = session_change o SessionState.success >> fail attribute_error

  -- A session that has executed its plan can be neither started nor stopped: both raise RuntimeError and
  -- change nothing, whatever starting the pipelines would do.
  pub stuck-execute :
      (start_all : Stmt SessionControl Unit) (plan : ExecutionPlan) (s : SessionControl)
      → (execute o plan s).0 ≡ done tt
      → let s' = (execute o plan s).1 in
        (start o start_all s' ≡ (raised runtime_error, s'))
        × (stop o s' ≡ (raised runtime_error, s'))
  stuck-execute start_all plan s e =
      (start_after_execute o start_all plan s e, stop-fails ((execute o plan s).1))
