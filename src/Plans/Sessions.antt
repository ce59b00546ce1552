-- ===== src/Plans/Sessions.antt =====
-- The states of a session, between executing its plan and starting it.
use taskweave.Base.{◌+◌, Outcome, done, raised, Stmt, resume, ◌≡◌, arith, >>=-raised}
use taskweave.Exceptions.{runtime_error}
use taskweave.Lifecycle.{SessionState, session_transition}
use taskweave.Plans.{
  SessionControl, Environment, ExecutionPlan, session_change, execute_plan, execute, start,
}

module _ (o : Environment) where
  pub session_change-run :
      (s : SessionControl)
      → s.cycle.state ≡ SessionState.pending
      → session_change o SessionState.running s ≡ (
        done tt,
        record s {
          cycle = record { state = SessionState.running; started_at = o.clock s.readings };
          readings = s.readings + 2;
        },
      )
  unfolding session_change session_transition
  session_change-run s pending = ground (arith, pending)

  session_change-again :
      (s : SessionControl)
      → s.cycle.state ≡ SessionState.running
      → session_change o SessionState.running s ≡ (raised runtime_error, s)
  unfolding session_change session_transition
  session_change-again s running = ground (arith, running)

  session_change-running :
      (s : SessionControl)
      → (session_change o SessionState.running s).0 ≡ done tt
      → (session_change o SessionState.running s).1.cycle.state ≡ SessionState.running
  unfolding session_change session_transition
  session_change-running s e = ground (arith, e)

  -- The last statement of `execute`.
  resume-running :
      (r : Outcome (Unit {0})) (s : SessionControl)
      → let out = resume r s (λ _. session_change o SessionState.running) in
        out.0 ≡ done tt → out.1.cycle.state ≡ SessionState.running
  resume-running (done u) s e = session_change-running s e
  resume-running (raised x) s e = ground (arith, e)

  -- A session that has executed its plan cannot be started: `start` raises RuntimeError and changes
  -- nothing, and `start_all_pipelines`, whatever it does, is not called.
  pub start_after_execute :
      (start_all : Stmt SessionControl Unit) (plan : ExecutionPlan) (s : SessionControl)
      → (execute o plan s).0 ≡ done tt
      → start o start_all (execute o plan s).1 ≡ (raised runtime_error, (execute o plan s).1)
  unfolding execute start
  start_after_execute start_all plan s e =
      let policy = record s { observability_policy = plan.observability_policy } in
      let mid = execute_plan o s.id plan policy in
      >>=-raised (session_change o SessionState.running) (λ _. start_all) {w = (execute o plan s).1}
        (session_change-again (execute o plan s).1 (resume-running mid.0 mid.1 e))
