-- ===== src/Snapshots/Executed.antt =====
-- A session that has executed a plan, when it is asked for a snapshot.
use taskweave.Base.{
  ℕ, String, Bool, true, false, if◌then◌else◌, List, [], ◌∷◌, done, raised, some, Dict, find,
  string_key, ◌≡◌, ◌≢◌, refl, ap, ◌∙◌, inl, inr, Bool-cases, arith,
}
use taskweave.Exceptions.{attribute_error}
use taskweave.Protocol.{TaskId}
use taskweave.Lifecycle.{SessionState, pipeline_state_enum}
use taskweave.Logging.{malformed}
use taskweave.Plans.{
  Pipeline, ExecutionPlan, Task, PipelineTask, RuntimePipeline, SessionControl, Environment,
  nat_key, execute,
}
use taskweave.Plans.Hydration.{AllHydrate}
use taskweave.Plans.Execution.{AllStored, Distinct, PlanReady, execute_hydrates}
use taskweave.Snapshots.{snapshot}
use taskweave.Snapshots.Session.{is_empty, has_task, empty_session, snapshot-eq}

module _ (o : Environment) where
  has_task-find :
      (k : ℕ) (d : Dict ℕ RuntimePipeline) (rp : RuntimePipeline)
      → find d k ≡ some rp
      → is_empty rp.tasks ≡ false
      → has_task d ≡ true
  has_task-find k [] rp e h = absurd (ground (arith, e))
  has_task-find k ((j, p) ∷ d) rp e h = ground (arith, e, h, has_task-find k d rp)

  -- Some pipeline of a plan has a task.
  abbrev pub has_task_planned : List Pipeline → Bool
  has_task_planned [] = false
  has_task_planned (p ∷ ps) = if is_empty p.tasks then has_task_planned ps else true

  AllHydrate-is_empty :
      (pools : Dict String ℕ) (ts : List Task) (us : List PipelineTask)
      → AllHydrate pools ts us
      → is_empty us ≡ is_empty ts
  AllHydrate-is_empty pools [] [] h = refl
  AllHydrate-is_empty pools [] (u ∷ us) h = absurd h
  AllHydrate-is_empty pools (t ∷ ts) [] h = absurd h
  AllHydrate-is_empty pools (t ∷ ts) (u ∷ us) h = refl

  has_task-AllStored :
      (pools : Dict String ℕ) (session : TaskId) (d : Dict ℕ RuntimePipeline) (ps : List Pipeline)
      → AllStored pools session d ps
      → has_task_planned ps ≡ true
      → has_task d ≡ true
  has_task-AllStored pools session d [] stored h = absurd (ground (arith, h))
  has_task-AllStored pools session d (p ∷ ps) ((rp, found, _, _, all), stored) h =
      elim (Bool-cases (is_empty p.tasks)) [
        | inl none' ↦ has_task-AllStored pools session d ps stored (ground (arith, h, none'))
        | inr some' ↦
            has_task-find p.id.ident d rp found
              (AllHydrate-is_empty pools p.tasks rp.tasks all ∙ some')
      ]

  -- A session that has executed a plan with a task, under the conditions on which executing it returns,
  -- raises AttributeError whenever it is asked for a snapshot.
  pub snapshot-execute :
      (plan : ExecutionPlan) (s : SessionControl)
      → s.cycle.state ≡ SessionState.pending
      → s.log_store.index ≢ malformed
      → Distinct plan.pipelines
      → PlanReady o s.pools plan.pipelines
      → has_task_planned plan.pipelines ≡ true
      → let out = execute o plan s in
        (out.0 ≡ done tt) × ((snapshot o out.1).0 ≡ raised attribute_error)
  snapshot-execute plan s pending readable distinct ready h =
      let (ok, _, stored) = execute_hydrates o plan s pending readable distinct ready in
      let s' = (execute o plan s).1 in
      (
        ok,
        snapshot-eq o s'
            ∙ ap (λ b. if b then raised attribute_error else done (empty_session o s'))
                (has_task-AllStored s.pools s.id s'.pipelines plan.pipelines stored h),
      )
