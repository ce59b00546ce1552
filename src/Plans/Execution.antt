-- ===== src/Plans/Execution.antt =====
-- What becomes of a plan that can be executed.
use taskweave.Base.{
  ℕ, map, String, false, some, List, [], ◌∷◌, done, for_each, ◌≡◌, ◌≢◌, refl, sym, ap, subst, ◌∙◌,
  arith, Dict, find, store, find-store, >>-done, >>=-done,
}
use taskweave.Protocol.{TaskId}
use taskweave.Lifecycle.{PipelineState, SessionState}
use taskweave.Logging.{malformed}
use taskweave.Plans.{
  Pipeline, ExecutionPlan, RuntimePipeline, SessionControl, Environment, nat_key, new_cycle,
  runtime_pipeline, hydrate_tasks, hydrate_pipeline, execute_plan, execute, session_change,
}
use taskweave.Plans.Sessions.{session_change-run}
use taskweave.Plans.Hydration.{
  AllHydrate, AllReady, AllDifferent, contains_number, hydrate_tasks_done,
}

-- The dictionary has the pipeline, pending, with its tasks hydrated.
abbrev pub Stored : Dict String ℕ → TaskId → Dict ℕ RuntimePipeline → Pipeline → Type 0
Stored pools session d p =
    (rp : RuntimePipeline) × (find d p.id.ident ≡ some rp)
    × (rp.session_id ≡ session)
    × (rp.cycle ≡ new_cycle PipelineState.pending)
    × AllHydrate pools p.tasks rp.tasks

abbrev pub AllStored : Dict String ℕ → TaskId → Dict ℕ RuntimePipeline → List Pipeline → Type 0
AllStored pools session d [] = Unit
AllStored pools session d (p ∷ ps) = Stored pools session d p × AllStored pools session d ps

abbrev pub idents : List Pipeline → List ℕ
idents ps = map (λ p. p.id.ident) ps

abbrev pub Distinct : List Pipeline → Type 0
Distinct [] = Unit
Distinct (p ∷ ps) = (contains_number (idents ps) p.id.ident ≡ false) × Distinct ps

-- What executing a plan leaves as it was; the index stays readable.
abbrev pub LeavesSession : SessionControl → SessionControl → Type 0
LeavesSession s s' =
    (s'.id ≡ s.id) × (s'.cycle ≡ s.cycle) × (s'.pools ≡ s.pools) × (s'.log_store.index ≢ malformed)

-- Pipelines of other names are as they were.
abbrev LeavesOthers : List Pipeline → SessionControl → SessionControl → Type 0
LeavesOthers ps s s' =
    (k : ℕ) → contains_number (idents ps) k ≡ false → find s'.pipelines k ≡ find s.pipelines k

module _ (o : Environment) where
  abbrev pub PipelineReady : Dict String ℕ → Pipeline → Type 0
  PipelineReady pools p = AllDifferent o [] p.tasks × AllReady o pools p.tasks

  abbrev pub PlanReady : Dict String ℕ → List Pipeline → Type 0
  PlanReady pools [] = Unit
  PlanReady pools (p ∷ ps) = PipelineReady pools p × PlanReady pools ps

  hydrate_pipeline_done :
      (session : TaskId) (p : Pipeline) (s : SessionControl)
      → s.log_store.index ≢ malformed
      → PipelineReady s.pools p
      → (rp : RuntimePipeline) × (s' : SessionControl) × (hydrate_pipeline o session p s
          ≡ (done tt, s'))
        × LeavesSession s s'
        × (s'.pipelines ≡ store s.pipelines p.id.ident rp)
        × (rp.session_id ≡ session)
        × (rp.cycle ≡ new_cycle PipelineState.pending)
        × AllHydrate s.pools p.tasks rp.tasks
  unfolding hydrate_pipeline
  hydrate_pipeline_done session p s readable (different, ready) =
      let rp = runtime_pipeline p.id session in
      let (us, names, s1, e, all, (id1, cycle1, pools1, pipelines1, readable1)) =
        hydrate_tasks_done o p.tasks rp s readable different ready in
      let rp' = record rp { task_names = names; tasks = us } in
      (
        rp',
        record s1 { pipelines = store s1.pipelines p.id.ident rp' },
        >>=-done (hydrate_tasks o p.tasks rp) _ e,
        (id1, cycle1, pools1, readable1),
        ap (λ d. store d p.id.ident rp') pipelines1,
        refl,
        refl,
        all,
      )

  hydrate_each_done :
      (session : TaskId) (ps : List Pipeline) (s : SessionControl)
      → s.log_store.index ≢ malformed
      → Distinct ps
      → PlanReady s.pools ps
      → (s' : SessionControl) × (for_each ps (hydrate_pipeline o session) s ≡ (done tt, s'))
        × LeavesSession s s'
        × LeavesOthers ps s s'
        × AllStored s.pools session s'.pipelines ps
  hydrate_each_done session [] s readable distinct ready =
      (s, refl, (refl, refl, refl, readable), (λ k out. refl), tt)
  hydrate_each_done session (p ∷ ps) s readable (apart, distinct) (ready, rest) =
      let (rp, s1, e1, (id1, cycle1, pools1, readable1), stored1, session1, pending, all) =
        hydrate_pipeline_done session p s readable ready in
      let (s2, e2, (id2, cycle2, pools2, readable2), others, stored) =
        hydrate_each_done session ps s1 readable1 distinct
          (subst (λ pools. PlanReady pools ps) (sym pools1) rest) in
      let here = find-store s.pipelines p.id.ident p.id.ident rp in
      (
        s2,
        >>-done (hydrate_pipeline o session p) _ e1 ∙ e2,
        (id2 ∙ id1, cycle2 ∙ cycle1, pools2 ∙ pools1, readable2),
        (λ k out. ground (arith, others k, stored1, find-store s.pipelines p.id.ident k rp)),
        (
          (rp, ground (arith, others p.id.ident apart, stored1, here), session1, pending, all),
          subst (λ pools. AllStored pools session s2.pipelines ps) pools1 stored,
        ),
      )

  -- `execute` on a pending session: when the index of the log store can be read, the backends make
  -- their runners, each pool of the plan is declared, no two pipelines have one id object and no two
  -- tasks of a pipeline one name object, it returns; the session is running, and it holds every
  -- pipeline of the plan under its id, pending, with the plan's tasks in order, each pending and with
  -- the runner of its strategy: the one of its pool, one of its own, or none.
  pub execute_hydrates :
      (plan : ExecutionPlan) (s : SessionControl)
      → s.cycle.state ≡ SessionState.pending
      → s.log_store.index ≢ malformed
      → Distinct plan.pipelines
      → PlanReady s.pools plan.pipelines
      → let out = execute o plan s in
        (out.0 ≡ done tt)
        × (out.1.cycle.state ≡ SessionState.running)
        × AllStored s.pools s.id out.1.pipelines plan.pipelines
  unfolding execute execute_plan
  execute_hydrates plan s pending readable distinct ready =
      let s0 = record s {
        observability_policy = plan.observability_policy;
        cancel_policy = plan.cancel_policy;
      } in
      let (s1, e1, (_, cycle1, _, _), _, stored) =
        hydrate_each_done s.id plan.pipelines s0 readable distinct ready in
      let e2 = session_change-run o s1 (ap (λ c. c.state) cycle1 ∙ pending) in
      let e =
        >>-done (for_each (plan.pipelines) (hydrate_pipeline o s.id))
          (session_change o SessionState.running) e1
        ∙ e2 in
      (
        (λ i. (e i).0),
        (λ i. (e i).1.cycle.state),
        subst (λ d. AllStored s.pools s.id d plan.pipelines) (λ i. (sym e i).1.pipelines) stored,
      )
