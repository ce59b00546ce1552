-- ===== src/Plans/Hydration.antt =====
-- What becomes of the tasks of a pipeline that can be hydrated.
use mathlib.Core.List.{append_assoc, append-nil}
use taskweave.Base.{
  ℕ, ◌==◌, ◌||◌, map, String, Bool, false, Option, none, some, List, [], ◌∷◌, ◌++◌, contains, done,
  ◌≡◌, ◌≢◌, refl, sym, ap, subst, ◌∙◌, arith, Dict, find, store, string_key, >>=-done,
}
use taskweave.Protocol.{TaskId, same_task_id}
use taskweave.Lifecycle.{TaskState}
use taskweave.Logging.{malformed, make_log_id, increment, register}
use taskweave.Logging.Index.{register_result}
use taskweave.Plans.{
  Strategy, Producer, Task, Runner, pool_runner, subprocess_runner, no_runner, PipelineTask,
  RuntimePipeline, SessionControl, Environment, nat_key, get_runner, pool_of, make_sink, new_cycle,
  pipeline_task, add_task, assign_runner, make_id, register_name, handle_task_persistence,
  hydrate_task, hydrate_tasks,
}

-- The runner that a strategy asks for.
abbrev pub Fits : Dict String ℕ → TaskId → Strategy → Runner → Type 0
Fits pools id (Strategy.pool name n) r = (i : ℕ) × (find pools name ≡ some i) × (r ≡ pool_runner i)
Fits pools id Strategy.synchronous r = r ≡ subprocess_runner id.value
Fits pools id Strategy.external r = r ≡ no_runner

abbrev pub Declared : Dict String ℕ → Strategy → Type 0
Declared pools (Strategy.pool name n) = (i : ℕ) × (find pools name ≡ some i)
Declared pools Strategy.synchronous = Unit
Declared pools Strategy.external = Unit

-- The task of the pipeline is that of the plan, has its runner, and is pending.
abbrev pub Hydrates : Dict String ℕ → Task → PipelineTask → Type 0
Hydrates pools t u =
    (u.name.ident ≡ t.name.ident)
    × Fits pools u.name t.strategy u.runner
    × (u.backend ≡ t.backend)
    × (u.cycle ≡ new_cycle TaskState.pending)

abbrev pub AllHydrate : Dict String ℕ → List Task → List PipelineTask → Type 0
AllHydrate pools [] [] = Unit
AllHydrate pools [] (u ∷ us) = ⊥
AllHydrate pools (t ∷ ts) [] = ⊥
AllHydrate pools (t ∷ ts) (u ∷ us) = Hydrates pools t u × AllHydrate pools ts us

-- What hydrating tasks leaves as it was; the index stays readable.
abbrev pub Leaves : SessionControl → SessionControl → Type 0
Leaves s s' =
    (s'.id ≡ s.id)
    × (s'.cycle ≡ s.cycle)
    × (s'.pools ≡ s.pools)
    × (s'.pipelines ≡ s.pipelines)
    × (s'.log_store.index ≢ malformed)

abbrev pub contains_number : List ℕ → ℕ → Bool
contains_number = contains (λ a b. a == b)

abbrev pub ident_of : TaskId → ℕ
ident_of id = id.ident

contains-map :
    (names : List TaskId) (a : TaskId)
    → contains same_task_id names a ≡ contains_number (map ident_of names) a.ident
contains-map [] a = refl
contains-map (n ∷ names) a = ap (λ b. n.ident == a.ident || b) (contains-map names a)

assign_runner-append :
    (ts : List PipelineTask) (t : PipelineTask) (r : Runner)
    → assign_runner (ts ++ t ∷ []) r ≡ ts ++ record t { runner = r } ∷ []
assign_runner-append [] t r = refl
assign_runner-append (u ∷ []) t r = refl
assign_runner-append (u ∷ v ∷ ts) t r = ap (λ us. u ∷ us) (assign_runner-append (v ∷ ts) t r)

module _ (o : Environment) where
  -- The backend makes its runner under every name.
  abbrev pub MakesRunner : Option ℕ → Type 0
  MakesRunner none = Unit
  MakesRunner (some b) = (name : String) → o.make_runner b name ≡ none

  abbrev pub AllReady : Dict String ℕ → List Task → Type 0
  AllReady pools [] = Unit
  AllReady pools (t ∷ ts) = Declared pools t.strategy × MakesRunner t.backend × AllReady pools ts

  -- The task objects have different names, also from those in the list.
  abbrev pub AllDifferent : List ℕ → List Task → Type 0
  AllDifferent idents [] = Unit
  AllDifferent idents (t ∷ ts) =
      (contains_number idents t.name.ident ≡ false) × AllDifferent (t.name.ident ∷ idents) ts

  abbrev named : SessionControl → TaskId → TaskId → TaskId
  named s session source = make_id o s.log_store.readings source session

  register_name_done :
      (session source : TaskId) (s : SessionControl)
      → s.log_store.index ≢ malformed
      → (s' : SessionControl) × (register_name o session source s
          ≡ (done (named s session source), s'))
        × Leaves s s'
  unfolding register_name
  register_name_done session source s readable =
      let made = make_id o s.log_store.readings in
      let (ok, index, _, _) = register_result o.clock made session source s.log_store readable in
      let logs = (register o.clock made session source s.log_store).1 in
      (
        record s { log_store = logs },
        (λ i. (ok i, record s { log_store = logs })),
        (refl, refl, refl, refl, λ e. ground (arith, index, e)),
      )

  get_runner_done :
      (strategy : Strategy) (id : TaskId) (s : SessionControl)
      → Declared s.pools strategy
      → (r : Runner) × (get_runner strategy id s ≡ (done r, s)) × Fits s.pools id strategy r
  unfolding get_runner
  get_runner_done (Strategy.pool name n) id s (i, known) =
      (pool_runner i, (λ j. pool_of (known j) s), (i, known, refl))
  get_runner_done Strategy.synchronous id s declared = (subprocess_runner id.value, refl, refl)
  get_runner_done Strategy.external id s declared = (no_runner, refl, refl)

  handle_task_persistence_done :
      (name : TaskId) (producer : Producer) (backend : Option ℕ) (s : SessionControl)
      → MakesRunner backend
      → s.log_store.index ≢ malformed
      → (producer' : Producer) × (s' : SessionControl) × (handle_task_persistence o name producer
            backend s
          ≡ (done producer', s'))
        × Leaves s s'
  unfolding handle_task_persistence
  handle_task_persistence_done name producer none s makes readable =
      (producer, s, refl, (refl, refl, refl, refl, readable))
  handle_task_persistence_done name producer (some b) s makes readable = (
    make_sink producer,
    record s { contexts = store s.contexts name.ident b },
    ground (arith, makes name.value),
    (refl, refl, refl, refl, readable),
  )

  named-ident :
      (s : SessionControl) (session source : TaskId) → (named s session source).ident ≡ source.ident
  unfolding make_log_id increment
  named-ident s session source = refl

  add_task_done :
      (p : RuntimePipeline) (t : Task) (s : SessionControl)
      → contains same_task_id p.task_names t.name ≡ false
      → add_task p t s ≡ (
        done (record p {
          task_names = t.name ∷ p.task_names;
          tasks = p.tasks ++ pipeline_task t ∷ [];
        }),
        s,
      )
  unfolding add_task
  add_task_done p t s new = ground (arith, new)

  hydrate_task_done :
      (p : RuntimePipeline) (t : Task) (s : SessionControl)
      → s.log_store.index ≢ malformed
      → contains_number (map ident_of p.task_names) t.name.ident ≡ false
      → Declared s.pools t.strategy
      → MakesRunner t.backend
      → (u : PipelineTask) × (s' : SessionControl) × (hydrate_task o p t s
          ≡ (done (record p { task_names = u.name ∷ p.task_names; tasks = p.tasks ++ u ∷ [] }), s'))
        × Hydrates s.pools t u
        × Leaves s s'
  unfolding hydrate_task make_log_id
  hydrate_task_done p t s readable new declared makes =
      let name = named s p.session_id t.name in
      let (s1, named_e, (id1, cycle1, pools1, pipelines1, readable1)) =
        register_name_done p.session_id t.name s readable in
      let (producer, s2, kept_e, (id2, cycle2, pools2, pipelines2, readable2)) =
        handle_task_persistence_done name t.producer t.backend s1 makes readable1 in
      let t' = record t { name = name; producer = producer } in
      let same_pools = pools2 ∙ pools1 in
      let fresh = contains-map p.task_names name ∙ new in
      let (r, runner_e, fits) =
        get_runner_done t.strategy name s2
          (subst (λ pools. Declared pools t.strategy) (sym same_pools) declared) in
      (
        record (pipeline_task t') { runner = r },
        s2,
        >>=-done (register_name o p.session_id t.name) _ named_e
            ∙ >>=-done (handle_task_persistence o name t.producer t.backend) _ kept_e
            ∙ >>=-done (add_task p t') _ (add_task_done p t' s2 fresh)
            ∙ >>=-done (get_runner t.strategy name) _ runner_e
            ∙ ap (λ us. (done (record p { task_names = name ∷ p.task_names; tasks = us }), s2))
                (assign_runner-append p.tasks (pipeline_task t') r),
        (
          named-ident s p.session_id t.name,
          subst (λ pools. Fits pools name t.strategy r) same_pools fits,
          refl,
          refl,
        ),
        (id2 ∙ id1, cycle2 ∙ cycle1, same_pools, pipelines2 ∙ pipelines1, readable2),
      )

  pub hydrate_tasks_done :
      (ts : List Task) (p : RuntimePipeline) (s : SessionControl)
      → s.log_store.index ≢ malformed
      → AllDifferent (map ident_of p.task_names) ts
      → AllReady s.pools ts
      → (us : List PipelineTask) × (names : List TaskId) × (s' : SessionControl) × (hydrate_tasks o
            ts p s
          ≡ (done (record p { task_names = names; tasks = p.tasks ++ us }), s'))
        × AllHydrate s.pools ts us
        × Leaves s s'
  unfolding hydrate_tasks
  hydrate_tasks_done [] p s readable different ready = (
    [],
    p.task_names,
    s,
    (λ i. (done (record p { tasks = sym (append-nil p.tasks) i }), s)),
    tt,
    (refl, refl, refl, refl, readable),
  )
  hydrate_tasks_done (t ∷ ts) p s readable (new, different) (declared, makes, ready) =
      let (u, s1, e, hydrates, (id1, cycle1, pools1, pipelines1, readable1)) =
        hydrate_task_done p t s readable new declared makes in
      let p' = record p { task_names = u.name ∷ p.task_names; tasks = p.tasks ++ u ∷ [] } in
      let (us, names, s2, e2, all, (id2, cycle2, pools2, pipelines2, readable2)) =
        hydrate_tasks_done ts p' s1 readable1
          (subst (λ n. AllDifferent (n ∷ map ident_of p.task_names) ts) (sym hydrates.0) different)
          (subst (λ pools. AllReady pools ts) (sym pools1) ready) in
      (
        u ∷ us,
        names,
        s2,
        >>=-done (hydrate_task o p t) _ e
            ∙ e2
            ∙ ap (λ vs. (done (record p { task_names = names; tasks = vs }), s2))
                (append_assoc p.tasks (u ∷ []) us),
        (hydrates, subst (λ pools. AllHydrate pools ts us) pools1 all),
        (id2 ∙ id1, cycle2 ∙ cycle1, pools2 ∙ pools1, pipelines2 ∙ pipelines1, readable2),
      )
