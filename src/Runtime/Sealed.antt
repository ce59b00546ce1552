-- ===== src/Runtime/Sealed.antt =====
-- The shared flags of SubProcessManager and the number of started processes: what state changes and
-- user callbacks keep of them.
use taskweave.Base.{
  ℕ, suc, Bool, true, if◌then◌else◌, ◌||◌, Option, none, some, List, [], ◌∷◌, ◌++◌, get_elem?, Stmt,
  skip, Keeps, ◌≡◌, refl, if-Keeps, contains, fail, ap, ◌∙◌,
}
use taskweave.Exceptions.{Exception, attribute_error}
use taskweave.Lifecycle.{TaskState, PipelineState, cleanup_do, task_state_enum, pipeline_state_enum}
use taskweave.Lifecycle.Cleanup.{final_states}
use taskweave.Lifecycle.Kept.{task_transition-Keeps, pipeline_transition-Keeps}
use taskweave.Runtime.{
  PipelineTask, World, Outside, Effect, started, terminated, emitted, callback_error,
  finally_called, cancel_called, started_count, perform, raise_option, at_task, with_task,
  task_lifecycle, pipeline_lifecycle, task_change, pipeline_change,
}

-- The managers of the process have seen an `add_worker` or a `stop_worker` to its end, and so many
-- processes have been started.
pub record IsSealed (n : ℕ) (w : World) : Type 0 where
  pub sealed : (w.is_done || w.is_init) ≡ true
  pub count : started_count w.trace ≡ n

pub started_count-append :
    (e : Effect) (trace : List Effect)
    → started_count (e ∷ []) ≡ 0
    → started_count (trace ++ e ∷ []) ≡ started_count trace
started_count-append e [] q = q
started_count-append e (started _ ∷ trace) q = ap suc (started_count-append e trace q)
started_count-append e (terminated _ ∷ trace) q = started_count-append e trace q
started_count-append e (emitted _ ∷ trace) q = started_count-append e trace q
started_count-append e (callback_error _ ∷ trace) q = started_count-append e trace q
started_count-append e (finally_called _ _ ∷ trace) q = started_count-append e trace q
started_count-append e (cancel_called _ _ ∷ trace) q = started_count-append e trace q

module _ (n : ℕ) where
  pub logged :
      (e : Effect) (w : World)
      → started_count (e ∷ []) ≡ 0
      → IsSealed n w
      → IsSealed n (record w { trace = w.trace ++ e ∷ [] })
  logged e w q p = record { sealed = p.sealed; count = started_count-append e w.trace q ∙ p.count }

  pub raise_option-Keeps : (r : Option Exception) → Keeps (IsSealed n) (raise_option r)
  raise_option-Keeps none w p = p
  raise_option-Keeps (some e) w p = p

  pub perform-Keeps :
      (o : Outside) (e : Effect) → started_count (e ∷ []) ≡ 0 → Keeps (IsSealed n) (perform o e)
  unfolding perform
  perform-Keeps o e q w p = raise_option-Keeps _ _ (logged e w q p)

  at_task-Keeps :
      (t : Option PipelineTask) (body : PipelineTask → Stmt World Unit)
      → ((t : PipelineTask) → Keeps (IsSealed n) (body t))
      → Keeps (IsSealed n) (at_task t body)
  at_task-Keeps none body h w p = p
  at_task-Keeps (some t) body h w p = h t w p

  pub with_task-Keeps :
      (i : ℕ) (body : PipelineTask → Stmt World Unit)
      → ((t : PipelineTask) → Keeps (IsSealed n) (body t))
      → Keeps (IsSealed n) (with_task i body)
  with_task-Keeps i body h w p = at_task-Keeps (get_elem? w.tasks i) body h w p

  module _ (o : Outside) where
    task_cleanup-Keeps :
        (t : PipelineTask) (s : TaskState)
        → Keeps (IsSealed n) (cleanup_do ((task_lifecycle o t).cleanup) s)
    unfolding cleanup_do task_lifecycle
    task_cleanup-Keeps t s =
        if-Keeps (IsSealed n) (contains task_state_enum.eqb final_states s) _ skip
          (if-Keeps (IsSealed n) t.has_backend (fail attribute_error) skip (λ w p. p) (λ w p. p))
          (λ w p. p)

    pub task_change-Keeps : (i : ℕ) (new : TaskState) → Keeps (IsSealed n) (task_change o i new)
    unfolding task_change
    task_change-Keeps i new = with_task-Keeps i _ λ t w p.
        let q =
          task_transition-Keeps (IsSealed n) (o.clock) (task_lifecycle o t) (task_cleanup-Keeps t)
            (λ old new e. perform-Keeps o (emitted e) refl) new _ p in
        record { sealed = q.sealed; count = q.count }

    pub pipeline_change-Keeps : (new : PipelineState) → Keeps (IsSealed n) (pipeline_change o new)
    unfolding pipeline_change
    pipeline_change-Keeps new w p =
        let q =
          pipeline_transition-Keeps (IsSealed n) (o.clock) (pipeline_lifecycle o w) (λ s w p. p)
            (λ old new e. perform-Keeps o (emitted e) refl) new
            (record { cycle = w.cycle; readings = w.readings; rest = w }) p in
        record { sealed = q.sealed; count = q.count }

    pub client_call-Keeps :
        (b : Bool) (e : Effect)
        → started_count (e ∷ []) ≡ 0
        → Keeps (IsSealed n) (if b then perform o e else skip)
    client_call-Keeps b e q =
        if-Keeps (IsSealed n) b (perform o e) skip (perform-Keeps o e q) (λ w p. p)
