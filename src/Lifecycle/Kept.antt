-- ===== src/Lifecycle/Kept.antt =====
-- What a change of state keeps of the rest of the program: all that the two callbacks keep.
use taskweave.Base.{if_both, Outcome, ℕ, Keeps, >>-Keeps}
use taskweave.Protocol.{LogEvent}
use taskweave.Lifecycle.{
  Held, Lifecycle, Enum, task_state_enum, pipeline_state_enum, TaskState, PipelineState, outside,
  cleanup_do, check_allowed, set_started, move, transition, task_transition, pipeline_transition,
  task_transitions, pipeline_transitions,
}

module _ {W S : Type 0} ⦃enum : Enum S⦄ (P : W → Type 0) (clock : ℕ → ℕ) where
  module _ (c : Lifecycle W S) (cleanup : (s : S) → Keeps P (cleanup_do (c.cleanup) s))
      (callback : (old new : S) (e : LogEvent) → Keeps P (c.on_transition old new e))
      (new : S) where
    check_allowed-Keeps : Keeps (λ h. P h.rest) (check_allowed clock c new)
    unfolding check_allowed
    check_allowed-Keeps h p = if_both (λ (out : Outcome Unit × Held W S). P (out.1.rest)) _ p p

    set_started-Keeps : Keeps (λ h. P h.rest) (set_started clock c new)
    unfolding set_started
    set_started-Keeps h p = if_both (λ (out : Outcome Unit × Held W S). P (out.1.rest)) _ p p

    pub transition-Keeps : Keeps (λ h. P h.rest) (transition clock c new)
    unfolding transition move
    transition-Keeps =
        >>-Keeps _ (outside (cleanup_do (c.cleanup) new)) _ (λ h p. cleanup new h.rest p)
          (>>-Keeps _ (check_allowed clock c new) _ check_allowed-Keeps (
            >>-Keeps _ (set_started clock c new) _ set_started-Keeps
              (λ h p. callback _ _ _ h.rest p)))

module _ {W : Type 0} (P : W → Type 0) (clock : ℕ → ℕ) where
  pub task_transition-Keeps :
      (c : Lifecycle W TaskState)
      → ((s : TaskState) → Keeps P (cleanup_do (c.cleanup) s))
      → ((old new : TaskState) (e : LogEvent) → Keeps P (c.on_transition old new e))
      → (new : TaskState) → Keeps (λ h. P h.rest) (task_transition clock c new)
  unfolding task_transition
  task_transition-Keeps c = transition-Keeps P clock (record c { transitions = task_transitions })

  pub pipeline_transition-Keeps :
      (c : Lifecycle W PipelineState)
      → ((s : PipelineState) → Keeps P (cleanup_do (c.cleanup) s))
      → ((old new : PipelineState) (e : LogEvent) → Keeps P (c.on_transition old new e))
      → (new : PipelineState) → Keeps (λ h. P h.rest) (pipeline_transition clock c new)
  unfolding pipeline_transition
  pipeline_transition-Keeps c =
      transition-Keeps P clock (record c { transitions = pipeline_transitions })
