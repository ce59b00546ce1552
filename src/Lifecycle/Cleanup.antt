-- ===== src/Lifecycle/Cleanup.antt =====
-- How often a task's cleanup runs.
use taskweave.Base.{ℕ, suc, ◌+◌, if◌then◌else◌, List, [], ◌∷◌, contains, update, ◌≡◌, arith}
use taskweave.Protocol.{LogEvent}
use taskweave.Lifecycle.{Held, Lifecycle, TaskState, task_state_enum, task_transition, on_end}
use taskweave.Lifecycle.Graph.{task_requests}

-- The triggers of a task with a backend (PipelineTask.__init__).
abbrev pub final_states : List TaskState
final_states = TaskState.success ∷ TaskState.canceled ∷ TaskState.failed ∷ []

abbrev pub count_final : List TaskState → ℕ
count_final [] = 0
count_final (new ∷ rest) =
    let n = count_final rest in if contains task_state_enum.eqb final_states new then n + 1 else n

-- A life cycle whose cleanup counts its own runs.
abbrev pub counted : Lifecycle ℕ TaskState → Lifecycle ℕ TaskState
counted c = record c { cleanup = on_end final_states (update suc) }

module _ (clock : ℕ → ℕ) (c : Lifecycle ℕ TaskState)
    (quiet : (old new : TaskState) (e : LogEvent) (n : ℕ)
      → (c.on_transition old new e n).1 ≡ n) where
  task_transition-counted :
      (new : TaskState) (h : Held ℕ TaskState)
      → (task_transition clock (counted c) new h).1.rest
        ≡ (if contains task_state_enum.eqb final_states new then h.rest + 1 else h.rest)
  unfolding task_transition
  task_transition-counted new h = grind (arith, quiet)

  -- The cleanup runs once for every request for a final state, also for the ones that are refused:
  -- nothing keeps it from running again on a task that has ended.
  pub task_requests-counted :
      (requests : List TaskState) (h : Held ℕ TaskState)
      → (task_requests clock (counted c) requests h).1.rest ≡ h.rest + count_final requests
  unfolding task_requests
  task_requests-counted [] h = ground arith
  task_requests-counted (new ∷ rest) h = ground (
    arith,
    task_transition-counted new h,
    task_requests-counted rest (task_transition clock (counted c) new h).1,
  )
