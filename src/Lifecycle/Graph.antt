-- ===== src/Lifecycle/Graph.antt =====
-- What requests to change a life cycle's state can do: one request, and any sequence of them.
use taskweave.Base.{
  ℕ, ◌+◌, ◌≤◌, ◌<◌, true, false, if◌then◌else◌, List, [], ◌∷◌, contains, done, raised, ◌≡◌, refl,
  ap, ◌∙◌, ◌≢◌, ◌⊎◌, arith,
}
use taskweave.Lifecycle.{
  Cycle, Held, Lifecycle, Enum, TaskState, PipelineState, SessionState, allowed, cleanup_do,
  transition, task_transition, pipeline_transition, session_transition,
}

module _ {W S : Type 0} ⦃enum : Enum S⦄ (clock : ℕ → ℕ) (c : Lifecycle W S) (new : S)
    (h : Held W S) where
  -- The state after an accepted request.
  abbrev pub Moved : Held W S → Type 0
  Moved h' =
      (contains enum.eqb (allowed c.transitions h.cycle.state) new ≡ true)
      × (h'.cycle.state ≡ new)
      × (h'.cycle.started_at
          ≡ (if enum.eqb new enum.running then clock h.readings else h.cycle.started_at))

  -- A request that returns was allowed by the table, the state is now the one asked for, and the
  -- start time is the clock's if that state is RUNNING and else the old one.
  pub transition_done : (transition clock c new h).0 ≡ done tt → Moved (transition clock c new h).1
  unfolding transition
  transition_done e = ground arith

  -- A request that the table does not allow raises and leaves the object as it was; the cleanup has
  -- run all the same, once.
  pub transition_refused :
      contains enum.eqb (allowed c.transitions h.cycle.state) new ≡ false
      → ((transition clock c new h).0 ≢ done tt)
        × ((transition clock c new h).1.cycle ≡ h.cycle)
        × ((transition clock c new h).1.rest ≡ (cleanup_do c.cleanup new h.rest).1)
  unfolding transition
  transition_refused no_edge = ground arith

-- How many more changes a task can make.
abbrev pub task_rank : TaskState → ℕ
task_rank TaskState.pending = 2
task_rank TaskState.running = 1
task_rank _ = 0

module _ {W : Type 0} (clock : ℕ → ℕ) (c : Lifecycle W TaskState) where
  -- A caller that makes one request after another and goes on after an exception; it counts the
  -- requests that returned.
  unfoldable pub task_requests : List TaskState → Held W TaskState → ℕ × Held W TaskState
  task_requests [] h = (0, h)
  task_requests (new ∷ rest) h =
      let (outcome, h') = task_transition clock c new h in
      let (n, last) = task_requests rest h' in
      (elim outcome [ done _ ↦ n + 1 | raised _ ↦ n ], last)

  task_transition-rank :
      (new : TaskState) (h : Held W TaskState)
      → (((task_transition clock c new h).0 ≡ done tt)
          × (task_rank (task_transition clock c new h).1.cycle.state < task_rank h.cycle.state))
        ⊎ (((task_transition clock c new h).0 ≢ done tt)
            × (task_rank (task_transition clock c new h).1.cycle.state ≤ task_rank h.cycle.state))
  unfolding task_transition
  task_transition-rank new h = ground arith

  -- Whatever is asked, and whatever the callbacks do, a task makes at most as many changes as its
  -- state leaves it: two from PENDING, one from RUNNING, none from a final state.
  pub task_requests-le_rank :
      (requests : List TaskState) (h : Held W TaskState)
      → (task_requests requests h).0 + task_rank (task_requests requests h).1.cycle.state
        ≤ task_rank h.cycle.state
  unfolding task_requests
  task_requests-le_rank [] h = ground arith
  task_requests-le_rank (new ∷ rest) h = ground (
    arith,
    task_transition-rank new h,
    task_requests-le_rank rest (task_transition clock c new h).1,
  )

  task_transition_final :
      (new : TaskState) (h : Held W TaskState)
      → task_rank h.cycle.state ≡ 0
      → (task_transition clock c new h).1.cycle ≡ h.cycle
  unfolding task_transition
  task_transition_final new h final = ground arith

  -- A final state is never left, and its start time never changes.
  pub task_requests_final :
      (requests : List TaskState) (h : Held W TaskState)
      → task_rank h.cycle.state ≡ 0
      → (task_requests requests h).1.cycle ≡ h.cycle
  unfolding task_requests
  task_requests_final [] h final = refl
  task_requests_final (new ∷ rest) h final =
      let stays = task_transition_final new h final in
      task_requests_final rest (task_transition clock c new h).1
        (ap task_rank (ap (λ (x : Cycle TaskState). x.state) stays) ∙ final)
      ∙ stays

-- No pipeline can enter STOPPING: the request fails in every state, and the life cycle stays as it
-- is, whatever the callbacks do.
pub pipeline_never_stopping :
    {W : Type 0} (clock : ℕ → ℕ) (c : Lifecycle W PipelineState) (h : Held W PipelineState)
    → ((pipeline_transition clock c PipelineState.stopping h).0 ≢ done tt)
      × ((pipeline_transition clock c PipelineState.stopping h).1.cycle ≡ h.cycle)
unfolding pipeline_transition
pipeline_never_stopping clock c h = ground arith

-- No session can enter STOPPING either.
pub session_never_stopping :
    {W : Type 0} (clock : ℕ → ℕ) (c : Lifecycle W SessionState) (h : Held W SessionState)
    → ((session_transition clock c SessionState.stopping h).0 ≢ done tt)
      × ((session_transition clock c SessionState.stopping h).1.cycle ≡ h.cycle)
unfolding session_transition
session_never_stopping clock c h = ground arith
