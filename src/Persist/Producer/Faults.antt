-- ===== src/Persist/Producer/Faults.antt =====
-- What follows a disk fault in the consumer thread.
use taskweave.Base.{
  ℕ, String, Bool, true, Option, none, some, leb, length, Bool-cases, inl, inr, Keeps, >>-Keeps,
  for_each-Keeps, >>-done, List, [], ◌∷◌, ◌++◌, for_each, done, raised, recover, ◌≡◌, refl, ◌∙◌,
  arith,
}
use taskweave.Exceptions.{os_error, attribute_error}
use taskweave.Persist.Breaker.{Guarded}
use taskweave.Persist.Runner.{
  ErrorEvent, Runner, disk_call, create_handle, handle_write, write_buffer, rotate, append,
  loop_body, loop, loop_after, on_append_error,
}
use taskweave.Persist.Producer.{write}

module _ (disk : ℕ → Bool) where
  loop_body_fault :
      (line : String) (r : Runner)
      → (append disk line r).0 ≡ raised os_error
      → loop_body disk line r
        ≡ (raised attribute_error, record ((append disk line r).1) { thread_died = true })
  unfolding loop_body on_append_error
  loop_body_fault line r e = λ i. recover (e i) (append disk line r).1 (on_append_error disk)

  loop_fault :
      (line : String) (q : List (Option String)) (r : Runner)
      → (append disk line (record r { queue = q })).0 ≡ raised os_error
      → loop disk (some line ∷ q) r ≡ (
        raised attribute_error,
        record ((append disk line (record r { queue = q })).1) {
          thread_died = true;
          thread_ended = true;
        },
      )
  unfolding loop
  loop_fault line q r e =
      let f = loop_body_fault line (record r { queue = q }) e in
      λ i. loop_after disk (f i).0 (f i).1 (loop disk q)

  module _ (errors : List ErrorEvent) (q : List (Option String)) where
    abbrev Quiet : Runner → Type 0
    Quiet r = (r.errors ≡ errors) × (r.queue ≡ q)

    disk_call-Quiet : Keeps Quiet (disk_call disk)
    unfolding disk_call
    disk_call-Quiet r h = ground arith

    create_handle-Quiet : Keeps Quiet (create_handle disk)
    unfolding create_handle
    create_handle-Quiet = >>-Keeps Quiet (disk_call disk) _ disk_call-Quiet (λ r h. h)

    handle_write-Quiet : (line : String) → Keeps Quiet (handle_write disk line)
    unfolding handle_write
    handle_write-Quiet line r h = ground arith

    rotate-Quiet : Keeps Quiet (rotate disk)
    unfolding rotate
    rotate-Quiet r h =
        >>-Keeps Quiet (disk_call disk) _ disk_call-Quiet
          (>>-Keeps Quiet (create_handle disk) _ create_handle-Quiet (
            >>-Keeps Quiet (write_buffer disk) _
              (λ r'. for_each-Keeps Quiet r'.buffer (handle_write disk) handle_write-Quiet r')
              (>>-Keeps Quiet (disk_call disk) _ disk_call-Quiet (λ r' h'. h'))))
          (record r { handle = none }) h

    append-Quiet : (line : String) → Keeps Quiet (append disk line)
    unfolding append
    append-Quiet line r h = elim (Bool-cases (leb r.max_lines (length (r.buffer ++ line ∷ [])))) [
      | inl full ↦ rw full (rotate-Quiet (record r { buffer = r.buffer ++ line ∷ [] }) h)
      | inr short ↦ rw short h
    ]

  -- An OSError while a line is appended ends the consumer thread with an AttributeError: the thread is
  -- marked dead and has ended, the rest of the queue is as it was, and nothing is reported, since the
  -- error sink is not called.
  pub loop_fault_silent :
      (line : String) (q : List (Option String)) (r : Runner)
      → (append disk line (record r { queue = q })).0 ≡ raised os_error
      → ((loop disk (some line ∷ q) r).0 ≡ raised attribute_error)
        × ((loop disk (some line ∷ q) r).1.thread_died ≡ true)
        × ((loop disk (some line ∷ q) r).1.thread_ended ≡ true)
        × ((loop disk (some line ∷ q) r).1.queue ≡ q)
        × ((loop disk (some line ∷ q) r).1.errors ≡ r.errors)
  loop_fault_silent line q r e =
      let fault = loop_fault line q r e in
      let (same, kept) = append-Quiet r.errors q line (record r { queue = q }) (refl, refl) in
      (
        (λ i. (fault i).0),
        (λ i. (fault i).1.thread_died),
        (λ i. (fault i).1.thread_ended),
        (λ i. (fault i).1.queue) ∙ kept,
        (λ i. (fault i).1.errors) ∙ same,
      )

  module _ (clock : ℕ → ℕ) where
    write_dead :
        (line : String) (g : Guarded Runner)
        → g.rest.thread_died ≡ true
        → write disk clock line g ≡ (done tt, g)
    unfolding write
    write_dead line g dead = ground arith

    -- From then on every write returns as if it had succeeded and drops its line: no exception, no
    -- report, no change of anything.
    pub writes_dead :
        (lines : List String) (g : Guarded Runner)
        → g.rest.thread_died ≡ true
        → for_each lines (write disk clock) g ≡ (done tt, g)
    writes_dead [] g dead = refl
    writes_dead (line ∷ lines) g dead =
        >>-done (write disk clock line) (for_each lines (write disk clock)) (write_dead line g dead)
        ∙ writes_dead lines g dead
