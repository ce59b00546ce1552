-- ===== src/Runtime/Subprocess/Kept.antt =====
-- The operations of SubProcessManager once its shared flags are set.
use taskweave.Base.{
  ℕ, true, if◌then◌else◌, Option, none, some, Outcome, done, Stmt, skip, Keeps, >>-Keeps,
  catch-Keeps, if-Keeps, if_both, refl, subst, sym, ◌==◌, update,
}
use taskweave.Exceptions.{Exception}
use taskweave.Runtime.{
  PipelineTask, World, Outside, terminated, callback_error, cancel_called, note, with_task,
}
use taskweave.Runtime.Sealed.{IsSealed, logged, perform-Keeps, with_task-Keeps, client_call-Keeps}
use taskweave.Runtime.Subprocess.{
  add_worker, stop_worker, completion_loop, execute_callback, on_cancel, on_callback_error,
  call_on_cancel, worker_body,
}

module _ (n : ℕ) (o : Outside) where
  pub add_worker-Keeps :
      (i : ℕ) (on_start : Stmt World Unit) → Keeps (IsSealed n) (add_worker o i on_start)
  unfolding add_worker
  add_worker-Keeps i on_start w p =
      subst (λ b. IsSealed n (if b then (done tt, w) else worker_body o i on_start w).1)
        (sym p.sealed) p

  on_callback_error-Keeps : (i : ℕ) (e : Exception) → Keeps (IsSealed n) (on_callback_error o i e)
  unfolding on_callback_error
  on_callback_error-Keeps i e =
      with_task-Keeps n i _ (λ t. perform-Keeps n o (callback_error t.name) refl)

  execute_callback-Keeps :
      (i : ℕ) (callback : Stmt World Unit)
      → Keeps (IsSealed n) callback
      → Keeps (IsSealed n) (execute_callback o i callback)
  unfolding execute_callback
  execute_callback-Keeps i callback h w p =
      if_both (λ (out : Outcome Unit × World). IsSealed n (out.1)) w.is_done p
        (catch-Keeps (IsSealed n) callback (on_callback_error o i) h (on_callback_error-Keeps i) w
          p)

  call_on_cancel-Keeps :
      (c : Option Unit) (i : ℕ) (t : PipelineTask) → Keeps (IsSealed n) (call_on_cancel o c i t)
  unfolding call_on_cancel on_cancel
  call_on_cancel-Keeps none i t = λ w p. p
  call_on_cancel-Keeps (some _) i t =
      execute_callback-Keeps i (on_cancel o t)
        (client_call-Keeps n o t.has_on_cancel (cancel_called t.name none) refl)

  finish : Keeps (IsSealed n) (update λ (w : World). record w { is_done = true })
  finish w p = record { sealed = refl; count = p.count }

  pub stop_worker-Keeps : (i : ℕ) → Keeps (IsSealed n) (stop_worker o i)
  unfolding stop_worker
  stop_worker-Keeps i =
      >>-Keeps (IsSealed n) (with_task i ended) _ (with_task-Keeps n i ended ended-Keeps) (
        >>-Keeps (IsSealed n) (with_task i cancel) _
          (with_task-Keeps n i cancel (λ t. call_on_cancel-Keeps t.manager.on_cancel i t)) finish)
    where
      ended : PipelineTask → Stmt World Unit
      ended t = if t.manager.has_process then note (terminated t.name) else skip

      cancel : PipelineTask → Stmt World Unit
      cancel t = call_on_cancel o t.manager.on_cancel i t

      ended-Keeps : (t : PipelineTask) → Keeps (IsSealed n) (ended t)
      ended-Keeps t =
          if-Keeps (IsSealed n) t.manager.has_process (note (terminated t.name)) skip
            (λ w p. logged n (terminated t.name) w refl p) (λ w p. p)

  pub completion_loop-Keeps :
      (i code : ℕ) (on_success on_failure : Stmt World Unit)
      → Keeps (IsSealed n) on_success
      → Keeps (IsSealed n) on_failure
      → Keeps (IsSealed n) (completion_loop o i code on_success on_failure)
  unfolding completion_loop
  completion_loop-Keeps i code on_success on_failure h h' =
      let callback = if code == 0 then on_success else on_failure in
      >>-Keeps (IsSealed n) (execute_callback o i callback) _
        (execute_callback-Keeps i callback
          (if-Keeps (IsSealed n) (code == 0) on_success on_failure h h'))
        finish
