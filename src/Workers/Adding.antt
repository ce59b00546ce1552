-- ===== src/Workers/Adding.antt =====
-- Work that is added to a manager.
use mathlib.Core.List.{append_assoc, append-nil}
use taskweave.Base.{
  ℕ, zero, suc, ◌+◌, ◌≤◌, ◌<◌, String, false, none, List, [], ◌∷◌, ◌++◌, length, drop, Stmt, ◌≡◌,
  sym, ap, ◌∙◌, arith, Dict, find, store, string_key, length-store-new, store-new, take, refl, map,
}
use taskweave.Workers.{
  WorkerManager, WorkItem, Worker, new_manager, add_worker, start_new, reset_worker_instance,
  new_context,
}
use taskweave.Workers.Dead.{add, handles, handles_start_nothing}

abbrev pub unborn : Worker
unborn = record { is_alive = false; success_event = false; pipe_closed = false }

-- Each item has a name that is new when it is added.
abbrev pub AllNew : List WorkItem → Dict String Worker → Type 0
AllNew [] d = Unit
AllNew (item ∷ items) d = (find d item.name ≡ none) × AllNew items (store d item.name unborn)

-- The places that items take, each with a worker that was not started.
abbrev pub places : List WorkItem → Dict String Worker
places [] = []
places (item ∷ items) = (item.name, unborn) ∷ places items

module _ (callbacks : ℕ → Stmt WorkerManager Unit) where
  -- A client that adds one item after the other and goes on after an exception.
  abbrev pub adds : List WorkItem → WorkerManager → WorkerManager
  adds [] m = m
  adds (item ∷ items) m = adds items (add_worker callbacks item m).1

  add_worker-full :
      (item : WorkItem) (m : WorkerManager)
      → m.max_count ≤ length m.workers
      → (add_worker callbacks item m).1 ≡ record m { waiting = m.waiting ++ item ∷ [] }
  unfolding add_worker
  add_worker-full item m full = ground arith

  add_worker-room :
      (item : WorkItem) (m : WorkerManager)
      → length m.workers < m.max_count
      → (add_worker callbacks item m).1 ≡ record m { workers = store m.workers item.name unborn }
  unfolding add_worker start_new reset_worker_instance new_context
  add_worker-room item m room = ground arith

  adds-full :
      (items : List WorkItem) (m : WorkerManager)
      → m.max_count ≤ length m.workers
      → (adds items m).waiting ≡ m.waiting ++ items
  adds-full [] m full = sym (append-nil m.waiting)
  adds-full (item ∷ items) m full =
      ap (λ m'. (adds items m').waiting) (add_worker-full item m full)
      ∙ adds-full items (record m { waiting = m.waiting ++ item ∷ [] }) full
      ∙ append_assoc m.waiting _ _

  adds-drop :
      (items : List WorkItem) (m : WorkerManager) (k : ℕ)
      → k + length m.workers ≡ m.max_count
      → AllNew items m.workers
      → (adds items m).waiting ≡ m.waiting ++ drop k items
  adds-drop items m zero room new = adds-full items m (omega arith)
  adds-drop [] m (suc k) room new = sym (append-nil m.waiting)
  adds-drop (item ∷ items) m (suc k) room (new, rest) =
      ap (λ m'. (adds items m').waiting) (add_worker-room item m (omega arith))
      ∙ adds-drop items (record m { workers = store m.workers item.name unborn }) k
          (omega (arith, length-store-new m.workers item.name unborn new, room)) rest

  adds-full-workers :
      (items : List WorkItem) (m : WorkerManager)
      → m.max_count ≤ length m.workers
      → (adds items m).workers ≡ m.workers
  adds-full-workers [] m full = refl
  adds-full-workers (item ∷ items) m full =
      ap (λ m'. (adds items m').workers) (add_worker-full item m full)
      ∙ adds-full-workers items (record m { waiting = m.waiting ++ item ∷ [] }) full

  adds-take :
      (items : List WorkItem) (m : WorkerManager) (k : ℕ)
      → k + length m.workers ≡ m.max_count
      → AllNew items m.workers
      → (adds items m).workers ≡ m.workers ++ places (take k items)
  adds-take items m zero room new =
      adds-full-workers items m (omega arith) ∙ sym (append-nil m.workers)
  adds-take [] m (suc k) room new = sym (append-nil m.workers)
  adds-take (item ∷ items) m (suc k) room (new, rest) =
      ap (λ m'. (adds items m').workers) (add_worker-room item m (omega arith))
      ∙ adds-take items (record m { workers = store m.workers item.name unborn }) k
          (omega (arith, length-store-new m.workers item.name unborn new, room)) rest
      ∙ ap (λ d. d ++ places (take k items)) (store-new m.workers item.name unborn new)
      ∙ append_assoc m.workers _ _

  adds-handles :
      (items : List WorkItem) (m : WorkerManager)
      → adds items m ≡ handles callbacks (map add items) m
  adds-handles [] m = refl
  adds-handles (item ∷ items) m = adds-handles items (add_worker callbacks item m).1

  -- A new manager for n workers to which items with different names are added: the first n take all
  -- places, in order, each with a worker that is not alive; all items behind them wait, in order; and
  -- nothing was started.
  pub adds_wait :
      (n : ℕ) (items : List WorkItem)
      → AllNew items []
      → let m = adds items (new_manager n) in
        (m.waiting ≡ drop n items) × (m.workers ≡ places (take n items)) × (m.starts ≡ 0)
  adds_wait n items new = (
    adds-drop items (new_manager n) n (omega arith) new,
    adds-take items (new_manager n) n (omega arith) new,
    ap (λ m. m.starts) (adds-handles items (new_manager n))
        ∙ (handles_start_nothing callbacks n (map add items)).1,
  )
