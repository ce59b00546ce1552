-- ===== src/Plans/Pools.antt =====
-- How many workers a pool takes.
use taskweave.Base.{
  ℕ, String, some, List, [], ◌∷◌, ◌++◌, length, drop, get_elem?, Stmt, done, ◌≡◌, refl, arith,
  string_key, find-store,
}
use taskweave.Protocol.{TaskId}
use taskweave.Workers.{WorkerManager, WorkItem, new_manager}
use taskweave.Workers.Adding.{AllNew, adds, adds_wait}
use taskweave.Plans.{Strategy, pool_runner, SessionControl, add_pool, pool_task_runner, get_runner}

get_elem?-last : {A : Type 0} (xs : List A) (x : A) → get_elem? (xs ++ x ∷ []) (length xs) ≡ some x
get_elem?-last [] x = refl
get_elem?-last (y ∷ xs) x = get_elem?-last xs x

-- A pool that was added for n workers takes four, whatever n is: its tasks get the runner of one
-- manager, and of the items with different names that are added to that manager all but the first four
-- wait.
pub pool_takes_four :
    (callbacks : ℕ → Stmt WorkerManager Unit) (name : String) (n : ℕ) (id : TaskId)
    (s : SessionControl) (items : List WorkItem)
    → AllNew items []
    → let s' = (add_pool name n s).1 in
      (i : ℕ) × (m : WorkerManager) × (get_runner (Strategy.pool name n) id s'
        ≡ (done (pool_runner i), s'))
      × (get_elem? s'.managers i ≡ some m)
      × ((adds callbacks items m).waiting ≡ drop 4 items)
unfolding add_pool pool_task_runner get_runner
pool_takes_four callbacks name n id s items new = (
  length s.managers,
  new_manager 4,
  ground (arith, find-store s.pools name name (length s.managers)),
  get_elem?-last s.managers (new_manager 4),
  (adds_wait callbacks 4 items new).0,
)
