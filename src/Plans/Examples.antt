-- ===== src/Plans/Examples.antt =====
-- Concrete inputs of the theorems on plans and sessions.
use taskweave.Base.{
  ℕ, ◌+◌, String, true, false, none, some, List, [], ◌∷◌, drop, get_elem?, done, raised, skip, ◌≡◌,
  ◌≢◌, refl, arith, string_key,
}
use taskweave.Exceptions.{runtime_error}
use taskweave.Lifecycle.{SessionState}
use taskweave.Logging.{missing, malformed, default_max_age}
use taskweave.Orchestrator.{cancel_pending_only, cancel_all}
use taskweave.Workers.{WorkerManager, WorkItem, new_manager}
use taskweave.Workers.Adding.{adds}
use taskweave.Bus.{ObservabilityPolicy}
use taskweave.Plans.{
  Strategy, Producer, Task, ExecutionPlan, pool_runner, SessionControl, Environment, new_cycle,
  add_pool, get_runner, execute, start, stop,
}
use taskweave.Plans.Ending.{stuck-execute}
use taskweave.Plans.Execution.{AllStored, Distinct, PlanReady, execute_hydrates}
use taskweave.Plans.Pools.{pool_takes_four}

abbrev environment : Environment
environment = record {
  clock = λ n. n + 1000;
  stamp = λ n. ("8f2c01aa", "x7Qz");
  make_runner = λ b name. none;
}

abbrev session : SessionControl
session = record {
  id = record { ident = 0; value = "session_1f" };
  cycle = new_cycle SessionState.pending;
  log_store = record {
    max_age = default_max_age;
    known_names = [];
    index = missing;
    files = [];
    readings = 0;
  };
  pools = ("local", 0) ∷ [];
  managers = new_manager 4 ∷ [];
  contexts = [];
  pipelines = [];
  cancel_policy = cancel_pending_only;
  observability_policy = ObservabilityPolicy.safe;
  readings = 0;
}

abbrev fetch : Task
fetch = record {
  name = record { ident = 1; value = "fetch" };
  strategy = Strategy.pool "local" 2;
  producer = Producer.log_event false;
  backend = some 7;
  has_on_cancel = false;
  has_on_finally = true;
}

abbrev export_task : Task
export_task = record {
  name = record { ident = 2; value = "export_task" };
  strategy = Strategy.synchronous;
  producer = Producer.log_event false;
  backend = none;
  has_on_cancel = true;
  has_on_finally = false;
}

abbrev plan : ExecutionPlan
plan = record {
  cancel_policy = cancel_all;
  observability_policy = ObservabilityPolicy.best_effort;
  pools = [];
  pipelines =
      record { id = record { ident = 3; value = "p3" }; tasks = fetch ∷ export_task ∷ [] }
      ∷ record { id = record { ident = 4; value = "p4" }; tasks = [] }
      ∷ [];
}

readable : missing ≢ malformed
readable e = ground (arith, e)

ready : PlanReady environment session.pools plan.pipelines
unfolding string_key
ready = (((refl, (refl, tt)), ((0, refl), (λ name. refl), (tt, tt, tt))), ((tt, tt), tt))

distinct : Distinct plan.pipelines
distinct = (refl, (refl, tt))

plan_returns : (execute environment plan session).0 ≡ done tt
plan_returns = (execute_hydrates environment plan session refl readable distinct ready).0

execute_hydrates_example :
    ((execute environment plan session).0 ≡ done tt)
    × ((execute environment plan session).1.cycle.state ≡ SessionState.running)
    × AllStored session.pools session.id
        (execute environment plan session).1.pipelines
        plan.pipelines
execute_hydrates_example = execute_hydrates environment plan session refl readable distinct ready

stuck-execute_example :
    let s = (execute environment plan session).1 in
    (start environment skip s ≡ (raised runtime_error, s))
    × (stop environment s ≡ (raised runtime_error, s))
stuck-execute_example = stuck-execute environment skip plan session plan_returns

abbrev item : String → WorkItem
item name = record {
  name = name;
  on_start = none;
  on_success = none;
  on_failure = none;
  on_cancel = none;
}

abbrev items : List WorkItem
items = item "a" ∷ item "b" ∷ item "c" ∷ item "d" ∷ item "e" ∷ []

pool_takes_four_example :
    (i : ℕ) × (m : WorkerManager) × (get_runner
        (Strategy.pool "big" 16)
        session.id
        (add_pool "big" 16 session).1
      ≡ (done (pool_runner i), (add_pool "big" 16 session).1))
    × (get_elem? (add_pool "big" 16 session).1.managers i ≡ some m)
    × ((adds (λ n. skip) items m).waiting ≡ drop 4 items)
unfolding string_key
pool_takes_four_example =
    pool_takes_four (λ n. skip) "big" 16 session.id session items
      (refl, (refl, (refl, (refl, (refl, tt)))))
