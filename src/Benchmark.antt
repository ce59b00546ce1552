-- ===== src/Benchmark.antt =====
-- src/taskweave/session/benchmark_collector.py: what a collector records of the events it is called
-- with. A TaskId is a key by its identity; `clock` answers `time()`. The names of the three records are
-- looked up as the source writes them, and HeartbeatGap has no `start`.
pub mod Recording
mod Examples
use taskweave.Base.{
  ℕ, ◌+◌, ◌-◌, leb, if◌then◌else◌, Option, none, some, List, [], ◌∷◌, ◌++◌, Outcome, done, raised,
  Stmt, give, fail, skip, update, ◌>>=◌, ◌>>◌, Dict, find, store,
}
use taskweave.Exceptions.{Exception, key_error, type_error, attribute_error, value_error}
use taskweave.Protocol.{MsgType, LogEvent, TaskId}
use taskweave.Plans.{nat_key}

pub record HeartbeatGap : Type 0 where
  pub timestamp : ℕ
  pub gap : ℕ

-- `_task_durations` holds lists of gaps; `_backend_failures` holds lists of times.
pub record BenchmarkCollector : Type 0 where
  pub task_durations : Dict ℕ (List HeartbeatGap)
  pub heartbeat_gaps : Dict ℕ (List HeartbeatGap)
  pub backend_failures : Dict ℕ (List ℕ)
  pub readings : ℕ

abbrev pub new_collector : BenchmarkCollector
new_collector = record {
  task_durations = [];
  heartbeat_gaps = [];
  backend_failures = [];
  readings = 0;
}

-- `d[source_id]`
abbrev pub item_of : {V : Type 0} → Option V → Stmt BenchmarkCollector V
item_of none = fail key_error
item_of (some v) = give v

abbrev pub last_time : HeartbeatGap → List HeartbeatGap → ℕ
last_time g [] = g.timestamp
last_time g (h ∷ gaps) = last_time h gaps

module _ (clock : ℕ → ℕ) where
  abbrev pub now : Stmt BenchmarkCollector ℕ
  now c = (done (clock c.readings), record c { readings = c.readings + 1 })

  -- An empty list is replaced, one that is not empty grows.
  unfoldable pub add_gap : ℕ → List HeartbeatGap → Stmt BenchmarkCollector Unit
  add_gap id [] = do
    t ← now
    update λ c. record c {
      heartbeat_gaps = store c.heartbeat_gaps id (record { timestamp = t; gap = 0 } ∷ []);
    }
  add_gap id (g ∷ gaps) = do
    t ← now
    update λ c. record c {
      heartbeat_gaps =
          store c.heartbeat_gaps id
            ((g ∷ gaps) ++ record { timestamp = t; gap = t - last_time g gaps } ∷ []);
    }

  unfoldable pub record_heartbeat_gap : LogEvent → Stmt BenchmarkCollector Unit
  unfolding add_gap
  record_heartbeat_gap event = do
    gaps ← λ c. item_of (find c.heartbeat_gaps event.source_id.ident) c
    add_gap (event.source_id.ident) gaps

  unfoldable pub record_failure : LogEvent → Stmt BenchmarkCollector Unit
  record_failure event = do
    times ← λ c. item_of (find c.backend_failures event.source_id.ident) c
    t ← now
    update λ c. record c {
      backend_failures = store c.backend_failures event.source_id.ident (times ++ t ∷ []);
    }

  -- `HeartbeatGap(start = …)`, or the attribute `start` of a list.
  unfoldable pub change_duration : List HeartbeatGap → Stmt BenchmarkCollector Unit
  change_duration [] = do t ← now; fail type_error
  change_duration (g ∷ gaps) = do t ← now; fail attribute_error

  unfoldable pub record_duration : LogEvent → Stmt BenchmarkCollector Unit
  unfolding change_duration
  record_duration event = do
    gaps ← λ c. item_of (find c.task_durations event.source_id.ident) c
    change_duration gaps

  -- `__call__`. The alternatives of a pattern are looked up in order, and `MsgType.VERBOSE` does not
  -- exist.
  unfoldable pub collect_type : MsgType → LogEvent → Stmt BenchmarkCollector Unit
  unfolding record_duration record_heartbeat_gap
  collect_type MsgType.state_change event = record_duration event
  collect_type MsgType.log_line event = record_heartbeat_gap event
  collect_type MsgType.progress event = record_heartbeat_gap event
  collect_type MsgType.banner event = record_heartbeat_gap event
  collect_type _ event = fail attribute_error

  unfoldable pub collect : LogEvent → Stmt BenchmarkCollector Unit
  unfolding collect_type
  collect event = collect_type event.msg_type event

-- The largest gap of a source; of an empty list `max` raises.
abbrev largest : ℕ → List HeartbeatGap → ℕ
largest n [] = n
largest n (g ∷ gaps) = largest (if leb n g.gap then g.gap else n) gaps

abbrev pub max_gap : List HeartbeatGap → Stmt BenchmarkCollector ℕ
max_gap [] = fail value_error
max_gap (g ∷ gaps) = give (largest g.gap gaps)

abbrev pub thresholds : Dict ℕ (List HeartbeatGap) → Stmt BenchmarkCollector (Dict ℕ ℕ)
thresholds [] = give []
thresholds ((id, gaps) ∷ rest) = do n ← max_gap gaps; d ← thresholds rest; give ((id, n) ∷ d)

-- `recommend` asks for `_recommend_cb_threshold`, which there is not.
unfoldable pub recommend : Stmt BenchmarkCollector (Dict ℕ ℕ)
recommend = do d ← (λ c. thresholds c.heartbeat_gaps c); fail attribute_error
