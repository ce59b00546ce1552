-- ===== src/Pipelines.antt =====
-- The pipelines of one Python process together: `start_all_pipelines` and `stop_all_pipelines` of
-- src/taskweave/pipeline/pipeline_orchestrator.py, and commands on one of the pipelines. `_done` and
-- `_init` of SubProcessManager are made once for the class, so that the pipelines share them, as they
-- share the clock and the effects on the outside. A pipeline is called by its place in the dictionary.
pub mod Sealed
pub mod Starting
mod Examples
use taskweave.Base.{
  ℕ, zero, suc, Bool, List, [], ◌∷◌, Outcome, done, raised, Stmt, give, fail, skip,
}
use taskweave.Exceptions.{Exception, key_error, attribute_error}
use taskweave.Runtime.{World, Outside, Effect}
use taskweave.Orchestrator.{start_pipeline}
use taskweave.Orchestrator.Invariant.{Event, handle}

-- What the pipelines share.
pub record Shared : Type 0 where
  pub is_done : Bool
  pub is_init : Bool
  pub readings : ℕ
  pub trace : List Effect

-- The dictionary `pipelines`, in order, with what they share. The shared fields of a World count only
-- while its pipeline runs.
pub record Pipelines : Type 0 where
  pub worlds : List World
  pub shared : Shared

abbrev pub load : Shared → World → World
load s w = record w {
  is_done = s.is_done;
  is_init = s.is_init;
  readings = s.readings;
  trace = s.trace;
}

abbrev pub shared_of : World → Shared
shared_of w = record {
  is_done = w.is_done;
  is_init = w.is_init;
  readings = w.readings;
  trace = w.trace;
}

-- A command on the pipeline at a place; `self.pipelines[pipeline_id]` raises where there is none.
unfoldable pub on_pipeline : ℕ → Stmt World Unit → List World → Shared → Outcome Unit × Pipelines
on_pipeline i body [] s = (raised key_error, record { worlds = []; shared = s })
on_pipeline zero body (w ∷ ws) s =
    let (r, w') = body (load s w) in (r, record { worlds = w' ∷ ws; shared = shared_of w' })
on_pipeline (suc i) body (w ∷ ws) s =
    let (r, p) = on_pipeline i body ws s in (r, record p { worlds = w ∷ p.worlds })

-- The loop of `start_all_pipelines` after a first start; an exception ends it.
abbrev pub go_on :
    Outcome Unit → World → List World → Outcome Unit × Pipelines → Outcome Unit × Pipelines
go_on (done _) w ws (r, p) = (r, record p { worlds = w ∷ p.worlds })
go_on (raised e) w ws rest = (raised e, record { worlds = w ∷ ws; shared = shared_of w })

unfoldable pub start_each : Outside → List World → Shared → Outcome Unit × Pipelines
start_each o [] s = (done tt, record { worlds = []; shared = s })
start_each o (w ∷ ws) s =
    let (r, w') = start_pipeline o (load s w) in go_on r w' ws (start_each o ws (shared_of w'))

unfoldable pub start_all_pipelines : Outside → Stmt Pipelines Unit
unfolding start_each
start_all_pipelines o p = start_each o p.worlds p.shared

-- The loop of `stop_all_pipelines` is over the keys, and a TaskId has no life cycle.
unfoldable stop_keys : List World → Stmt Pipelines Unit
stop_keys [] = skip
stop_keys (w ∷ ws) = fail attribute_error

unfoldable pub stop_all_pipelines : Stmt Pipelines Unit
unfolding stop_keys
stop_all_pipelines p = stop_keys p.worlds p

-- What happens to the pipelines.
pub data Command : Type 0 where
  start_all stop_all : Command
  one : ℕ → Event → Command

unfoldable pub command : Outside → Command → Stmt Pipelines Unit
unfolding on_pipeline start_all_pipelines stop_all_pipelines
command o start_all p = start_all_pipelines o p
command o stop_all p = stop_all_pipelines p
command o (one i e) p = on_pipeline i (handle o e) p.worlds p.shared

-- A sequence of commands, each in its own thread: what one of them raises ends that thread only.
abbrev pub run_commands : Outside → List Command → Pipelines → Pipelines
run_commands o [] p = p
run_commands o (c ∷ cs) p = run_commands o cs (command o c p).1
