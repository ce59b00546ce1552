-- ===== src/Output/Logger.antt =====
-- WorkerLogger of src/taskweave/workers/worker_logger.py: the lines of a worker, sorted into a summary, a
-- progress log and event logs of which the older ones are overwritten. A file is the list of the lines
-- written to it, each followed by a newline; the file system is taken to work. `is_event` stands for
-- `EVENT_RE.match`.
mod Runs
pub mod Accounting
pub mod Closing
mod Examples
use text.Mathlib.Text.{starts_with}
use taskweave.Base.{
  ℕ, suc, ◌+◌, ◌==◌, leb, ◌%◌, String, Bool, true, false, if◌then◌else◌, Option, none, some, List,
  [], ◌∷◌, ◌++◌, put_file, Stmt, give, fail, skip, update, for_each, ◌>>=◌, ◌>>◌,
}
use taskweave.Exceptions.{value_error, zero_division}

pub data Category : Type 0 where
  event progress summary : Category

-- WorkerLogger with its files; `events i` is the event log of number `i`. A handle of the event logs
-- is the number of its file, `none` when it is closed.
pub record WorkerLogger : Type 0 where
  pub max_lines : ℕ
  pub max_files : ℕ
  pub event_buffer : List String
  pub progress_buffer : List String
  pub event_count : ℕ
  pub file_index : ℕ
  pub event_handle : Option ℕ
  pub summary_open : Bool
  pub progress_open : Bool
  pub summary_file : List String
  pub progress_file : List String
  pub events : ℕ → List String

unfoldable pub open_event_file : Stmt WorkerLogger Unit
open_event_file l =
    if l.max_files == 0
    then fail zero_division l
    else let i = l.file_index % l.max_files in
      skip (record l { event_handle = some i; events = put_file l.events i [] })

-- `__init__`, over the event logs that are on disk.
unfoldable pub init : ℕ → ℕ → Stmt WorkerLogger Unit
unfolding open_event_file
init max_lines max_files = do
  update λ l. record l {
    max_lines = max_lines;
    max_files = max_files;
    event_buffer = [];
    progress_buffer = [];
    event_count = 0;
    file_index = 0;
    summary_open = true;
    progress_open = true;
    summary_file = [];
    progress_file = [];
  }
  open_event_file

abbrev write_to : Option ℕ → String → Stmt WorkerLogger Unit
write_to none line = fail value_error
write_to (some i) line =
    update λ l. record l { events = put_file l.events i (l.events i ++ line ∷ []) }

unfoldable pub write_event : String → Stmt WorkerLogger Unit
write_event line l = write_to l.event_handle line l

unfoldable pub write_progress : String → Stmt WorkerLogger Unit
write_progress line l =
    if l.progress_open
    then skip (record l { progress_file = l.progress_file ++ line ∷ [] })
    else fail value_error l

unfoldable pub rotate : Stmt WorkerLogger Unit
unfolding open_event_file write_event
rotate = do
  update λ l. record l { event_handle = none; file_index = l.file_index + 1 }
  open_event_file
  λ l. for_each l.event_buffer write_event l
  update λ l. record l { event_buffer = []; event_count = 0 }

unfoldable pub push_summary : String → Stmt WorkerLogger Unit
push_summary line l =
    if l.summary_open
    then skip (record l { summary_file = l.summary_file ++ line ∷ [] })
    else fail value_error l

unfoldable pub push_event : String → Stmt WorkerLogger Unit
unfolding rotate
push_event line = do
  update
      λ l. record l { event_buffer = l.event_buffer ++ line ∷ []; event_count = l.event_count + 1 }
  λ l. if leb l.max_lines l.event_count then rotate l else skip l

unfoldable pub push_progress : String → Stmt WorkerLogger Unit
push_progress line = update λ l. record l { progress_buffer = l.progress_buffer ++ line ∷ [] }

abbrev pub rotate_rest : List String → Stmt WorkerLogger Unit
rotate_rest [] = skip
rotate_rest (line ∷ lines) = rotate

unfoldable pub close : Stmt WorkerLogger Unit
unfolding rotate write_progress
close = do
  λ l. rotate_rest l.event_buffer l
  λ l. for_each l.progress_buffer write_progress l
  update λ l. record l {
    progress_buffer = [];
    summary_open = false;
    progress_open = false;
    event_handle = none;
  }

abbrev pub push_as : Category → String → Stmt WorkerLogger Unit
push_as event line = push_event line
push_as progress line = push_progress line
push_as summary line = push_summary line

module _ (is_event : String → Bool) where
  unfoldable pub classify : String → Category × Bool
  classify line =
      if is_event line
      then (event, false)
      else if starts_with line "size="
      then (progress, false)
      else (summary, true)

  -- It returns whether the line is to be printed.
  unfoldable pub push : String → Stmt WorkerLogger Bool
  unfolding classify push_event push_progress push_summary
  push line = do push_as (classify line).0 line; give ((classify line).1)
