-- ===== src/Workers/Process.antt =====
-- `run` of src/taskweave/workers/basic_worker.py, in the process of a worker: it starts the command,
-- waits until it has ended or `EXIT` comes from the manager, and sets one of its two events. What the
-- command does is a parameter. The thread that reads the output puts events into the same queue; what
-- it reads before the first notice of `run` and after it is told apart.
pub mod Ends
use text.Mathlib.Text.{◌==◌ as same_text}
use taskweave.Base.{
  ℕ, zero, suc, String, Bool, true, false, if◌then◌else◌, Option, none, some, List, [], ◌∷◌, ◌++◌,
  Stmt, give, fail, skip, update, catch, ◌>>=◌, ◌>>◌,
}
use taskweave.Exceptions.{Exception, never_returns}
use taskweave.Protocol.{LogEvent}

-- An exit code, or the signal that ended the command, which Python gives as a negative code.
pub data ExitCode : Type 0 where
  code signal : ℕ → ExitCode

abbrev pub is_zero : ExitCode → Bool
is_zero (code zero) = true
is_zero (code (suc n)) = false
is_zero (signal n) = false

-- A turn of the loop: whether `sp.poll()` gives a code, and what `recv` gives, if there is something.
pub record Turn : Type 0 where
  pub has_ended : Bool
  pub message : Option String

-- What the command does: what `Popen` raises, the turns of the loop, the events of its output, and
-- the code that `wait` gives after `terminate`.
pub record Command : Type 0 where
  pub launch : Option Exception
  pub turns : List Turn
  pub early : List LogEvent
  pub late : List LogEvent
  pub exit_code : ExitCode

-- What is in the queue: the events of the output and the notices of `run`.
pub data Notice : Type 0 where
  output : LogEvent → Notice
  about_to_kill terminated : Notice
  raised_exception : Exception → Notice

pub record Running : Type 0 where
  pub print_queue : List Notice
  pub success_event : Bool
  pub failure_event : Bool

unfoldable pub put : Notice → Stmt Running Unit
put notice = update λ r. record r { print_queue = r.print_queue ++ notice ∷ [] }

unfoldable pub put_events : List LogEvent → Stmt Running Unit
unfolding put
put_events [] = skip
put_events (event ∷ events) = do put (output event); put_events events

abbrev pub is_exit : Option String → Bool
is_exit none = false
is_exit (some message) = same_text message "EXIT"

-- The loop. A command that does not end and is not told to is waited for for ever.
abbrev pub wait_end : List Turn → Stmt Running Unit
wait_end [] = fail never_returns
wait_end (turn ∷ turns) =
    let rest = wait_end turns in
    if turn.has_ended then skip else if is_exit turn.message then skip else rest

abbrev pub start_command : Option Exception → Stmt Running Unit
start_command none = skip
start_command (some e) = fail e

unfoldable pub set_event : ExitCode → Stmt Running Unit
set_event c =
    if is_zero c
    then update (λ r. record r { success_event = true })
    else update (λ r. record r { failure_event = true })

-- From the end of the loop on.
unfoldable pub finish : Command → Stmt Running Unit
unfolding put put_events set_event
finish c = do
  put_events (c.early)
  put about_to_kill
  set_event (c.exit_code)
  put_events (c.late)
  put terminated

unfoldable pub run_command : Command → Stmt Running Unit
unfolding finish
run_command c = do start_command (c.launch); wait_end (c.turns); finish c

-- The handler; waiting for ever is no exception.
abbrev pub on_exception : Exception → Stmt Running Unit
on_exception never_returns = fail never_returns
on_exception e = put (raised_exception e)

unfoldable pub run : Command → Stmt Running Unit
unfolding run_command
run c = catch (run_command c) on_exception
