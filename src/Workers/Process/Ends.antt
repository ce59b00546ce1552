-- ===== src/Workers/Process/Ends.antt =====
-- What `run` of a worker comes to, for any command.
use taskweave.Base.{
  Bool, true, false, if◌then◌else◌, ◌||◌, Option, none, some, List, [], ◌∷◌, ◌++◌, Outcome, done,
  raised, string_key,
}
use mathlib.Core.List.{map}
use taskweave.Exceptions.{Exception, never_returns}
use taskweave.Workers.Process.{
  is_zero, Turn, Command, output, about_to_kill, terminated, raised_exception, Running, is_exit,
}

-- The loop comes to an end.
abbrev pub is_over : List Turn → Bool
is_over [] = false
is_over (turn ∷ turns) = turn.has_ended || is_exit turn.message || is_over turns

-- The worker after its command has ended.
abbrev pub reported : Command → Running → Running
reported c r = record {
  print_queue =
      r.print_queue ++ map output c.early ++ about_to_kill ∷ map output c.late ++ terminated ∷ [];
  success_event = if is_zero c.exit_code then true else r.success_event;
  failure_event = if is_zero c.exit_code then r.failure_event else true;
}

-- What `run` comes to, by what `Popen` gives.
abbrev pub run_result : Command → Option Exception → Running → Outcome Unit × Running
run_result c none r = if is_over c.turns then (done tt, reported c r) else (raised never_returns, r)
run_result c (some e) r =
    (done tt, record r { print_queue = r.print_queue ++ raised_exception e ∷ [] })

-- A worker that has not run.
abbrev pub fresh : Running
fresh = record { print_queue = []; success_event = false; failure_event = false }
