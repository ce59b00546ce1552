-- ===== src/Persist/Producer/Closing.antt =====
-- What closing a file backend leaves in the files.
use mathlib.Core.List.{append-nil, append_assoc}
use taskweave.Base.{
  ℕ, ◌+◌, ◌<◌, String, Bool, true, false, Option, some, List, [], ◌∷◌, ◌++◌, map, length,
  length-map, length-append, catch-done, Outcome, done, ◌≡◌, refl, sym, ap, subst, ◌∙◌, arith,
}
use taskweave.Persist.Runner.{Runner, consume, loop, loop_body, loop_after, append, on_append_error}
use taskweave.Persist.Runner.Retention.{Retains, loop-Retains}
use taskweave.Persist.Producer.{close, close_joining, end_thread}

-- The runner waits for work, with these lines in its queue.
pub record Waits (lines : List String) (r : Runner) : Type 0 where
  pub alive : r.thread_died ≡ false
  pub runs : r.thread_ended ≡ false
  pub unstopped : r.stop_event ≡ false
  pub queued : r.queue ≡ map some lines

-- The statement has returned, the thread has ended, and these lines were seen.
abbrev pub Closed : List String → Outcome Unit × Runner → Type 0
Closed seen out = (out.0 ≡ done tt) × Retains seen (out.1) × (out.1.thread_ended ≡ true)

module _ (disk : ℕ → Bool) where
  consume-loop :
      (r : Runner)
      → r.thread_ended ≡ false
      → r.stop_event ≡ false
      → consume disk r ≡ (loop disk r.queue r).1
  unfolding consume
  consume-loop r runs unstopped = rw (runs, unstopped)

  end_thread_waiting :
      (r : Runner)
      → r.thread_ended ≡ false
      → r.stop_event ≡ false
      → r.queue ≡ []
      → end_thread disk r ≡ record r { thread_died = true; queue = []; thread_ended = true }
  unfolding end_thread consume loop
  end_thread_waiting r runs unstopped empty = rw (runs, unstopped, empty)

  close_joining_healthy :
      (r r' : Runner)
      → consume disk r ≡ r'
      → r'.thread_died ≡ false
      → close_joining disk r ≡ (done tt, end_thread disk r')
  unfolding close_joining
  close_joining_healthy r r' e alive = rw (e, alive)

  close-close_joining :
      (r : Runner)
      → r.thread_died ≡ false
      → length r.queue < r.min_drain_threshold
      → close disk r ≡ close_joining disk r
  unfolding close
  close-close_joining r alive short = ground arith

  loop_body_short :
      (line : String) (r : Runner)
      → length r.buffer + 1 < r.max_lines
      → loop_body disk line r ≡ (done tt, record r { buffer = r.buffer ++ line ∷ [] })
  unfolding loop_body append
  loop_body_short line r short =
      catch-done (append disk line) (on_append_error disk)
        (ground (arith, length-append r.buffer (line ∷ [])))

  loop_short :
      (lines : List String) (r : Runner)
      → length r.buffer + length lines < r.max_lines
      → loop disk (map some lines) r
        ≡ (done tt, record r { buffer = r.buffer ++ lines; queue = [] })
  unfolding loop
  loop_short [] r short =
      λ i. (done tt, record r { buffer = sym (append-nil r.buffer) i; queue = [] })
  loop_short (line ∷ lines) r short =
      let r' = record r { buffer = r.buffer ++ line ∷ []; queue = map some lines } in
      let e = loop_body_short line (record r { queue = map some lines }) (omega arith) in
      let more = loop_short lines r' (omega (arith, length-append r.buffer (line ∷ []))) in
      (λ i. loop_after disk (e i).0 (e i).1 (loop disk (map some lines))) ∙ more ∙ λ i.
      (done tt, record r { buffer = append_assoc r.buffer (line ∷ []) lines i; queue = [] })

  -- If the lines since the last rotation do not fill the buffer, a close in good order returns and
  -- writes nothing: every file is as it was, and the lines are lost with the buffer. The disk plays
  -- no part in it.
  pub close_short_loses :
      (lines : List String) (r : Runner)
      → Waits lines r
      → length lines < r.min_drain_threshold
      → length r.buffer + length lines < r.max_lines
      → ((close disk r).0 ≡ done tt)
        × ((close disk r).1.files ≡ r.files)
        × ((close disk r).1.buffer ≡ r.buffer ++ lines)
        × ((close disk r).1.thread_ended ≡ true)
  close_short_loses lines r w few short =
      let r' = record r { buffer = r.buffer ++ lines; queue = [] } in
      let consumed : consume disk r ≡ r' =
        consume-loop r w.runs w.unstopped ∙ ap (λ q. (loop disk q r).1) w.queued ∙ λ i.
        (loop_short lines r short i).1 in
      let queued = length-map {B = Option String} some lines in
      let closed =
        close-close_joining r w.alive (omega (arith, ap length w.queued, queued))
        ∙ close_joining_healthy r r' consumed w.alive
        ∙ λ i. (done tt, end_thread_waiting r' w.runs w.unstopped refl i) in
      (
        (λ i. (closed i).0),
        (λ i. (closed i).1.files),
        (λ i. (closed i).1.buffer),
        λ i. (closed i).1.thread_ended,
      )

module _ (disk : ℕ → Bool) (healthy : (n : ℕ) → disk n ≡ true) where
  -- A close in good order, with a working disk and fewer lines queued than the drain threshold, returns
  -- and ends the thread. All lines that were seen, the queued ones among them, are then the written
  -- batches in their order followed by the buffer; each batch is full, the buffer is not; and each of
  -- the last `max_files` batches is the content of its file.
  pub close-Retains :
      (lines seen : List String) (r : Runner)
      → 0 < r.max_files
      → Waits lines r
      → Retains seen r
      → length lines < r.min_drain_threshold
      → Closed (seen ++ lines) (close disk r)
  close-Retains lines seen r some_file w h short =
      let r' = (loop disk (map some lines) r).1 in
      let (ok, kept, same, empty) = loop-Retains disk healthy lines seen r some_file h in
      let consumed : consume disk r ≡ r' =
        consume-loop disk r w.runs w.unstopped ∙ ap (λ q. (loop disk q r).1) w.queued in
      let closed =
        close-close_joining disk r w.alive
          (omega (arith, ap length w.queued, length-map {B = Option String} some lines))
        ∙ close_joining_healthy disk r r' consumed (same.2 ∙ w.alive)
        ∙ λ i. (
          done tt,
          end_thread_waiting disk r' (same.3 ∙ w.runs) (same.5 ∙ w.unstopped) empty i,
        ) in
      subst (Closed (seen ++ lines)) (sym closed) (
        refl,
        record {
          batches = kept.batches;
          whole = kept.whole;
          full = kept.full;
          short = kept.short;
          index = kept.index;
          kept = kept.kept;
        },
        refl,
      )
