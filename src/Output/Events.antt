-- ===== src/Output/Events.antt =====
-- The thread that reads the output of a worker, with the default producer: `read_subprocess_output` of
-- src/taskweave/workers/basic_worker.py, whose lines LogEventProducer makes events of, which are put
-- into the queue of the manager. `to_string` is the text of a line.
use mathlib.Core.List.{append-nil, append_assoc}
use taskweave.Base.{
  ℕ, String, Bool, true, false, none, if◌then◌else◌, List, [], ◌∷◌, ◌++◌, map, Outcome, done,
  raised, Stmt, for_each, >>-done, Bool-cases, inl, inr, ◌≡◌, refl, sym, subst, ap, ◌∙◌,
}
use taskweave.Exceptions.{Message, text}
use taskweave.Protocol.{LogEvent, MsgType, SourceType, default_routing}
use taskweave.Producers.{Counters, new_event, log_event_line}
use taskweave.Output.{
  Text, is_empty, strip, read_line, read_subprocess_output, split_lines, to_newlines,
}
use taskweave.Output.Chunks.{AllEnded, concat, reads_whole}

pub record Reader : Type 0 where
  pub counters : Counters
  pub print_queue : List LogEvent

abbrev pub put_event : Outcome LogEvent × Counters → Reader → Outcome Unit × Reader
put_event (done event, c) r =
    (done tt, record { counters = c; print_queue = r.print_queue ++ event ∷ [] })
put_event (raised e, c) r = (raised e, record r { counters = c })

-- The lines that are not blank, stripped.
abbrev pub kept_lines : (ℕ → Bool) → List Text → List Text
kept_lines is_space [] = []
kept_lines is_space (line ∷ lines) =
    let rest = kept_lines is_space lines in
    if is_empty (strip is_space line) then rest else strip is_space line ∷ rest

abbrev pub messages : List LogEvent → List Message
messages events = map (λ event. event.msg) events

messages-append : (xs ys : List LogEvent) → messages (xs ++ ys) ≡ messages xs ++ messages ys
messages-append [] ys = refl
messages-append (x ∷ xs) ys = ap (λ ms. x.msg ∷ ms) (messages-append xs ys)

module _ (clock : ℕ → ℕ) (persists : Bool) (name : String) (to_string : Text → String)
    (is_space : ℕ → Bool) where
  -- `event = self.producer.on_line(self.name, …)`, and its way into the queue.
  unfoldable pub queue_line : Text → Stmt Reader Unit
  unfolding log_event_line
  queue_line line r = put_event (log_event_line clock persists name (to_string line) r.counters) r

  abbrev pub message_of : Text → Message
  message_of line = text (to_string line)

  -- The reading has ended normally, and these lines were put behind what was in the queue.
  abbrev pub Queues : List Text → Reader → Outcome Unit × Reader → Type 0
  Queues lines r out =
      (out.0 ≡ done tt)
      × (messages out.1.print_queue
          ≡ messages r.print_queue ++ map message_of (kept_lines is_space lines))

  queue_line-returns :
      (line : Text) (r : Reader) → queue_line line r ≡ (done tt, (queue_line line r).1)
  unfolding queue_line log_event_line new_event
  queue_line-returns line r = refl

  queue_line-messages :
      (line : Text) (r : Reader)
      → messages (queue_line line r).1.print_queue ≡ messages r.print_queue ++ message_of line ∷ []
  unfolding queue_line log_event_line new_event
  queue_line-messages line r = by persists
    where
      e : LogEvent
      e = record {
        source_id = record { ident = r.counters.objects; value = name };
        state = none;
        msg_type = MsgType.log_line;
        source_type = SourceType.task;
        timestamp = clock r.counters.readings;
        routing = default_routing;
        sequence = 0;
        msg = message_of line;
      }

      by :
          (b : Bool)
          → messages (
              r.print_queue
              ++ (if b then record e { routing = record { forward = true; persist = true } } else e)
                ∷ [])
            ≡ messages r.print_queue ++ message_of line ∷ []
      by true =
          messages-append r.print_queue
            (record e { routing = record { forward = true; persist = true } } ∷ [])
      by false = messages-append r.print_queue (e ∷ [])

  abbrev read : List Text → Stmt Reader Unit
  read lines = for_each lines (read_line is_space queue_line)

  read-Queues : (lines : List Text) (r : Reader) → Queues lines r (read lines r)
  unfolding read_line
  read-Queues [] r = (refl, sym (append-nil (messages r.print_queue)))
  read-Queues (line ∷ lines) r = elim (Bool-cases (is_empty (strip is_space line))) [
    | inl blank ↦ rw blank (read-Queues lines r)
    | inr full ↦
        let words = strip is_space line in
        let r' = (queue_line words r).1 in
        let (ok, rest) = read-Queues lines r' in
        let first = >>-done (λ r. queue_line words r) (read lines) (queue_line-returns words r) in
        rw full (
          ap (λ out. out.0) first ∙ ok,
          ap (λ out. messages out.1.print_queue) first
              ∙ rest
              ∙ ap (λ ms. ms ++ map message_of (kept_lines is_space lines))
                  (queue_line-messages words r)
              ∙ append_assoc (messages r.print_queue) (message_of words ∷ [])
                  (map message_of (kept_lines is_space lines)),
        )
  ]

  -- When each answer of the output stream ends with the end of a line, the reading ends normally, and
  -- behind what was in the queue there is one event for each line of the whole output that is not
  -- blank, in order, with the stripped line for its message.
  pub output_queued :
      (chunks : List Text) (r : Reader)
      → AllEnded chunks
      → Queues
          (split_lines (to_newlines (concat chunks)))
          r
          (read_subprocess_output is_space queue_line (chunks ++ [] ∷ []) r)
  output_queued chunks r ended =
      let lines = split_lines (to_newlines (concat chunks)) in
      subst (Queues lines r) (sym (reads_whole is_space queue_line chunks r ended))
        (read-Queues lines r)
