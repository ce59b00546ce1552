-- ===== src/Producers/Identity.antt =====
-- Whether the events of lines find what is registered for their task.
use taskweave.Base.{ℕ, ◌<◌, String, Bool, true, false, none, List, [], ◌∷◌, done, ◌≡◌, refl, arith}
use taskweave.Protocol.{TaskId, LogEvent}
use taskweave.Bus.{MiniBus, lookup, persist}
use taskweave.Producers.{Counters, log_event_line, new_event}

-- Every key is one of the TaskIds that there are.
abbrev pub AllExist : {V : Type 0} → ℕ → List (TaskId × V) → Type 0
AllExist n [] = Unit
AllExist n ((id, v) ∷ d) = (id.ident < n) × AllExist n d

lookup-fresh :
    {V : Type 0} (n : ℕ) (d : List (TaskId × V)) (id : TaskId)
    → AllExist n d
    → id.ident ≡ n
    → lookup d id ≡ none
lookup-fresh n [] id exist fresh = refl
lookup-fresh n ((k, v) ∷ d) id (below, exist) fresh =
    ground (arith, below, fresh, lookup-fresh n d id exist fresh)

module _ {Snap : Type 0} (clock : ℕ → ℕ) (source line : String) (s : Counters)
    (b : MiniBus Snap) where
  new_source :
      (persists : Bool) (event : LogEvent)
      → (log_event_line clock persists source line s).0 ≡ done event
      → event.source_id.ident ≡ s.objects
  unfolding log_event_line new_event
  new_source true event made = ground (arith, made)
  new_source false event made = ground (arith, made)

  -- The event that LogEventProducer makes of a line, also when it asks to be persisted, is not: its
  -- source is a new TaskId, which no backend is registered for, whatever the text is, and `persist`
  -- returns without a word.
  pub line_unpersisted :
      (persists : Bool) (event : LogEvent)
      → AllExist s.objects b.contexts
      → (log_event_line clock persists source line s).0 ≡ done event
      → persist event b ≡ (done tt, b)
  unfolding persist
  line_unpersisted persists event exist made = ground (
    arith,
    lookup-fresh s.objects b.contexts event.source_id exist (new_source persists event made),
  )
