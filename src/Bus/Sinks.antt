-- ===== src/Bus/Sinks.antt =====
-- Which sinks an event reaches, and when it reaches none.
use taskweave.Base.{
  ℕ, ◌+◌, true, Option, none, is_some, List, [], ◌∷◌, Outcome, done, raised, Stmt, skip, for_each,
  ◌>>◌, >>-done, ◌≡◌, refl, sym, ◌∙◌, arith, subst, ap,
}
use taskweave.Exceptions.{attribute_error}
use taskweave.Protocol.{LogEvent, TaskId}
use taskweave.Bus.{
  Enveloppe, Delivery, Client, MiniBus, lookup, assign, entry, last_seen, deliver, bump, persist,
  persist_scoped, on_event, on_internal_event, emit, on_failure, by_policy, handle_policy,
  emit_internal,
}
use taskweave.Bus.Order.{lookup-assign-same}

module _ {Snap : Type 0} where
  -- Every sink returns and does nothing to the bus.
  abbrev pub calm : Client Snap
  calm n d = skip

  -- The deliveries of one enveloppe to the sinks in turn, newest first.
  abbrev pub sent : Enveloppe Snap → List ℕ → List (Delivery Snap) → List (Delivery Snap)
  sent e [] acc = acc
  sent e (sink ∷ sinks) acc = sent e sinks (record { sink = sink; enveloppe = e } ∷ acc)

  pub for_each-deliver :
      (e : Enveloppe Snap) (sinks : List ℕ) (b : MiniBus Snap)
      → for_each sinks (deliver calm e) b
        ≡ (done tt, record b { delivered = sent e sinks b.delivered })
  unfolding deliver
  for_each-deliver e [] b = refl
  for_each-deliver e (sink ∷ sinks) b = for_each-deliver e sinks _

  abbrev pub number : MiniBus Snap → LogEvent → ℕ
  number b event = last_seen event.source_id b + 1

  abbrev pub numbered : MiniBus Snap → LogEvent → Enveloppe Snap
  numbered b event = record {
    event = record event { sequence = number b event };
    session_snapshot = none;
    last_seen_sequences = none;
  }

  pub persist_scoped-none :
      (client : Client Snap) (event : LogEvent) (b : MiniBus Snap)
      → lookup b.scoped_sinks event.source_id ≡ none
      → persist_scoped client event b ≡ (done tt, b)
  unfolding persist
  persist_scoped-none client event b unscoped = ground arith

  on_event-calm :
      (event : LogEvent) (snapshot : Option Snap) (b : MiniBus Snap)
      → lookup b.scoped_sinks event.source_id ≡ none
      → let e : Enveloppe Snap = record {
        event = event;
        session_snapshot = snapshot;
        last_seen_sequences = none;
      } in
        on_event calm event snapshot b
        ≡ (done tt, record b { delivered = sent e b.global_sinks b.delivered })
  unfolding on_event
  on_event-calm event snapshot b unscoped =
      >>-done (persist_scoped calm event) _ (persist_scoped-none calm event b unscoped)
      ∙ for_each-deliver _ b.global_sinks b

  abbrev pub bumped : TaskId → MiniBus Snap → MiniBus Snap
  bumped id b =
      let s = entry (lookup b.seen id) in
      record b { seen = assign b.seen id (record s { last_seen = s.last_seen + 1 }) }

  pub last_seen-bumped :
      (id : TaskId) (b : MiniBus Snap) → last_seen id (bumped id b) ≡ last_seen id b + 1
  last_seen-bumped id b =
      ap (λ r. (entry r).last_seen) (lookup-assign-same b.seen id id _ (ground arith))

  -- A source without a scoped sink, and sinks that return and do not call the bus: the event reaches every global sink
  -- once, in the order of registration, with the number after the source's last one; and `last_seen`
  -- of the source goes up by two, so that every second number is never given.
  pub emit_delivers :
      (event : LogEvent) (b : MiniBus Snap)
      → lookup b.scoped_sinks event.source_id ≡ none
      → let out = emit calm event b in
        (out.0 ≡ done tt)
        × (out.1.delivered ≡ sent (numbered b event) b.global_sinks b.delivered)
        × (last_seen event.source_id out.1 ≡ last_seen event.source_id b + 2)
  unfolding emit bump
  emit_delivers event b unscoped = subst Good (sym step) (
    refl,
    ap (λ n. sent (with_number n) b.global_sinks b.delivered)
        (last_seen-bumped (event.source_id) b),
    ground (arith, last_seen-bumped (event.source_id) b, last_seen-bumped (event.source_id) b2),
  )
    where
      with_number : ℕ → Enveloppe Snap
      with_number n = record {
        event = record event { sequence = n };
        session_snapshot = none;
        last_seen_sequences = none;
      }

      b1 : MiniBus Snap
      b1 = bumped (event.source_id) b

      b2 : MiniBus Snap
      b2 = record b1 {
        delivered = sent (with_number (last_seen event.source_id b1)) b1.global_sinks b1.delivered;
      }

      send : Stmt (MiniBus Snap) Unit
      send b = on_event calm (record event { sequence = last_seen event.source_id b }) none b

      step : (send >> bump (event.source_id)) b1 ≡ bump (event.source_id) b2
      step = >>-done send (bump (event.source_id)) {w = b1} {w' = b2} (
          on_event-calm (record event { sequence = last_seen event.source_id b1 }) none b1 unscoped)

      Good : Outcome Unit × MiniBus Snap → Type 0
      Good out =
          (out.0 ≡ done tt)
          × (out.1.delivered ≡ sent (numbered b event) b.global_sinks b.delivered)
          × (last_seen event.source_id out.1 ≡ last_seen event.source_id b + 2)

  -- An event of a source with a scoped sink and a context, whose routing asks for persistence, reaches
  -- no sink and no file: formatting its line raises AttributeError.
  pub emit_persisted_fails :
      (client : Client Snap) (event : LogEvent) (b : MiniBus Snap)
      → is_some (lookup b.scoped_sinks event.source_id) ≡ true
      → is_some (lookup b.contexts event.source_id) ≡ true
      → event.routing.persist ≡ true
      → let out = emit client event b in
        (out.0 ≡ raised attribute_error)
        × (out.1.delivered ≡ b.delivered)
        × (out.1.contexts ≡ b.contexts)
  unfolding emit bump on_event persist
  emit_persisted_fails client event b scoped context routed = ground arith

  -- With no error sink, and nothing in the package registers one, an internal event is delivered
  -- nowhere.
  pub emit_internal_unheard :
      (client : Client Snap) (snapshot : LogEvent → Outcome Snap) (event : LogEvent)
      (b : MiniBus Snap)
      → b.error_sinks ≡ []
      → (emit_internal client snapshot event b).1.delivered ≡ b.delivered
  unfolding emit_internal bump handle_policy on_failure by_policy on_internal_event
  emit_internal_unheard client snapshot event b unheard = ground arith
