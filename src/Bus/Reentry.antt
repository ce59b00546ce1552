-- ===== src/Bus/Reentry.antt =====
-- A sink that emits while it is called.
use taskweave.Base.{
  ℕ, ◌+◌, ◌==◌, true, false, if◌then◌else◌, none, List, [], ◌∷◌, length, done, Stmt, skip, for_each,
  >>-done, ◌≡◌, ap, ◌∙◌, arith,
}
use taskweave.Protocol.{LogEvent}
use taskweave.Bus.{
  Enveloppe, Delivery, Client, MiniBus, lookup, last_seen, deliver, bump, persist_scoped, on_event,
  emit,
}
use taskweave.Bus.Sinks.{calm, number, bumped, last_seen-bumped, persist_scoped-none, emit_delivers}

-- Another event of the same source.
abbrev pub reply : LogEvent → LogEvent → LogEvent
reply event other = record other { source_id = event.source_id }

module _ {Snap : Type 0} where
  -- The call of a sink with this number emits the reply; no other call does anything to the bus.
  abbrev pub answering : LogEvent → ℕ → Client Snap
  answering r first n d = if n == first then emit calm r else skip

  -- A delivery of an event under a number.
  abbrev pub at : LogEvent → ℕ → ℕ → Delivery Snap
  at e sink n = record {
    sink = sink;
    enveloppe = record {
      event = record e { sequence = n };
      session_snapshot = none;
      last_seen_sequences = none;
    };
  }

  -- The bus with two global sinks.
  abbrev pub with_two : ℕ → ℕ → MiniBus Snap → MiniBus Snap
  with_two s t b = record b { global_sinks = s ∷ t ∷ [] }

module _ {Snap : Type 0} (event other : LogEvent) where
  answering-first :
      (n : ℕ) (d : Delivery Snap) (b : MiniBus Snap)
      → answering (reply event other) n n d b ≡ emit calm (reply event other) b
  answering-first n d b = ap (λ c. (if c then emit calm (reply event other) else skip) b) (equal n)
    where
      equal : (n : ℕ) → (n == n) ≡ true
      equal n = ground arith

  answering-later :
      (n m : ℕ) (d : Delivery Snap) (b : MiniBus Snap)
      → (m == n) ≡ false
      → answering (reply event other) n m d b ≡ (done tt, b)
  answering-later n m d b h = ap (λ c. (if c then emit calm (reply event other) else skip) b) h

  module _ (s t : ℕ) (b : MiniBus Snap) where
    -- The bus when the first sink is called, and what it leads to.
    abbrev called : MiniBus Snap
    called =
        let b1 : MiniBus Snap = bumped event.source_id (with_two s t b) in
        record b1 { delivered = at event s (last_seen event.source_id b1) ∷ b.delivered }

    abbrev answered : MiniBus Snap
    answered = (emit calm (reply event other) called).1

    abbrev deliveries : ℕ → List (Delivery Snap)
    deliveries n =
        at (reply event other) t (n + 1)
        ∷ at (reply event other) s (n + 1)
        ∷ at event s n
        ∷ b.delivered

    abbrev now : ℕ
    now = last_seen event.source_id (bumped event.source_id (with_two s t b))

    module _ (unscoped : lookup b.scoped_sinks event.source_id ≡ none) where
      answered-run :
          (emit calm (reply event other) called ≡ (done tt, answered))
          × (answered.delivered ≡ deliveries now)
      answered-run =
          let (ended, told, _) = emit_delivers (reply event other) called unscoped in
          (λ i. (ended i, answered), told)

      -- The loop over the two sinks.
      loop-run :
          for_each
            (s ∷ t ∷ [])
            (deliver
              (answering (reply event other) (length b.delivered))
              (at event s now).enveloppe)
            (bumped event.source_id (with_two s t b))
          ≡ (done tt, record answered { delivered = at event t now ∷ answered.delivered })
      unfolding deliver
      loop-run =
          >>-done (deliver client e s) (for_each (t ∷ []) (deliver client e)) first
          ∙ >>-done (deliver client e t) skip second
        where
          client : Client Snap
          client = answering (reply event other) (length b.delivered)

          e : Enveloppe Snap
          e = (at event s now).enveloppe

          first : deliver client e s (bumped event.source_id (with_two s t b)) ≡ (done tt, answered)
          first = answering-first (length b.delivered) (at event s now) called ∙ answered-run.0

          later : (length answered.delivered == length b.delivered) ≡ false
          later = ap (λ ds. length ds == length b.delivered) answered-run.1 ∙ ground arith

          second :
              deliver client e t answered
              ≡ (done tt, record answered { delivered = at event t now ∷ answered.delivered })
          second =
              answering-later (length b.delivered) (length answered.delivered) (at event t now)
                (record answered { delivered = at event t now ∷ answered.delivered }) later

      -- On a bus with two global sinks, a source without a scoped sink emits an event, and the first sink
      -- emits another event of this source when it is called: then the first sink gets the event with
      -- the source's next number n and the other with n + 1, and the second sink the other with n + 1
      -- before the event with n. (The list of what was delivered is newest first.)
      pub emit_answered :
          let r = reply event other in
          let n = number b event in
          (emit (answering r (length b.delivered)) event (with_two s t b)).1.delivered
          ≡ at event t n ∷ at r t (n + 1) ∷ at r s (n + 1) ∷ at event s n ∷ b.delivered
      unfolding emit bump on_event
      emit_answered =
          ap (λ out. out.1.delivered)
            (>>-done send (bump event.source_id) {w = b1} {w' = final} told)
          ∙ ap (λ ds. at event t now ∷ ds) answered-run.1
          ∙ ap (λ n. at event t n ∷ deliveries n)
              (last_seen-bumped event.source_id (with_two s t b))
        where
          client : Client Snap
          client = answering (reply event other) (length b.delivered)

          b1 : MiniBus Snap
          b1 = bumped event.source_id (with_two s t b)

          final : MiniBus Snap
          final = record answered { delivered = at event t now ∷ answered.delivered }

          send : Stmt (MiniBus Snap) Unit
          send b' =
              on_event client (record event { sequence = last_seen event.source_id b' }) none b'

          told : send b1 ≡ (done tt, final)
          told =
              >>-done (persist_scoped client (record event { sequence = now })) _
                (persist_scoped-none client (record event { sequence = now }) b1 unscoped)
              ∙ loop-run
