-- ===== src/Bus/Internal.antt =====
-- What becomes of an internal event when no snapshot can be had for it.
use taskweave.Base.{
  ℕ, ◌+◌, none, List, [], ◌∷◌, for_each, >>-done, Outcome, done, raised, ◌≡◌, refl, sym, ◌∙◌, arith,
  subst, ap,
}
use taskweave.Exceptions.{Exception}
use taskweave.Protocol.{LogEvent, TaskId}
use taskweave.Bus.{
  ObservabilityPolicy, safe, best_effort, Enveloppe, Delivery, Client, deliver, MiniBus, lookup,
  assign, entry, last_seen, bump, on_internal_event, on_failure, by_policy, handle_policy,
  emit_internal,
}
use taskweave.Bus.Order.{lookup-assign-same}
use taskweave.Bus.Sinks.{calm, sent, for_each-deliver, number, numbered, bumped, last_seen-bumped}

-- What an internal event comes to when no snapshot can be had for it: under the safe policy the
-- exception of the snapshot getter, under the other a normal end.
abbrev pub internal_outcome : Exception → ObservabilityPolicy → Outcome Unit
internal_outcome e safe = raised e
internal_outcome e best_effort = done tt

module _ {Snap : Type 0} where
  abbrev pub internal_deliveries :
      ObservabilityPolicy → MiniBus Snap → LogEvent → List (Delivery Snap)
  internal_deliveries safe b event = b.delivered
  internal_deliveries best_effort b event = sent (numbered b event) b.error_sinks b.delivered

  abbrev pub sequence_on_failure : TaskId → MiniBus Snap → ℕ
  sequence_on_failure id b = (entry (lookup b.seen id)).sequence_on_failure

  -- The bus after the number of a report was given and kept.
  abbrev reported : TaskId → MiniBus Snap → MiniBus Snap
  reported id b =
      let b1 = bumped id b in
      let s = entry (lookup b1.seen id) in
      record b1 { seen = assign b1.seen id (record s { sequence_on_failure = last_seen id b1 }) }

  reported-numbers :
      (id : TaskId) (b : MiniBus Snap)
      → (last_seen id (reported id b) ≡ last_seen id b + 1)
        × (sequence_on_failure id (reported id b) ≡ last_seen id b + 1)
  reported-numbers id b =
      let b1 = bumped id b in
      let s = entry (lookup b1.seen id) in
      let here =
        lookup-assign-same b1.seen id id (record s { sequence_on_failure = last_seen id b1 })
          (ground arith) in
      let once = last_seen-bumped id b in
      (
        ap (λ r. (entry r).last_seen) here ∙ once,
        ap (λ r. (entry r).sequence_on_failure) here ∙ once,
      )

  pub emit_internal_blind :
      (e : Exception) (event : LogEvent) (b : MiniBus Snap)
      → let out = emit_internal calm (λ event. raised e) event b in
        (out.0 ≡ internal_outcome e b.policy)
        × (out.1.delivered ≡ internal_deliveries b.policy b event)
        × (last_seen event.source_id out.1 ≡ number b event)
        × (sequence_on_failure event.source_id out.1 ≡ number b event)
  unfolding emit_internal bump handle_policy on_failure by_policy on_internal_event
  emit_internal_blind e event b = by b.policy
    where
      Good : ObservabilityPolicy → Outcome Unit × MiniBus Snap → Type 0
      Good p out =
          (out.0 ≡ internal_outcome e p)
          × (out.1.delivered ≡ internal_deliveries p b event)
          × (last_seen event.source_id out.1 ≡ number b event)
          × (sequence_on_failure event.source_id out.1 ≡ number b event)

      with_number : ℕ → Enveloppe Snap
      with_number n = record {
        event = record event { sequence = n };
        session_snapshot = none;
        last_seen_sequences = none;
      }

      by :
          (p : ObservabilityPolicy)
          → Good p (emit_internal calm (λ event. raised e) event (record b { policy = p }))
      by safe =
          let (last, failed) = reported-numbers event.source_id b in (refl, refl, last, failed)
      by best_effort =
          let b1 : MiniBus Snap = bumped event.source_id b in
          let b2 : MiniBus Snap = reported event.source_id (record b { policy = best_effort }) in
          let n = last_seen event.source_id b1 in
          let (last, failed) = reported-numbers event.source_id b in
          subst (Good best_effort) (sym (for_each-deliver (with_number n) b.error_sinks b2)) (
            refl,
            ap (λ n. sent (with_number n) b.error_sinks b.delivered)
                (last_seen-bumped event.source_id b),
            last,
            failed,
          )

  -- With sinks that return and leave the bus as it is.
  for_each-quiet :
      (client : Client Snap)
      → ((n : ℕ) (d : Delivery Snap) (b : MiniBus Snap) → client n d b ≡ (done tt, b))
      → (e : Enveloppe Snap) (sinks : List ℕ) (b : MiniBus Snap)
      → for_each sinks (deliver client e) b
        ≡ (done tt, record b { delivered = sent e sinks b.delivered })
  unfolding deliver
  for_each-quiet client quiet e [] b = refl
  for_each-quiet client quiet e (sink ∷ sinks) b =
      >>-done (deliver client e sink) (for_each sinks (deliver client e)) (quiet _ _ _)
      ∙ for_each-quiet client quiet e sinks _

  -- How an internal event ends, whatever the sinks do under the safe policy, and with sinks that return
  -- and leave the bus as it is under the other.
  pub emit_internal-ends :
      (client : Client Snap) (e : Exception) (event : LogEvent) (b : MiniBus Snap)
      → (b.policy ≡ best_effort
          → (n : ℕ) (d : Delivery Snap) (b' : MiniBus Snap) → client n d b' ≡ (done tt, b'))
      → let out = emit_internal client (λ event. raised e) event b in
        (out.0 ≡ internal_outcome e b.policy) × (out.1.policy ≡ b.policy)
  unfolding emit_internal bump handle_policy on_failure by_policy on_internal_event
  emit_internal-ends client e event b h = by b.policy h
    where
      Ends : ObservabilityPolicy → Outcome Unit × MiniBus Snap → Type 0
      Ends p out = (out.0 ≡ internal_outcome e p) × (out.1.policy ≡ p)

      by :
          (p : ObservabilityPolicy)
          → (p ≡ best_effort
              → (n : ℕ) (d : Delivery Snap) (b' : MiniBus Snap) → client n d b' ≡ (done tt, b'))
          → Ends p (emit_internal client (λ event. raised e) event (record b { policy = p }))
      by safe h = (refl, refl)
      by best_effort h =
          subst (Ends best_effort) (sym (for_each-quiet client (h refl) _ b.error_sinks _))
            (refl, refl)
