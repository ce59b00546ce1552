-- ===== src/Bus/Order.antt =====
-- The numbers that the bus gives to the events of a source.
use taskweave.Base.{
  ℕ, ◌≤◌, Bool, true, false, Option, none, some, is_some, List, [], ◌∷◌, Stmt, Outcome, ◌≡◌, refl,
  arith, Keeps, ◌>>◌, >>-Keeps, >>=-Keeps, for_each-Keeps, if_both, length, subst, sym, String,
}
use taskweave.Protocol.{LogEvent, TaskId, same_task_id}
use taskweave.Persist.Runner.{Runner}
use taskweave.Bus.{
  SeenSequences, Delivery, MiniBus, Client, ObservabilityPolicy, safe, best_effort, lookup, assign,
  entry, last_seen, deliver, persist_scoped, bump, by_text, persist, persist_in, on_event,
  on_internal_event, emit, on_failure, by_policy, handle_policy, emit_internal,
}

trans_le : {a b c : ℕ} → a ≤ b → b ≤ c → a ≤ c
trans_le p q = omega arith

module _ {V : Type 0} where
  pub lookup-assign-same :
      (d : List (TaskId × V)) (id j : TaskId) (v : V)
      → same_task_id id j ≡ true
      → lookup (assign d id v) j ≡ some v
  lookup-assign-same [] id j v q = ground arith
  lookup-assign-same ((k, u) ∷ d) id j v q = ground (arith, lookup-assign-same d id j v q)

  lookup-assign-other :
      (d : List (TaskId × V)) (id j : TaskId) (v : V)
      → same_task_id id j ≡ false
      → lookup (assign d id v) j ≡ lookup d j
  lookup-assign-other [] id j v q = ground arith
  lookup-assign-other ((k, u) ∷ d) id j v q = ground (arith, lookup-assign-other d id j v q)

  pub lookup-same :
      (d : List (TaskId × V)) (id j : TaskId) → same_task_id id j ≡ true → lookup d id ≡ lookup d j
  lookup-same [] id j q = refl
  lookup-same ((k, u) ∷ d) id j q = ground (arith, lookup-same d id j q)

module _ {Snap : Type 0} where
  -- What was delivered of the source has numbers up to this one.
  abbrev pub Below : ℕ → TaskId → List (Delivery Snap) → Type 0
  Below n id [] = Unit
  Below n id (d ∷ ds) =
      (same_task_id d.enveloppe.event.source_id id ≡ true → d.enveloppe.event.sequence ≤ n)
      × Below n id ds

  -- No delivery has a smaller number than an earlier one of its source.
  abbrev pub Ordered : List (Delivery Snap) → Type 0
  Ordered [] = Unit
  Ordered (d ∷ ds) = Below d.enveloppe.event.sequence d.enveloppe.event.source_id ds × Ordered ds

  pub record IsNumbered (b : MiniBus Snap) : Type 0 where
    pub below : (id : TaskId) → Below (entry (lookup b.seen id)).last_seen id b.delivered
    pub ordered : Ordered b.delivered

  Below-le :
      (n m : ℕ) (id : TaskId) (ds : List (Delivery Snap)) → n ≤ m → Below n id ds → Below m id ds
  Below-le n m id [] h p = tt
  Below-le n m id (d ∷ ds) h (p, q) = ((λ e. trans_le (p e) h), Below-le n m id ds h q)

  -- A number of the source went up, the deliveries are the same.
  raise_seen :
      (b : MiniBus Snap) (id : TaskId) (s : SeenSequences)
      → (entry (lookup b.seen id)).last_seen ≤ s.last_seen
      → IsNumbered b
      → IsNumbered (record b { seen = assign b.seen id s })
  raise_seen b id s h p = record {
    below = λ j. Below-le _ _ j b.delivered (grown j (same_task_id id j) refl) (p.below j);
    ordered = p.ordered;
  }
    where
      grown :
          (j : TaskId) (t : Bool)
          → same_task_id id j ≡ t
          → (entry (lookup b.seen j)).last_seen ≤ (entry (lookup (assign b.seen id s) j)).last_seen
      grown j true q =
          ground (arith, lookup-assign-same b.seen id j s q, lookup-same b.seen id j q, h)
      grown j false q = ground (arith, lookup-assign-other b.seen id j s q)

  bump-IsNumbered : (id : TaskId) → Keeps IsNumbered (bump id)
  unfolding bump
  bump-IsNumbered id b p = raise_seen b id _ (ground arith) p

  -- The bus while it delivers an event: the event has the last number of its source.
  record IsDelivering (event : LogEvent) (b : MiniBus Snap) : Type 0 where
    numbered : IsNumbered b
    current : event.sequence ≡ (entry (lookup b.seen event.source_id)).last_seen

  -- No sink calls the bus again: each returns or raises and leaves the bus as it is.
  abbrev pub LeavesBus : Client Snap → Type 0
  LeavesBus client = (n : ℕ) (d : Delivery Snap) (b : MiniBus Snap) → (client n d b).1 ≡ b

  module _ (client : Client Snap) (leaves : LeavesBus client) (event : LogEvent) where
    deliver-IsDelivering :
        (snapshot : Option Snap) (texts : Option (List (String × SeenSequences))) (sink : ℕ)
        → Keeps (IsDelivering event) (
            deliver client
              (record { event = event; session_snapshot = snapshot; last_seen_sequences = texts })
              sink)
    unfolding deliver
    deliver-IsDelivering snapshot texts sink b p =
        let d : Delivery Snap = record {
          sink = sink;
          enveloppe = record {
            event = event;
            session_snapshot = snapshot;
            last_seen_sequences = texts;
          };
        } in
        let b' : MiniBus Snap = record b { delivered = d ∷ b.delivered } in
        subst (IsDelivering event) (sym (leaves (length b.delivered) d b')) (record {
          numbered = record {
            below = λ j. (
              (λ e. ground (arith, lookup-same b.seen (event.source_id) j e, p.current)),
              p.numbered.below j,
            );
            ordered = (
              subst (λ n. Below n (event.source_id) b.delivered) (sym p.current)
                  (p.numbered.below (event.source_id)),
              p.numbered.ordered,
            );
          };
          current = p.current;
        })

    persist-IsDelivering : Keeps (IsDelivering event) (persist event)
    unfolding persist persist_in
    persist-IsDelivering b p = kept (lookup b.contexts event.source_id)
      where
        kept : (r : Option Runner) → IsDelivering event (persist_in r b).1
        kept none = p
        kept (some ctx) = p

    on_event-IsDelivering :
        (snapshot : Option Snap) → Keeps (IsDelivering event) (on_event client event snapshot)
    unfolding on_event
    on_event-IsDelivering snapshot =
        >>-Keeps (IsDelivering event) (persist_scoped client event) _
          (λ b p.
            if_both (λ (out : Outcome Unit × MiniBus Snap). IsDelivering event (out.1))
              (is_some (lookup b.scoped_sinks event.source_id))
              (if_both (λ (out : Outcome Unit × MiniBus Snap). IsDelivering event (out.1))
                event.routing.persist (persist-IsDelivering b p) p)
              p)
          (λ b.
            for_each-Keeps (IsDelivering event) b.global_sinks _
              (deliver-IsDelivering snapshot none) b)

    on_internal_event-IsDelivering :
        (snapshot : Option Snap) (texts : Option (List (String × SeenSequences)))
        → Keeps (IsDelivering event) (on_internal_event client event snapshot texts)
    unfolding on_internal_event
    on_internal_event-IsDelivering snapshot texts = λ b.
        for_each-Keeps (IsDelivering event) b.error_sinks _ (deliver-IsDelivering snapshot texts) b

    on_failure-IsDelivering :
        Keeps (IsDelivering event) (on_failure (event.source_id) (event.sequence))
    unfolding on_failure
    on_failure-IsDelivering b p = record {
      numbered = raise_seen b (event.source_id) _ (ground arith) p.numbered;
      current = ground (
        arith,
        p.current,
        lookup-assign-same b.seen (event.source_id) (event.source_id)
            (record (entry (lookup b.seen event.source_id)) {
              sequence_on_failure = event.sequence;
            }),
      );
    }

    by_policy-IsDelivering :
        (snapshot : LogEvent → Outcome Snap) (policy : ObservabilityPolicy)
        → Keeps (IsDelivering event) (by_policy client snapshot policy event)
    unfolding by_policy
    by_policy-IsDelivering snapshot safe =
        >>=-Keeps (IsDelivering event) (λ b. (snapshot event, b)) _ (λ b p. p)
          (λ snap b. on_internal_event-IsDelivering (some snap) (some (by_text b.seen)) b)
    by_policy-IsDelivering snapshot best_effort = on_internal_event-IsDelivering none none

    handle_policy-IsDelivering :
        (snapshot : LogEvent → Outcome Snap)
        → Keeps (IsDelivering event) (handle_policy client snapshot event)
    unfolding handle_policy
    handle_policy-IsDelivering snapshot =
        >>-Keeps (IsDelivering event) (on_failure (event.source_id) (event.sequence))
          (λ b. by_policy client snapshot b.policy event b) on_failure-IsDelivering
          (λ b. by_policy-IsDelivering snapshot b.policy b)

  -- Emitting keeps the numbers in order, where no sink calls the bus again, and also when one of them
  -- raises: no delivery has a smaller number than an earlier one of the same source, and all numbers of
  -- a source are at most its `last_seen`.
  pub emit-IsNumbered :
      (client : Client Snap) (event : LogEvent)
      → LeavesBus client
      → Keeps IsNumbered (emit client event)
  unfolding emit
  emit-IsNumbered client event leaves =
      >>-Keeps IsNumbered (bump (event.source_id)) (send >> bump (event.source_id))
        (bump-IsNumbered (event.source_id))
        (>>-Keeps IsNumbered send (bump (event.source_id))
          (λ b p.
            (on_event-IsDelivering client leaves
              (record event { sequence = last_seen event.source_id b }) none b
              (record { numbered = p; current = refl })).numbered)
          (bump-IsNumbered (event.source_id)))
    where
      send : Stmt (MiniBus Snap) Unit
      send b = on_event client (record event { sequence = last_seen event.source_id b }) none b

  -- So does an internal event under either policy, also when the snapshot raises.
  pub emit_internal-IsNumbered :
      (client : Client Snap) (snapshot : LogEvent → Outcome Snap) (event : LogEvent)
      → LeavesBus client
      → Keeps IsNumbered (emit_internal client snapshot event)
  unfolding emit_internal
  emit_internal-IsNumbered client snapshot event leaves =
      >>-Keeps IsNumbered (bump (event.source_id)) send (bump-IsNumbered (event.source_id)) (λ b p.
        (handle_policy-IsDelivering client leaves
          (record event { sequence = last_seen event.source_id b }) snapshot b
          (record { numbered = p; current = refl })).numbered)
    where
      send : Stmt (MiniBus Snap) Unit
      send b =
          handle_policy client snapshot (record event { sequence = last_seen event.source_id b }) b
