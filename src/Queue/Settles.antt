-- ===== src/Queue/Settles.antt =====
-- The consumer settles what it takes: each delivery once, in order, before it takes the next.
use student_system_go.Common.{ℕ, ◌≡◌, ◌≢◌, refl, ap, Option, List, [], ◌∷◌, map}
use student_system_go.Reflect.Json.{Json}
use student_system_go.Queue.{
  Outcome, success, failure, panicked, Settlement, ack, nack, Delivery, Event, cancelled, closed,
  delivery, Ended, waiting, stopped, failed, settle, handle_one, consume_loop,
}

-- The deliveries that come before the context is over or the channel is closed.
abbrev pub taken : List Event → List Delivery
taken [] = []
taken (cancelled ∷ events) = []
taken (closed ∷ events) = []
taken (delivery d ∷ events) = d ∷ taken events

abbrev pub tag_of : Settlement → ℕ
tag_of (ack t) = t
tag_of (nack t) = t

-- Where the loop ends, by the first event that is no delivery.
abbrev pub end_of : List Event → Ended
end_of [] = waiting
end_of (cancelled ∷ events) = stopped
end_of (closed ∷ events) = failed "rabbitmq: deliveries channel closed"
end_of (delivery d ∷ events) = end_of events

module _ {W : Type 0} (handler : Option Json → W → Outcome × W) where
  -- A run over deliveries: each is acknowledged if its handler succeeds, in the state that the handlers
  -- before it left, and rejected without requeue if it fails or panics.
  pub data Settled : List Delivery → W → List Settlement → W → Type 0 where
    nothing : (w : W) → Settled [] w [] w
    acknowledged :
        (d : Delivery) (ds : List Delivery) (w v u : W) (settled : List Settlement)
        → handler d.body w ≡ (success, v)
        → Settled ds v settled u
        → Settled (d ∷ ds) w (ack d.tag ∷ settled) u
    rejected :
        (d : Delivery) (ds : List Delivery) (w v u : W) (outcome : Outcome)
        (settled : List Settlement)
        → outcome ≢ success
        → handler d.body w ≡ (outcome, v)
        → Settled ds v settled u
        → Settled (d ∷ ds) w (nack d.tag ∷ settled) u

  Settled-tags :
      (ds : List Delivery) (w u : W) (settled : List Settlement)
      → Settled ds w settled u
      → map tag_of settled ≡ map (λ d. d.tag) ds
  Settled-tags _ _ _ _ (nothing w) = refl
  Settled-tags _ _ _ _ (acknowledged d ds w v u settled h rest) =
      ap (λ ts. d.tag ∷ ts) (Settled-tags ds v u settled rest)
  Settled-tags _ _ _ _ (rejected d ds w v u outcome settled k h rest) =
      ap (λ ts. d.tag ∷ ts) (Settled-tags ds v u settled rest)

  settle-Settled :
      (d : Delivery) (ds : List Delivery) (w v u : W) (outcome : Outcome)
      (settled : List Settlement)
      → handler d.body w ≡ (outcome, v)
      → Settled ds v settled u
      → Settled (d ∷ ds) w (settle handler d.tag outcome ∷ settled) u
  settle-Settled d ds w v u success settled h rest = acknowledged d ds w v u settled h rest
  settle-Settled d ds w v u (failure cause) settled h rest =
      rejected d ds w v u (failure cause) settled (λ e. cc) h rest
  settle-Settled d ds w v u panicked settled h rest =
      rejected d ds w v u panicked settled (λ e. cc) h rest

  consume_loop-Settled :
      (events : List Event) (w : W)
      → Settled (taken events) w (consume_loop handler events w).1 (consume_loop handler events w).2
  unfolding consume_loop handle_one
  consume_loop-Settled [] w = nothing w
  consume_loop-Settled (cancelled ∷ events) w = nothing w
  consume_loop-Settled (closed ∷ events) w = nothing w
  consume_loop-Settled (delivery d ∷ events) w =
      let after = (handler d.body w).1 in
      settle-Settled d (taken events) w after (consume_loop handler events after).2
        (handler d.body w).0 (consume_loop handler events after).1 refl
        (consume_loop-Settled events after)

  consume_loop-end :
      (events : List Event) (w : W) → (consume_loop handler events w).0 ≡ end_of events
  unfolding consume_loop handle_one
  consume_loop-end [] w = refl
  consume_loop-end (cancelled ∷ events) w = refl
  consume_loop-end (closed ∷ events) w = refl
  consume_loop-end (delivery d ∷ events) w = consume_loop-end events (handler d.body w).1

  -- The consumer takes the deliveries that come before the context is over or the channel is closed, and
  -- settles each of them once, in the order in which they come: with an acknowledgement if the handler
  -- succeeds, and otherwise, also after a panic, with a rejection that is not requeued. It returns nil
  -- when the context is over first, and an error when the channel is closed first.
  pub consume_loop-Settles :
      (events : List Event) (w : W)
      → ((consume_loop handler events w).0 ≡ end_of events)
        × Settled
            (taken events)
            w
            (consume_loop handler events w).1
            (consume_loop handler events w).2
        × (map tag_of (consume_loop handler events w).1 ≡ map (λ d. d.tag) (taken events))
  consume_loop-Settles events w = (
    consume_loop-end events w,
    consume_loop-Settled events w,
    Settled-tags (taken events) w _ _ (consume_loop-Settled events w),
  )
