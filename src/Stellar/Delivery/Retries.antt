-- ===== src/Stellar/Delivery/Retries.antt =====
-- Deliveries that fail, and the timers that queue them again.
use xlm_pay.Base.{
  ℕ, String, ◌+◌, ◌≡◌, refl, false, Option, List, ◌∷◌, ◌++◌, All, All-append, All-take, All-drop,
  All-without, subst, leb, some, Bool-cases, inl, inr, ◌||◌,
}
use xlm_pay.Base.Exceptions.{Action, ◌>>=◌}
use xlm_pay.Base.Exceptions.Preserves.{
  Preserves, pure-Preserves, bind-Preserves, catch-Preserves, if-Preserves,
}
use xlm_pay.Repository.{Repository}
use xlm_pay.Stellar.Events.{StellarEvent}
use xlm_pay.Stellar.Consumers.{WebhookConsumer, get_consumer_by_id}
use xlm_pay.Stellar.Delivery.{
  Outside, State, Entry, Timer, on_consumers, attempt_delivery, handle_result,
  handle_failed_delivery, fail_or_retry, schedule, try_delivery, deliver_event_to_consumer,
  process_queue, finish_batch, finish_delivery, fire, is_empty, DeliveryResult, Request,
  delivery_result, delivery_request,
}

-- An entry whose event, as it was queued, leaves its consumer more than one attempt.
abbrev pub Early : Entry → Type 0
Early q = leb q.consumer.max_retries (q.event.delivery_attempts + 1) ≡ false

abbrev pub EarlyTimer : Timer → Type 0
EarlyTimer t = Early t.entry

module _ (E : Repository StellarEvent) (C : Repository WebhookConsumer) (O : Outside) where
  -- The interval of a second, a timeout that runs out, and a delivery that ends.
  pub data Step : State E C O → State E C O → Type 0 where
    tick : (s : State E C O) → Step s (process_queue E C O s)
    timeout :
        (s : State E C O) (before later : List Timer) (t : Timer)
        → s.timers ≡ before ++ (t ∷ later)
        → Step s (fire E C O t (record s { timers = before ++ later }))
    delivery :
        (s : State E C O) (before later : List Entry) (q : Entry) (now : ℕ)
        → s.in_flight ≡ before ++ (q ∷ later)
        → Step s (finish_delivery E C O before later q now s)

  pub data Steps : State E C O → State E C O → Type 0 where
    done : (s : State E C O) → Steps s s
    step : (s t u : State E C O) → Step s t → Steps t u → Steps s u

  -- The events are those of `d`, and all that waits is early.
  record Waits (d : E.Db) (s : State E C O) : Type 0 where
    same_events : s.events ≡ d
    early_queue : All Early s.queue
    early_timers : All EarlyTimer s.timers
    early_flight : All Early s.in_flight

  module _ (d : E.Db) where
    consumers-Preserves {ℓ} :
        {A : Type ℓ} (m : Action C.Db A) → Preserves (Waits d) (on_consumers E C O m)
    unfolding Preserves
    consumers-Preserves m s h = record {
      same_events = h.same_events;
      early_queue = h.early_queue;
      early_timers = h.early_timers;
      early_flight = h.early_flight;
    }

    retry-Preserves :
        (q : Entry) (m : Option String) (now : ℕ)
        → Early q
        → Preserves (Waits d) (fail_or_retry E C O q m now)
    unfolding Preserves fail_or_retry schedule
    retry-Preserves q m now e s h = rw e (record {
      same_events = h.same_events;
      early_queue = h.early_queue;
      early_timers = All-append EarlyTimer s.timers _ h.early_timers (e, tt);
      early_flight = h.early_flight;
    })

    failure-Preserves :
        (q : Entry) (m : Option String) (now : ℕ)
        → Early q
        → Preserves (Waits d) (handle_failed_delivery E C O q m now)
    unfolding handle_failed_delivery
    failure-Preserves q m now e =
        bind-Preserves (Waits d) _ _ (consumers-Preserves _) (λ _. retry-Preserves q m now e)

    module _
        (refuses : (r : Request) (w : O.World)
          → (delivery_result (O.post r w).0).success ≡ false) where
      result-Preserves :
          (q : Entry) (r : DeliveryResult) (now : ℕ)
          → Early q
          → r.success ≡ false
          → Preserves (Waits d) (handle_result E C O q r now)
      unfolding handle_result
      result-Preserves q r now e f = rw f (failure-Preserves q r.error_message now e)

      attempt-Preserves :
          (q : Entry) (c : WebhookConsumer) (now : ℕ)
          → Early q
          → Preserves
              (Waits d)
              (attempt_delivery E C O q.event c now >>= λ r. handle_result E C O q r now)
      unfolding Preserves attempt_delivery
      attempt-Preserves q c now e s h =
          result-Preserves q _ now e (refuses (delivery_request O q.event c now) s.world) _
            (record {
              same_events = h.same_events;
              early_queue = h.early_queue;
              early_timers = h.early_timers;
              early_flight = h.early_flight;
            })

      delivery-Preserves :
          (q : Entry) (now : ℕ)
          → Early q
          → Preserves (Waits d) (deliver_event_to_consumer E C O q now)
      unfolding deliver_event_to_consumer try_delivery
      delivery-Preserves q now e =
          catch-Preserves (Waits d) _ _
            (bind-Preserves (Waits d) _ _ (consumers-Preserves (get_consumer_by_id C q.consumer.id))
              (λ c.
                if-Preserves (Waits d) c.is_active _ _ (attempt-Preserves q c now e)
                  (pure-Preserves (Waits d))))
            (λ m. failure-Preserves q (some m) now e)

      process_queue-Waits : (s : State E C O) → Waits d s → Waits d (process_queue E C O s)
      unfolding process_queue
      process_queue-Waits s h =
          elim (Bool-cases (s.is_processing_queue || is_empty E C O s.queue)) [
            | inl f ↦ rw f h
            | inr f ↦ rw f (record {
              same_events = h.same_events;
              early_queue = All-drop Early 10 s.queue h.early_queue;
              early_timers = h.early_timers;
              early_flight =
                  All-append Early s.in_flight _ h.early_flight
                    (All-take Early 10 s.queue h.early_queue);
            })
          ]

      finish_batch-Waits : (s : State E C O) → Waits d s → Waits d (finish_batch E C O s)
      unfolding finish_batch
      finish_batch-Waits s h = elim (Bool-cases (is_empty E C O s.in_flight)) [
        | inl f ↦ rw f (record {
          same_events = h.same_events;
          early_queue = h.early_queue;
          early_timers = h.early_timers;
          early_flight = h.early_flight;
        })
        | inr f ↦ rw f h
      ]

      step-Waits : (s t : State E C O) → Step s t → Waits d s → Waits d t
      unfolding fire finish_delivery Preserves
      step-Waits _ _ (tick s) h = process_queue-Waits s h
      step-Waits _ _ (timeout s before later t e) h =
          let (early, one) =
            All-without EarlyTimer before t later (subst (All EarlyTimer) e h.early_timers) in
          process_queue-Waits _ (record {
            same_events = h.same_events;
            early_queue = All-append Early s.queue _ h.early_queue (one, tt);
            early_timers = early;
            early_flight = h.early_flight;
          })
      step-Waits _ _ (delivery s before later q now e) h =
          let (early, one) =
            All-without Early before q later (subst (All Early) e h.early_flight) in
          finish_batch-Waits _ (
            delivery-Preserves q now one _ (record {
              same_events = h.same_events;
              early_queue = h.early_queue;
              early_timers = h.early_timers;
              early_flight = early;
            }))

      steps-Waits : (s t : State E C O) → Steps s t → Waits d s → Waits d t
      steps-Waits _ _ (done s) h = h
      steps-Waits _ _ (step s t u a b) h = steps-Waits t u b (step-Waits s t a h)

  -- While no request is answered with success, and every delivery that waits is of an event that
  -- was queued with an attempt to spare beyond the next, ticks, timeouts and the ends of deliveries
  -- never change a stored event: no attempt is counted, and none is ever marked FAILED.
  pub steps_unrecorded :
      (s t : State E C O)
      → ((r : Request) (w : O.World) → (delivery_result (O.post r w).0).success ≡ false)
      → All Early s.queue
      → All EarlyTimer s.timers
      → All Early s.in_flight
      → Steps s t
      → t.events ≡ s.events
  steps_unrecorded s t refuses queue timers flight run =
      (steps-Waits s.events refuses s t run (record {
        same_events = refl;
        early_queue = queue;
        early_timers = timers;
        early_flight = flight;
      })).same_events
