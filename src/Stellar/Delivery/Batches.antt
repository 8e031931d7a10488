-- ===== src/Stellar/Delivery/Batches.antt =====
-- The batches of webhook-delivery.service.ts, whose flag keeps them one after the other.
use xlm_pay.Base.{ℕ, ◌≤◌, ◌≡◌, Bool, List, length, not}
use xlm_pay.Base.Exceptions.Preserves.{Preserves}
use xlm_pay.Repository.{Repository}
use xlm_pay.Stellar.Events.{StellarEvent}
use xlm_pay.Stellar.Consumers.{WebhookConsumer}
use xlm_pay.Stellar.Delivery.Retries.{Step}
use xlm_pay.Stellar.Delivery.{Outside, State, Entry, queue_event_for_delivery, is_empty}

module _ (E : Repository StellarEvent) (C : Repository WebhookConsumer) (O : Outside) where
  -- What time does, and an event that is queued.
  pub data Happens : State E C O → State E C O → Type 0 where
    time : {s t : State E C O} → Step E C O s t → Happens s t
    queued_event :
        (e : StellarEvent) (now : ℕ) (s : State E C O)
        → Happens s (queue_event_for_delivery E C O e now s).1

  pub data History : State E C O → State E C O → Type 0 where
    start : (s : State E C O) → History s s
    next : {s t u : State E C O} → Happens s t → History t u → History s u

  -- A batch of at most ten deliveries is in flight, and the flag tells whether there is one.
  pub record IsSteady (s : State E C O) : Type 0 where
    pub flag : s.is_processing_queue ≡ not (is_empty E C O s.in_flight)
    pub at_most_ten : length s.in_flight ≤ 10

  module _ (qs : List Entry) (b : Bool) where
    HasBatch : State E C O → Type 0
    HasBatch s = (s.in_flight ≡ qs) × (s.is_processing_queue ≡ b)
