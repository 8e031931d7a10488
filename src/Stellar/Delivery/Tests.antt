-- ===== src/Stellar/Delivery/Tests.antt =====
-- Runs of webhook-delivery.service.ts on tables in memory, with consumers that answer or do not.
use xlm_pay.Base.{ℕ, ◌≡◌, refl, none, some, true, false, [], ◌∷◌}
use xlm_pay.Base.Json.{end}
use xlm_pay.Repository.Memory.{table}
use xlm_pay.Stellar.Events.{StellarEvent, EventType, DeliveryStatus}
use xlm_pay.Stellar.Consumers.{WebhookConsumer, ConsumerStatus}
use xlm_pay.Stellar.Delivery.{
  Outside, State, Entry, Posted, responded, refused, process_queue, finish_delivery,
  queue_event_for_delivery, delivery_result,
}
use xlm_pay.Stellar.Delivery.Retries.{Step, tick, delivery, Steps, steps_unrecorded}

abbrev outside : Posted → Outside
outside answer = record {
  World = ℕ;
  post = λ r w. (answer, w);
  hmac_sha256 = λ secret text. "3045";
  iso = λ t. "2026-01-01T00:00:00.000Z";
}

abbrev event : StellarEvent
event = record {
  id = "e1";
  event_type = EventType.payment;
  ledger_sequence = 7;
  timestamp = 1000;
  transaction_hash = "aa";
  source_account = "GA";
  payload = end;
  delivery_status = DeliveryStatus.pending;
  delivery_attempts = 0;
  last_attempt_at = none;
  delivered_at = none;
  delivered_to = none;
  failed_deliveries = none;
  error_message = none;
  is_processed = false;
  created_at = 1000;
}

abbrev shop : WebhookConsumer
shop = record {
  id = "c1";
  name = "Shop";
  url = "https://shop.example/hook";
  secret = some "s";
  status = ConsumerStatus.active;
  max_retries = 5;
  timeout_ms = 5000;
  is_active = true;
  metadata = none;
  last_delivery_attempt = none;
  last_delivery_success = none;
  total_deliveries = 0;
  failed_deliveries = 0;
}

abbrev entry : Entry
entry = record { event = event; consumer = shop }

abbrev Service : Posted → Type 0
Service answer = State (table StellarEvent) (table WebhookConsumer) (outside answer)

abbrev queued : (answer : Posted) → Service answer
queued answer = record {
  events = event ∷ [];
  consumers = shop ∷ [];
  world = 0;
  queue = entry ∷ [];
  in_flight = [];
  timers = [];
  is_processing_queue = false;
}

abbrev down : Posted
down = refused (some 503) "Request failed with status code 503"

-- The entry is taken out, tried without success, and waits.
abbrev tried : Service down
tried = process_queue (table StellarEvent) (table WebhookConsumer) (outside down) (queued down)

abbrev waiting : Service down
waiting =
    finish_delivery (table StellarEvent) (table WebhookConsumer) (outside down) [] [] entry 10 tried

steps_unrecorded_example : waiting.events ≡ event ∷ []
unfolding delivery_result process_queue
steps_unrecorded_example =
    steps_unrecorded (table StellarEvent) (table WebhookConsumer) (outside down) (queued down)
      waiting (λ r w. refl) (refl, tt) tt tt
      (Steps.step (queued down) tried waiting (Step.tick (queued down)) (
        Steps.step tried waiting waiting (Step.delivery tried [] [] entry 10 refl)
          (Steps.done waiting)))

-- The entry's delivery begins, an event is queued meanwhile, and the delivery succeeds.
abbrev begun : Service (responded 200)
begun =
    process_queue (table StellarEvent) (table WebhookConsumer) (outside (responded 200))
      (queued (responded 200))

abbrev queued_meanwhile : Service (responded 200)
queued_meanwhile =
    (queue_event_for_delivery (table StellarEvent) (table WebhookConsumer) (outside (responded 200))
      event 20 begun).1

abbrev delivered : Service (responded 200)
delivered =
    finish_delivery (table StellarEvent) (table WebhookConsumer) (outside (responded 200)) [] []
      entry 30 queued_meanwhile
