-- ===== src/Stellar/Delivery.antt =====
-- webhook-delivery.service.ts: the queue of deliveries, an attempt, and what follows it. The HTTP
-- client, HMAC and toISOString are parameters. The deliveries of a batch are in flight together and
-- end in any order, while ticks, timeouts and further events come in between; what a delivery reads
-- and writes it does at the one moment `now` at which it ends.
pub mod Retries
pub mod Batches
mod Tests
use Prim.Native.String.{String, ◌++◌}
use xlm_pay.Base.{
  ℕ, ◌+◌, ◌-◌, ◌*◌, ◌^◌, min, Bool, true, false, not, ◌||◌, Option, none, some, List, [], ◌∷◌,
  ◌++◌ as append, take, drop, length, leb, str_eq, if◌then◌else◌,
}
use xlm_pay.Base.Json.{Fields, Json, str, num, obj, bool, field, end}
use xlm_pay.Base.Text.{show_nat}
use xlm_pay.Base.Stringify.{print}
use xlm_pay.Base.Exceptions.{Result, ok, throw, Action, pure, gets, modify, ◌>>=◌, ◌>>◌, try_catch}
use xlm_pay.Repository.{Repository}
use xlm_pay.Stellar.Events.{
  StellarEvent, DeliveryStatus, EventType, event_type_text, update_event_status,
  mark_event_as_processed,
}
use xlm_pay.Stellar.Consumers.{
  WebhookConsumer, get_consumer_by_id, get_active_consumers, update_delivery_stats,
}

pub record DeliveryResult : Type 0 where
  pub success : Bool
  pub status_code : Option ℕ
  pub error_message : Option String

-- What `post` comes to: a response with its status, or an error with the status of its response,
-- if it has one, and its message.
pub data Posted : Type 0 where
  responded : ℕ → Posted
  refused : Option ℕ → String → Posted

pub record Request : Type 0 where
  pub url : String
  pub payload : Fields
  pub timeout : ℕ
  pub headers : Fields

pub record Outside : Type 1 where
  pub World : Type 0
  pub post : Request → World → Posted × World
  pub hmac_sha256 : (secret text : String) → String
  pub iso : ℕ → String

pub record Entry : Type 0 where
  pub event : StellarEvent
  pub consumer : WebhookConsumer

-- A `setTimeout` that has not run: its entry and its delay.
pub record Timer : Type 0 where
  pub entry : Entry
  pub delay : ℕ

unfoldable pub calculate_backoff_delay : ℕ → ℕ
calculate_backoff_delay attempt = min (1000 * 2 ^ (attempt - 1)) 300000

unfoldable pub delivery_payload : (iso : ℕ → String) → StellarEvent → ℕ → Fields
delivery_payload iso e now = field "id" (str e.id) (
    field "eventType" (str (event_type_text e.event_type)) (
      field "ledgerSequence" (num e.ledger_sequence) (
        field "timestamp" (str (iso e.timestamp)) (
          field "transactionHash" (str e.transaction_hash) (
            field "sourceAccount" (str e.source_account)
              (field "payload" (obj e.payload) (field "deliveredAt" (str (iso now)) end)))))))

-- The signature's header, if the consumer has a secret.
unfoldable pub signature_header :
    (hmac_sha256 : String → String → String) → Option String → Fields → Fields
signature_header hmac_sha256 none payload = end
signature_header hmac_sha256 (some secret) payload =
    if str_eq secret ""
    then end
    else field "X-Signature" (str (hmac_sha256 secret (print (obj payload)))) end

unfoldable pub delivery_request : Outside → StellarEvent → WebhookConsumer → ℕ → Request
delivery_request O e c now =
    let payload : Fields = delivery_payload O.iso e now in
    record {
      url = c.url;
      payload = payload;
      timeout = c.timeout_ms;
      headers = field "X-Stellar-Event-ID" (str e.id) (
          field "X-Stellar-Event-Type" (str (event_type_text e.event_type)) (
            field "X-Delivery-Attempt" (str (show_nat (e.delivery_attempts + 1)))
              (signature_header O.hmac_sha256 c.secret payload)));
    }

unfoldable pub delivery_result : Posted → DeliveryResult
delivery_result (responded status) = record {
  success = true;
  status_code = some status;
  error_message = none;
}
delivery_result (refused status message) = record {
  success = false;
  status_code = status;
  error_message = some message;
}

module _ (E : Repository StellarEvent) (C : Repository WebhookConsumer) (O : Outside) where
  pub record State : Type 0 where
    pub events : E.Db
    pub consumers : C.Db
    pub world : O.World
    pub queue : List Entry
    pub in_flight : List Entry  -- the deliveries of the batch that have not ended
    pub timers : List Timer
    pub is_processing_queue : Bool

  abbrev pub on_events {ℓ} : {A : Type ℓ} → Action E.Db A → Action State A
  on_events m s = let (r, d) = m s.events in (r, record s { events = d })

  abbrev pub on_consumers {ℓ} : {A : Type ℓ} → Action C.Db A → Action State A
  on_consumers m s = let (r, d) = m s.consumers in (r, record s { consumers = d })

  unfoldable pub attempt_delivery : StellarEvent → WebhookConsumer → ℕ → Action State DeliveryResult
  attempt_delivery e c now s =
      let (posted, after) = O.post (delivery_request O e c now) s.world in
      (ok (delivery_result posted), record s { world = after })

  abbrev pub delivered_count : Option (List String) → ℕ
  delivered_count none = 1
  delivered_count (some l) = length l + 1

  unfoldable pub handle_successful_delivery : Entry → ℕ → Action State (Unit {0})
  handle_successful_delivery q now = do
    on_events
        (update_event_status E q.event.id DeliveryStatus.delivered (some q.consumer.id) none now)
    on_consumers (update_delivery_stats C O.iso q.consumer.id true none now)
    active ← gets λ s. get_active_consumers C s.consumers
    (if leb (length active) (delivered_count q.event.delivered_to)
        then (do on_events (mark_event_as_processed E q.event.id); pure tt)
        else pure tt)

  unfoldable pub schedule : Timer → Action State (Unit {0})
  schedule t = modify λ s. record s { timers = append s.timers (t ∷ []) }

  -- The end of handleFailedDelivery: give up, or try again later.
  unfoldable pub fail_or_retry : Entry → Option String → ℕ → Action State (Unit {0})
  fail_or_retry q error_message now =
      let attempt_number : ℕ = q.event.delivery_attempts + 1 in
      if leb q.consumer.max_retries attempt_number
      then (do
        on_events (
            update_event_status E q.event.id DeliveryStatus.failed (some q.consumer.id)
              error_message now)
        pure tt)
      else schedule (record { entry = q; delay = calculate_backoff_delay attempt_number })

  unfoldable pub handle_failed_delivery : Entry → Option String → ℕ → Action State (Unit {0})
  handle_failed_delivery q error_message now = do
    on_consumers (update_delivery_stats C O.iso q.consumer.id false none now)
    fail_or_retry q error_message now

  unfoldable pub handle_result : Entry → DeliveryResult → ℕ → Action State (Unit {0})
  handle_result q result now =
      if result.success
      then handle_successful_delivery q now
      else handle_failed_delivery q result.error_message now

  -- The `try` block of deliverEventToConsumer.
  unfoldable pub try_delivery : Entry → ℕ → Action State (Unit {0})
  try_delivery q now = do
    fresh ← on_consumers (get_consumer_by_id C q.consumer.id)
    (if fresh.is_active
        then (do result ← attempt_delivery q.event fresh now; handle_result q result now)
        else pure tt)

  unfoldable pub deliver_event_to_consumer : Entry → ℕ → Action State (Unit {0})
  deliver_event_to_consumer q now =
      try_catch (try_delivery q now) (λ message. handle_failed_delivery q (some message) now)

  abbrev pub is_empty : List Entry → Bool
  is_empty [] = true
  is_empty (q ∷ qs) = false

  -- processQueue up to its `await`: a batch of ten is taken out, and its deliveries begin.
  unfoldable pub process_queue : State → State
  process_queue s = if s.is_processing_queue || is_empty s.queue then s else record s {
    queue = drop 10 s.queue;
    in_flight = append s.in_flight (take 10 s.queue);
    is_processing_queue = true;
  }

  -- Its `finally`, once every delivery of the batch has ended. A rejection is logged.
  unfoldable pub finish_batch : State → State
  finish_batch s = if is_empty s.in_flight then record s { is_processing_queue = false } else s

  -- The delivery of one of those that are in flight ends; those before and after it stay.
  unfoldable pub finish_delivery : (before later : List Entry) → Entry → ℕ → State → State
  finish_delivery before later q now s =
      finish_batch
        (deliver_event_to_consumer q now (record s { in_flight = append before later })).1

  abbrev pub entries_for : StellarEvent → List WebhookConsumer → List Entry
  entries_for e [] = []
  entries_for e (c ∷ cs) = record { event = e; consumer = c } ∷ entries_for e cs

  -- queueEventForDelivery, once the active consumers are known. The test before processQueue is
  -- the one that processQueue makes.
  unfoldable pub queue_for : List WebhookConsumer → StellarEvent → ℕ → Action State (Unit {0})
  queue_for [] e now = do on_events (mark_event_as_processed E e.id); pure tt
  queue_for (c ∷ cs) e now =
      modify λ s. process_queue (record s { queue = append s.queue (entries_for e (c ∷ cs)) })

  unfoldable pub queue_event_for_delivery : StellarEvent → ℕ → Action State (Unit {0})
  queue_event_for_delivery e now = do
    active ← gets λ s. get_active_consumers C s.consumers
    queue_for active e now

  -- A timeout runs: its entry is queued again.
  unfoldable pub fire : Timer → State → State
  fire t s = process_queue (record s { queue = append s.queue (t.entry ∷ []) })
