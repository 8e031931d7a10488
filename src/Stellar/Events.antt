-- ===== src/Stellar/Events.antt =====
-- event-storage.service.ts and stellar-event.entity.ts. Times are in milliseconds.
use Prim.Native.String.{String, ◌++◌}
use xlm_pay.Base.{
  ℕ, ◌+◌, Bool, true, false, Option, none, some, List, [], ◌∷◌, ◌++◌ as append, any, ltb, str_eq,
  get_or, if◌then◌else◌,
}
use xlm_pay.Base.Json.{Fields}
use xlm_pay.Base.Exceptions.{Action, pure, gets, modify, or_raise, ◌>>=◌, ◌>>◌}
use xlm_pay.Repository.{Repository}

pub data DeliveryStatus : Type 0 where
  pending : DeliveryStatus
  delivered : DeliveryStatus
  failed : DeliveryStatus
  retrying : DeliveryStatus

pub data EventType : Type 0 where
  payment : EventType
  offer : EventType
  contract : EventType
  account : EventType
  trustline : EventType

unfoldable pub event_type_text : EventType → String
event_type_text EventType.payment = "payment"
event_type_text EventType.offer = "offer"
event_type_text EventType.contract = "contract"
event_type_text EventType.account = "account"
event_type_text EventType.trustline = "trustline"

pub record StellarEventDto : Type 0 where
  pub id : String
  pub event_type : EventType
  pub ledger_sequence : ℕ
  pub timestamp : ℕ
  pub transaction_hash : String
  pub source_account : String
  pub payload : Fields

pub record StellarEvent : Type 0 where
  pub id : String
  pub event_type : EventType
  pub ledger_sequence : ℕ
  pub timestamp : ℕ
  pub transaction_hash : String
  pub source_account : String
  pub payload : Fields
  pub delivery_status : DeliveryStatus
  pub delivery_attempts : ℕ
  pub last_attempt_at : Option ℕ
  pub delivered_at : Option ℕ
  pub delivered_to : Option (List String)
  pub failed_deliveries : Option (List String)
  pub error_message : Option String
  pub is_processed : Bool
  pub created_at : ℕ

abbrev pub has_id : String → StellarEvent → Bool
has_id id e = str_eq e.id id

-- `if (!list.includes(id)) list.push(id)`, on `list || []`.
abbrev pub add_once : String → Option (List String) → List String
add_once id l =
    let list = get_or l [] in if any (λ x. str_eq x id) list then list else append list (id ∷ [])

-- `if (text)`: an empty text is false.
abbrev pub if_given {ℓ} : {A : Type ℓ} → Option String → (String → A) → A → A
if_given none f otherwise = otherwise
if_given (some t) f otherwise = if str_eq t "" then otherwise else f t

-- The two branches of updateEventStatus on the new status.
unfoldable pub with_status : DeliveryStatus → Option String → ℕ → StellarEvent → StellarEvent
with_status DeliveryStatus.delivered consumer_id now e =
    let at : StellarEvent = record e { delivered_at = some now } in
    if_given consumer_id (λ c. record at { delivered_to = some (add_once c e.delivered_to) }) at
with_status DeliveryStatus.failed consumer_id now e =
    if_given consumer_id
      (λ c. record e { failed_deliveries = some (add_once c e.failed_deliveries) }) e
with_status DeliveryStatus.pending consumer_id now e = e
with_status DeliveryStatus.retrying consumer_id now e = e

abbrev pub with_error : Option String → StellarEvent → StellarEvent
with_error error_message e = if_given error_message (λ m. record e { error_message = some m }) e

unfoldable pub next_status :
    DeliveryStatus → Option String → Option String → ℕ → StellarEvent → StellarEvent
next_status status consumer_id error_message now e = with_error error_message (
    with_status status consumer_id now (record e {
      delivery_status = status;
      delivery_attempts = e.delivery_attempts + 1;
      last_attempt_at = some now;
    }))

module _ (R : Repository StellarEvent) where
  unfoldable pub save_event : StellarEventDto → (now : ℕ) → R.Db → StellarEvent × R.Db
  save_event dto now db =
      let saved : StellarEvent = record {
        id = dto.id;
        event_type = dto.event_type;
        ledger_sequence = dto.ledger_sequence;
        timestamp = dto.timestamp;
        transaction_hash = dto.transaction_hash;
        source_account = dto.source_account;
        payload = dto.payload;
        delivery_status = DeliveryStatus.pending;
        delivery_attempts = 0;
        last_attempt_at = none;
        delivered_at = none;
        delivered_to = none;
        failed_deliveries = none;
        error_message = none;
        is_processed = false;
        created_at = now;
      } in
      (saved, R.insert saved db)

  unfoldable pub get_event_by_id : String → R.Db → Option StellarEvent
  get_event_by_id id db = R.find_one (has_id id) db

  -- Loads an event, changes it and saves it.
  abbrev pub change_event : String → (StellarEvent → StellarEvent) → Action R.Db StellarEvent
  change_event id f = do
    found ← gets (get_event_by_id id)
    e ← or_raise found ("Event " ++ (id ++ " not found"))
    modify (R.update (has_id e.id) (λ _. f e))
    pure (f e)

  unfoldable pub update_event_status :
      String → DeliveryStatus → Option String → Option String → ℕ → Action R.Db StellarEvent
  update_event_status event_id status consumer_id error_message now =
      change_event event_id (next_status status consumer_id error_message now)

  unfoldable pub mark_event_as_processed : String → Action R.Db StellarEvent
  mark_event_as_processed event_id = change_event event_id (λ e. record e { is_processed = true })

  -- `cutoff` is the date `days_to_keep` days ago.
  unfoldable pub cleanup_old_events : (cutoff : ℕ) → R.Db → R.Db
  cleanup_old_events cutoff db = R.delete (λ e. ltb e.created_at cutoff) db
