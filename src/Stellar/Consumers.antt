-- ===== src/Stellar/Consumers.antt =====
-- consumer-management.service.ts and webhook-consumer.entity.ts. An exception is its message; `iso`
-- is Date's toISOString, and the id and time of a call are arguments.
pub mod Calls
pub mod Sound
mod Tests
use Prim.Native.String.{String, ◌++◌}
use xlm_pay.Base.{
  ℕ, ◌+◌, ◌-◌, Bool, true, false, not, ◌&&◌, Option, none, some, List, ltb, str_eq, get_or,
  if◌then◌else◌,
}
use xlm_pay.Base.Json.{Fields, str, bool, end, set_field}
use xlm_pay.Base.Exceptions.{Action, pure, raise, gets, modify, or_raise, ◌>>=◌, ◌>>◌}
use xlm_pay.Repository.{Repository}

pub data ConsumerStatus : Type 0 where
  active : ConsumerStatus
  inactive : ConsumerStatus
  suspended : ConsumerStatus

unfoldable pub is_active_status : ConsumerStatus → Bool
is_active_status ConsumerStatus.active = true
is_active_status ConsumerStatus.inactive = false
is_active_status ConsumerStatus.suspended = false

pub record WebhookConsumer : Type 0 where
  pub id : String
  pub name : String
  pub url : String
  pub secret : Option String
  pub status : ConsumerStatus
  pub max_retries : ℕ
  pub timeout_ms : ℕ
  pub is_active : Bool
  pub metadata : Option Fields
  pub last_delivery_attempt : Option ℕ
  pub last_delivery_success : Option ℕ
  pub total_deliveries : ℕ
  pub failed_deliveries : ℕ

-- The bodies of a POST and of a PATCH. A field that is missing from the first has the default of
-- its class; one that is missing from the second is not assigned.
pub record CreateConsumerDto : Type 0 where
  pub name : String
  pub url : String
  pub secret : Option String
  pub max_retries : Option ℕ
  pub timeout_ms : Option ℕ
  pub is_active : Option Bool

pub record UpdateConsumerDto : Type 0 where
  pub name : Option String
  pub url : Option String
  pub secret : Option String
  pub max_retries : Option ℕ
  pub timeout_ms : Option ℕ
  pub is_active : Option Bool

abbrev pub has_id : String → WebhookConsumer → Bool
has_id id c = str_eq c.id id

abbrev pub has_url : String → WebhookConsumer → Bool
has_url url c = str_eq c.url url

-- The conditions of getActiveConsumers.
abbrev pub receives : WebhookConsumer → Bool
receives c = c.is_active && is_active_status c.status

abbrev pub secret_of : Option String → Option String → Option String
secret_of none old = old
secret_of (some s) old = some s

unfoldable pub new_consumer : String → CreateConsumerDto → WebhookConsumer
new_consumer id dto = record {
  id = id;
  name = dto.name;
  url = dto.url;
  secret = dto.secret;
  status = ConsumerStatus.active;
  max_retries = get_or dto.max_retries 5;
  timeout_ms = get_or dto.timeout_ms 5000;
  is_active = get_or dto.is_active true;
  metadata = none;
  last_delivery_attempt = none;
  last_delivery_success = none;
  total_deliveries = 0;
  failed_deliveries = 0;
}

-- `Object.assign(consumer, updateDto)`.
unfoldable pub assign : UpdateConsumerDto → WebhookConsumer → WebhookConsumer
assign dto c = record c {
  name = get_or dto.name c.name;
  url = get_or dto.url c.url;
  secret = secret_of dto.secret c.secret;
  max_retries = get_or dto.max_retries c.max_retries;
  timeout_ms = get_or dto.timeout_ms c.timeout_ms;
  is_active = get_or dto.is_active c.is_active;
}

-- `{ ...metadata, suspensionReason: reason, suspendedAt: … }`, if a reason is given.
unfoldable pub suspend : (iso : ℕ → String) → Option String → ℕ → WebhookConsumer → WebhookConsumer
suspend iso none now c = record c { is_active = false; status = ConsumerStatus.suspended }
suspend iso (some reason) now c =
    let off : WebhookConsumer = record c { is_active = false; status = ConsumerStatus.suspended } in
    if str_eq reason "" then off else record off {
      metadata = some (
          set_field "suspendedAt" (str (iso now))
            (set_field "suspensionReason" (str reason) (get_or c.metadata end)));
    }

-- More than ten failures suspend a consumer.
unfoldable pub auto_suspend : (iso : ℕ → String) → ℕ → WebhookConsumer → WebhookConsumer
auto_suspend iso now c =
    if ltb 10 c.failed_deliveries
    then record c {
      is_active = false;
      status = ConsumerStatus.suspended;
      metadata = some (
          set_field "autoSuspendedAt" (str (iso now)) (
            set_field "autoSuspensionReason" (str "Too many consecutive failures")
              (set_field "autoSuspended" (bool true) (get_or c.metadata end))));
    }
    else c

-- The new statistics of updateDeliveryStats. `Math.max(0, n - 1)` is subtraction on ℕ.
unfoldable pub count_delivery :
    (iso : ℕ → String) → Bool → Option ℕ → ℕ → WebhookConsumer → WebhookConsumer
count_delivery iso is_success delivery_time now c =
    let counted : WebhookConsumer = record c {
      total_deliveries = c.total_deliveries + 1;
      last_delivery_attempt = some now;
    } in
    if is_success
    then record counted {
      last_delivery_success = some (get_or delivery_time now);
      failed_deliveries = c.failed_deliveries - 1;
    }
    else auto_suspend iso now (record counted { failed_deliveries = c.failed_deliveries + 1 })

-- `existing && existing.id !== id`.
unfoldable pub is_another : String → Option WebhookConsumer → Bool
is_another id none = false
is_another id (some existing) = not (str_eq existing.id id)

module _ (R : Repository WebhookConsumer) where
  -- createConsumer, once the consumer with the URL is looked up.
  unfoldable pub create_unless :
      Option WebhookConsumer → String → CreateConsumerDto → Action R.Db WebhookConsumer
  create_unless (some existing) id dto = raise "Consumer with this URL already exists"
  create_unless none id dto = do modify (R.insert (new_consumer id dto)); pure (new_consumer id dto)

  unfoldable pub create_consumer : (id : String) → CreateConsumerDto → Action R.Db WebhookConsumer
  create_consumer id dto db = create_unless (R.find_one (has_url dto.url) db) id dto db

  unfoldable pub get_consumer_by_id : String → Action R.Db WebhookConsumer
  get_consumer_by_id id db =
      or_raise (R.find_one (has_id id) db) ("Consumer with ID " ++ (id ++ " not found")) db

  unfoldable pub save_consumer : WebhookConsumer → R.Db → R.Db
  save_consumer c db = R.update (has_id c.id) (λ _. c) db

  -- Loads a consumer, changes it and saves it.
  abbrev pub change_consumer :
      String → (WebhookConsumer → WebhookConsumer) → Action R.Db WebhookConsumer
  change_consumer id f = do c ← get_consumer_by_id id; modify (save_consumer (f c)); pure (f c)

  -- Whether updateConsumer refuses the new URL.
  unfoldable pub url_conflict : String → Option String → WebhookConsumer → R.Db → Bool
  url_conflict id none c db = false
  url_conflict id (some url) c db =
      not (str_eq url "") && (not (str_eq url c.url) && is_another id (R.find_one (has_url url) db))

  unfoldable pub update_consumer : String → UpdateConsumerDto → Action R.Db WebhookConsumer
  update_consumer id dto = do
    c ← get_consumer_by_id id
    conflict ← gets (url_conflict id dto.url c)
    (if conflict
        then raise "Another consumer with this URL already exists"
        else (do modify (save_consumer (assign dto c)); pure (assign dto c)))

  unfoldable pub delete_consumer : String → Action R.Db (Unit {0})
  delete_consumer id = do c ← get_consumer_by_id id; modify (R.delete (has_id c.id))

  unfoldable pub activate_consumer : String → Action R.Db WebhookConsumer
  activate_consumer id =
      change_consumer id λ c. record c { is_active = true; status = ConsumerStatus.active }

  unfoldable pub deactivate_consumer : String → Action R.Db WebhookConsumer
  deactivate_consumer id =
      change_consumer id λ c. record c { is_active = false; status = ConsumerStatus.inactive }

  unfoldable pub suspend_consumer :
      (iso : ℕ → String) → String → Option String → ℕ → Action R.Db WebhookConsumer
  suspend_consumer iso id reason now = change_consumer id (suspend iso reason now)

  unfoldable pub get_active_consumers : R.Db → List WebhookConsumer
  get_active_consumers db = R.find receives db

  unfoldable pub update_delivery_stats :
      (iso : ℕ → String) → String → Bool → Option ℕ → ℕ → Action R.Db WebhookConsumer
  update_delivery_stats iso id is_success delivery_time now =
      change_consumer id (count_delivery iso is_success delivery_time now)
