-- ===== src/Stellar/Consumers/Calls.antt =====
-- The calls of consumer-management.service.ts, and what a sound table of consumers is.
use xlm_pay.Base.{ℕ, String, ◌≤◌, ◌≡◌, ◌≢◌, Bool, Option, List, [], ◌∷◌, ltb}
use xlm_pay.Repository.{Repository}
use xlm_pay.Stellar.Consumers.{
  WebhookConsumer, CreateConsumerDto, UpdateConsumerDto, has_id, has_url, create_consumer,
  update_consumer, delete_consumer, activate_consumer, deactivate_consumer, suspend_consumer,
  update_delivery_stats,
}

pub data Call : Type 0 where
  create : String → CreateConsumerDto → Call
  update : String → UpdateConsumerDto → Call
  delete : String → Call
  activate : String → Call
  deactivate : String → Call
  suspend : String → Option String → ℕ → Call
  count_delivery : String → Bool → Option ℕ → ℕ → Call

abbrev pub miscounted : WebhookConsumer → Bool
miscounted c = ltb c.total_deliveries c.failed_deliveries

module _ (R : Repository WebhookConsumer) where
  -- Ids are a primary key, no two consumers share a URL, and no more deliveries have failed than
  -- were attempted.
  pub record IsSound (db : R.Db) : Type 0 where
    pub unique_ids : (i : String) → R.count (has_id i) db ≤ 1
    pub unique_urls : (u : String) → u ≢ "" → R.count (has_url u) db ≤ 1
    pub none_miscounted : R.count miscounted db ≡ 0

  unfoldable pub step : (iso : ℕ → String) → Call → R.Db → R.Db
  step iso (create id dto) db = (create_consumer R id dto db).1
  step iso (update id dto) db = (update_consumer R id dto db).1
  step iso (delete id) db = (delete_consumer R id db).1
  step iso (activate id) db = (activate_consumer R id db).1
  step iso (deactivate id) db = (deactivate_consumer R id db).1
  step iso (suspend id reason now) db = (suspend_consumer R iso id reason now db).1
  step iso (count_delivery id is_success time now) db =
      (update_delivery_stats R iso id is_success time now db).1

  unfoldable pub run : (iso : ℕ → String) → List Call → R.Db → R.Db
  run iso [] db = db
  run iso (c ∷ cs) db = run iso cs (step iso c db)

-- A new consumer has an id of its own.
abbrev pub Fresh : (R : Repository WebhookConsumer) → Call → R.Db → Type 0
Fresh R (create id dto) db = R.count (has_id id) db ≡ 0
Fresh R (update id dto) db = Unit
Fresh R (delete id) db = Unit
Fresh R (activate id) db = Unit
Fresh R (deactivate id) db = Unit
Fresh R (suspend id reason now) db = Unit
Fresh R (count_delivery id is_success time now) db = Unit

unfoldable pub AllFresh :
    (R : Repository WebhookConsumer) → (iso : ℕ → String) → List Call → R.Db → Type 0
AllFresh R iso [] db = Unit
AllFresh R iso (c ∷ cs) db = Fresh R c db × AllFresh R iso cs (step R iso c db)
