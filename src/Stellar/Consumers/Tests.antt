-- ===== src/Stellar/Consumers/Tests.antt =====
-- Runs of consumer-management.service.ts on a table in memory.
use xlm_pay.Base.{ℕ, String, refl, none, some, true, List, [], ◌∷◌, arith}
use xlm_pay.Repository.Memory.{table, table-Laws}
use xlm_pay.Stellar.Consumers.{
  WebhookConsumer, CreateConsumerDto, UpdateConsumerDto, create_consumer, create_unless,
  new_consumer, update_consumer, get_consumer_by_id, update_delivery_stats, save_consumer,
  count_delivery, auto_suspend, url_conflict, is_another, assign,
}
use xlm_pay.Stellar.Consumers.Calls.{Call, IsSound, step, run, AllFresh}
use xlm_pay.Stellar.Consumers.Sound.{run-IsSound}

abbrev iso : ℕ → String
iso t = "2026-01-01T00:00:00.000Z"

abbrev shop : CreateConsumerDto
shop = record {
  name = "Shop";
  url = "https://shop.example/hook";
  secret = none;
  max_retries = none;
  timeout_ms = none;
  is_active = none;
}

abbrev bank : CreateConsumerDto
bank = record shop { name = "Bank"; url = "https://bank.example/hook" }

abbrev taken_url : UpdateConsumerDto
taken_url = record {
  name = none;
  url = some "https://shop.example/hook";
  secret = none;
  max_retries = none;
  timeout_ms = none;
  is_active = none;
}

abbrev calls : List Call
calls =
    Call.create "c1" shop
    ∷ (Call.create "c2" bank
        ∷ (Call.update "c2" taken_url
            ∷ (Call.count_delivery "c1" true none 5 ∷ (Call.create "c3" shop ∷ []))))

calls-AllFresh : AllFresh (table WebhookConsumer) iso calls []
unfolding AllFresh step create_consumer create_unless new_consumer update_consumer
    get_consumer_by_id update_delivery_stats save_consumer count_delivery auto_suspend url_conflict
    is_another assign
calls-AllFresh = (refl, (refl, (tt, (tt, (refl, tt)))))

run-IsSound_example : IsSound (table WebhookConsumer) (run (table WebhookConsumer) iso calls [])
run-IsSound_example =
    run-IsSound (table WebhookConsumer) (table-Laws WebhookConsumer) iso calls [] calls-AllFresh
      (record {
        unique_ids = λ i. omega arith;
        unique_urls = λ u given. omega arith;
        none_miscounted = refl;
      })
