-- ===== src/Voice/Quota/Tests.antt =====
-- Runs of quota.service.ts on numbers in memory.
use xlm_pay.Base.{◌≡◌, some, List, [], ◌∷◌, arith}
use xlm_pay.Voice.Quota.Keys.Memory.{memory, memory-Laws}
use xlm_pay.Voice.Quota.{
  Calendar, Store, user_prefix, month_key, usage, reset_user_quota, get_user_monthly_quota,
}
use xlm_pay.Voice.Quota.Bounds.{Request, Within, InOrder, requests, requests-Within}
use xlm_pay.Voice.Quota.Reset.{reset_user_quota-default}

abbrev january : Calendar
january = record { month = λ t. "2026-1"; month_expiry = λ t. 2678400 }

abbrev empty : Store january memory
empty = record { months = []; sessions = []; minutes = [] }

-- A user with five requests this month and a limit of 50.
abbrev limited : Store january memory
limited = record {
  months =
      record { key = "u:2026-1"; value = 5; expires = some 2678400000 }
      ∷ (record { key = "u:limit"; value = 50; expires = some 2678400000 } ∷ []);
  sessions = [];
  minutes = [];
}

abbrev twice : List Request
twice =
    record { user_id = "u"; session_id = "s1"; at = 1000 }
    ∷ (record { user_id = "u"; session_id = "s1"; at = 2000 } ∷ [])

twice-InOrder : InOrder 0 twice 3000
unfolding InOrder
twice-InOrder = (omega arith, (omega arith, omega arith))

requests-Within_example : Within january memory 3000 (requests january memory twice empty)
requests-Within_example =
    requests-Within january memory memory-Laws twice 0 3000 empty twice-InOrder (record {
      monthly = λ k. omega arith;
      per_session = λ k. omega arith;
      per_minute = λ k. omega arith;
    })

abbrev reset : Store january memory
reset = reset_user_quota january memory "u" 1000 limited

reset_user_quota-default_example :
    (usage january memory (month_key january "u" 1000) 1000 reset.months ≡ 0)
    × (get_user_monthly_quota january memory "u" 1000 reset ≡ 1000)
    × (usage january memory (month_key january "u:2" 1000) 1000 reset.months ≡ 0)
    × (get_user_monthly_quota january memory "u:2" 1000 reset ≡ 1000)
unfolding user_prefix
reset_user_quota-default_example =
    reset_user_quota-default january memory memory-Laws "u" "2" 1000 limited
