-- ===== src/Limits/RateLimit/Guard.antt =====
-- rate-limit.guard.ts: what the guard lets through, the headers that it sets and its refusal.
use Prim.Native.String.{String}
use xlm_pay.Base.{ℕ, Option, none, some, str_eq, if◌then◌else◌}
use xlm_pay.Limits.RateLimit.{SortedSets, Decision, check_rate_limit, generate_key_for_ip}

pub record RateLimitOptions : Type 0 where
  pub limit : ℕ
  pub window_seconds : ℕ
  pub key_prefix : Option String

-- The X-RateLimit headers.
pub record Headers : Type 0 where
  pub limit : ℕ
  pub remaining : ℕ
  pub reset : ℕ

-- True, with the headers if a limit is configured, or HttpException with TOO_MANY_REQUESTS.
pub data Outcome : Type 0 where
  passes : Option Headers → Outcome
  too_many_requests : (retry_after : ℕ) → Headers → Outcome

-- `options.keyPrefix || context.getHandler().name`.
unfoldable pub prefix_or : Option String → String → String
prefix_or none handler = handler
prefix_or (some p) handler = if str_eq p "" then handler else p

unfoldable pub headers_of : RateLimitOptions → Decision → Headers
headers_of options result = record {
  limit = options.limit;
  remaining = result.remaining;
  reset = result.reset_at;
}

unfoldable pub decide : RateLimitOptions → Decision → Outcome
decide options result =
    if result.allowed
    then passes (some (headers_of options result))
    else too_many_requests result.reset_at (headers_of options result)

module _ (R : SortedSets) (parse_int : String → ℕ) where
  unfoldable pub can_activate :
      Option RateLimitOptions → (ip handler : String) → ℕ → R.Db → Outcome × R.Db
  can_activate none ip handler now db = (passes none, db)
  can_activate (some options) ip handler now db =
      let key : String = generate_key_for_ip ip (prefix_or options.key_prefix handler) in
      let (result, checked) =
        check_rate_limit R parse_int key options.limit options.window_seconds now db in
      (decide options result, checked)
