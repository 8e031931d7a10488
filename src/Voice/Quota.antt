-- ===== src/Voice/Quota.antt =====
-- quota.service.ts: the requests of a user to the language model, counted by month, by session and
-- by minute. The keys under `quota:monthly:`, those of the months and of the users' own limits, are a
-- store, and so are those under `quota:session:` and under `quota:rpm:`, of the numbers that the texts
-- spell. Redis is taken to answer. The text of a month and the seconds that are left of it are
-- parameters. Times are in milliseconds.
pub mod Keys
pub mod Bounds
pub mod Reset
mod Tests
use Prim.Native.String.{String, ◌++◌}
use xlm_pay.Base.{
  ℕ, ◌+◌, ◌/◌, Bool, Option, none, some, List, [], ◌∷◌, get_or, leb, ◌==◌, if◌then◌else◌,
}
use xlm_pay.Base.Text.{show_nat}
use xlm_pay.Voice.Deletions.{del_all}
use xlm_pay.Voice.Quota.Keys.{Numbers}

pub record QuotaConfig : Type 0 where
  pub monthly_limit : ℕ
  pub per_session_limit : ℕ
  pub requests_per_minute : ℕ

abbrev pub default_config : QuotaConfig
default_config = record { monthly_limit = 1000; per_session_limit = 100; requests_per_minute = 20 }

pub record QuotaStatus : Type 0 where
  pub monthly_usage : ℕ
  pub monthly_limit : ℕ
  pub session_usage : ℕ
  pub session_limit : ℕ
  pub requests_this_minute : ℕ
  pub requests_per_minute_limit : ℕ

-- A status, or HttpException with TOO_MANY_REQUESTS and its message.
pub data Result {ℓ} (A : Type ℓ) : Type ℓ where
  ok : A → Result A
  too_many_requests : String → Result A

pub record Calendar : Type 0 where
  pub month : ℕ → String  -- `${year}-${month}`, in UTC
  pub month_expiry : ℕ → ℕ

-- What the keys of a user's months begin with.
unfoldable pub user_prefix : String → String
user_prefix user_id = user_id ++ ":"

unfoldable pub month_key : Calendar → String → ℕ → String
month_key C user_id now = user_prefix user_id ++ C.month now

-- The key of a user's own limit.
unfoldable pub limit_key : String → String
limit_key user_id = user_prefix user_id ++ "limit"

unfoldable pub rpm_key : String → ℕ → String
rpm_key user_id now = user_id ++ (":" ++ show_nat (now / 60000))

module _ (C : Calendar) (N : Numbers) where
  pub record Store : Type 0 where
    pub months : N.Db
    pub sessions : N.Db
    pub minutes : N.Db

  -- `parseInt(v || '0', 10)`.
  abbrev pub usage : String → ℕ → N.Db → ℕ
  usage k now d = get_or (N.get k now d) 0

  -- `customLimit ? parseInt(customLimit, 10) : limit`.
  abbrev pub effective_limit : String → ℕ → ℕ → Store → ℕ
  effective_limit user_id limit now st = get_or (N.get (limit_key user_id) now st.months) limit

  unfoldable pub check_monthly_quota : String → ℕ → ℕ → Store → Result (Unit {0})
  check_monthly_quota user_id now limit st =
      let used : ℕ = usage (month_key C user_id now) now st.months in
      let most : ℕ = effective_limit user_id limit now st in
      if leb most used
      then too_many_requests (
          "Monthly LLM quota exceeded ("
          ++ (show_nat used
              ++ ("/" ++ (show_nat most ++ "). Please try again next month or contact support."))))
      else ok tt

  unfoldable pub check_session_quota : String → ℕ → ℕ → Store → Result (Unit {0})
  check_session_quota session_id now limit st =
      let used : ℕ = usage session_id now st.sessions in
      if leb limit used
      then too_many_requests (
          "Session LLM quota exceeded ("
          ++ (show_nat used ++ ("/" ++ (show_nat limit ++ "). Please start a new session."))))
      else ok tt

  unfoldable pub check_requests_per_minute : String → ℕ → ℕ → Store → Result (Unit {0})
  check_requests_per_minute user_id now limit st =
      if leb limit (usage (rpm_key user_id now) now st.minutes)
      then too_many_requests
          ("Rate limit exceeded. Maximum " ++ (show_nat limit ++ " requests per minute."))
      else ok tt

  unfoldable pub get_quota_status :
      (user_id session_id : String) → ℕ → QuotaConfig → Store → QuotaStatus
  get_quota_status user_id session_id now config st = record {
    monthly_usage = usage (month_key C user_id now) now st.months;
    monthly_limit = config.monthly_limit;
    session_usage = usage session_id now st.sessions;
    session_limit = config.per_session_limit;
    requests_this_minute = usage (rpm_key user_id now) now st.minutes;
    requests_per_minute_limit = config.requests_per_minute;
  }

  abbrev pub and_then {ℓ} : {X : Type ℓ} → Result (Unit {0}) → Result X → Result X
  and_then (ok _) r = r
  and_then (too_many_requests m) r = too_many_requests m

  unfoldable pub enforce_quota :
      (user_id session_id : String) → QuotaConfig → ℕ → Store → Result QuotaStatus
  enforce_quota user_id session_id config now st =
      and_then (check_monthly_quota user_id now config.monthly_limit st) (
        and_then (check_session_quota session_id now config.per_session_limit st) (
          and_then (check_requests_per_minute user_id now config.requests_per_minute st)
            (ok (get_quota_status user_id session_id now config st))))

  -- INCR, and EXPIRE on the first count.
  unfoldable pub increment_with_expiry : String → (ttl_seconds now : ℕ) → N.Db → N.Db
  increment_with_expiry key ttl_seconds now d =
      let (new_value, counted) = N.incr key now d in
      if new_value == 1 then N.expire key ttl_seconds now counted else counted

  unfoldable pub record_request : (user_id session_id : String) → ℕ → Store → Store
  record_request user_id session_id now st = record st {
    months = increment_with_expiry (month_key C user_id now) (C.month_expiry now) now st.months;
    sessions = increment_with_expiry session_id 604800 now st.sessions;
    minutes = increment_with_expiry (rpm_key user_id now) 60 now st.minutes;
  }

  -- DEL of the KEYS that match `quota:monthly:${userId}:*`.
  unfoldable pub reset_user_quota : String → ℕ → Store → Store
  reset_user_quota user_id now st = record st {
    months = del_all N.del (N.keys (user_prefix user_id) now st.months) st.months;
  }

  unfoldable pub reset_session_quota : String → Store → Store
  reset_session_quota session_id st = record st { sessions = N.del session_id st.sessions }

  unfoldable pub set_user_monthly_quota : String → ℕ → ℕ → Store → Store
  set_user_monthly_quota user_id limit now st = record st {
    months = N.set_ex (limit_key user_id) (C.month_expiry now) limit now st.months;
  }

  unfoldable pub get_user_monthly_quota : String → ℕ → Store → ℕ
  get_user_monthly_quota user_id now st =
      effective_limit user_id default_config.monthly_limit now st
