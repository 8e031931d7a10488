-- ===== src/Limits/Throttle.antt =====
-- throttle: throttle.service.ts, throttle.guard.ts and their constants. A counter in Redis for each
-- route and caller, a counter of violations, and a ban that doubles. The client is a parameter;
-- times are in seconds.
pub mod Bans
mod Tests
use Prim.Native.String.{String, ◌++◌}
use xlm_pay.Base.{
  ℕ, ◌+◌, ◌-◌, ◌*◌, ◌^◌, ◌≤◌, ◌<◌, ◌≡◌, ◌≢◌, Bool, true, false, Option, none, some, leb, ltb,
  str_eq, ◌==◌, get_or, if◌then◌else◌,
}

-- The reply of TTL: no such key, no expiry, or the seconds that are left.
pub data Ttl : Type 0 where
  no_key : Ttl
  no_expiry : Ttl
  seconds : ℕ → Ttl

pub record Counters : Type 1 where
  pub Db : Type 0
  pub incr : String → ℕ → Db → ℕ × Db
  pub expire : String → ℕ → ℕ → Db → Db
  pub ttl : String → ℕ → Db → Ttl
  pub get : String → ℕ → Db → Option String
  pub set_ex : String → ℕ → String → ℕ → Db → Db
  -- Not a call: the number at a key at a time, 0 where there is none.
  pub number : String → ℕ → Db → ℕ

-- The documented behaviour that the theorems use. Each operation's last number is the time.
pub record Laws (R : Counters) : Type 0 where
  pub incr-number : (k : String) (t : ℕ) (d : R.Db) → (R.incr k t d).0 ≡ R.number k t d + 1
  pub number-incr :
      (k : String) (t : ℕ) (d : R.Db) → R.number k t (R.incr k t d).1 ≡ R.number k t d + 1
  pub get-incr :
      (k j : String) (t u : ℕ) (d : R.Db) → j ≢ k → R.get j u (R.incr k t d).1 ≡ R.get j u d
  pub get-expire :
      (k j : String) (n t u : ℕ) (d : R.Db) → j ≢ k → R.get j u (R.expire k n t d) ≡ R.get j u d
  pub get-set_ex :
      (k v : String) (n t u : ℕ) (d : R.Db)
      → t ≤ u
      → R.get k u (R.set_ex k n v t d) ≡ (if ltb u (t + n) then some v else none)

pub record RateLimit : Type 0 where
  pub limit : ℕ
  pub window : ℕ

abbrev pub global_limit : RateLimit
global_limit = record { limit = 100; window = 60 }

abbrev pub auth_limit : RateLimit
auth_limit = record { limit = 5; window = 60 }

abbrev pub max_violations : ℕ
max_violations = 3

abbrev pub base_ban_seconds : ℕ
base_ban_seconds = 60

unfoldable pub build_rate_key : String → String → String
build_rate_key prefix identifier = "rate:" ++ (prefix ++ (":" ++ identifier))

unfoldable pub build_ban_key : String → String
build_ban_key identifier = "ban:" ++ identifier

unfoldable pub violations_key : String → String
violations_key identifier = "violations:" ++ identifier

-- HttpException with TOO_MANY_REQUESTS, with its message.
pub data Result {ℓ} (A : Type ℓ) : Type ℓ where
  ok : A → Result A
  too_many_requests : String → Result A

pub record Usage : Type 0 where
  pub current : ℕ
  pub limit : ℕ
  pub ttl : Ttl

-- The three headers of a response.
pub record Headers : Type 0 where
  pub rate_limit : ℕ
  pub remaining : ℕ
  pub reset : Ttl

module _ (R : Counters) where
  -- INCR, and EXPIRE on the first count.
  unfoldable pub count_up : String → (window_seconds now : ℕ) → R.Db → ℕ × R.Db
  count_up key window_seconds now db =
      let (current, counted) = R.incr key now db in
      (current, if current == 1 then R.expire key window_seconds now counted else counted)

  unfoldable pub check_rate_limit : String → (limit window_seconds now : ℕ) → R.Db → Usage × R.Db
  check_rate_limit key limit window_seconds now db =
      let (current, after) = count_up key window_seconds now db in
      (record { current = current; limit = limit; ttl = R.ttl key now after }, after)

  -- `if (banned)`: an empty text is false.
  abbrev pub ban_answer : Option String → Result (Unit {0})
  ban_answer none = ok tt
  ban_answer (some v) = if str_eq v "" then ok tt else too_many_requests "Temporarily banned"

  unfoldable pub check_ban : String → ℕ → R.Db → Result (Unit {0})
  check_ban identifier now db = ban_answer (R.get (build_ban_key identifier) now db)

  unfoldable pub register_violation : String → ℕ → R.Db → R.Db
  register_violation identifier now db =
      let (violations, after) = count_up (violations_key identifier) 3600 now db in
      if leb max_violations violations
      then R.set_ex (build_ban_key identifier) (base_ban_seconds * 2 ^ (violations - 1)) "1" now
          after
      else after

  -- canActivate, after the ban is checked: the answer, the headers that are set, and the store.
  unfoldable pub activate_limited :
      (path identifier : String) → RateLimit → ℕ → R.Db → Result Bool × Headers × R.Db
  activate_limited path identifier config now db =
      let (usage, counted) =
        check_rate_limit (build_rate_key path identifier) config.limit config.window now db in
      let headers : Headers = record {
        rate_limit = usage.limit;
        remaining = usage.limit - usage.current;
        reset = usage.ttl;
      } in
      if ltb usage.limit usage.current
      then (
        too_many_requests "Rate limit exceeded",
        headers,
        register_violation identifier now counted,
      )
      else (ok true, headers, counted)

  -- canActivate, from the answer of checkBan on.
  unfoldable pub activate_checked :
      Result (Unit {0})
      → (path identifier : String) → RateLimit
      → ℕ
      → R.Db
      → Result Bool × Option Headers × R.Db
  activate_checked (too_many_requests m) path identifier config now db =
      (too_many_requests m, none, db)
  activate_checked (ok _) path identifier config now db =
      let (answer, headers, after) = activate_limited path identifier config now db in
      (answer, some headers, after)

  -- `is_auth_route` is `req.path.includes('/auth')`; the identifier is the user's id, or else the ip.
  unfoldable pub can_activate :
      (is_auth_route : String → Bool) (path ip : String) (user_id : Option String) (now : ℕ)
      → R.Db
      → Result Bool × Option Headers × R.Db
  can_activate is_auth_route path ip user_id now db =
      let identifier = get_or user_id ip in
      activate_checked (check_ban identifier now db) path identifier
        (if is_auth_route path then auth_limit else global_limit) now db
