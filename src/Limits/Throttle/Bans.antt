-- ===== src/Limits/Throttle/Bans.antt =====
-- How many requests a window lets through, and how long a ban lasts.
use xlm_pay.Base.{
  get_or, Option, ℕ, String, ◌+◌, ◌-◌, ◌*◌, ◌^◌, ◌≤◌, ◌<◌, ◌≡◌, ◌≢◌, ◌∙◌, refl, ap, Bool, true,
  false, some, none, arith, leb, ltb, ◌==◌, Bool-cases, inl, inr, if◌then◌else◌,
}
use xlm_pay.Limits.Throttle.{
  Counters, Laws, Result, ok, too_many_requests, count_up, check_rate_limit, check_ban,
  register_violation, can_activate, activate_checked, ban_answer, activate_limited, build_rate_key,
  auth_limit, global_limit, RateLimit, build_ban_key, violations_key, max_violations,
  base_ban_seconds,
}

module _ (R : Counters) (L : Laws R) where
  count_up-number :
      (key : String) (window now : ℕ) (db : R.Db)
      → (count_up R key window now db).0 ≡ R.number key now db + 1
  unfolding count_up
  count_up-number key window now db = L.incr-number key now db

  -- Once the violations are counted.
  ban_lasts :
      (identifier : String) (now later n v : ℕ) (d : R.Db)
      → v ≡ n + 1
      → 2 ≤ n
      → now ≤ later
      → check_ban R identifier later (
          if leb max_violations v
          then R.set_ex (build_ban_key identifier) (base_ban_seconds * 2 ^ (v - 1)) "1" now d
          else d)
        ≡ (if ltb later (now + 60 * 2 ^ n) then too_many_requests "Temporarily banned" else ok tt)
  unfolding check_ban
  ban_lasts identifier now later n v d e h l =
      rw
        (
          reached,
          L.get-set_ex (build_ban_key identifier) "1" (60 * 2 ^ (v - 1)) now later d l,
          one_less,
        )
        (answer (ltb later (now + 60 * 2 ^ n)))
    where
      reached : leb max_violations v ≡ true
      reached = ground arith

      one_less : v - 1 ≡ n
      one_less = omega arith

      answer :
          (b : Bool)
          → ban_answer R (if b then some "1" else none)
            ≡ (if b then too_many_requests "Temporarily banned" else ok tt)
      answer true = refl
      answer false = refl

  -- The violation that brings the caller's number of violations to three or more bans the caller
  -- for a minute doubled once for each earlier violation: every check is refused until then, and
  -- passes from then on.
  pub check_ban-register_violation :
      (identifier : String) (now later : ℕ) (db : R.Db)
      → 2 ≤ R.number (violations_key identifier) now db
      → now ≤ later
      → check_ban R identifier later (register_violation R identifier now db) ≡ (
          if ltb later (now + 60 * 2 ^ R.number (violations_key identifier) now db)
          then too_many_requests "Temporarily banned"
          else ok tt)
  unfolding register_violation
  check_ban-register_violation identifier now later db h l =
      ban_lasts identifier now later _ _ _ (count_up-number (violations_key identifier) 3600 now db)
        h l

  get-count_up :
      (key other : String) (window now later : ℕ) (db : R.Db)
      → other ≢ key
      → R.get other later (count_up R key window now db).1 ≡ R.get other later db
  unfolding count_up
  get-count_up key other window now later db ne = elim (Bool-cases ((R.incr key now db).0 == 1)) [
    | inl e ↦
        rw e (L.get-expire key other window now later _ ne ∙ L.get-incr key other now later db ne)
    | inr e ↦ rw e (L.get-incr key other now later db ne)
  ]

  -- With fewer violations a violation bans nobody and lifts no ban, where the ban's key is not the
  -- counter's.
  pub check_ban-register_violation_early :
      (identifier other : String) (now later : ℕ) (db : R.Db)
      → R.number (violations_key identifier) now db < 2
      → build_ban_key other ≢ violations_key identifier
      → check_ban R other later (register_violation R identifier now db)
        ≡ check_ban R other later db
  unfolding check_ban register_violation
  check_ban-register_violation_early identifier other now later db h ne = rw (
    check_ban,
    early _ (count_up-number (violations_key identifier) 3600 now db),
    get-count_up (violations_key identifier) (build_ban_key other) 3600 now later db ne,
  )
    where
      early :
          (v : ℕ)
          → v ≡ R.number (violations_key identifier) now db + 1
          → leb max_violations v ≡ false
      early v e = ground arith

  refused_above : (n limit v : ℕ) → v ≡ n + 1 → ltb limit v ≡ leb limit n
  refused_above n limit v e = ground arith

  -- What an answer of checkBan and the counter of the route make of a request.
  abbrev pub verdict : Result (Unit {0}) → ℕ → ℕ → Result Bool
  verdict (too_many_requests m) limit n = too_many_requests m
  verdict (ok _) limit n = if ltb n limit then ok true else too_many_requests "Rate limit exceeded"

  activate_checked-verdict :
      (a : Result (Unit {0})) (path identifier : String) (c : RateLimit) (now : ℕ) (db : R.Db)
      → (activate_checked R a path identifier c now db).0
        ≡ verdict a c.limit (R.number (build_rate_key path identifier) now db)
  unfolding activate_checked activate_limited check_rate_limit
  activate_checked-verdict (too_many_requests m) path identifier c now db = refl
  activate_checked-verdict (ok _) path identifier c now db =
      ground (arith, count_up-number (build_rate_key path identifier) c.window now db)

  -- A banned caller is refused; another is let through exactly if the counter of the route was
  -- below the limit, which is 5 for the routes of authentication and 100 for all others.
  pub can_activate_lem :
      (is_auth_route : String → Bool) (path ip : String) (user_id : Option String) (now : ℕ)
      (db : R.Db)
      → let identifier = get_or user_id ip in
        (can_activate R is_auth_route path ip user_id now db).0
        ≡ verdict
            (check_ban R identifier now db)
            (if is_auth_route path then 5 else 100)
            (R.number (build_rate_key path identifier) now db)
  unfolding can_activate
  can_activate_lem is_auth_route path ip user_id now db =
      activate_checked-verdict _ path _ _ now db
      ∙ ap
          (λ n.
            verdict (check_ban R (get_or user_id ip) now db) n
              (R.number (build_rate_key path (get_or user_id ip)) now db))
          (limits (is_auth_route path))
    where
      limits : (b : Bool) → (if b then auth_limit else global_limit).limit ≡ (if b then 5 else 100)
      limits true = refl
      limits false = refl
