-- ===== src/Voice/Quota/Bounds.antt =====
-- Requests that pass enforceQuota and are recorded.
use xlm_pay.Base.{
  false, ℕ, String, get_or, ◌+◌, ◌≤◌, ◌≡◌, Option, none, some, List, [], ◌∷◌, leb, arith, str_eq,
  eq_iff, ◌==◌, Bool-cases, Option-cases, inl, inr,
}
use xlm_pay.Voice.Quota.Keys.{Numbers, Laws}
use xlm_pay.Voice.Quota.{
  Calendar, Store, Result, ok, too_many_requests, default_config, usage, effective_limit, limit_key,
  month_key, rpm_key, check_monthly_quota, check_session_quota, check_requests_per_minute,
  enforce_quota, increment_with_expiry, record_request,
}

-- A request of a user in a session at a time.
pub record Request : Type 0 where
  pub user_id : String
  pub session_id : String
  pub at : ℕ

module _ (C : Calendar) (N : Numbers) where
  -- A request that passes is recorded.
  unfoldable pub request_result : {X : Type 0} → Result X → Request → Store C N → Store C N
  request_result (ok _) r st = record_request C N r.user_id r.session_id r.at st
  request_result (too_many_requests m) r st = st

  unfoldable pub request : Request → Store C N → Store C N
  request r st =
      request_result (enforce_quota C N r.user_id r.session_id default_config r.at st) r st

  unfoldable pub requests : List Request → Store C N → Store C N
  requests [] st = st
  requests (r ∷ rs) st = requests rs (request r st)

  -- No count is above its limit, and no limit of a user's own, which is a number among those of the
  -- months, above 1000.
  pub record Within (t : ℕ) (st : Store C N) : Type 0 where
    pub monthly : (k : String) → usage C N k t st.months ≤ 1000
    pub per_session : (k : String) → usage C N k t st.sessions ≤ 100
    pub per_minute : (k : String) → usage C N k t st.minutes ≤ 20

unfoldable pub InOrder : ℕ → List Request → ℕ → Type 0
InOrder t [] u = t ≤ u
InOrder t (r ∷ rs) u = t ≤ r.at × InOrder r.at rs u

module _ (C : Calendar) (N : Numbers) (L : Laws N) where
  usage-later : (k : String) (t u : ℕ) (d : N.Db) → t ≤ u → usage C N k u d ≤ usage C N k t d
  usage-later k t u d h = elim (Option-cases (N.get k u d)) [
    | inl e ↦ rw e (omega arith)
    | inr (n, e) ↦ rw (e, L.get-later k t u d n h e) (omega arith)
  ]

  incremented :
      (j k : String) (t u most : ℕ) (d : N.Db)
      → t ≤ u
      → usage C N k t d + 1 ≤ most
      → usage C N j t d ≤ most
      → usage C N j u (N.incr k t d).1 ≤ most
  incremented j k t u most d h below all = elim (Bool-cases (str_eq j k)) [
    | inl q ↦ rw ((eq_iff j k).0 q) (omega (arith, L.get-incr k t u d h, below))
    | inr q ↦
        rw (L.get-incr_other j k t u d (λ e. cc ((eq_iff j k).1 e, q)))
          (omega (arith, usage-later j t u d h, all))
  ]

  -- A count that is below a limit does not pass it, and the others stay where they are.
  increment-bound :
      (j k : String) (ttl t u most : ℕ) (d : N.Db)
      → t ≤ u
      → usage C N k t d + 1 ≤ most
      → usage C N j t d ≤ most
      → usage C N j u (increment_with_expiry C N k ttl t d) ≤ most
  unfolding increment_with_expiry
  increment-bound j k ttl t u most d h below all = elim (Bool-cases ((N.incr k t d).0 == 1)) [
    | inl e ↦ rw e (
        omega (
          arith,
          L.get-expire j k ttl t u (N.incr k t d).1 h,
          incremented j k t t most d (omega arith) below all,
        ))
    | inr e ↦ rw e (incremented j k t u most d h below all)
  ]

  later-Within : (t u : ℕ) (st : Store C N) → t ≤ u → Within C N t st → Within C N u st
  later-Within t u st h w = record {
    monthly = λ k. omega (arith, usage-later k t u st.months h, w.monthly k);
    per_session = λ k. omega (arith, usage-later k t u st.sessions h, w.per_session k);
    per_minute = λ k. omega (arith, usage-later k t u st.minutes h, w.per_minute k);
  }

  recorded-Within :
      (r : Request) (u : ℕ) (st : Store C N)
      → r.at ≤ u
      → Within C N r.at st
      → usage C N (month_key C r.user_id r.at) r.at st.months + 1 ≤ 1000
      → usage C N r.session_id r.at st.sessions + 1 ≤ 100
      → usage C N (rpm_key r.user_id r.at) r.at st.minutes + 1 ≤ 20
      → Within C N u (record_request C N r.user_id r.session_id r.at st)
  unfolding record_request
  recorded-Within r u st h w m s p = record {
    monthly = λ k. increment-bound k _ _ r.at u 1000 st.months h m (w.monthly k);
    per_session = λ k. increment-bound k _ _ r.at u 100 st.sessions h s (w.per_session k);
    per_minute = λ k. increment-bound k _ _ r.at u 20 st.minutes h p (w.per_minute k);
  }

  -- A count below the limit that is in force for a user is below 1000.
  below_effective :
      (user_id : String) (t n : ℕ) (st : Store C N)
      → Within C N t st
      → leb (effective_limit C N user_id 1000 t st) n ≡ false
      → n + 1 ≤ 1000
  below_effective user_id t n st w e =
      by_limit (N.get (limit_key user_id) t st.months) (w.monthly (limit_key user_id)) e
    where
      by_limit : (o : Option ℕ) → get_or o 0 ≤ 1000 → leb (get_or o 1000) n ≡ false → n + 1 ≤ 1000
      by_limit none h f = ground (arith, f)
      by_limit (some m) h f = ground (arith, f, h)

  -- What a request that passes has passed.
  request-Within :
      (r : Request) (u : ℕ) (st : Store C N)
      → r.at ≤ u
      → Within C N r.at st
      → Within C N u (request C N r st)
  unfolding request request_result enforce_quota check_monthly_quota check_session_quota
      check_requests_per_minute
  request-Within r u st h w = elim (Bool-cases (leb most used)) [
    | inl m ↦ rw m (later-Within r.at u st h w)
    | inr m ↦ elim (Bool-cases (leb 100 (usage C N r.session_id r.at st.sessions))) [
      | inl s ↦ rw (m, s) (later-Within r.at u st h w)
      | inr s ↦ elim (Bool-cases (leb 20 (usage C N (rpm_key r.user_id r.at) r.at st.minutes))) [
        | inl p ↦ rw (m, s, p) (later-Within r.at u st h w)
        | inr p ↦
            rw (m, s, p)
              (recorded-Within r u st h w (below_effective r.user_id r.at used st w m)
                (ground (arith, s)) (ground (arith, p)))
      ]
    ]
  ]
    where
      used : ℕ
      used = usage C N (month_key C r.user_id r.at) r.at st.months

      most : ℕ
      most = effective_limit C N r.user_id 1000 r.at st

  -- Requests that are checked and, where they pass, recorded, one after the other and by any users
  -- in any sessions, never bring a month's count above 1000, a session's above 100 or a minute's
  -- above 20, if no user has a limit of their own above 1000.
  pub requests-Within :
      (rs : List Request) (t u : ℕ) (st : Store C N)
      → InOrder t rs u
      → Within C N t st
      → Within C N u (requests C N rs st)
  unfolding requests InOrder
  requests-Within [] t u st h w = later-Within t u st h w
  requests-Within (r ∷ rs) t u st (h, order) w =
      requests-Within rs r.at u (request C N r st) order
        (request-Within r r.at st (omega arith) (later-Within t r.at st h w))
