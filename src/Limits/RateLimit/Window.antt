-- ===== src/Limits/RateLimit/Window.antt =====
-- How many requests the window holds, and how many it lets through.
use xlm_pay.Base.{
  ℕ, zero, suc, String, ◌+◌, ◌-◌, ◌*◌, ◌≤◌, ◌<◌, ◌≡◌, ◌∙◌, refl, ap, fun_ext, Bool, true, false,
  not, ◌&&◌, arith, leb, str_eq, eq_iff, if◌then◌else◌,
}
use xlm_pay.Base.Text.{show_nat}
use xlm_pay.Repository.{one_if}
use xlm_pay.Limits.RateLimit.{
  SortedSets, Laws, Decision, everything, redis_key, then_or, refuse, admit, check_rate_limit,
}

module _ (R : SortedSets) (parse_int : String → ℕ) (key : String) (limit window now : ℕ) where
  -- The entries that count at `now`.
  abbrev pub live : ℕ → String → Bool
  live s v = not (leb 0 s && leb s (now - window * 1000))

  abbrev pub live_count : R.Db → ℕ
  live_count db = R.count (redis_key key) live db

  -- The table after so many further requests in the same millisecond.
  unfoldable pub requests : ℕ → R.Db → R.Db
  requests zero db = db
  requests (suc n) db = requests n (check_rate_limit R parse_int key limit window now db).1

module _ (R : SortedSets) (L : Laws R) (parse_int : String → ℕ) (key : String)
    (limit window now : ℕ) (width : 0 < window) (started : 0 < now) where
  abbrev Condition : Type 0
  Condition = ℕ → String → Bool

  count_same :
      (p q : Condition) (db : R.Db)
      → ((s : ℕ) (v : String) → p s v ≡ q s v)
      → R.count (redis_key key) p db ≡ R.count (redis_key key) q db
  count_same p q db h = ap (λ c. R.count (redis_key key) c db) (fun_ext (λ s. fun_ext (h s)))

  -- The table after a request that is let through.
  abbrev pruned : R.Db → R.Db
  pruned db = (R.z_rem_range_by_score (redis_key key) 0 (now - window * 1000) db).1

  abbrev entered : R.Db → R.Db
  entered db =
      (R.expire (redis_key key) window (R.z_add (redis_key key) now (show_nat now) (pruned db)).1).1

  step_through :
      (c : Bool × R.Db) (e : Decision) (f : R.Db → Decision × R.Db)
      → c.0 ≡ true
      → then_or R parse_int c e f ≡ f c.1
  step_through (true, d) e f h = refl
  step_through (false, d) e f h = cc

  counted :
      (db : R.Db)
      → check_rate_limit R parse_int key limit window now db ≡ (
          if leb limit (live_count R parse_int key limit window now db)
          then refuse R parse_int key limit window now (pruned db)
          else admit R parse_int key limit window now
              (live_count R parse_int key limit window now db)
              (pruned db))
  unfolding check_rate_limit
  counted db =
      step_through _ _ _ (L.z_rem-succeeds (redis_key key) 0 (now - window * 1000) db)
      ∙ rw
          (
            L.z_card-count (redis_key key) (pruned db),
            L.count-z_rem (redis_key key) everything 0 (now - window * 1000) db,
          )
          refl

  count-entered :
      (p : Condition) (db : R.Db)
      → R.count (redis_key key) p (entered db)
        ≡ one_if (p now (show_nat now))
          + R.count
              (redis_key key)
              (λ s v.
                (p s v && not (str_eq v (show_nat now)))
                && live R parse_int key limit window now s v)
              db
  count-entered p db =
      L.count-expire (redis_key key) p window _ width
      ∙ L.count-z_add (redis_key key) p now (show_nat now) (pruned db)
      ∙ ap (λ n. one_if (p now (show_nat now)) + n)
          (L.count-z_rem (redis_key key) _ 0 (now - window * 1000) db)

  admitted :
      (n : ℕ) (db : R.Db)
      → admit R parse_int key limit window now n (pruned db) ≡ (
        record { allowed = true; remaining = limit - n - 1; reset_at = now + window * 1000 },
        entered db,
      )
  unfolding admit
  admitted n db =
      step_through _ _ _ (L.z_add-succeeds (redis_key key) now (show_nat now) (pruned db))
      ∙ step_through _ _ _ (L.expire-succeeds (redis_key key) window _)

  let_through :
      (db : R.Db)
      → live_count R parse_int key limit window now db < limit
      → check_rate_limit R parse_int key limit window now db ≡ (
        record {
          allowed = true;
          remaining = limit - live_count R parse_int key limit window now db - 1;
          reset_at = now + window * 1000;
        },
        entered db,
      )
  let_through db h =
      counted db
      ∙ branch (leb limit (live_count R parse_int key limit window now db)) (ground arith)
    where
      branch :
          (b : Bool)
          → b ≡ false
          → (if b
              then refuse R parse_int key limit window now (pruned db)
              else admit R parse_int key limit window now
                  (live_count R parse_int key limit window now db)
                  (pruned db))
            ≡ (
              record {
                allowed = true;
                remaining = limit - live_count R parse_int key limit window now db - 1;
                reset_at = now + window * 1000;
              },
              entered db,
            )
      branch true e = cc
      branch false e = admitted (live_count R parse_int key limit window now db) db

  -- The entry of this moment is live, and there is one of it.
  entry_live : live R parse_int key limit window now now (show_nat now) ≡ true
  entry_live = ground arith

  others_left :
      (s : ℕ) (v : String)
      → ((live R parse_int key limit window now s v && not (str_eq v (show_nat now)))
          && live R parse_int key limit window now s v)
        ≡ (live R parse_int key limit window now s v && not (str_eq v (show_nat now)))
  others_left s v = ground arith

  abbrev others : R.Db → ℕ
  others db =
      R.count (redis_key key)
        (λ s v. live R parse_int key limit window now s v && not (str_eq v (show_nat now))) db

  live_count-entered :
      (db : R.Db) → live_count R parse_int key limit window now (entered db) ≡ 1 + others db
  live_count-entered db = omega (
    arith,
    count-entered (live R parse_int key limit window now) db,
    ap one_if entry_live,
    count_same _ _ db others_left,
  )

  others-entered : (db : R.Db) → others (entered db) ≡ others db
  others-entered db = omega (
    arith,
    count-entered
        (λ s v. live R parse_int key limit window now s v && not (str_eq v (show_nat now))) db,
    gone,
    count_same
        (λ s v.
          ((live R parse_int key limit window now s v && not (str_eq v (show_nat now)))
            && not (str_eq v (show_nat now)))
          && live R parse_int key limit window now s v)
        (λ s v. live R parse_int key limit window now s v && not (str_eq v (show_nat now))) db
        (λ s v. ground arith),
  )
    where
      gone :
          one_if (
            live R parse_int key limit window now now (show_nat now)
            && not (str_eq (show_nat now) (show_nat now)))
          ≡ 0
      gone = ground (arith, eq_iff (show_nat now) (show_nat now))

  fewer : (db : R.Db) → others db ≤ live_count R parse_int key limit window now db
  fewer db = omega (
    arith,
    L.count-split (redis_key key) (live R parse_int key limit window now)
        (λ s v. not (str_eq v (show_nat now))) db,
  )

  requests_allowed :
      (n : ℕ) (db : R.Db)
      → live_count R parse_int key limit window now db ≡ 1 + others db
      → 1 + others db < limit
      → (check_rate_limit R parse_int key limit window now
          (requests R parse_int key limit window now n db)).0.allowed
        ≡ true
  unfolding requests
  requests_allowed zero db e h = rw (let_through db (omega arith)) refl
  requests_allowed (suc n) db e h = rw (let_through db (omega arith)) (
      requests_allowed n (entered db) (omega (arith, live_count-entered db, others-entered db))
        (omega (arith, others-entered db)))

  -- Where two requests may still be let through, any number of requests within one millisecond is:
  -- all of them are one entry of the set.
  pub check_rate_limit_same_ms :
      (n : ℕ) (db : R.Db)
      → live_count R parse_int key limit window now db + 1 < limit
      → (check_rate_limit R parse_int key limit window now
          (requests R parse_int key limit window now n db)).0.allowed
        ≡ true
  unfolding requests
  check_rate_limit_same_ms zero db h = rw (let_through db (omega arith)) refl
  check_rate_limit_same_ms (suc n) db h = rw (let_through db (omega arith)) (
      requests_allowed n (entered db) (omega (arith, live_count-entered db, others-entered db))
        (omega (arith, others-entered db, fewer db)))
