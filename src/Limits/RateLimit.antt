-- ===== src/Limits/RateLimit.antt =====
-- rate-limit.service.ts: a sliding window, kept as a sorted set of Redis. The client is a parameter;
-- a call of it is `false` or `none` where it throws. The clock, in milliseconds, is past the window.
pub mod Guard
pub mod Window
mod Tests
use Prim.Native.String.{String, ◌++◌}
use xlm_pay.Base.{
  ℕ, ◌+◌, ◌-◌, ◌*◌, ◌≤◌, ◌<◌, ◌≡◌, Bool, true, false, not, ◌&&◌, Option, none, some, List, [], ◌∷◌,
  leb, str_eq, if◌then◌else◌,
}
use xlm_pay.Base.Text.{show_nat}
use xlm_pay.Repository.{one_if}

pub record SortedSets : Type 1 where
  pub Db : Type 0
  pub z_rem_range_by_score : String → ℕ → ℕ → Db → Bool × Db
  pub z_card : String → Db → Option ℕ
  pub z_range : String → ℕ → ℕ → Db → Option (List String)
  pub z_add : String → ℕ → String → Db → Bool × Db
  pub expire : String → ℕ → Db → Bool × Db
  pub del : String → Db → Bool × Db
  -- Not a call: the number of members whose score and value meet a condition.
  pub count : String → (ℕ → String → Bool) → Db → ℕ

abbrev pub everything : ℕ → String → Bool
everything score value = true

-- Redis's documented behaviour while it can be reached: a value is a member once.
pub record Laws (R : SortedSets) : Type 0 where
  pub z_rem-succeeds : (k : String) (a b : ℕ) (d : R.Db) → (R.z_rem_range_by_score k a b d).0 ≡ true
  pub z_add-succeeds : (k : String) (s : ℕ) (v : String) (d : R.Db) → (R.z_add k s v d).0 ≡ true
  pub expire-succeeds : (k : String) (t : ℕ) (d : R.Db) → (R.expire k t d).0 ≡ true
  pub z_card-count : (k : String) (d : R.Db) → R.z_card k d ≡ some (R.count k everything d)
  pub z_range-succeeds :
      (k : String) (a b : ℕ) (d : R.Db) → (vs : List String) × (R.z_range k a b d ≡ some vs)
  pub count-z_rem :
      (k : String) (p : ℕ → String → Bool) (a b : ℕ) (d : R.Db)
      → R.count k p (R.z_rem_range_by_score k a b d).1
        ≡ R.count k (λ s v. p s v && not (leb a s && leb s b)) d
  pub count-z_add :
      (k : String) (p : ℕ → String → Bool) (s : ℕ) (v : String) (d : R.Db)
      → R.count k p (R.z_add k s v d).1
        ≡ one_if (p s v) + R.count k (λ t w. p t w && not (str_eq w v)) d
  pub count-expire :
      (k : String) (p : ℕ → String → Bool) (t : ℕ) (d : R.Db)
      → 0 < t
      → R.count k p (R.expire k t d).1 ≡ R.count k p d
  pub count-split :
      (k : String) (p q : ℕ → String → Bool) (d : R.Db)
      → R.count k p d
        ≡ R.count k (λ s v. p s v && q s v) d + R.count k (λ s v. p s v && not (q s v)) d

pub record Decision : Type 0 where
  pub allowed : Bool
  pub remaining : ℕ
  pub reset_at : ℕ

unfoldable pub redis_key : String → String
redis_key key = "rate_limit:" ++ key

module _ (R : SortedSets) (parse_int : String → ℕ) where
  -- A call, and what follows it unless it throws.
  abbrev pub then_or : Bool × R.Db → Decision → (R.Db → Decision × R.Db) → Decision × R.Db
  then_or (true, d) on_error next = next d
  then_or (false, d) on_error next = (on_error, d)

  abbrev pub value_or {ℓ} :
      {A : Type ℓ} → Option A → R.Db → Decision → (A → Decision × R.Db) → Decision × R.Db
  value_or none d on_error next = (on_error, d)
  value_or (some a) d on_error next = next a

  -- parseInt of the oldest entry, or else the time of the call.
  abbrev pub oldest_or : List String → ℕ → ℕ
  oldest_or [] now = now
  oldest_or (v ∷ vs) now = parse_int v

  abbrev pub fail_open : (limit window_seconds now : ℕ) → Decision
  fail_open limit window_seconds now = record {
    allowed = true;
    remaining = limit;
    reset_at = now + window_seconds * 1000;
  }

  -- The branches after the entries are counted.
  unfoldable pub refuse : (key : String) (limit window_seconds now : ℕ) → R.Db → Decision × R.Db
  refuse key limit window_seconds now db =
      value_or (R.z_range (redis_key key) 0 0 db) db (fail_open limit window_seconds now) λ oldest.
        (
          record {
            allowed = false;
            remaining = 0;
            reset_at = oldest_or oldest now + window_seconds * 1000;
          },
          db,
        )

  unfoldable pub admit :
      (key : String) (limit window_seconds now request_count : ℕ) → R.Db → Decision × R.Db
  admit key limit window_seconds now request_count db =
      then_or (R.z_add (redis_key key) now (show_nat now) db) (fail_open limit window_seconds now)
        λ added.
          then_or (R.expire (redis_key key) window_seconds added)
            (fail_open limit window_seconds now)
            λ kept. (
              record {
                allowed = true;
                remaining = limit - request_count - 1;
                reset_at = now + window_seconds * 1000;
              },
              kept,
            )

  unfoldable pub check_rate_limit :
      (key : String) (limit window_seconds now : ℕ) → R.Db → Decision × R.Db
  check_rate_limit key limit window_seconds now db =
      then_or (R.z_rem_range_by_score (redis_key key) 0 (now - window_seconds * 1000) db)
        (fail_open limit window_seconds now)
        λ pruned.
          value_or (R.z_card (redis_key key) pruned) pruned (fail_open limit window_seconds now)
            λ request_count.
              if leb limit request_count
              then refuse key limit window_seconds now pruned
              else admit key limit window_seconds now request_count pruned

  -- An error is only logged.
  unfoldable pub reset_rate_limit : String → R.Db → R.Db
  reset_rate_limit key db = (R.del (redis_key key) db).1

unfoldable pub generate_key_for_ip : String → String → String
generate_key_for_ip ip endpoint = "ip:" ++ (ip ++ (":" ++ endpoint))

unfoldable pub generate_key_for_user : String → String → String
generate_key_for_user user_id endpoint = "user:" ++ (user_id ++ (":" ++ endpoint))
