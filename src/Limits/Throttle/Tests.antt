-- ===== src/Limits/Throttle/Tests.antt =====
-- Runs of the throttle on counters in memory.
use xlm_pay.Base.{
  ℕ, String, ◌+◌, ◌≡◌, ◌≢◌, refl, true, Option, none, some, arith, ltb, str_eq, eq_iff,
  if◌then◌else◌,
}
use xlm_pay.Limits.Throttle.{
  Counters, Laws, no_expiry, ok, too_many_requests, check_ban, register_violation, can_activate,
  build_ban_key, violations_key, build_rate_key,
}
use xlm_pay.Limits.Throttle.Bans.{check_ban-register_violation, can_activate_lem}

-- A text and when it goes, and the numbers.
record Timed : Type 0 where
  value : String
  deadline : ℕ

record Store : Type 0 where
  numbers : String → ℕ
  texts : String → Option Timed

abbrev read : Option Timed → ℕ → Option String
read none now = none
read (some t) now = if ltb now t.deadline then some t.value else none

abbrev set : {A : Type 0} → String → A → (String → A) → String → A
set k a f j = if str_eq j k then a else f j

abbrev counters : Counters
counters = record {
  Db = Store;
  incr = λ k t d. (d.numbers k + 1, record d { numbers = set k (d.numbers k + 1) d.numbers });
  expire = λ k n t d. d;
  ttl = λ k t d. no_expiry;
  get = λ k t d. read (d.texts k) t;
  set_ex = λ k n v t d. record d {
    texts = set k (some (record { value = v; deadline = t + n })) d.texts;
  };
  number = λ k t d. d.numbers k;
}

itself : (k : String) → str_eq k k ≡ true
itself k = (eq_iff k k).1 refl

counters-Laws : Laws counters
counters-Laws = record {
  incr-number = λ k t d. refl;
  number-incr = λ k t d. rw (itself k) refl;
  get-incr = λ k j t u d n. refl;
  get-expire = λ k j n t u d m. refl;
  get-set_ex = λ k v n t u d l. rw (itself k) refl;
}

abbrev a_store : Store
a_store = record { numbers = λ k. 2; texts = λ k. none }

abbrev empty : Store
empty = record { numbers = λ k. 0; texts = λ k. none }

check_ban-register_violation_example :
    check_ban counters "u1" 1100 (register_violation counters "u1" 1000 a_store)
    ≡ too_many_requests "Temporarily banned"
check_ban-register_violation_example =
    check_ban-register_violation counters counters-Laws "u1" 1000 1100 a_store (omega arith)
      (omega arith)

different : build_ban_key "u1" ≢ violations_key "u1"
unfolding build_ban_key violations_key
different e = cc ((eq_iff "ban:u1" "violations:u1").1 e)

can_activate_lem_example :
    (can_activate counters (λ p. str_eq p "/auth/login") "/auth/login" "1.2.3.4" none 1000 empty).0
    ≡ ok true
unfolding check_ban build_ban_key build_rate_key
can_activate_lem_example =
    can_activate_lem counters counters-Laws (λ p. str_eq p "/auth/login") "/auth/login" "1.2.3.4"
      none 1000 empty
