-- ===== src/Workflow/Idempotency/Tests.antt =====
-- Two checks of one key, with a Map as the cache.
use xlm_pay.Base.{ℕ, zero, suc, ◌≡◌, refl, Bool, true, false, Option, some, none}
use xlm_pay.Workflow.Idempotency.Checks.{
  ResultCache, check_idempotency, check_found, cached_result, finish, store_result,
}
use xlm_pay.Workflow.Idempotency.Repeats.{check_idempotency-twice}

-- The slot of the one key that is used.
abbrev slot : ResultCache (Option ℕ) ℕ
slot = record { get = λ k s. (some s, s); set = λ k a s. (true, some a) }

abbrev not_zero : ℕ → Bool
not_zero zero = false
not_zero (suc n) = true

check_idempotency-twice_example :
    check_idempotency not_zero "payment:7"
      (λ s. (none, s))
      (some slot)
      ((check_idempotency not_zero "payment:7" (λ s. (some 5, s)) (some slot) none).1)
    ≡ (some record { result = 5; is_duplicate = true }, some 5)
unfolding check_idempotency check_found cached_result finish store_result
check_idempotency-twice_example =
    check_idempotency-twice not_zero "payment:7" (λ s. (some 5, s)) (λ s. (none, s)) slot none 5
      (λ a s. refl) refl refl
