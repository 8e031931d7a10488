-- ===== src/Workflow/Idempotency/Repeats.antt =====
-- What checkIdempotency of idempotency.service.ts gives for a key that it has seen.
use Prim.Native.String.{String}
use xlm_pay.Base.{◌≡◌, refl, ap, ◌∙◌, Bool, true, false, Option, none, some}
use xlm_pay.Workflow.Idempotency.Checks.{
  ResultCache, Checked, cached_result, store_result, finish, check_found, check_idempotency,
}

abbrev is_repeated : {A : Type 0} → Option (Checked A) → Bool
is_repeated none = false
is_repeated (some c) = c.is_duplicate

abbrev result_or : {A : Type 0} → A → Option (Checked A) → A
result_or a none = a
result_or a (some c) = c.result

module _ {St A : Type 0} (is_truthy : A → Bool) where
  finish-stores :
      (key : String) (p : Option A × St) (cache : ResultCache St A) (a : A)
      → ((a : A) (s : St)
          → cache.get key (cache.set key a s).1 ≡ (some (some a), (cache.set key a s).1))
      → (finish is_truthy (some cache) key p).0 ≡ some record { result = a; is_duplicate = false }
      → cache.get key (finish is_truthy (some cache) key p).1
        ≡ (some (some a), (finish is_truthy (some cache) key p).1)
  unfolding finish store_result
  finish-stores key (none, s) cache a kept ran = absurd cc
  finish-stores key (some b, s) cache a kept ran =
      kept b s ∙ ap (λ x. (some (some x), (cache.set key b s).1)) (ap (result_or a) ran)

  check_found-stores :
      (o : Option A) (key : String) (operation : St → Option A × St) (cache : ResultCache St A)
      (s : St) (a : A)
      → ((a : A) (s : St)
          → cache.get key (cache.set key a s).1 ≡ (some (some a), (cache.set key a s).1))
      → (check_found is_truthy o key operation (some cache) s).0
        ≡ some record { result = a; is_duplicate = false }
      → cache.get key (check_found is_truthy o key operation (some cache) s).1
        ≡ (some (some a), (check_found is_truthy o key operation (some cache) s).1)
  unfolding check_found
  check_found-stores none key operation cache s a kept ran =
      finish-stores key (operation s) cache a kept ran
  check_found-stores (some b) key operation cache s a kept ran = absurd (cc (ap is_repeated ran))

  -- A check that ran its operation and got a truthy result, with a cache that then gives it back, is
  -- followed by checks that give the same result as a duplicate and do not run theirs.
  pub check_idempotency-twice :
      (key : String) (first second : St → Option A × St) (cache : ResultCache St A) (s : St) (a : A)
      → ((a : A) (s : St)
          → cache.get key (cache.set key a s).1 ≡ (some (some a), (cache.set key a s).1))
      → is_truthy a ≡ true
      → (check_idempotency is_truthy key first (some cache) s).0
        ≡ some record { result = a; is_duplicate = false }
      → check_idempotency is_truthy key second
          (some cache)
          (check_idempotency is_truthy key first (some cache) s).1
        ≡ (
          some record { result = a; is_duplicate = true },
          (check_idempotency is_truthy key first (some cache) s).1,
        )
  unfolding check_idempotency check_found cached_result
  check_idempotency-twice key first second cache s a kept truthy ran =
      rw
        (
          check_found-stores (cached_result is_truthy (cache.get key s).0) key first cache
              (cache.get key s).1 a kept ran,
          truthy,
        )
        refl
