-- ===== src/Repository/Saves.antt =====
-- Saving an entity that was loaded: the row with its key is replaced.
use xlm_pay.Base.{◌≤◌, ◌≡◌, Bool, true, not, ◌&&◌, some, arith, Bool-cases, inl, inr, if◌then◌else◌}
use xlm_pay.Repository.{Repository, Laws}
use xlm_pay.Repository.Counting.{count_mono}

module _ {ℓ} {A : Type ℓ} (R : Repository A) (L : Laws R) where
  -- No row with the key of `a` lacks what `a` has.
  count_others :
      (h p : A → Bool) (d : R.Db) (a : A)
      → R.find_one h d ≡ some a
      → R.count h d ≤ 1
      → p a ≡ true
      → R.count (λ x. h x && not (p x)) d ≡ 0
  count_others h p d a found one e =
      omega (arith, L.find_one-row h p d a found e, L.count-split h p d)

  -- A condition that the new row meets only if the old one did is met no more often.
  pub count_kept :
      (h p : A → Bool) (d : R.Db) (a b : A)
      → R.find_one h d ≡ some a
      → R.count h d ≤ 1
      → (p b ≡ true → p a ≡ true)
      → R.count p (R.update h (λ _. b) d) ≤ R.count p d
  count_kept h p d a b found one keeps = elim (Bool-cases (p b)) [
    | inl e ↦ omega (
      arith,
      L.count-update p h (λ _. b) d,
      L.count-split (λ x. p (if h x then b else x)) p d,
      count_mono R L (λ x. p (if h x then b else x) && p x) p d (λ x q. ground arith),
      count_mono R L (λ x. p (if h x then b else x) && not (p x)) (λ x. h x && not (p x)) d
          (λ x q. ground arith),
      count_others h p d a found one (keeps e),
    )
    | inr e ↦ omega (
      arith,
      L.count-update p h (λ _. b) d,
      count_mono R L (λ x. p (if h x then b else x)) p d (λ x q. ground (arith, e)),
    )
  ]

  -- Where only rows with the key meet a condition, at most those do after the save.
  pub count_taken :
      (h p : A → Bool) (d : R.Db) (b : A)
      → R.count (λ x. p x && not (h x)) d ≡ 0
      → R.count p (R.update h (λ _. b) d) ≤ R.count h d
  count_taken h p d b none' = omega (
    arith,
    L.count-update p h (λ _. b) d,
    L.count-split (λ x. p (if h x then b else x)) h d,
    count_mono R L (λ x. p (if h x then b else x) && h x) h d (λ x q. ground arith),
    count_mono R L (λ x. p (if h x then b else x) && not (h x)) (λ x. p x && not (h x)) d
        (λ x q. ground arith),
  )
