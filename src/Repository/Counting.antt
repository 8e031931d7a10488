-- ===== src/Repository/Counting.antt =====
-- Counting the rows of a repository.
use xlm_pay.Base.{
  ◌≤◌, ◌≡◌, ap, fun_ext, Bool, true, false, not, ◌&&◌, some, arith, Bool-cases, inl, inr,
}
use xlm_pay.Repository.{Repository, Laws}

module _ {ℓ} {A : Type ℓ} (R : Repository A) (L : Laws R) where
  -- Conditions that agree on every row count the same rows.
  pub count_ext : (p q : A → Bool) (d : R.Db) → ((x : A) → p x ≡ q x) → R.count p d ≡ R.count q d
  count_ext p q d h = ap (λ c. R.count c d) (fun_ext h)

  and_of_implies : (a b : Bool) → (a ≡ true → b ≡ true) → a ≡ (b && a)
  and_of_implies a b h = ground (arith, h)

  pub count_mono :
      (p q : A → Bool) (d : R.Db) → ((x : A) → p x ≡ true → q x ≡ true) → R.count p d ≤ R.count q d
  count_mono p q d h = omega (
    arith,
    L.count-split q p d,
    count_ext p (λ x. q x && p x) d (λ x. and_of_implies (p x) (q x) (h x)),
  )

  -- Where no row meets `q`, a row that is found does not.
  pub find_one-not :
      (p q : A → Bool) (d : R.Db) (a : A) → R.find_one p d ≡ some a → R.count q d ≡ 0 → q a ≡ false
  find_one-not p q d a found none' = elim (Bool-cases (q a)) [
    | inl e ↦ absurd (
        omega (
          arith,
          L.find_one-row p q d a found e,
          count_mono (λ x. p x && q x) q d (λ x h. ground arith),
        ))
    | inr e ↦ e
  ]

  -- Where each row that meets `p` meets `q`, so does the row that is found.
  pub find_one-all :
      (p q : A → Bool) (d : R.Db) (a : A)
      → R.find_one p d ≡ some a
      → R.count (λ x. p x && not (q x)) d ≡ 0
      → q a ≡ true
  find_one-all p q d a found none' = elim (Bool-cases (q a)) [
    | inl e ↦ e
    | inr e ↦ absurd (omega (arith, L.find_one-row p (λ x. not (q x)) d a found (ground arith)))
  ]
