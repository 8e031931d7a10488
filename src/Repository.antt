-- ===== src/Repository.antt =====
-- A TypeORM repository, which the services call and do not implement: rows are found, counted,
-- inserted, updated and removed by a condition. `Laws` says of it what SQL says, through the number
-- of rows that meet a condition, so that no order of rows is assumed. Calls are taken to succeed.
pub mod Counting
pub mod Memory
pub mod Saves
use xlm_pay.Base.{
  ℕ, ◌+◌, ◌≤◌, ◌≡◌, Bool, true, false, not, ◌&&◌, Option, none, some, List, All, if◌then◌else◌,
}

pub record Repository {ℓ} (A : Type ℓ) : Type (ℓ ⊔ 1) where
  pub Db : Type 0
  pub find_one : (A → Bool) → Db → Option A
  pub find : (A → Bool) → Db → List A
  pub count : (A → Bool) → Db → ℕ
  pub insert : A → Db → Db
  pub update : (A → Bool) → (A → A) → Db → Db
  pub delete : (A → Bool) → Db → Db

-- 1 for a row that meets the condition.
abbrev pub one_if : Bool → ℕ
one_if b = if b then 1 else 0

pub record Laws {ℓ} {A : Type ℓ} (R : Repository A) : Type ℓ where
  pub find_one-none : (p : A → Bool) (d : R.Db) → R.find_one p d ≡ none → R.count p d ≡ 0
  pub find_one-some : (p : A → Bool) (d : R.Db) (a : A) → R.find_one p d ≡ some a → p a ≡ true
  -- A row that is found is one of the rows.
  pub find_one-row :
      (p q : A → Bool) (d : R.Db) (a : A)
      → R.find_one p d ≡ some a
      → q a ≡ true
      → 1 ≤ R.count (λ x. p x && q x) d
  -- Where no row meets `p` but not `q`, every row that is found meets `q`.
  pub find-All :
      (p q : A → Bool) (d : R.Db)
      → R.count (λ x. p x && not (q x)) d ≡ 0
      → All (λ a. q a ≡ true) (R.find p d)
  pub count-split :
      (p q : A → Bool) (d : R.Db)
      → R.count p d ≡ R.count (λ x. p x && q x) d + R.count (λ x. p x && not (q x)) d
  pub count_never : (d : R.Db) → R.count (λ _. false) d ≡ 0
  pub count-insert :
      (p : A → Bool) (a : A) (d : R.Db) → R.count p (R.insert a d) ≡ one_if (p a) + R.count p d
  pub count-update :
      (p c : A → Bool) (f : A → A) (d : R.Db)
      → R.count p (R.update c f d) ≡ R.count (λ x. p (if c x then f x else x)) d
  pub count-delete :
      (p c : A → Bool) (d : R.Db) → R.count p (R.delete c d) ≡ R.count (λ x. p x && not (c x)) d
