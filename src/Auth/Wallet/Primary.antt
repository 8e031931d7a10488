-- ===== src/Auth/Wallet/Primary.antt =====
-- The calls of wallet.service.ts, and what a sound table of bindings is.
use xlm_pay.Base.{
  ℕ, String, ◌≤◌, ◌≡◌, ◌∙◌, ap, subst, inl, inr, Bool, true, false, not, ◌&&◌, arith, str_eq,
  eq_iff, Bool-cases, if◌then◌else◌,
}
use xlm_pay.Repository.{Repository, Laws, one_if}
use xlm_pay.Repository.Counting.{count_mono, count_ext}
use xlm_pay.Auth.Wallet.{
  WalletBinding, owned_by, has_id, set_primary, bind_wallet_to_user, unbind_wallet,
  update_last_used,
}

abbrev pub primary_of : String → WalletBinding → Bool
primary_of u b = owned_by u b && b.is_primary

-- The calls that change the table.
pub data Call : Type 0 where
  bind : (id public_key user_id : String) → Bool → ℕ → Call
  unbind : (public_key user_id : String) → Call
  use_wallet : String → ℕ → Call

module _ (R : Repository WalletBinding) where
  unfoldable pub step : Call → R.Db → R.Db
  step (bind id public_key user_id is_primary now) db =
      (bind_wallet_to_user R id public_key user_id is_primary now db).1
  step (unbind public_key user_id) db = (unbind_wallet R public_key user_id db).1
  step (use_wallet public_key now) db = update_last_used R public_key now db

  -- Ids are a primary key, and of a user's wallets at most one is primary.
  pub record IsSound (db : R.Db) : Type 0 where
    pub unique_ids : (i : String) → R.count (has_id i) db ≤ 1
    pub one_primary : (u : String) → R.count (primary_of u) db ≤ 1

-- A new binding has an id of its own.
abbrev pub Fresh : (R : Repository WalletBinding) → Call → R.Db → Type 0
Fresh R (bind id public_key user_id is_primary now) db = R.count (has_id id) db ≡ 0
Fresh R (unbind public_key user_id) db = Unit
Fresh R (use_wallet public_key now) db = Unit

module _ (R : Repository WalletBinding) (L : Laws R) where
  -- A change that keeps ids, users and marks changes no count that matters.
  pub update-IsSound :
      (c : WalletBinding → Bool) (f : WalletBinding → WalletBinding) (db : R.Db)
      → ((x : WalletBinding) → (f x).id ≡ x.id)
      → ((u : String) (x : WalletBinding) → primary_of u (f x) ≡ true → primary_of u x ≡ true)
      → IsSound R db
      → IsSound R (R.update c f db)
  update-IsSound c f db ids marks h = record {
    unique_ids = λ i. omega (
      arith,
      h.unique_ids i,
      L.count-update (has_id i) c f db,
      count_ext R L (λ x. has_id i (if c x then f x else x)) (has_id i) db (same_id i),
    );
    one_primary = λ u. omega (
      arith,
      h.one_primary u,
      L.count-update (primary_of u) c f db,
      count_mono R L (λ x. primary_of u (if c x then f x else x)) (primary_of u) db (keeps u),
    );
  }
    where
      same_id : (i : String) (x : WalletBinding) → has_id i (if c x then f x else x) ≡ has_id i x
      same_id i x = ground (arith, ids x)

      keeps :
          (u : String) (x : WalletBinding)
          → primary_of u (if c x then f x else x) ≡ true
          → primary_of u x ≡ true
      keeps u x e = ground (arith, marks u x)

  pub delete-IsSound :
      (c : WalletBinding → Bool) (db : R.Db) → IsSound R db → IsSound R (R.delete c db)
  delete-IsSound c db h = record {
    unique_ids = λ i. omega (arith, h.unique_ids i, fewer (has_id i));
    one_primary = λ u. omega (arith, h.one_primary u, fewer (primary_of u));
  }
    where
      fewer : (p : WalletBinding → Bool) → R.count p (R.delete c db) ≤ R.count p db
      fewer p = omega (
        arith,
        L.count-delete p c db,
        count_mono R L (λ x. p x && not (c x)) p db (λ x e. ground arith),
      )

  -- Once the user's marks are cleared the user has no primary wallet.
  pub cleared_none :
      (user_id : String) (db : R.Db)
      → R.count (primary_of user_id) (R.update (owned_by user_id) (set_primary false) db) ≡ 0
  cleared_none user_id db =
      L.count-update (primary_of user_id) (owned_by user_id) (set_primary false) db
      ∙ count_ext R L _ (λ _. false) db (λ x. ground arith)
      ∙ L.count_never db

  pub insert-IsSound :
      (b : WalletBinding) (db : R.Db)
      → R.count (has_id b.id) db ≡ 0
      → (b.is_primary ≡ true → R.count (primary_of b.user_id) db ≡ 0)
      → IsSound R db
      → IsSound R (R.insert b db)
  insert-IsSound b db fresh none' h = record {
    unique_ids = λ i. elim (Bool-cases (str_eq b.id i)) [
      | inl e ↦
          let same : b.id ≡ i = (eq_iff b.id i).0 e in
          omega (
            arith,
            L.count-insert (has_id i) b db,
            ap one_if e,
            subst (λ j. R.count (has_id j) db ≡ 0) same fresh,
          )
      | inr e ↦ omega (arith, L.count-insert (has_id i) b db, ap one_if e, h.unique_ids i)
    ];
    one_primary = λ u. elim (Bool-cases (primary_of u b)) [
      | inl e ↦
          let same : b.user_id ≡ u = (eq_iff b.user_id u).0 (ground arith) in
          omega (
            arith,
            L.count-insert (primary_of u) b db,
            ap one_if e,
            subst (λ j. R.count (primary_of j) db ≡ 0) same (none' (ground arith)),
          )
      | inr e ↦ omega (arith, L.count-insert (primary_of u) b db, ap one_if e, h.one_primary u)
    ];
  }
