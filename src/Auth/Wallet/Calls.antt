-- ===== src/Auth/Wallet/Calls.antt =====
-- The calls of wallet.service.ts against the soundness of the table.
use xlm_pay.Base.{
  ℕ, String, ◌≤◌, ◌≡◌, refl, ◌≢◌, ◌∙◌, inl, inr, Bool, true, false, Option, none, some, arith, ◌==◌,
  Option-cases, Bool-cases, if◌then◌else◌,
}
use xlm_pay.Repository.{Repository, Laws}
use xlm_pay.Repository.Counting.{count_ext}
use xlm_pay.Auth.Wallet.{
  WalletBinding, ok, has_key, owned_by, has_id, set_primary, bind_wallet_to_user, unbind_found,
  unbind_wallet, update_last_used,
}
use xlm_pay.Auth.Wallet.Primary.{
  primary_of, Call, bind, unbind, use_wallet, step, IsSound, Fresh, update-IsSound, cleared_none,
  insert-IsSound,
}
use xlm_pay.Auth.Wallet.Removal.{
  found_by, removed, hand_over_primary-IsSound, owned_left, owned_before, owned_kept, primary_kept,
  not_primary_kept,
}

module _ (R : Repository WalletBinding) (L : Laws R) where
  unbind_found-IsSound :
      (public_key user_id : String) (db : R.Db) (o : Option WalletBinding)
      → R.find_one (found_by R L public_key user_id) db ≡ o
      → IsSound R db
      → IsSound R (unbind_found R o user_id db).1
  unfolding unbind_found
  unbind_found-IsSound public_key user_id db none f h = h
  unbind_found-IsSound public_key user_id db (some b) f h =
      elim (Bool-cases (R.count (owned_by user_id) db == 1)) [
        | inl e ↦ rw e h
        | inr e ↦ rw e (hand_over_primary-IsSound R L public_key user_id db b h f)
      ]

  bind_wallet_to_user-IsSound :
      (id public_key user_id : String) (is_primary : Bool) (now : ℕ) (db : R.Db)
      → R.count (has_id id) db ≡ 0
      → IsSound R db
      → IsSound R (bind_wallet_to_user R id public_key user_id is_primary now db).1
  unfolding bind_wallet_to_user
  bind_wallet_to_user-IsSound id public_key user_id is_primary now db fresh h =
      elim (Option-cases (R.find_one (has_key public_key) db)) [
        | inr (b, e) ↦ rw (e, bind_wallet_to_user) h
        | inl e ↦ rw (e, bind_wallet_to_user) (bound is_primary)
      ]
    where
      fresh_cleared : R.count (has_id id) (R.update (owned_by user_id) (set_primary false) db) ≡ 0
      fresh_cleared =
          L.count-update (has_id id) (owned_by user_id) (set_primary false) db
          ∙ count_ext R L _ (has_id id) db (λ x. ground arith)
          ∙ fresh

      bound :
          (p : Bool)
          → IsSound R (
              R.insert
                (record {
                  id = id;
                  public_key = public_key;
                  user_id = user_id;
                  is_primary = p;
                  last_used = some now;
                })
                (if p then R.update (owned_by user_id) (set_primary false) db else db))
      bound true =
          insert-IsSound R L _ _ fresh_cleared (λ _. cleared_none R L user_id db)
            (update-IsSound R L (owned_by user_id) (set_primary false) db (λ x. refl)
              (λ u x e. ground arith) h)
      bound false = insert-IsSound R L _ _ fresh (λ e. cc) h

  -- Every call keeps the ids unique and each user's primary wallets at most one, if a new binding
  -- comes with a new id.
  pub step-IsSound : (c : Call) (db : R.Db) → Fresh R c db → IsSound R db → IsSound R (step R c db)
  unfolding step unbind_wallet update_last_used
  step-IsSound (bind id public_key user_id is_primary now) db fresh h =
      bind_wallet_to_user-IsSound id public_key user_id is_primary now db fresh h
  step-IsSound (unbind public_key user_id) db fresh h =
      unbind_found-IsSound public_key user_id db _ refl h
  step-IsSound (use_wallet public_key now) db fresh h =
      update-IsSound R L (has_key public_key) (λ b. record b { last_used = some now }) db
        (λ x. refl) (λ u x e. e) h

  not_one : (n : ℕ) → (n == 1) ≡ false → n ≢ 1
  not_one n e = ground arith

  unbind_found-keeps :
      (public_key user_id : String) (db : R.Db) (o : Option WalletBinding)
      → R.find_one (found_by R L public_key user_id) db ≡ o
      → IsSound R db
      → R.count (primary_of user_id) db ≡ 1
      → (unbind_found R o user_id db).0 ≡ ok tt
      → let after = (unbind_found R o user_id db).1 in
        (1 ≤ R.count (owned_by user_id) after) × (R.count (primary_of user_id) after ≡ 1)
  unfolding unbind_found
  unbind_found-keeps public_key user_id db none f h one e = cc
  unbind_found-keeps public_key user_id db (some b) f h one e =
      elim (Bool-cases (R.count (owned_by user_id) db == 1)) [
        | inl k ↦ cc (rw k at e)
        | inr k ↦
            let left : 1 ≤ R.count (owned_by user_id) (removed R L public_key user_id db b h f) =
              omega (
                arith,
                owned_left R L public_key user_id db b h f,
                owned_before R L public_key user_id db b h f,
                not_one _ k,
              ) in
            rw k (
              omega (arith, left, owned_kept R L public_key user_id db b h f),
              elim (Bool-cases b.is_primary) [
                | inl p ↦ primary_kept R L public_key user_id db b h f left p
                | inr p ↦ not_primary_kept R L public_key user_id db b h f p ∙ one
              ],
            )
      ]

  -- A user with one primary wallet who unbinds a wallet still has a wallet, and exactly one primary
  -- one, after a sound table.
  pub unbind_wallet_keeps :
      (public_key user_id : String) (db : R.Db)
      → IsSound R db
      → R.count (primary_of user_id) db ≡ 1
      → (unbind_wallet R public_key user_id db).0 ≡ ok tt
      → let after = (unbind_wallet R public_key user_id db).1 in
        (1 ≤ R.count (owned_by user_id) after) × (R.count (primary_of user_id) after ≡ 1)
  unfolding unbind_wallet
  unbind_wallet_keeps public_key user_id db h one e =
      unbind_found-keeps public_key user_id db _ refl h one e
