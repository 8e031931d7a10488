-- ===== src/Auth/Wallet/Orphans.antt =====
-- createUserWithWallet for a wallet that is already bound.
use xlm_pay.Base.{ℕ, String, ◌+◌, ◌≡◌, refl, some, str_eq, arith, eq_iff}
use xlm_pay.Repository.{Repository, Laws, one_if}
use xlm_pay.Auth.Wallet.{
  WalletBinding, User, conflict, has_key, bind_wallet_to_user, create_user_with_wallet,
}

module _ (R : Repository WalletBinding) (U : Repository User) (L : Laws U) where
  -- For a wallet that is already bound the call fails, with the bindings unchanged, and yet leaves
  -- one more user.
  pub create_user_with_wallet_orphan :
      (binding_id user_id public_key : String) (now : ℕ) (users : U.Db) (db : R.Db)
      (b : WalletBinding)
      → R.find_one (has_key public_key) db ≡ some b
      → let (result, users', db') =
          create_user_with_wallet R U binding_id user_id public_key now users db in
        (result ≡ conflict "Wallet already bound to an account")
        × (db' ≡ db)
        × (U.count (λ u. str_eq u.id user_id) users' ≡ 1 + U.count (λ u. str_eq u.id user_id) users)
  unfolding create_user_with_wallet bind_wallet_to_user
  create_user_with_wallet_orphan binding_id user_id public_key now users db b found =
      rw (found, bind_wallet_to_user)
        (refl, refl, omega (arith, L.count-insert (λ u. str_eq u.id user_id) _ users, itself))
    where
      itself : one_if (str_eq user_id user_id) ≡ 1
      itself = ground (arith, eq_iff user_id user_id)
