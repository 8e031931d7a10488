-- ===== src/Auth/Wallet/Unbind.antt =====
-- The mark that unbindWallet sets on another wallet.
use xlm_pay.Base.{
  String, ◌≤◌, ◌≡◌, subst, inl, inr, Bool, true, false, not, ◌&&◌, some, arith, str_eq, eq_iff,
  Bool-cases, if◌then◌else◌,
}
use xlm_pay.Repository.{Repository, Laws}
use xlm_pay.Repository.Counting.{count_mono, count_ext}
use xlm_pay.Auth.Wallet.{WalletBinding, owned_by, has_id, set_primary}
use xlm_pay.Auth.Wallet.Primary.{primary_of, IsSound}

module _ (R : Repository WalletBinding) (L : Laws R) where
  -- Marking a wallet of a user who has no primary one gives that user exactly one.
  module _ (user_id : String) (a : WalletBinding) (db : R.Db) (h : IsSound R db)
      (found : R.find_one (owned_by user_id) db ≡ some a)
      (none_yet : R.count (primary_of user_id) db ≡ 0) where
    abbrev pub marked : R.Db
    marked = R.update (has_id a.id) (set_primary true) db

    owner_only : R.count (λ x. has_id a.id x && not (owned_by user_id x)) db ≡ 0
    owner_only = omega (
      arith,
      h.unique_ids a.id,
      L.count-split (has_id a.id) (owned_by user_id) db,
      L.find_one-row (owned_by user_id) (has_id a.id) db a found (ground (arith, eq_iff a.id a.id)),
      count_mono R L (λ x. owned_by user_id x && has_id a.id x)
          (λ x. has_id a.id x && owned_by user_id x) db (λ x e. ground arith),
    )

    abbrev after : String → WalletBinding → Bool
    after u x = primary_of u (if has_id a.id x then set_primary true x else x)

    others_kept :
        (u : String)
        → R.count (λ x. after u x && not (has_id a.id x)) db ≤ R.count (primary_of u) db
    others_kept u = count_mono R L _ _ db (λ x e. ground arith)

    pub marked_one : R.count (primary_of user_id) marked ≡ 1
    marked_one = omega (
      arith,
      none_yet,
      h.unique_ids a.id,
      L.count-update (primary_of user_id) (has_id a.id) (set_primary true) db,
      L.count-split (after user_id) (has_id a.id) db,
      others_kept user_id,
      L.find_one-row (owned_by user_id) (has_id a.id) db a found (ground (arith, eq_iff a.id a.id)),
      count_mono R L (λ x. owned_by user_id x && has_id a.id x)
          (λ x. after user_id x && has_id a.id x) db (λ x e. ground arith),
      count_mono R L (λ x. after user_id x && has_id a.id x) (has_id a.id) db (λ x e. ground arith),
    )

    marked_other : (u : String) → str_eq user_id u ≡ false → R.count (primary_of u) marked ≤ 1
    marked_other u ne = omega (
      arith,
      h.one_primary u,
      L.count-update (primary_of u) (has_id a.id) (set_primary true) db,
      L.count-split (after u) (has_id a.id) db,
      others_kept u,
      owner_only,
      count_mono R L (λ x. after u x && has_id a.id x)
          (λ x. has_id a.id x && not (owned_by user_id x)) db
          (λ x e. ground (arith, eq_iff x.user_id u, eq_iff x.user_id user_id, eq_iff user_id u)),
    )

    pub marked-IsSound : IsSound R marked
    marked-IsSound = record {
      unique_ids = λ i. omega (
        arith,
        h.unique_ids i,
        L.count-update (has_id i) (has_id a.id) (set_primary true) db,
        count_ext R L (λ x. has_id i (if has_id a.id x then set_primary true x else x)) (has_id i)
            db (λ x. ground arith),
      );
      one_primary = λ u. elim (Bool-cases (str_eq user_id u)) [
        | inl e ↦
            subst (λ v. R.count (primary_of v) marked ≤ 1) ((eq_iff user_id u).0 e)
              (omega (arith, marked_one))
        | inr e ↦ marked_other u e
      ];
    }
