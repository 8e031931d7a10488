-- ===== src/Auth/Wallet/Removal.antt =====
-- The removal in unbindWallet, and the handing over of the primary mark.
use xlm_pay.Base.{
  String, ◌+◌, ◌≤◌, ◌≡◌, ◌∙◌, inl, inr, Bool, true, false, not, ◌&&◌, some, arith, eq_iff,
  Option-cases, Bool-cases,
}
use xlm_pay.Repository.{Repository, Laws}
use xlm_pay.Repository.Counting.{count_mono, count_ext}
use xlm_pay.Auth.Wallet.{WalletBinding, has_key, owned_by, has_id, set_primary, hand_over_primary}
use xlm_pay.Auth.Wallet.Primary.{primary_of, IsSound, delete-IsSound}
use xlm_pay.Auth.Wallet.Unbind.{marked_one, marked-IsSound}

module _ (R : Repository WalletBinding) (L : Laws R) where
  abbrev pub found_by : String → String → WalletBinding → Bool
  found_by public_key user_id b = has_key public_key b && owned_by user_id b

  -- The removal of a wallet that was found.
  module _ (public_key user_id : String) (db : R.Db) (b : WalletBinding) (h : IsSound R db)
      (found : R.find_one (found_by public_key user_id) db ≡ some b) where
    abbrev pub removed : R.Db
    removed = R.delete (has_id b.id) db

    removed-IsSound : IsSound R removed
    removed-IsSound = delete-IsSound R L (has_id b.id) db h

    is_owned : owned_by user_id b ≡ true
    is_owned = ground (arith, L.find_one-some (found_by public_key user_id) db b found)

    primary_gone : b.is_primary ≡ true → R.count (primary_of user_id) removed ≡ 0
    primary_gone e = omega (
      arith,
      h.one_primary user_id,
      L.count-delete (primary_of user_id) (has_id b.id) db,
      L.count-split (primary_of user_id) (has_id b.id) db,
      L.find_one-row (found_by public_key user_id) (λ x. primary_of user_id x && has_id b.id x) db b
          found (ground (arith, eq_iff b.id b.id, is_owned)),
      count_mono R L (λ x. found_by public_key user_id x && (primary_of user_id x && has_id b.id x))
          (λ x. primary_of user_id x && has_id b.id x) db (λ x k. ground arith),
    )

    pub owned_left : R.count (owned_by user_id) db ≤ R.count (owned_by user_id) removed + 1
    owned_left = omega (
      arith,
      h.unique_ids b.id,
      L.count-delete (owned_by user_id) (has_id b.id) db,
      L.count-split (owned_by user_id) (has_id b.id) db,
      count_mono R L (λ x. owned_by user_id x && has_id b.id x) (has_id b.id) db
          (λ x k. ground arith),
    )

    pub owned_before : 1 ≤ R.count (owned_by user_id) db
    owned_before = omega (
      arith,
      L.find_one-row (found_by public_key user_id) (owned_by user_id) db b found is_owned,
      count_mono R L (λ x. found_by public_key user_id x && owned_by user_id x) (owned_by user_id)
          db (λ x k. ground arith),
    )

    pub hand_over_primary-IsSound : IsSound R (hand_over_primary R b user_id removed)
    unfolding hand_over_primary
    hand_over_primary-IsSound = elim (Bool-cases b.is_primary) [
      | inl e ↦ elim (Option-cases (R.find_one (owned_by user_id) removed)) [
        | inl f ↦ rw (e, f, hand_over_primary) removed-IsSound
        | inr (a, f) ↦
            rw (e, f, hand_over_primary)
              (marked-IsSound R L user_id a removed removed-IsSound f (primary_gone e))
      ]
      | inr e ↦ rw (e, hand_over_primary) removed-IsSound
    ]

    pub owned_kept :
        R.count (owned_by user_id) (hand_over_primary R b user_id removed)
        ≡ R.count (owned_by user_id) removed
    unfolding hand_over_primary
    owned_kept = elim (Bool-cases b.is_primary) [
      | inl e ↦ elim (Option-cases (R.find_one (owned_by user_id) removed)) [
        | inl f ↦ rw (e, f, hand_over_primary)
        | inr (a, f) ↦
            rw (e, f, hand_over_primary)
              (L.count-update (owned_by user_id) (has_id a.id) (set_primary true) removed
                ∙ count_ext R L _ (owned_by user_id) removed (λ x. ground arith))
      ]
      | inr e ↦ rw (e, hand_over_primary)
    ]

    -- A wallet is left, so if the removed one was primary, another is.
    pub primary_kept :
        1 ≤ R.count (owned_by user_id) removed
        → b.is_primary ≡ true
        → R.count (primary_of user_id) (hand_over_primary R b user_id removed) ≡ 1
    unfolding hand_over_primary
    primary_kept left e = elim (Option-cases (R.find_one (owned_by user_id) removed)) [
      | inl f ↦ absurd (omega (arith, L.find_one-none (owned_by user_id) removed f))
      | inr (a, f) ↦
          rw (e, f, hand_over_primary)
            (marked_one R L user_id a removed removed-IsSound f (primary_gone e))
    ]

    pub not_primary_kept :
        b.is_primary ≡ false
        → R.count (primary_of user_id) (hand_over_primary R b user_id removed)
          ≡ R.count (primary_of user_id) db
    unfolding hand_over_primary
    not_primary_kept e =
        rw (e, hand_over_primary)
          (omega (
            arith,
            h.unique_ids b.id,
            L.count-delete (primary_of user_id) (has_id b.id) db,
            L.count-split (primary_of user_id) (has_id b.id) db,
            L.count-split (has_id b.id) (λ x. x.is_primary) db,
            L.find_one-row (found_by public_key user_id) (λ x. has_id b.id x && not x.is_primary) db
                b found (ground (arith, eq_iff b.id b.id)),
            count_mono R L
                (λ x. found_by public_key user_id x && (has_id b.id x && not x.is_primary))
                (λ x. has_id b.id x && not x.is_primary) db (λ x k. ground arith),
            count_mono R L (λ x. primary_of user_id x && has_id b.id x)
                (λ x. has_id b.id x && x.is_primary) db (λ x k. ground arith),
          ))
