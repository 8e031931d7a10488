-- ===== src/Auth/Nonce/Fresh.antt =====
-- A nonce that was just generated: whom it is good for, and until when.
use xlm_pay.Base.{
  ℕ, String, ◌+◌, ◌≡◌, refl, inl, inr, Bool, true, false, not, ◌&&◌, some, arith, ltb, str_eq,
  eq_iff, ◌==◌, Option-cases, if◌then◌else◌,
}
use xlm_pay.Repository.{Repository, Laws, one_if}
use xlm_pay.Repository.Counting.{count_mono, find_one-all}
use xlm_pay.Auth.Nonce.{
  LoginNonce, ok, unauthorized, generate_nonce, check_nonce, matches, validate_nonce,
}

-- The row that generateNonce inserts.
abbrev new_row : String → String → ℕ → LoginNonce
new_row uuid public_key now = record {
  nonce = uuid;
  public_key = public_key;
  expires_at = now + 300000;
  used = false;
}

module _ (R : Repository LoginNonce) (L : Laws R) (uuid public_key : String) (now : ℕ)
    (db : R.Db) where
  abbrev table : R.Db
  table = R.insert (new_row uuid public_key now) db

  -- A condition of the new row holds of every row with its nonce.
  all_rows :
      (q : LoginNonce → Bool)
      → R.count (λ n. str_eq n.nonce uuid) db ≡ 0
      → q (new_row uuid public_key now) ≡ true
      → R.count (λ n. matches R uuid public_key n && not (q n)) table ≡ 0
  all_rows q fresh h = omega (
    arith,
    L.count-insert (λ n. matches R uuid public_key n && not (q n)) (new_row uuid public_key now) db,
    excluded,
    count_mono R L (λ n. matches R uuid public_key n && not (q n)) (λ n. str_eq n.nonce uuid) db
        (λ n k. ground arith),
  )
    where
      excluded :
          one_if (
            matches R uuid public_key (new_row uuid public_key now)
            && not (q (new_row uuid public_key now)))
          ≡ 0
      excluded = rw h (ground arith)

  check_found :
      (later : ℕ) (m : LoginNonce)
      → m.used ≡ false
      → m.expires_at ≡ now + 300000
      → check_nonce R later (some m)
        ≡ (if ltb (now + 300000) later then unauthorized "Nonce expired" else ok m)
  unfolding check_nonce
  check_found later m e f = ground arith

  -- A nonce generated under a text that no row has validates for its key until five minutes have
  -- passed, as a row of that nonce and key, and is refused as expired from then on.
  pub validate_nonce-generate_nonce :
      (later : ℕ)
      → R.count (λ n. str_eq n.nonce uuid) db ≡ 0
      → (m : LoginNonce) × (m.nonce ≡ uuid)
        × (m.public_key ≡ public_key)
        × (validate_nonce R uuid public_key later (generate_nonce R uuid public_key now db).1
            ≡ (if ltb (now + 300000) later then unauthorized "Nonce expired" else ok m))
  unfolding validate_nonce generate_nonce
  validate_nonce-generate_nonce later fresh =
      elim (Option-cases (R.find_one (matches R uuid public_key) table)) [
        | inl e ↦ absurd (
            omega (
              arith,
              L.find_one-none (matches R uuid public_key) table e,
              L.count-insert (matches R uuid public_key) (new_row uuid public_key now) db,
              itself,
            ))
        | inr (m, e) ↦
            let hit : matches R uuid public_key m ≡ true = L.find_one-some _ table m e in
            let unused : not m.used ≡ true =
              find_one-all R L _ (λ n. not n.used) table m e
                (all_rows (λ n. not n.used) fresh refl) in
            let expiry : (m.expires_at == now + 300000) ≡ true =
              find_one-all R L _ (λ n. n.expires_at == now + 300000) table m e
                (all_rows (λ n. n.expires_at == now + 300000) fresh (ground arith)) in
            (
              m,
              ground (arith, eq_iff m.nonce uuid),
              ground (arith, eq_iff m.public_key public_key, eq_iff m.nonce uuid),
              rw e (check_found later m (ground arith) (ground arith)),
            )
      ]
    where
      itself : one_if (matches R uuid public_key (new_row uuid public_key now)) ≡ 1
      itself = ground (arith, eq_iff uuid uuid, eq_iff public_key public_key)
