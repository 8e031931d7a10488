-- ===== src/Auth/Nonce/Laws.antt =====
-- The calls of nonce.service.ts in any order, and the nonces that are spent.
use xlm_pay.Base.{
  ℕ, String, ◌≡◌, ◌≢◌, ◌∙◌, ap, fun_ext, inl, inr, true, not, ◌&&◌, some, List, [], ◌∷◌, All, arith,
  ltb, str_eq, eq_iff, Option-cases, if◌then◌else◌,
}
use xlm_pay.Repository.{Repository, Laws, one_if}
use xlm_pay.Repository.Counting.{count_mono, find_one-all}
use xlm_pay.Auth.Nonce.{
  LoginNonce, ok, generate_nonce, check_nonce, matches, validate_nonce, mark_nonce_used,
  cleanup_expired_nonces,
}

-- The calls that change the table.
pub data Call : Type 0 where
  generate : (uuid public_key : String) → ℕ → Call
  mark : String → Call
  cleanup : ℕ → Call

-- The call generates no nonce of this text.
abbrev pub Fresh : String → Call → Type 0
Fresh nonce (generate uuid public_key now) = uuid ≢ nonce
Fresh nonce (mark other) = Unit
Fresh nonce (cleanup now) = Unit

module _ (R : Repository LoginNonce) where
  unfoldable pub step : Call → R.Db → R.Db
  step (generate uuid public_key now) db = (generate_nonce R uuid public_key now db).1
  step (mark nonce) db = mark_nonce_used R nonce db
  step (cleanup now) db = cleanup_expired_nonces R now db

  unfoldable pub run : List Call → R.Db → R.Db
  run [] db = db
  run (c ∷ cs) db = run cs (step c db)

module _ (R : Repository LoginNonce) (L : Laws R) where
  -- No stored row of this nonce is unused.
  abbrev pub IsSpent : String → R.Db → Type 0
  IsSpent nonce db = R.count (λ n. str_eq n.nonce nonce && not n.used) db ≡ 0

  mark_nonce_used-IsSpent :
      (nonce : String) (db : R.Db) → IsSpent nonce (mark_nonce_used R nonce db)
  unfolding mark_nonce_used
  mark_nonce_used-IsSpent nonce db =
      L.count-update _ _ _ db
      ∙ ap (λ p. R.count p db) (fun_ext (λ (n : LoginNonce). ground (arith, eq_iff n.nonce nonce)))
      ∙ L.count_never db

  refuses : (now : ℕ) (n m : LoginNonce) → m.used ≡ true → check_nonce R now (some m) ≢ ok n
  unfolding check_nonce
  refuses now n m e = ground arith

  IsSpent-refused :
      (nonce public_key : String) (now : ℕ) (db : R.Db) (n : LoginNonce)
      → IsSpent nonce db
      → validate_nonce R nonce public_key now db ≢ ok n
  unfolding validate_nonce check_nonce
  IsSpent-refused nonce public_key now db n spent h =
      elim (Option-cases (R.find_one (matches R nonce public_key) db)) [
        | inl e ↦ cc (rw e at h)
        | inr (m, e) ↦
            refuses now n m
              (find_one-all R L (matches R nonce public_key) (λ x. x.used) db m e
                (omega (
                  arith,
                  count_mono R L (λ x. matches R nonce public_key x && not x.used)
                      (λ x. str_eq x.nonce nonce && not x.used) db (λ x k. ground arith),
                )))
              (rw e at h)
      ]

  -- Later calls leave a spent nonce spent, if none of them makes the nonce again.
  IsSpent-step :
      (nonce : String) (c : Call) (db : R.Db)
      → Fresh nonce c
      → IsSpent nonce db
      → IsSpent nonce (step R c db)
  unfolding step generate_nonce mark_nonce_used cleanup_expired_nonces
  IsSpent-step nonce (generate uuid public_key now) db f h =
      omega (arith, L.count-insert (λ n. str_eq n.nonce nonce && not n.used) _ db, one_if_other)
    where
      one_if_other : one_if (str_eq uuid nonce && true) ≡ 0
      one_if_other = ground (arith, eq_iff uuid nonce, f)
  IsSpent-step nonce (mark other) db f h = omega (
    arith,
    L.count-update (λ n. str_eq n.nonce nonce && not n.used) (λ n. str_eq n.nonce other)
        (λ n. record n { used = true }) db,
    count_mono R L
        (λ n.
          (let m : LoginNonce = if str_eq n.nonce other then record n { used = true } else n in
            str_eq m.nonce nonce && not m.used))
        (λ n. str_eq n.nonce nonce && not n.used) db (λ n k. ground arith),
  )
  IsSpent-step nonce (cleanup now) db f h = omega (
    arith,
    L.count-delete (λ n. str_eq n.nonce nonce && not n.used) (λ n. ltb n.expires_at now) db,
    count_mono R L (λ n. (str_eq n.nonce nonce && not n.used) && not (ltb n.expires_at now))
        (λ n. str_eq n.nonce nonce && not n.used) db (λ n k. ground arith),
  )

  IsSpent-run :
      (nonce : String) (cs : List Call) (db : R.Db)
      → All (Fresh nonce) cs
      → IsSpent nonce db
      → IsSpent nonce (run R cs db)
  unfolding run
  IsSpent-run nonce [] db f h = h
  IsSpent-run nonce (c ∷ cs) db f h =
      IsSpent-run nonce cs (step R c db) f.1 (IsSpent-step nonce c db f.0 h)

  -- Once a nonce is marked as used, no validation of it succeeds, for any key and at any time, after
  -- any further calls that do not generate the same nonce again.
  pub validate_nonce-mark_nonce_used :
      (nonce public_key : String) (later : ℕ) (cs : List Call) (db : R.Db) (n : LoginNonce)
      → All (Fresh nonce) cs
      → validate_nonce R nonce public_key later (run R cs (mark_nonce_used R nonce db)) ≢ ok n
  validate_nonce-mark_nonce_used nonce public_key later cs db n f =
      IsSpent-refused nonce public_key later (run R cs (mark_nonce_used R nonce db)) n
        (IsSpent-run nonce cs _ f (mark_nonce_used-IsSpent nonce db))
