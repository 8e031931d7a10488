-- ===== src/Auth/Sessions/Rotation.antt =====
-- The rotation of refresh tokens in jwt-auth.service.ts.
use xlm_pay.Base.{
  ℕ, String, ◌≤◌, ◌≡◌, ◌≢◌, inl, inr, Bool, true, false, not, ◌&&◌, none, some, arith, str_eq,
  eq_iff, Option-cases, if◌then◌else◌,
}
use xlm_pay.Repository.{Repository, Laws, one_if}
use xlm_pay.Repository.Counting.{count_mono, find_one-all}
use xlm_pay.Auth.Sessions.{
  RefreshToken, JwtPayload, Tokens, ok, has_id, has_token, revoke, generate_refresh_token,
  revoke_refresh_token, revoke_all_user_refresh_tokens, refresh_found, refresh_access_token,
}

module _ (R : Repository RefreshToken) (L : Laws R) (sign : JwtPayload → String)
    (add_days : ℕ → ℕ → ℕ) (user_is_active : RefreshToken → Bool) where
  -- A row that is revoked is refused.
  revoked_refused :
      (t : RefreshToken) (uuid id : String) (now : ℕ) (db : R.Db) (r : Tokens)
      → t.revoked ≡ true
      → (refresh_found R sign add_days user_is_active (some t) uuid id now db).0 ≢ ok r
  unfolding refresh_found
  revoked_refused t uuid id now db r e h = cc (rw e at h)

  -- Where every row of a token is revoked, the token is refused.
  all_revoked_refused :
      (token uuid id : String) (now : ℕ) (db : R.Db) (r : Tokens)
      → R.count (λ t. has_token token t && not t.revoked) db ≡ 0
      → (refresh_access_token R sign add_days user_is_active token uuid id now db).0 ≢ ok r
  unfolding refresh_access_token refresh_found
  all_revoked_refused token uuid id now db r none' h =
      elim (Option-cases (R.find_one (has_token token) db)) [
        | inl e ↦ cc (rw (e, refresh_found) at h)
        | inr (t, e) ↦
            revoked_refused t uuid id now db r
              (find_one-all R L (has_token token) (λ x. x.revoked) db t e none') (rw e at h)
      ]

  -- What a refresh that succeeds leaves.
  rotated :
      (t : RefreshToken) (uuid id : String) (now : ℕ) (db : R.Db) (r : Tokens)
      → (refresh_found R sign add_days user_is_active (some t) uuid id now db).0 ≡ ok r
      → (refresh_found R sign add_days user_is_active (some t) uuid id now db).1
        ≡ R.insert
            (record {
              id = id;
              token = uuid;
              user_id = t.user_id;
              expires_at = add_days 7 now;
              revoked = false;
              revoked_at = none;
            })
            (R.update (has_id t.id) (revoke now) db)
  unfolding refresh_found generate_refresh_token revoke_refresh_token
  rotated t uuid id now db r h = ground (arith, h)

  -- After the rotation every row of the old token is revoked.
  rotation_revokes :
      (t : RefreshToken) (token : String) (new : RefreshToken) (now : ℕ) (db : R.Db)
      → R.count (has_token token) db ≤ 1
      → R.find_one (has_token token) db ≡ some t
      → new.token ≢ token
      → R.count
          (λ x. has_token token x && not x.revoked)
          (R.insert new (R.update (has_id t.id) (revoke now) db))
        ≡ 0
  rotation_revokes t token new now db unique found fresh = omega (
    arith,
    unique,
    L.count-insert (λ x. has_token token x && not x.revoked) new
        (R.update (has_id t.id) (revoke now) db),
    other,
    L.count-update (λ x. has_token token x && not x.revoked) (has_id t.id) (revoke now) db,
    count_mono R L
        (λ x.
          (let y : RefreshToken = if has_id t.id x then revoke now x else x in
            has_token token y && not y.revoked))
        (λ x. has_token token x && not (has_id t.id x)) db (λ x k. ground arith),
    L.count-split (has_token token) (has_id t.id) db,
    L.find_one-row (has_token token) (has_id t.id) db t found (ground (arith, eq_iff t.id t.id)),
  )
    where
      other : one_if (has_token token new && not new.revoked) ≡ 0
      other = ground (arith, eq_iff new.token token, fresh)

  -- A refresh token that is unique in the table renews once: after a refresh with it has succeeded,
  -- with another text for the new token, a second refresh with it does not, at any time.
  pub refresh_access_token_once :
      (token uuid id uuid' id' : String) (now later : ℕ) (db : R.Db) (r r' : Tokens)
      → R.count (has_token token) db ≤ 1
      → uuid ≢ token
      → (refresh_access_token R sign add_days user_is_active token uuid id now db).0 ≡ ok r
      → (refresh_access_token R sign add_days user_is_active token uuid' id' later
          (refresh_access_token R sign add_days user_is_active token uuid id now db).1).0
        ≢ ok r'
  unfolding refresh_access_token refresh_found
  refresh_access_token_once token uuid id uuid' id' now later db r r' unique fresh done =
      elim (Option-cases (R.find_one (has_token token) db)) [
        | inl e ↦ cc (rw (e, refresh_found) at done)
        | inr (t, e) ↦
            rw (e, rotated t uuid id now db r (rw e at done))
              (all_revoked_refused token uuid' id' later _ r'
                (rotation_revokes t token _ now db unique e fresh))
      ]

  -- After all of a user's refresh tokens are revoked, a token whose rows are all that user's does not
  -- renew, at any time.
  pub refresh_access_token-revoke_all :
      (token user_id uuid id : String) (now later : ℕ) (db : R.Db) (r : Tokens)
      → R.count (λ t. has_token token t && not (str_eq t.user_id user_id)) db ≡ 0
      → (refresh_access_token R sign add_days user_is_active token uuid id later
          (revoke_all_user_refresh_tokens R user_id now db)).0
        ≢ ok r
  unfolding revoke_all_user_refresh_tokens
  refresh_access_token-revoke_all token user_id uuid id now later db r theirs =
      all_revoked_refused token uuid id later _ r (
        omega (
          arith,
          theirs,
          L.count-update (λ x. has_token token x && not x.revoked)
              (λ t. str_eq t.user_id user_id && not t.revoked) (revoke now) db,
          count_mono R L
              (λ x.
                (let y : RefreshToken =
                    if str_eq x.user_id user_id && not x.revoked then revoke now x else x in
                  has_token token y && not y.revoked))
              (λ t. has_token token t && not (str_eq t.user_id user_id)) db (λ x k. ground arith),
        ))
