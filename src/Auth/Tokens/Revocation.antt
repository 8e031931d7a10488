-- ===== src/Auth/Tokens/Revocation.antt =====
-- Revocation against validation, in api-token.service.ts.
use xlm_pay.Base.{
  ℕ, String, ◌≡◌, ◌≢◌, ◌∙◌, inl, inr, Bool, true, false, not, ◌&&◌, List, [], ◌∷◌, All, arith,
  eq_iff, Option-cases, Bool-cases, if◌then◌else◌,
}
use xlm_pay.Repository.{Repository, Laws}
use xlm_pay.Repository.Counting.{count_ext}
use xlm_pay.Auth.Tokens.{
  ApiToken, TokenData, ok, is_live, has_id, owned_by, revoke, validate_among, validate_api_token,
  revoke_found, revoke_api_token, revoke_all_user_api_tokens,
}

module _ (R : Repository ApiToken) (L : Laws R) (compare : String → String → Bool)
    (user_is_active : ApiToken → Bool) where
  -- What is returned is the data of one of the tokens.
  validate_among-other :
      (q : ApiToken → Bool) (ts : List ApiToken) (plain_token : String) (now : ℕ) (db : R.Db)
      (d : TokenData)
      → All (λ t. q t ≡ true) ts
      → (validate_among R compare user_is_active ts plain_token now db).0 ≡ ok d
      → (t : ApiToken) × (q t ≡ true) × (d.token_id ≡ t.id) × (d.user_id ≡ t.user_id)
  unfolding validate_among
  validate_among-other q [] plain_token now db d a e = cc
  validate_among-other q (t ∷ ts) plain_token now db d a e =
      elim (Bool-cases (compare plain_token t.token)) [
        | inr c ↦ validate_among-other q ts plain_token now db d a.1 (rw c at e)
        | inl c ↦ (t, a.0, ground arith, ground arith)
      ]

  -- After a change that revokes every live row outside `q`, what is found is in `q`.
  found_within :
      (c q : ApiToken → Bool) (db : R.Db)
      → ((t : ApiToken)
          → is_live (if c t then revoke t else t) ≡ true
          → q (if c t then revoke t else t) ≡ true)
      → All (λ t. q t ≡ true) (R.find is_live (R.update c revoke db))
  found_within c q db h = L.find-All is_live q (R.update c revoke db) (
      L.count-update (λ t. is_live t && not (q t)) c revoke db
      ∙ count_ext R L _ (λ _. false) db (λ t. excluded _ _ (h t))
      ∙ L.count_never db)
    where
      excluded : (a b : Bool) → (a ≡ true → b ≡ true) → (a && not b) ≡ false
      excluded a b k = ground arith

  -- Once a token's revocation has succeeded, no validation returns that token's id, whatever is
  -- presented and whenever, until the table changes.
  pub validate_api_token-revoke_api_token :
      (token_id user_id plain_token : String) (now : ℕ) (db : R.Db) (d : TokenData)
      → (revoke_api_token R token_id user_id db).0 ≡ ok tt
      → (validate_api_token R compare user_is_active plain_token now
          (revoke_api_token R token_id user_id db).1).0
        ≡ ok d
      → d.token_id ≢ token_id
  unfolding validate_api_token revoke_api_token revoke_found
  validate_api_token-revoke_api_token token_id user_id plain_token now db d done valid =
      elim (Option-cases (R.find_one (λ t. has_id token_id t && owned_by user_id t) db)) [
        | inl e ↦ cc (rw (e, revoke_found) at done)
        | inr (t, e) ↦
            let (u, other, i, _) =
              validate_among-other (λ x. not (has_id token_id x)) _ plain_token now _ d
                (found_within (has_id token_id) (λ x. not (has_id token_id x)) db
                  (λ x k. ground arith))
                (rw (e, revoke_found) at valid) in
            λ same. ground (arith, eq_iff u.id token_id, other, i, same)
      ]

  -- After all of a user's tokens are revoked, no validation returns that user.
  pub validate_api_token-revoke_all :
      (user_id plain_token : String) (now : ℕ) (db : R.Db) (d : TokenData)
      → (validate_api_token R compare user_is_active plain_token now
          (revoke_all_user_api_tokens R user_id db)).0
        ≡ ok d
      → d.user_id ≢ user_id
  unfolding validate_api_token revoke_all_user_api_tokens
  validate_api_token-revoke_all user_id plain_token now db d valid same =
      let (t, other, i, u) =
        validate_among-other (λ t. not (owned_by user_id t)) _ plain_token now _ d
          (found_within (λ t. owned_by user_id t && is_live t) (λ t. not (owned_by user_id t)) db
            (λ t k. ground arith))
          valid in
      ground (arith, eq_iff t.user_id user_id, other, u, same)
