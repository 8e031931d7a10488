-- ===== src/Auth/Tokens.antt =====
-- api-token.service.ts and api-token.guard.ts: tokens of which only the bcrypt hash is stored.
-- `compare` is bcrypt's; `user_is_active` reads the relation `user` that is loaded with a row.
pub mod Revocation
use Prim.Native.String.{String, ◌++◌}
use xlm_pay.Base.{
  ℕ, zero, suc, ◌+◌, ◌*◌, Bool, true, false, not, ◌&&◌, Option, none, some, List, [], ◌∷◌, ltb,
  str_eq, get_or, if◌then◌else◌,
}
use xlm_pay.Repository.{Repository}

pub record ApiToken : Type 0 where
  pub id : String
  pub token : String
  pub name : String
  pub role : String
  pub user_id : String
  pub expires_at : Option ℕ
  pub revoked : Bool
  pub last_used_at : Option ℕ

-- What validateApiToken and createApiToken return.
pub record TokenData : Type 0 where
  pub user_id : String
  pub role : String
  pub token_id : String

pub record CreatedToken : Type 0 where
  pub token : String
  pub id : String
  pub expires_at : Option ℕ

-- UnauthorizedException and NotFoundException, with their messages.
pub data Result {ℓ} (A : Type ℓ) : Type ℓ where
  ok : A → Result A
  unauthorized : String → Result A
  not_found : String → Result A

-- `if (expiresInDays)`, and the default of the configuration.
abbrev pub days_or_default : Option ℕ → ℕ → ℕ
days_or_default none default_days = default_days
days_or_default (some zero) default_days = default_days
days_or_default (some (suc days)) default_days = suc days

abbrev pub is_expired : ℕ → Option ℕ → Bool
is_expired now none = false
is_expired now (some time) = ltb time now

abbrev pub is_live : ApiToken → Bool
is_live t = not t.revoked

abbrev pub has_id : String → ApiToken → Bool
has_id id t = str_eq t.id id

abbrev pub owned_by : String → ApiToken → Bool
owned_by user_id t = str_eq t.user_id user_id

abbrev pub revoke : ApiToken → ApiToken
revoke t = record t { revoked = true }

module _ (R : Repository ApiToken) where
  -- `random_text` is `${uuidv4()}${uuidv4()}` without its dashes; `add_days` is Date's setDate.
  unfoldable pub create_api_token :
      (hash : String → String) (add_days : ℕ → ℕ → ℕ) (default_days : ℕ)
      (id random_text user_id name role : String) (expires_in_days : Option ℕ) (now : ℕ)
      → R.Db
      → CreatedToken × R.Db
  create_api_token hash add_days default_days id random_text user_id name role expires_in_days now
        db =
      let plain_token = "stl_" ++ random_text in
      let expires_at : Option ℕ =
        some (add_days (days_or_default expires_in_days default_days) now) in
      (
        record { token = plain_token; id = id; expires_at = expires_at },
        R.insert
            (record {
              id = id;
              token = hash plain_token;
              name = name;
              role = role;
              user_id = user_id;
              expires_at = expires_at;
              revoked = false;
              last_used_at = none;
            })
            db,
      )

  module _ (compare : String → String → Bool) (user_is_active : ApiToken → Bool) where
    -- The loop over the tokens that are found.
    unfoldable pub validate_among : List ApiToken → String → ℕ → R.Db → Result TokenData × R.Db
    validate_among [] plain_token now db = (unauthorized "Invalid API token", db)
    validate_among (t ∷ ts) plain_token now db =
        let rest = validate_among ts plain_token now db in
        if compare plain_token t.token
        then if is_expired now t.expires_at
          then (unauthorized "API token expired", db)
          else if not (user_is_active t)
          then (unauthorized "User account is inactive", db)
          else (
            ok (record { user_id = t.user_id; role = t.role; token_id = t.id }),
            R.update (has_id t.id) (λ u. record u { last_used_at = some now }) db,
          )
        else rest

    unfoldable pub validate_api_token : String → ℕ → R.Db → Result TokenData × R.Db
    validate_api_token plain_token now db = validate_among (R.find is_live db) plain_token now db

    -- ApiTokenGuard, once the header is split at its spaces: the user that it puts in the request.
    unfoldable pub extract_token_from_header :
        (split : String → List String) → Option String → Option String
    extract_token_from_header split none = none
    extract_token_from_header split (some authorization) =
        if str_eq authorization "" then none else bearer (split authorization)
      where
        bearer : List String → Option String
        bearer (type ∷ token ∷ rest) = if str_eq type "Bearer" then some token else none
        bearer _ = none

    abbrev pub hide_error : Result TokenData → Result TokenData
    hide_error (ok d) = ok d
    hide_error (unauthorized m) = unauthorized "Invalid API token"
    hide_error (not_found m) = unauthorized "Invalid API token"

    unfoldable pub can_activate :
        (split : String → List String) → Option String → ℕ → R.Db → Result TokenData × R.Db
    unfolding extract_token_from_header
    can_activate split authorization now db = elim (extract_token_from_header split authorization) [
      | none ↦ (unauthorized "API token required", db)
      | some token ↦
          if str_eq token ""
          then (unauthorized "API token required", db)
          else (let (result, after) = validate_api_token token now db in (hide_error result, after))
    ]

  unfoldable pub revoke_found : Option ApiToken → String → R.Db → Result (Unit {0}) × R.Db
  revoke_found none token_id db = (not_found "API token not found", db)
  revoke_found (some t) token_id db = (ok tt, R.update (has_id token_id) revoke db)

  unfoldable pub revoke_api_token : (token_id user_id : String) → R.Db → Result (Unit {0}) × R.Db
  revoke_api_token token_id user_id db =
      revoke_found (R.find_one (λ t. has_id token_id t && owned_by user_id t) db) token_id db

  unfoldable pub revoke_all_user_api_tokens : String → R.Db → R.Db
  revoke_all_user_api_tokens user_id db = R.update (λ t. owned_by user_id t && is_live t) revoke db
