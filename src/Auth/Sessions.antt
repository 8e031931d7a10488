-- ===== src/Auth/Sessions.antt =====
-- jwt-auth.service.ts: access tokens and the refresh tokens that renew them. `sign` and `verify` are
-- the JWT library's, `verify` being `none` where it throws; `user_is_active` reads the relation `user`
-- that is loaded with a row. The entries of the audit log are left out.
pub mod Rotation
mod Tests
use Prim.Native.String.{String}
use xlm_pay.Base.{ℕ, Bool, true, false, not, ◌&&◌, Option, none, some, ltb, str_eq, if◌then◌else◌}
use xlm_pay.Repository.{Repository}

pub record RefreshToken : Type 0 where
  pub id : String
  pub token : String
  pub user_id : String
  pub expires_at : ℕ
  pub revoked : Bool
  pub revoked_at : Option ℕ

pub record User : Type 0 where
  pub id : String
  pub is_active : Bool

pub record JwtPayload : Type 0 where
  pub sub : String
  pub wallet_id : Option String

pub record Tokens : Type 0 where
  pub access_token : String
  pub new_refresh_token : String

-- UnauthorizedException, with its message.
pub data Result {ℓ} (A : Type ℓ) : Type ℓ where
  ok : A → Result A
  unauthorized : String → Result A

abbrev pub has_id : String → RefreshToken → Bool
has_id id t = str_eq t.id id

abbrev pub has_token : String → RefreshToken → Bool
has_token token t = str_eq t.token token

abbrev pub revoke : ℕ → RefreshToken → RefreshToken
revoke now t = record t { revoked = true; revoked_at = some now }

unfoldable pub generate_access_token :
    (sign : JwtPayload → String) → (user_id : String) (wallet_id : Option String) → String
generate_access_token sign user_id wallet_id =
    sign (record { sub = user_id; wallet_id = wallet_id })

unfoldable pub validate_access_token :
    (verify : String → Option JwtPayload) → String → Result JwtPayload
validate_access_token verify token = elim (verify token) [
  | none ↦ unauthorized "Invalid or expired access token"
  | some payload ↦ ok payload
]

-- The checks on the user that is found.
abbrev pub active_user : Option User → Result User
active_user none = unauthorized "User not found"
active_user (some user) =
    if not user.is_active then unauthorized "User account is inactive" else ok user

unfoldable pub get_user_from_token :
    (verify : String → Option JwtPayload) (U : Repository User) → String → U.Db → Result User
get_user_from_token verify U token users = elim (validate_access_token verify token) [
  | unauthorized m ↦ unauthorized m
  | ok payload ↦ active_user (U.find_one (λ u. str_eq u.id payload.sub) users)
]

module _ (R : Repository RefreshToken) where
  unfoldable pub generate_refresh_token :
      (add_days : ℕ → ℕ → ℕ) (uuid id user_id : String) (now : ℕ) → R.Db → RefreshToken × R.Db
  generate_refresh_token add_days uuid id user_id now db =
      let saved : RefreshToken = record {
        id = id;
        token = uuid;
        user_id = user_id;
        expires_at = add_days 7 now;
        revoked = false;
        revoked_at = none;
      } in
      (saved, R.insert saved db)

  unfoldable pub revoke_refresh_token : String → ℕ → R.Db → R.Db
  revoke_refresh_token token_id now db = R.update (has_id token_id) (revoke now) db

  unfoldable pub revoke_all_user_refresh_tokens : String → ℕ → R.Db → R.Db
  revoke_all_user_refresh_tokens user_id now db =
      R.update (λ t. str_eq t.user_id user_id && not t.revoked) (revoke now) db

  module _ (sign : JwtPayload → String) (add_days : ℕ → ℕ → ℕ)
      (user_is_active : RefreshToken → Bool) where
    -- The checks on the row that is found, and the rotation.
    unfoldable pub refresh_found :
        Option RefreshToken → (uuid id : String) (now : ℕ) → R.Db → Result Tokens × R.Db
    refresh_found none uuid id now db = (unauthorized "Invalid refresh token", db)
    refresh_found (some t) uuid id now db =
        if t.revoked
        then (unauthorized "Refresh token has been revoked", db)
        else if ltb t.expires_at now
        then (unauthorized "Refresh token expired", db)
        else if not (user_is_active t)
        then (unauthorized "User account is inactive", db)
        else (let (saved, after) =
              generate_refresh_token add_days uuid id t.user_id now
                (revoke_refresh_token t.id now db) in
            (
              ok (record {
                access_token = generate_access_token sign t.user_id none;
                new_refresh_token = saved.token;
              }),
              after,
            ))

    unfoldable pub refresh_access_token :
        (refresh_token uuid id : String) (now : ℕ) → R.Db → Result Tokens × R.Db
    refresh_access_token refresh_token uuid id now db =
        refresh_found (R.find_one (has_token refresh_token) db) uuid id now db
