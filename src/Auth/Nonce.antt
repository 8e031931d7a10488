-- ===== src/Auth/Nonce.antt =====
-- nonce.service.ts: login nonces. `randomUUID` is an
-- argument of the call.
pub mod Laws
pub mod Fresh
use Prim.Native.String.{String, ◌++◌}
use xlm_pay.Base.{
  ℕ, ◌+◌, ◌*◌, Bool, true, false, ◌&&◌, Option, none, some, ltb, str_eq, if◌then◌else◌,
}
use xlm_pay.Repository.{Repository}

pub record LoginNonce : Type 0 where
  pub nonce : String
  pub public_key : String
  pub expires_at : ℕ
  pub used : Bool

-- UnauthorizedException, with its message.
pub data Result {ℓ} (A : Type ℓ) : Type ℓ where
  ok : A → Result A
  unauthorized : String → Result A

pub record Challenge : Type 0 where
  pub nonce : String
  pub expires_at : ℕ
  pub message : String

abbrev pub nonce_expiration_minutes : ℕ
nonce_expiration_minutes = 5

module _ (R : Repository LoginNonce) where
  unfoldable pub generate_nonce : (uuid public_key : String) (now : ℕ) → R.Db → Challenge × R.Db
  generate_nonce uuid public_key now db =
      let expires_at = now + nonce_expiration_minutes * 60000 in
      (
        record {
          nonce = uuid;
          expires_at = expires_at;
          message = "Sign this message to authenticate with Stellara: " ++ uuid;
        },
        R.insert
            (record {
              nonce = uuid;
              public_key = public_key;
              expires_at = expires_at;
              used = false;
            })
            db,
      )

  -- The checks on the row that is found.
  unfoldable pub check_nonce : ℕ → Option LoginNonce → Result LoginNonce
  check_nonce now none = unauthorized "Invalid nonce"
  check_nonce now (some n) =
      if n.used
      then unauthorized "Nonce already used"
      else if ltb n.expires_at now
      then unauthorized "Nonce expired"
      else ok n

  abbrev pub matches : String → String → LoginNonce → Bool
  matches nonce public_key n = str_eq n.nonce nonce && str_eq n.public_key public_key

  unfoldable pub validate_nonce : (nonce public_key : String) (now : ℕ) → R.Db → Result LoginNonce
  validate_nonce nonce public_key now db =
      check_nonce now (R.find_one (matches nonce public_key) db)

  unfoldable pub mark_nonce_used : String → R.Db → R.Db
  mark_nonce_used nonce db = R.update (λ n. str_eq n.nonce nonce) (λ n. record n { used = true }) db

  unfoldable pub cleanup_expired_nonces : ℕ → R.Db → R.Db
  cleanup_expired_nonces now db = R.delete (λ n. ltb n.expires_at now) db
