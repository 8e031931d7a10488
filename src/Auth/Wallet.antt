-- ===== src/Auth/Wallet.antt =====
-- wallet.service.ts: which wallets belong to which user, and which of them is the primary one. Ids
-- and times are arguments; a row that was loaded is saved and removed by its id.
pub mod Primary
pub mod Unbind
pub mod Removal
pub mod Calls
pub mod Orphans
use Prim.Native.String.{String}
use xlm_pay.Base.{
  ℕ, Bool, true, false, ◌&&◌, ◌==◌, Option, none, some, str_eq, if◌then◌else◌, get_or,
}
use xlm_pay.Repository.{Repository}

pub record WalletBinding : Type 0 where
  pub id : String
  pub public_key : String
  pub user_id : String
  pub is_primary : Bool
  pub last_used : Option ℕ

pub record User : Type 0 where
  pub id : String
  pub is_active : Bool

-- ConflictException and BadRequestException, with their messages.
pub data Result {ℓ} (A : Type ℓ) : Type ℓ where
  ok : A → Result A
  conflict : String → Result A
  bad_request : String → Result A

-- The result with another value.
abbrev pub with_value {ℓ κ} : {A : Type ℓ} {B : Type κ} → A → Result B → Result A
with_value a (ok b) = ok a
with_value a (conflict m) = conflict m
with_value a (bad_request m) = bad_request m

-- tweetnacl and the Stellar SDK: `none` where they throw.
unfoldable pub verify_signature :
    (verify : String → String → String → Option Bool)
    → (public_key signature message : String) → Bool
verify_signature verify public_key signature message =
    get_or (verify message signature public_key) false

abbrev pub has_key : String → WalletBinding → Bool
has_key public_key b = str_eq b.public_key public_key

abbrev pub owned_by : String → WalletBinding → Bool
owned_by user_id b = str_eq b.user_id user_id

abbrev pub has_id : String → WalletBinding → Bool
has_id id b = str_eq b.id id

abbrev pub set_primary : Bool → WalletBinding → WalletBinding
set_primary value b = record b { is_primary = value }

module _ (R : Repository WalletBinding) where
  unfoldable pub find_user_by_wallet : String → R.Db → Option String
  find_user_by_wallet public_key db = elim (R.find_one (has_key public_key) db) [
    | none ↦ none
    | some b ↦ some b.user_id
  ]

  unfoldable pub bind_wallet_to_user :
      (id public_key user_id : String) (is_primary : Bool) (now : ℕ)
      → R.Db
      → Result WalletBinding × R.Db
  bind_wallet_to_user id public_key user_id is_primary now db =
      elim (R.find_one (has_key public_key) db) [
        | some existing ↦ (conflict "Wallet already bound to an account", db)
        | none ↦
            let cleared : R.Db =
              if is_primary then R.update (owned_by user_id) (set_primary false) db else db in
            let binding : WalletBinding = record {
              id = id;
              public_key = public_key;
              user_id = user_id;
              is_primary = is_primary;
              last_used = some now;
            } in
            (ok binding, R.insert binding cleared)
      ]

  -- After the removal of `binding`: another wallet takes its place as the primary one.
  unfoldable pub hand_over_primary : WalletBinding → String → R.Db → R.Db
  hand_over_primary binding user_id db =
      if binding.is_primary
      then elim (R.find_one (owned_by user_id) db) [
        | none ↦ db
        | some another ↦ R.update (has_id another.id) (set_primary true) db
      ]
      else db

  -- The checks on the row that is found, and the removal.
  unfoldable pub unbind_found : Option WalletBinding → String → R.Db → Result (Unit {0}) × R.Db
  unbind_found none user_id db = (bad_request "Wallet not found or not owned by user", db)
  unbind_found (some binding) user_id db =
      if R.count (owned_by user_id) db == 1
      then (bad_request "Cannot unbind the only wallet. Account must have at least one wallet.", db)
      else (ok tt, hand_over_primary binding user_id (R.delete (has_id binding.id) db))

  unfoldable pub unbind_wallet : (public_key user_id : String) → R.Db → Result (Unit {0}) × R.Db
  unbind_wallet public_key user_id db =
      unbind_found (R.find_one (λ b. has_key public_key b && owned_by user_id b) db) user_id db

  unfoldable pub update_last_used : String → ℕ → R.Db → R.Db
  update_last_used public_key now db =
      R.update (has_key public_key) (λ b. record b { last_used = some now }) db

  -- createUserWithWallet: the user is saved before the wallet is bound, and its id is new.
  unfoldable pub create_user_with_wallet :
      (U : Repository User) (binding_id user_id public_key : String) (now : ℕ)
      → U.Db
      → R.Db
      → Result User × U.Db × R.Db
  create_user_with_wallet U binding_id user_id public_key now users db =
      let user : User = record { id = user_id; is_active = true } in
      let (result, after) = bind_wallet_to_user binding_id public_key user_id true now db in
      (with_value user result, U.insert user users, after)
