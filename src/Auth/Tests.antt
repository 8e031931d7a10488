-- ===== src/Auth/Tests.antt =====
-- Runs of the authentication services on tables in memory.
use Prim.Native.String.{◌++◌}
use xlm_pay.Auth.Tokens.{
  ApiToken, revoke_api_token, revoke_all_user_api_tokens, validate_api_token, validate_among,
  revoke_found,
}
use xlm_pay.Auth.Tokens.Revocation.{
  validate_api_token-revoke_api_token, validate_api_token-revoke_all,
}
use xlm_pay.Base.{
  Bool, String, ◌≡◌, refl, ◌≢◌, ◌≤◌, true, false, none, List, [], ◌∷◌, ltb, if◌then◌else◌, arith,
  str_eq, eq_iff, Bool-cases, inl, inr, subst,
}
use xlm_pay.Repository.Memory.{table, table-Laws}
use xlm_pay.Auth.Nonce.{
  LoginNonce, ok, unauthorized, generate_nonce, validate_nonce, mark_nonce_used,
}
use xlm_pay.Auth.Nonce.Laws.{generate, cleanup, run, validate_nonce-mark_nonce_used}
use xlm_pay.Auth.Nonce.Fresh.{validate_nonce-generate_nonce}
use xlm_pay.Auth.Wallet.{WalletBinding, owned_by, has_id, unbind_wallet, unbind_found}
use xlm_pay.Auth.Wallet.Primary as Primary
use xlm_pay.Auth.Wallet.{User, conflict, create_user_with_wallet}
use xlm_pay.Auth.Wallet.Orphans.{create_user_with_wallet_orphan}
use xlm_pay.Auth.Wallet.Primary.{primary_of, IsSound, bind, unbind}
use xlm_pay.Auth.Wallet.Calls.{step-IsSound, unbind_wallet_keeps}

abbrev a_nonce : LoginNonce
a_nonce = record { nonce = "n1"; public_key = "G1"; expires_at = 301000; used = false }

other : ¬ (◌≡◌ {A = String} "n2" "n1")
other e = cc ((eq_iff "n2" "n1").1 e)

validate_nonce-mark_nonce_used_example :
    validate_nonce (table LoginNonce) "n1" "G1" 2000 (
      run
        (table LoginNonce)
        (generate "n2" "G1" 1500 ∷ cleanup 1600 ∷ [])
        (mark_nonce_used (table LoginNonce) "n1" (a_nonce ∷ [])))
    ≢ ok (record a_nonce { used = true })
validate_nonce-mark_nonce_used_example =
    validate_nonce-mark_nonce_used (table LoginNonce) (table-Laws LoginNonce) "n1" "G1" 2000
      (generate "n2" "G1" 1500 ∷ cleanup 1600 ∷ []) (a_nonce ∷ []) (record a_nonce { used = true })
      (other, (tt, tt))

validate_nonce-generate_nonce_example :
    (m : LoginNonce) × (m.nonce ≡ "n2")
    × (m.public_key ≡ "G1")
    × (validate_nonce
          (table LoginNonce)
          "n2"
          "G1"
          2000
          (generate_nonce (table LoginNonce) "n2" "G1" 1000 (a_nonce ∷ [])).1
        ≡ (if ltb 301000 2000 then unauthorized "Nonce expired" else ok m))
validate_nonce-generate_nonce_example =
    validate_nonce-generate_nonce (table LoginNonce) (table-Laws LoginNonce) "n2" "G1" 1000
      (a_nonce ∷ []) 2000 refl

abbrev a_wallet : String → String → WalletBinding
a_wallet i key = record {
  id = i;
  public_key = key;
  user_id = "u1";
  is_primary = str_eq i "b1";
  last_used = none;
}

abbrev wallets : List WalletBinding
wallets = a_wallet "b1" "G1" ∷ a_wallet "b2" "G2" ∷ []

one_id : (i : String) → (table WalletBinding).count (has_id i) wallets ≤ 1
one_id i = elim (Bool-cases (str_eq "b1" i)) [
  | inl e ↦
      subst (λ j. (table WalletBinding).count (has_id j) wallets ≤ 1) ((eq_iff "b1" i).0 e)
        (omega arith)
  | inr e ↦ elim (Bool-cases (str_eq "b2" i)) [
    | inl f ↦ rw (e, f) (omega arith)
    | inr f ↦ rw (e, f) (omega arith)
  ]
]

one_u1 : (u : String) → (table WalletBinding).count (primary_of u) wallets ≤ 1
one_u1 u = elim (Bool-cases (str_eq "u1" u)) [
  | inl e ↦ rw e (omega arith)
  | inr e ↦ rw e (omega arith)
]

wallets-IsSound : IsSound (table WalletBinding) wallets
wallets-IsSound = record { unique_ids = one_id; one_primary = one_u1 }

step-IsSound_example :
    IsSound
      (table WalletBinding)
      (Primary.step (table WalletBinding) (bind "b3" "G3" "u1" true 500) wallets)
step-IsSound_example =
    step-IsSound (table WalletBinding) (table-Laws WalletBinding) (bind "b3" "G3" "u1" true 500)
      wallets refl wallets-IsSound

unbind_wallet_keeps_example :
    let after = (unbind_wallet (table WalletBinding) "G1" "u1" wallets).1 in
    (1 ≤ (table WalletBinding).count (owned_by "u1") after)
    × ((table WalletBinding).count (primary_of "u1") after ≡ 1)
unfolding unbind_wallet unbind_found
unbind_wallet_keeps_example =
    unbind_wallet_keeps (table WalletBinding) (table-Laws WalletBinding) "G1" "u1" wallets
      wallets-IsSound refl refl

abbrev a_token : ApiToken
a_token = record {
  id = "t1";
  token = "h:stl_1";
  name = "ci";
  role = "user";
  user_id = "u1";
  expires_at = none;
  revoked = false;
  last_used_at = none;
}

abbrev tokens : List ApiToken
tokens = a_token ∷ record a_token { id = "t2"; token = "h:stl_2"; user_id = "u2" } ∷ []

-- The hash of a token, and the test against it.
abbrev compare : String → String → Bool
compare plain hash = str_eq ("h:" ++ plain) hash

validate_api_token-revoke_api_token_example : ◌≢◌ {A = String} "t2" "t1"
unfolding revoke_api_token validate_api_token validate_among revoke_found
validate_api_token-revoke_api_token_example =
    validate_api_token-revoke_api_token (table ApiToken) (table-Laws ApiToken) compare (λ t. true)
      "t1" "u1" "stl_2" 1000 tokens (record { user_id = "u2"; role = "user"; token_id = "t2" }) refl
      refl

validate_api_token-revoke_all_example : ◌≢◌ {A = String} "u2" "u1"
unfolding revoke_all_user_api_tokens validate_api_token validate_among
validate_api_token-revoke_all_example =
    validate_api_token-revoke_all (table ApiToken) (table-Laws ApiToken) compare (λ t. true) "u1"
      "stl_2" 1000 tokens (record { user_id = "u2"; role = "user"; token_id = "t2" }) refl

create_user_with_wallet_orphan_example :
    let (result, users', db') =
      create_user_with_wallet (table WalletBinding) (table User) "b9" "u9" "G1" 500 [] wallets in
    (result ≡ conflict "Wallet already bound to an account")
    × (db' ≡ wallets)
    × ((table User).count (λ u. str_eq u.id "u9") users' ≡ 1)
create_user_with_wallet_orphan_example =
    create_user_with_wallet_orphan (table WalletBinding) (table User) (table-Laws User) "b9" "u9"
      "G1" 500 [] wallets (a_wallet "b1" "G1") refl
