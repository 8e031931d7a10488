-- ===== src/Auth/Sessions/Tests.antt =====
-- Refreshes on a table in memory.
use xlm_pay.Base.{ℕ, String, ◌+◌, ◌*◌, ◌≡◌, ◌≢◌, refl, true, false, none, [], ◌∷◌, eq_iff, arith}
use xlm_pay.Repository.Memory.{table, table-Laws}
use xlm_pay.Auth.Sessions.{
  RefreshToken, JwtPayload, Tokens, ok, refresh_access_token, refresh_found, generate_refresh_token,
  generate_access_token,
}
use xlm_pay.Auth.Sessions.Rotation.{refresh_access_token_once}

abbrev a_token : RefreshToken
a_token = record {
  id = "r1";
  token = "old";
  user_id = "u1";
  expires_at = 5000;
  revoked = false;
  revoked_at = none;
}

abbrev sign : JwtPayload → String
sign p = p.sub

abbrev add_days : ℕ → ℕ → ℕ
add_days days now = now + days * 86400000

abbrev renewed : Tokens
renewed = record { access_token = "u1"; new_refresh_token = "new" }

different : ¬ (◌≡◌ {A = String} "new" "old")
different e = cc ((eq_iff "new" "old").1 e)

refresh_access_token_once_example :
    (refresh_access_token
      (table RefreshToken)
      sign
      add_days
      (λ t. true)
      "old"
      "newer"
      "r3"
      2000
      (refresh_access_token
        (table RefreshToken)
        sign
        add_days
        (λ t. true)
        "old"
        "new"
        "r2"
        1000
        (a_token ∷ [])).1).0
    ≢ ok renewed
unfolding refresh_access_token refresh_found generate_refresh_token generate_access_token
refresh_access_token_once_example =
    refresh_access_token_once (table RefreshToken) (table-Laws RefreshToken) sign add_days
      (λ t. true) "old" "new" "r2" "newer" "r3" 1000 2000 (a_token ∷ []) renewed renewed
      (omega arith) different refl
