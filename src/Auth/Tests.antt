-- ===== src/Auth/Tests.antt =====
-- Signing in once, and the theorems at it. The test hash keeps the text.
use ipointel.Base.{◌≡◌, ◌≢◌, refl, false, none, some, [], ◌∷◌, ltb}
use ipointel.Auth.{
  Account, LoginToken, Tables, refused, already_used, active, invited, sign_in, find_token, admit,
  check_token, redeem_login_token, find_account, find_session, revoke_all_sessions, check_session,
  get_lead_from_session,
}
use ipointel.Auth.Tokens.{redeem_once}
use ipointel.Auth.Sessions.{revoked_out}

abbrev ann : Account
ann = record { id = 1; access_status = invited; last_login_at = none }

abbrev bob : Account
bob = record { id = 2; access_status = active; last_login_at = none }

abbrev tables : Tables
tables = record {
  tokens =
      record {
        lead_id = 1;
        token_hash = "secret";
        purpose = "login";
        expires_at = 900;
        used_at = none;
        revoked_at = none;
      }
      ∷ [];
  sessions =
      record { lead_id = 2; session_hash = "cookie"; expires_at = 9000; revoked_at = none } ∷ [];
  accounts = ann ∷ bob ∷ [];
}

redeem_once_example :
    let db' = (redeem_login_token (λ s. s) "secret" 100 tables).1 in
    ((t : LoginToken) × (find_token "secret" tables.tokens ≡ some t)
      × (t.used_at ≡ none)
      × (t.revoked_at ≡ none)
      × (ltb t.expires_at 100 ≡ false))
    × (redeem_login_token (λ s. s) "secret" 200 db' ≡ (refused already_used, db'))
unfolding redeem_login_token check_token admit find_token find_account
redeem_once_example = redeem_once (λ s. s) "secret" 100 200 tables (sign_in 100 ann) refl

-- Ann's sessions are revoked; Bob's cookie still works, and is not hers.
revoked_out_example : bob.id ≢ 1
unfolding get_lead_from_session check_session find_session find_account revoke_all_sessions
revoked_out_example = revoked_out (λ s. s) "cookie" 100 200 1 tables bob refl
