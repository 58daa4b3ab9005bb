-- ===== src/Auth.antt =====
-- app/services/auth.py: single-use login tokens and sessions. The hash is SHA-256, a parameter; the
-- random secret of a new token or session is an argument. Times are in seconds.
pub mod Tokens
pub mod Sessions
mod Tests
use ipointel.Base.{
  ℕ, ◌+◌, ◌*◌, String, Bool, true, false, not, ◌&&◌, ◌||◌, Option, none, some, List, [], ◌∷◌, ◌++◌,
  ltb, leb, is_empty, is_some, if◌then◌else◌,
}
use text.Mathlib.Text.{◌==◌}

abbrev pub login_token_ttl_minutes : ℕ
login_token_ttl_minutes = 15

abbrev pub session_ttl_days : ℕ
session_ttl_days = 14

pub data Access : Type 0 where
  waitlisted invited active disabled : Access

-- the columns of a lead that signing in reads and writes
pub record Account : Type 0 where
  pub id : ℕ
  pub access_status : Access
  pub last_login_at : Option ℕ

pub record LoginToken : Type 0 where
  pub lead_id : ℕ
  pub token_hash : String
  pub purpose : String
  pub expires_at : ℕ
  pub used_at : Option ℕ
  pub revoked_at : Option ℕ

pub record AuthSession : Type 0 where
  pub lead_id : ℕ
  pub session_hash : String
  pub expires_at : ℕ
  pub revoked_at : Option ℕ

pub record Tables : Type 0 where
  pub tokens : List LoginToken
  pub sessions : List AuthSession
  pub accounts : List Account

pub data Refusal : Type 0 where
  invalid_token already_used revoked expired no_access : Refusal

pub data Redeemed : Type 0 where
  refused : Refusal → Redeemed
  granted : Account → Redeemed

abbrev pub same_id : ℕ → ℕ → Bool
same_id a b = leb a b && leb b a

unfoldable pub find_token : String → List LoginToken → Option LoginToken
find_token h [] = none
find_token h (t ∷ ts) = let rest = find_token h ts in if t.token_hash == h then some t else rest

-- The write to the row that was found.
unfoldable pub use_token : String → ℕ → List LoginToken → List LoginToken
use_token h now [] = []
use_token h now (t ∷ ts) =
    let rest = use_token h now ts in
    if t.token_hash == h then record t { used_at = some now } ∷ ts else t ∷ rest

unfoldable pub find_account : ℕ → List Account → Option Account
find_account id [] = none
find_account id (a ∷ rows) =
    let rest = find_account id rows in if same_id a.id id then some a else rest

abbrev pub is_disabled : Access → Bool
is_disabled disabled = true
is_disabled _ = false

abbrev pub activated : Access → Access
activated invited = active
activated s = s

abbrev pub is_active : Access → Bool
is_active active = true
is_active _ = false

abbrev pub sign_in : ℕ → Account → Account
sign_in now a = record a { access_status = activated a.access_status; last_login_at = some now }

unfoldable pub write_account : Account → List Account → List Account
write_account a [] = []
write_account a (b ∷ bs) =
    let rest = write_account a bs in if same_id b.id a.id then a ∷ bs else b ∷ rest

unfoldable pub find_session : String → List AuthSession → Option AuthSession
find_session h [] = none
find_session h (s ∷ ss) =
    let rest = find_session h ss in if s.session_hash == h then some s else rest

unfoldable pub revoke_all_sessions : ℕ → ℕ → List AuthSession → List AuthSession
revoke_all_sessions now id [] = []
revoke_all_sessions now id (s ∷ ss) =
    (if same_id s.lead_id id && not (is_some s.revoked_at)
      then record s { revoked_at = some now }
      else s)
    ∷ revoke_all_sessions now id ss

abbrev pub if_active : Option Account → Option Account
if_active none = none
if_active (some a) = if is_active a.access_status then some a else none

unfoldable pub check_session : ℕ → Tables → Option AuthSession → Option Account
check_session now db none = none
check_session now db (some s) =
    if is_some s.revoked_at || ltb s.expires_at now
    then none
    else if_active (find_account s.lead_id db.accounts)

module _ (hash : String → String) where
  -- `create_login_token`, with the secret that `secrets.token_urlsafe` gives
  unfoldable pub create_login_token : String → ℕ → ℕ → String → Tables → Tables
  create_login_token raw now lead_id purpose db = record db {
    tokens =
        db.tokens
        ++ record {
          lead_id = lead_id;
          token_hash = hash raw;
          purpose = purpose;
          expires_at = now + login_token_ttl_minutes * 60;
          used_at = none;
          revoked_at = none;
        }
          ∷ [];
  }

  -- `redeem_login_token` from the lead on
  unfoldable pub admit : String → ℕ → Tables → Option Account → Redeemed × Tables
  admit raw now db none = (refused no_access, db)
  admit raw now db (some a) = if is_disabled a.access_status then (refused no_access, db) else (
    granted (sign_in now a),
    record db {
      tokens = use_token (hash raw) now db.tokens;
      accounts = write_account (sign_in now a) db.accounts;
    },
  )

  -- `redeem_login_token` from the row on
  unfoldable pub check_token : String → ℕ → Tables → Option LoginToken → Redeemed × Tables
  unfolding admit
  check_token raw now db none = (refused invalid_token, db)
  check_token raw now db (some t) =
      if is_some t.used_at
      then (refused already_used, db)
      else if is_some t.revoked_at
      then (refused revoked, db)
      else if ltb t.expires_at now
      then (refused expired, db)
      else admit raw now db (find_account t.lead_id db.accounts)

  unfoldable pub redeem_login_token : String → ℕ → Tables → Redeemed × Tables
  unfolding check_token
  redeem_login_token raw now db = check_token raw now db (find_token (hash raw) db.tokens)

  unfoldable pub create_session : String → ℕ → ℕ → Tables → Tables
  create_session raw now lead_id db = record db {
    sessions =
        db.sessions
        ++ record {
          lead_id = lead_id;
          session_hash = hash raw;
          expires_at = now + session_ttl_days * 86_400;
          revoked_at = none;
        }
          ∷ [];
  }

  unfoldable pub get_lead_from_session : String → ℕ → Tables → Option Account
  unfolding check_session
  get_lead_from_session raw now db =
      if is_empty raw then none else check_session now db (find_session (hash raw) db.sessions)
