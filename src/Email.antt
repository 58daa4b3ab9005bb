-- ===== src/Email.antt =====
-- The rows behind the email features of app/models.py, and the states of app/services/email_provider.py.
pub mod Backoff
pub mod Queue
pub mod Webhook
pub mod Alerts
pub mod RedFlagAlerts
mod Tests
use ipointel.Base.{ℕ, String, Bool, Option}

-- The status constants of app/services/email_provider.py.
pub data Status : Type 0 where
  queued sending sent delivered delayed bounced complained failed suppressed unsubscribed : Status

-- `PRIORITY_TRANSACTIONAL` and its like; the lower number goes first.
abbrev pub priority_transactional : ℕ
priority_transactional = 0

abbrev pub priority_recommendation : ℕ
priority_recommendation = 1

abbrev pub priority_score_alert : ℕ
priority_score_alert = 2

-- `EmailMessage`; times are seconds.
pub record Message : Type 0 where
  pub id : ℕ
  pub lead_id : ℕ
  pub ipo_id : Option ℕ
  pub score_snapshot_id : Option ℕ
  pub email : String
  pub template : String
  pub dedupe_key : String
  pub subject : String
  pub provider : String
  pub provider_message_id : String
  pub status : Status
  pub priority : ℕ
  pub attempt_count : ℕ
  pub queued_at : ℕ
  pub sent_at : Option ℕ
  pub delivered_at : Option ℕ
  pub failed_at : Option ℕ
  pub last_error : String
  pub updated_at : Option ℕ

-- The fields of `WaitlistLead` that the email features read or write.
pub record Lead : Type 0 where
  pub id : ℕ
  pub email : String
  pub markets : String
  pub consent : Bool
  pub suppressed : Bool
  pub suppressed_reason : String
  pub alert_score_change : Bool
  pub alert_recommendation_change : Bool
  pub alert_red_flag : Bool

-- `SendResult`
pub record SendResult : Type 0 where
  pub ok : Bool
  pub provider_message_id : String
  pub error : String
  pub retryable : Bool
