-- ===== src/Heartbeat.antt =====
-- app/services/heartbeat.py: the one row in which the worker reports in, and its status. Times are in
-- seconds; a field that a job touches is named by its column.
use ipointel.Base.Text.{clip}
use ipointel.Base.{
  ℕ, ◌+◌, ◌*◌, ◌≤◌, String, Bool, Option, none, some, List, [], ◌∷◌, arith, ltb, is_empty,
  if◌then◌else◌,
}

pub record WorkerHeartbeat : Type 0 where
  pub instance_name : String
  pub current_job : String
  pub updated_at : ℕ
  pub last_success_at : Option ℕ
  pub last_error : String
  pub last_sec_refresh_at : Option ℕ
  pub last_nse_refresh_at : Option ℕ
  pub last_performance_update_at : Option ℕ
  pub last_email_pass_at : Option ℕ

pub data Field : Type 0 where
  sec_refresh nse_refresh performance_update email_pass : Field

pub data Health : Type 0 where
  live stale failed : Health

-- `_row`
unfoldable pub row_or_new : String → ℕ → Option WorkerHeartbeat → WorkerHeartbeat
row_or_new host now none = record {
  instance_name = host;
  current_job = "idle";
  updated_at = now;
  last_success_at = none;
  last_error = "";
  last_sec_refresh_at = none;
  last_nse_refresh_at = none;
  last_performance_update_at = none;
  last_email_pass_at = none;
}
row_or_new host now (some row) = row

unfoldable pub touch : ℕ → Field → WorkerHeartbeat → WorkerHeartbeat
touch now sec_refresh row = record row { last_sec_refresh_at = some now }
touch now nse_refresh row = record row { last_nse_refresh_at = some now }
touch now performance_update row = record row { last_performance_update_at = some now }
touch now email_pass row = record row { last_email_pass_at = some now }

unfoldable pub touch_all : ℕ → List Field → WorkerHeartbeat → WorkerHeartbeat
touch_all now [] row = row
touch_all now (f ∷ fs) row = touch_all now fs (touch now f row)

unfoldable pub outcome : ℕ → Bool → String → WorkerHeartbeat → WorkerHeartbeat
outcome now success error row =
    if success
    then record row { last_success_at = some now; last_error = "" }
    else if is_empty error
    then row
    else record row { last_error = clip 2000 error }

-- `beat`
unfoldable pub beat :
    String → ℕ → String → Bool → String → List Field → Option WorkerHeartbeat → WorkerHeartbeat
beat host now job success error fields row = touch_all now fields (
    outcome now success error
      (record (row_or_new host now row) { current_job = job; updated_at = now }))

-- the status word of `status`; `age > n` of the times
unfoldable pub status : ℕ → ℕ → Option WorkerHeartbeat → Health
status stale_after now none = failed
status stale_after now (some row) =
    if ltb (row.updated_at + stale_after * 3) now
    then failed
    else if ltb (row.updated_at + stale_after) now
    then stale
    else live

abbrev badness : Health → ℕ
badness live = 0
badness stale = 1
badness failed = 2

-- Without a beat, the status of the worker never gets better as time passes.
status_worsens :
    (stale_after now later : ℕ) (row : Option WorkerHeartbeat)
    → now ≤ later
    → badness (status stale_after now row) ≤ badness (status stale_after later row)
unfolding status
status_worsens stale_after now later none h = omega arith
status_worsens stale_after now later (some row) h = ground arith
