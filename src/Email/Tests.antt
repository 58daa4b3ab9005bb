-- ===== src/Email/Tests.antt =====
-- The mail features on small tables, and the theorems at them.
use ipointel.Base.{
  ℕ, ◌<◌, inl, String, ◌≡◌, ◌≢◌, refl, true, false, Option, none, some, [], ◌∷◌, arith, All,
}
use ipointel.Email.{queued, Message, Lead, SendResult}
use ipointel.Email.Queue.{Settings, Pass, Session, enqueue, flush_new, run, process_queue, clash}
use ipointel.Email.Queue.Quota.{Each, MaySend, run_asks, run_quota}
use ipointel.Email.Queue.Attempts.{IsRetryable, process_queue-IsRetryable}
use ipointel.Email.Queue.Dedupe.{IsDeduped, Once, enqueue-Once}
use ipointel.Email.Webhook.{Event, Tables, email_bounced, one, find_lead, handle_event}
use ipointel.Email.Webhook.Suppression.{stopped, handle_event_suppresses}
use ipointel.Email.Alerts.{AlertKind, matches_market, wants, queue_leads, queue_one}
use ipointel.Email.Alerts.Rollback.{queue_leads_lost}

abbrev ann : Lead
ann = record {
  id = 1;
  email = "ann@example.org";
  markets = "both";
  consent = true;
  suppressed = false;
  suppressed_reason = "";
  alert_score_change = true;
  alert_recommendation_change = true;
  alert_red_flag = true;
}

abbrev bob : Lead
bob = record ann { id = 2; email = "bob@example.org"; markets = "india" }

abbrev empty_session : Session
empty_session = record { committed = []; rows = []; next_id = 1 }

-- Bob has had the alert of score 9, and that is committed.
abbrev bob_told : Session
bob_told =
    let (msg, s) = enqueue bob "score_alert" 2 "9" (some 5) (some 9) "" 100 empty_session in
    record s { committed = s.rows }

abbrev pending : Message
pending = record {
  id = 1;
  lead_id = 1;
  ipo_id = none;
  score_snapshot_id = none;
  email = "ann@example.org";
  template = "score_alert";
  dedupe_key = "9";
  subject = "";
  provider = "";
  provider_message_id = "m1";
  status = queued;
  priority = 2;
  attempt_count = 1;
  queued_at = 100;
  sent_at = none;
  delivered_at = none;
  failed_at = none;
  last_error = "";
  updated_at = some 100;
}

abbrev settings : Settings
settings = record {
  daily_soft_limit = 90;
  monthly_soft_limit = 2800;
  max_attempts = 5;
  email_provider = "mailpit";
}

abbrev lead_of : ℕ → Option Lead
lead_of n = some ann

abbrev render : Message → Option (String × String × String)
render m = some ("subject", "html", "text")

abbrev accepts : String → String → String → String → SendResult
accepts to subject html text = record {
  ok = true;
  provider_message_id = "p1";
  error = "";
  retryable = true;
}

abbrev start : Pass
start = record {
  sent_today = 90;
  sent_month = 200;
  sent = 0;
  failed = 0;
  skipped_quota = 0;
  skipped_suppressed = 0;
  processed = 0;
}

run_asks_example :
    Each
      (λ m m'. m'.attempt_count ≢ m.attempt_count → MaySend lead_of 500 m)
      (pending ∷ [])
      (run settings lead_of render accepts 500 25 (pending ∷ []) start).1
run_asks_example = run_asks settings lead_of render accepts 500 25 (pending ∷ []) start

run_quota_example :
    Each
      (λ m m'. 0 < m.priority → m'.attempt_count ≡ m.attempt_count)
      (pending ∷ [])
      (run settings lead_of render accepts 500 25 (pending ∷ []) start).1
run_quota_example = run_quota settings lead_of render accepts 500 25 (pending ∷ []) start refl

pending-IsRetryable : All (IsRetryable 5) (pending ∷ [])
pending-IsRetryable = ((omega arith, λ e. cc, λ e. omega arith), tt)

process_queue-IsRetryable_example :
    let s' =
      (process_queue settings lead_of render accepts 500 25 0 0
        (record { committed = []; rows = pending ∷ []; next_id = 2 })).1 in
    All (IsRetryable 5) s'.rows × (s'.committed ≡ s'.rows)
process_queue-IsRetryable_example =
    process_queue-IsRetryable settings lead_of render accepts 500 25 0 0
      (record { committed = []; rows = pending ∷ []; next_id = 2 }) pending-IsRetryable

-- Bob is told again of the score that he has been told of.
bob_told-IsDeduped : IsDeduped bob_told.rows
unfolding enqueue flush_new
bob_told-IsDeduped = (tt, tt)

enqueue-Once_example :
    let result = enqueue bob "score_alert" 2 "9" (some 5) (some 9) "" 200 bob_told in
    Once 2 "score_alert" "9" bob_told result
    × (IsDeduped result.1.rows
        × (IsDeduped result.1.committed × (result.1.committed ≡ bob_told.committed)))
enqueue-Once_example =
    enqueue-Once bob "score_alert" 2 "9" (some 5) (some 9) "" 200 bob_told bob_told-IsDeduped
      bob_told-IsDeduped

-- Ann's alert is queued, and lost again when Bob's turns out to be a duplicate.
queue_leads_lost_example :
    let before = queue_leads AlertKind.score 5 9 "9" "India" 200 (ann ∷ []) (0, bob_told) in
    let after = queue_leads AlertKind.score 5 9 "9" "India" 200 (ann ∷ bob ∷ []) (0, bob_told) in
    (after.0 ≡ before.0) × (after.1.rows ≡ bob_told.committed)
unfolding enqueue queue_leads queue_one matches_market wants flush_new clash
queue_leads_lost_example =
    queue_leads_lost AlertKind.score 5 9 "9" "India" 200 (ann ∷ []) bob 0 bob_told refl refl

abbrev bounce : Event
bounce = record {
  kind = email_bounced;
  email_id = "m1";
  id = "";
  to = one "ann@example.org";
  reason = "";
}

abbrev tables : Tables
tables = record { messages = pending ∷ []; leads = ann ∷ bob ∷ [] }

handle_event_suppresses_example :
    (l' : Lead) × (find_lead "ann@example.org" (handle_event (λ s. s) 300 bounce tables).0.leads
      ≡ some l')
    × (l' ≡ stopped "bounced" ann)
unfolding find_lead
handle_event_suppresses_example =
    handle_event_suppresses (λ s. s) 300 bounce tables "bounced" "ann@example.org" ann
      (inl (refl, refl)) (inl refl) refl refl
