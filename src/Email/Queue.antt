-- ===== src/Email/Queue.antt =====
-- app/services/email_queue.py: `enqueue` on the database session, and `process_queue`, which sends.
-- The provider's answers, the rendered templates and the rows of the leads are parameters: they come
-- from the network, the HTML templates and the database. One pass reads the clock as one time.
pub mod Quota
pub mod Attempts
pub mod Dedupe
use text.Mathlib.Text.{◌==◌ as str_eq}
use ipointel.Base.Text.{clip}
use ipointel.Base.{
  ℕ, ◌+◌, ◌*◌, String, Bool, true, false, not, ◌&&◌, ◌||◌, Option, none, some, List, [], ◌∷◌, ◌++◌,
  ltb, leb, ◌==◌, is_empty, any, take, if◌then◌else◌,
}
use ipointel.Email.{
  Status, queued, sending, sent, delivered, failed, suppressed, unsubscribed, Message, Lead,
  SendResult, priority_transactional,
}
use ipointel.Email.Backoff.{within_backoff}

-- The session's transaction: the rows as it sees them, over the rows that are committed.
pub record Session : Type 0 where
  pub committed : List Message
  pub rows : List Message
  pub next_id : ℕ

unfoldable pub commit : Session → Session
commit s = record s { committed = s.rows }

unfoldable pub rollback : Session → Session
rollback s = record s { rows = s.committed }

-- The unique constraint on (lead_id, template, dedupe_key).
unfoldable pub clash : Message → Message → Bool
clash m r =
    m.lead_id == r.lead_id && (str_eq m.template r.template && str_eq m.dedupe_key r.dedupe_key)

-- `db.add(msg)` and `db.flush()`: a row that the constraint refuses rolls the whole session back.
unfoldable pub flush_new : Message → Session → Option Message × Session
unfolding rollback
flush_new msg s =
    if any (clash msg) s.rows
    then (none, rollback s)
    else (some msg, record s { rows = s.rows ++ msg ∷ []; next_id = s.next_id + 1 })

-- `enqueue`
unfoldable pub enqueue :
    Lead
    → String
    → ℕ
    → String
    → Option ℕ
    → Option ℕ
    → String
    → ℕ
    → Session
    → Option Message × Session
enqueue lead template priority dedupe_key ipo_id score_snapshot_id subject_hint now s =
    flush_new
      (record {
        id = s.next_id;
        lead_id = lead.id;
        ipo_id = ipo_id;
        score_snapshot_id = score_snapshot_id;
        email = lead.email;
        template = template;
        dedupe_key = if is_empty dedupe_key then template else dedupe_key;
        subject = subject_hint;
        provider = "";
        provider_message_id = "";
        status = queued;
        priority = priority;
        attempt_count = 0;
        queued_at = now;
        sent_at = none;
        delivered_at = none;
        failed_at = none;
        last_error = "";
        updated_at = some now;
      })
      s

-- The settings that a pass reads.
pub record Settings : Type 0 where
  pub daily_soft_limit : ℕ
  pub monthly_soft_limit : ℕ
  pub max_attempts : ℕ
  pub email_provider : String

-- The quota counters and the `result` of a pass.
pub record Pass : Type 0 where
  pub sent_today : ℕ
  pub sent_month : ℕ
  pub sent : ℕ
  pub failed : ℕ
  pub skipped_quota : ℕ
  pub skipped_suppressed : ℕ
  pub processed : ℕ

abbrev pub has_gone_out : Status → Bool
has_gone_out sent = true
has_gone_out delivered = true
has_gone_out _ = false

-- `_counts_since`: sent or delivered, at `since` or later.
abbrev pub counts_since : ℕ → List Message → ℕ
counts_since since [] = 0
counts_since since (m ∷ ms) =
    (if has_gone_out m.status && elim m.sent_at [ none ↦ false | some t ↦ leb since t ]
      then 1
      else 0)
    + counts_since since ms

abbrev pub is_queued : Status → Bool
is_queued queued = true
is_queued _ = false

-- `where(status == QUEUED).order_by(priority, queued_at)`
abbrev pub before : Message → Message → Bool
before a b = ltb a.priority b.priority || (a.priority == b.priority && leb a.queued_at b.queued_at)

pub insert : Message → List Message → List Message
insert m [] = m ∷ []
insert m (x ∷ xs) = let rest = insert m xs in if before m x then m ∷ x ∷ xs else x ∷ rest

unfoldable pub in_order : List Message → List Message
unfolding insert
in_order [] = []
in_order (m ∷ ms) = let rest = in_order ms in if is_queued m.status then insert m rest else rest

-- The pass works on the rows themselves: a row that it touched is found by its id.
pub newest : Message → List Message → Message
newest m [] = m
newest m (d ∷ ds) = if d.id == m.id then d else newest m ds

pub write_back : List Message → List Message → List Message
write_back done [] = []
write_back done (m ∷ ms) = newest m done ∷ write_back done ms

module _ (settings : Settings) (lead_of : ℕ → Option Lead)
    (render : Message → Option (String × String × String))
    (send : String → String → String → String → SendResult) (now : ℕ) where
  -- After `provider.send`: the message that was marked as being sent, and the answer.
  unfoldable pub settle : SendResult → Message → Pass → Pass × Message
  settle r m p =
      let m' = record m { attempt_count = m.attempt_count + 1; updated_at = some now } in
      if r.ok
      then (
        record p {
          sent_today = p.sent_today + 1;
          sent_month = p.sent_month + 1;
          sent = p.sent + 1;
        },
        record m' {
          status = sent;
          provider_message_id = r.provider_message_id;
          sent_at = some now;
        },
      )
      else if not r.retryable || leb settings.max_attempts m'.attempt_count
      then (
        record p { failed = p.failed + 1 },
        record m' { status = failed; failed_at = some now; last_error = clip 2000 r.error },
      )
      else (p, record m' { status = queued; last_error = clip 2000 r.error })

  -- From `_render` on.
  unfoldable pub attempt : Lead → Message → Pass → Pass × Message
  unfolding settle
  attempt lead m p =
      let p' = record p { processed = p.processed + 1 } in
      elim (render m) [
        | none ↦ (
          record p' { failed = p'.failed + 1 },
          record m {
            status = failed;
            last_error = "template render failed (missing related record)";
            failed_at = some now;
            updated_at = some now;
          },
        )
        | some (subject, html, text) ↦
            settle (send lead.email subject html text)
              (record m { subject = subject; provider = settings.email_provider; status = sending })
              p'
      ]

  abbrev pub over_quota : Pass → Bool
  over_quota p =
      leb settings.daily_soft_limit p.sent_today || leb settings.monthly_soft_limit p.sent_month

  unfoldable pub suppress : Message → Pass → Pass × Message
  suppress m p = (
    record p { skipped_suppressed = p.skipped_suppressed + 1 },
    record m { status = suppressed; updated_at = some now },
  )

  -- The body of the loop below the limit test, at a lead that was found.
  unfoldable pub deliver : Lead → Message → Pass → Pass × Message
  unfolding attempt suppress
  deliver lead m p =
      if lead.suppressed
      then suppress m p
      else if not (str_eq m.template "welcome") && not lead.consent
      then (p, record m { status = unsubscribed; updated_at = some now })
      else if over_quota p && ltb priority_transactional m.priority
      then (record p { skipped_quota = p.skipped_quota + 1 }, m)
      else attempt lead m p

  unfoldable pub step : Message → Pass → Pass × Message
  unfolding deliver suppress
  step m p =
      if within_backoff now m
      then (p, m)
      else elim (lead_of m.lead_id) [ none ↦ suppress m p | some lead ↦ deliver lead m p ]

  -- The loop over the pending messages; it breaks once `limit` were processed.
  pub run : ℕ → List Message → Pass → Pass × List Message
  run limit [] p = (p, [])
  run limit (m ∷ ms) p =
      let (p', m') = step m p in
      let (p'', ms') = run limit ms p' in
      if leb limit p.processed then (p, m ∷ ms) else (p'', m' ∷ ms')

  -- `process_queue`; `day` and `month` are the starts of today and of this month.
  unfoldable pub process_queue : ℕ → ℕ → ℕ → Session → Pass × Session
  unfolding run write_back newest in_order commit
  process_queue limit day month s =
      let start : Pass = record {
        sent_today = counts_since day s.rows;
        sent_month = counts_since month s.rows;
        sent = 0;
        failed = 0;
        skipped_quota = 0;
        skipped_suppressed = 0;
        processed = 0;
      } in
      let (p, done) = run limit (take (limit * 3) (in_order s.rows)) start in
      (p, commit (record s { rows = write_back done s.rows }))
