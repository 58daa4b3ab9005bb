-- ===== src/Lib.antt =====
-- The deterministic core of the IPO intelligence service (app/): from the record of an issue to its
-- score, its red flags and its forward grade, and from a score to the mail that tells a subscriber.
--
-- How the parts interact. The ingestion (Pipeline) writes fields of an IPO record under guards
-- (Identity), keeps what each source reports and which reports conflict, and decides which event a new
-- score snapshot documents. The score (Scoring) is a function of the record and the number of
-- conflicts; red flags (RedFlags) and contradictions (Contradictions) are rules over the same record.
-- Score changes and critical flags become messages in a queue (Email), which a delivery pass sends
-- and the provider's webhooks report back on. Once an issue lists, price bars (Market) give its
-- returns, and the grader (Grading) attaches them to the predictions; Walkforward and ModelEval judge
-- the model on them, and MarketRegime, Similarity and Sensitivity put one issue in context. A visitor
-- who signs up (Signup) passes the limiter (RateLimit), becomes a lead, and gets a mail in the queue
-- and a row in the outbox of the spreadsheet (Sheets). NetSafety checks a URL before it is fetched.
--
-- Which file models what:
--   Base, Base/*       lists, dictionaries, integers and texts, shared by all
--   Runtime            floats, `str.lower` and `urlparse` as a record of operations, with the laws
--                      that theorems use; Runtime/Fixed is an instance, fixed-point with 6 digits
--   Ipo                the columns of `IPO` in app/models.py that the rules read
--   RateLimit          `SlidingWindowLimiter` of app/services/ratelimit.py: `hit`, `_sweep`, `clear`
--   Email/Queue        `enqueue` and `process_queue` of app/services/email_queue.py over the message
--                      table; Email/Backoff is `_within_backoff`
--   Email/Webhook      `handle_event` of app/services/webhooks.py
--   Email/Alerts, Email/RedFlagAlerts
--                      app/services/alerts.py
--   Scoring, Scoring/* app/scoring.py: Valuation, Confidence and Score in child modules
--   Identity/*         app/services/identity.py: canonical names, issue types, statuses, labels
--   RedFlags           `evaluate` and `summarize` of app/services/redflags.py
--   Contradictions     app/services/contradictions.py
--   Heartbeat          `beat` and `status` of app/services/heartbeat.py
--   Worker             `run_once` of app/worker.py, the wait between two cycles, and a round of `main`
--   Dcf                the projection, the scenarios and the bisection of app/services/dcf.py
--   Market             bar searches and `windowed_returns` of app/services/market.py
--   Grading            `classify_prediction` of app/services/forward_grading.py; Grading/Ledger is the
--                      ledger with its counts, Grading/Grader is app/services/outcomes.py
--   Auth               login tokens and sessions of app/services/auth.py
--   Pipeline, Pipeline/Sources, Pipeline/NameIndex
--                      `_set_flag`, `_score_moved`, `_event_stage`, `add_provenance`, `NameIndex` of
--                      app/services/pipeline.py; Pipeline/Upsert is the loop of `upsert_ipo`
--   Signup             the route `waitlist` of app/main.py, over Email/Queue, RateLimit and Sheets
--   Sheets             the outbox of app/services/sheets_sync.py: `enqueue`, `process_outbox`
--   Walkforward        the ranks, correlations and bands of app/services/walkforward.py
--   ModelEval          app/services/model_eval.py: the splits, the metrics, the gate and the tiers
--   MarketRegime       app/services/market_regime.py: the regime before a listing
--   NetSafety          `validate_outbound_url` of app/services/net_safety.py
--   Similarity         `find_similar` of app/services/similarity.py
--   Sensitivity        the bisections and conditions of app/services/sensitivity.py
-- An operation that changes state takes the state and returns it. A database session is the rows that
-- are committed and the rows as written since; a query's rows are a list.
--
-- Conventions. Floats are an abstract type: a theorem over them names the laws it needs, so that it
-- holds of IEEE numbers without NaN. Times and days are natural numbers and never run backwards where
-- a theorem needs that. Texts that are searched or rewritten are lists of code points. The loops
-- of the source that are modelled run over a list that they shorten, or a fixed number of times; only
-- `wait` of Worker runs on fuel, one round more than the interval has seconds, which is enough since
-- a round waits for a second or more.
--
-- Not modelled: the network clients and the parsers of filings (app/services/sec.py, nse*.py,
-- *_financials.py), the routes of app/main.py but the sign-up, templates, the performance and backtest
-- reports, the newsletter, date parsing (it rests on `strptime`), and the prose
-- of flags and findings. What is fetched or parsed is a parameter of the definitions that use it.
pub mod Base
pub mod Runtime
pub mod Ipo
pub mod RateLimit
pub mod Email
pub mod Scoring
pub mod Identity
pub mod RedFlags
pub mod Market
pub mod Grading
pub mod Pipeline
pub mod Contradictions
pub mod Auth
pub mod Dcf
pub mod Heartbeat
pub mod Sheets
pub mod Walkforward
pub mod ModelEval
pub mod MarketRegime
pub mod NetSafety
pub mod Similarity
pub mod Sensitivity
pub mod Signup
pub mod Worker
