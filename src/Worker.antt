-- ===== src/Worker.antt =====
-- app/worker.py: the steps of a refresh cycle with their reports to the heartbeat, and the wait between
-- two cycles, in which the mail queue and the spreadsheet outbox are served. What a job does is left to
-- the other components: here it ends or raises.
pub mod Wait
pub mod Reports
mod Tests
use ipointel.Base.{
  ℕ, zero, suc, ◌+◌, ◌-◌, ◌%◌, String, Bool, true, false, not, ◌&&◌, Option, none, some, List, [],
  ◌∷◌, ◌++◌, min, max, ltb, ◌==◌, if◌then◌else◌,
}
use ipointel.Heartbeat.{
  WorkerHeartbeat, Field, sec_refresh, nse_refresh, performance_update, email_pass, beat,
}

pub data Job : Type 0 where
  refresh_all refresh_market_performance sync_prediction_outcomes ingest_nse_history : Job
  daily_india queue_weekly_digests send_pending : Job

-- A job whose exception ends the cycle, a job whose exception is only logged, or a beat.
pub data Step : Type 0 where
  perform attempt : Job → Step
  report : String → List Field → Step

-- The body of the `try` of `run_once`, in the order of the source, and the beat at its end.
abbrev pub jobs : ℕ → List Step
jobs cycle =
    report "refresh_all" []
    ∷ perform refresh_all
    ∷ report "refresh_all" (sec_refresh ∷ nse_refresh ∷ [])
    ∷ ((if cycle % 4 == 0
          then perform refresh_market_performance
            ∷ perform sync_prediction_outcomes
            ∷ report "market_performance" (performance_update ∷ [])
            ∷ []
          else [])
        ++ ((if cycle % 96 == 0 then perform ingest_nse_history ∷ attempt daily_india ∷ [] else [])
            ++ ((if cycle % 96 == 0 then perform queue_weekly_digests ∷ [] else [])
                ++ perform send_pending ∷ [])))

unfoldable pub steps : ℕ → List Step
steps cycle = jobs cycle ++ report "idle" [] ∷ []

-- The text of the exception that a job raises, if it does, and the n-th reading of the clock.
pub record World : Type 0 where
  pub host : String
  pub clock : ℕ → ℕ
  pub raises : Job → Option String

pub record State : Type 0 where
  pub row : Option WorkerHeartbeat
  pub finished : List Job

module _ (world : World) where
  -- The first exception is reported under "refresh_all" and raised again.
  unfoldable pub run_steps : ℕ → List Step → State → State × Option String
  run_steps n [] s = (s, none)
  run_steps n (report job fields ∷ rest) s =
      run_steps (n + 1) rest
        (record s { row = some (beat world.host (world.clock n) job true "" fields s.row) })
  run_steps n (attempt job ∷ rest) s =
      run_steps n rest (record s { finished = s.finished ++ job ∷ [] })
  run_steps n (perform job ∷ rest) s = elim (world.raises job) [
    | none ↦ run_steps n rest (record s { finished = s.finished ++ job ∷ [] })
    | some error ↦ (
      record s { row = some (beat world.host (world.clock n) "refresh_all" false error [] s.row) },
      some error,
    )
  ]

  unfoldable pub run_once : ℕ → State → State × Option String
  run_once cycle s = run_steps 0 (steps cycle) s

  -- The report of `process_email_once`, after its pass over the queue.
  unfoldable pub report_email_pass : ℕ → State → State
  report_email_pass now s = record s {
    row = some (beat world.host now "idle" true "" (email_pass ∷ []) s.row);
  }

-- The passes of a wait from the `i`-th on, each with its time: a pass over the mail queue that raises
-- is logged and reports nothing.
unfoldable pub run_passes : World → (ℕ → Bool) → (ℕ → ℕ) → ℕ → ℕ → State → State
run_passes world ends at i zero s = s
run_passes world ends at i (suc count) s =
    run_passes world ends at (i + 1) count (if ends i then report_email_pass world (at i) s else s)

-- What the signal handler lets a round of the wait see: whether the shutdown is asked for when the loop
-- tests it, and whether it comes during the sleep.
pub record Poll : Type 0 where
  pub asked : Bool
  pub interrupted : Bool

abbrev pub email_poll_seconds : ℕ
email_poll_seconds = 15

-- The inner `while` of `main`, on fuel: how many passes over the queues it makes, with the passes made.
unfoldable pub wait : ℕ → ℕ → ℕ → ℕ → (ℕ → Poll) → Option ℕ
wait zero interval elapsed passes polls = none
wait (suc fuel) interval elapsed passes polls =
    let elapsed' = elapsed + min email_poll_seconds (interval - elapsed) in
    let rest = wait fuel interval elapsed' (passes + 1) polls in
    if ltb elapsed interval && not (polls passes).asked
    then (if (polls passes).interrupted then some passes else rest)
    else some passes

-- `max(60, s.worker_interval_seconds)`
abbrev pub interval_of : ℕ → ℕ
interval_of seconds = max 60 seconds

unfoldable pub wait_cycle : ℕ → (ℕ → Poll) → Option ℕ
wait_cycle seconds polls = wait (suc (interval_of seconds)) (interval_of seconds) 0 0 polls

-- A round of the outer `while` of `main`: a refresh cycle whose exception is only logged, then the wait
-- with its passes.
unfoldable pub main_round : World → ℕ → ℕ → (ℕ → Poll) → (ℕ → Bool) → (ℕ → ℕ) → State → Option State
main_round world cycle seconds polls ends at s = elim (wait_cycle seconds polls) [
  | none ↦ none
  | some count ↦ some (run_passes world ends at 0 count (run_once world cycle s).0)
]
