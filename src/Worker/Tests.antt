-- ===== src/Worker/Tests.antt =====
-- Runs of the worker, and the theorems at concrete ones.
use ipointel.Base.{
  ℕ, ◌+◌, ◌*◌, ◌<◌, true, ◌≡◌, refl, String, false, Option, none, some, [], ◌∷◌, is_empty, ◌==◌,
  subst, Bool,
}
use ipointel.Worker.{
  Job, State, World, refresh_all, refresh_market_performance, sync_prediction_outcomes,
  ingest_nse_history, daily_india, queue_weekly_digests, send_pending, run_steps, run_once, steps,
  main_round, Poll, wait, wait_cycle,
}
use ipointel.Worker.Wait.{Ended, wait_cycle-Ended}
use ipointel.Worker.Reports.{Reported, run_once-Reported, main_round_forgets}

abbrev calm : World
calm = record { host = "worker-1"; clock = λ n. 100 + n; raises = λ job. none }

-- The exchange is down.
abbrev fails : Job → Option String
fails refresh_all = none
fails refresh_market_performance = none
fails sync_prediction_outcomes = none
fails ingest_nse_history = some "ConnectError: timed out"
fails daily_india = none
fails queue_weekly_digests = none
fails send_pending = none

abbrev down : World
down = record calm { raises = fails }

abbrev first : State
first = record { row = none; finished = [] }

-- The first cycle runs every job, the second one only what every cycle runs.
first_cycle :
    (run_once calm 0 first).0.finished
    ≡ refresh_all ∷ refresh_market_performance ∷ sync_prediction_outcomes ∷ ingest_nse_history
      ∷ daily_india ∷ queue_weekly_digests ∷ send_pending ∷ []
unfolding run_once steps run_steps
first_cycle = refl

second_cycle : (run_once calm 1 first).0.finished ≡ refresh_all ∷ send_pending ∷ []
unfolding run_once steps run_steps
second_cycle = refl

-- Four passes in a minute.
minute : wait_cycle 60 (λ i. record { asked = false; interrupted = false }) ≡ some 4
unfolding wait_cycle wait
minute = refl

abbrev is_blank : Option String → Bool
is_blank none = false
is_blank (some text) = is_empty text

fails_text : (job : Job) (error : String) → fails job ≡ some error → is_empty error ≡ false
fails_text refresh_all error e = cc
fails_text refresh_market_performance error e = cc
fails_text sync_prediction_outcomes error e = cc
fails_text ingest_nse_history error e = subst (λ text. is_blank text ≡ false) e refl
fails_text daily_india error e = cc
fails_text queue_weekly_digests error e = cc
fails_text send_pending error e = cc

abbrev steady : ℕ → Poll
steady i = record { asked = false; interrupted = false }

run_once-Reported_example : Reported (run_once down 0 first).1 (run_once down 0 first).0.row
run_once-Reported_example = run_once-Reported down fails_text 0 first

-- A cycle that failed, and a wait of four passes, of which the second one ends well.
main_round_forgets_example :
    (count : ℕ) × ((s' : State) × ((wait_cycle 60 steady ≡ some count)
        × ((main_round down 0 60 steady (λ i. i == 1) (λ i. 115 + 15 * i) first ≡ some s')
            × ((((i : ℕ) → i < count → (i == 1) ≡ false)
                  → Reported (some "ConnectError: timed out") s'.row)
                × ((i : ℕ) → i < count → (i == 1) ≡ true → Reported none s'.row)))))
unfolding run_once steps run_steps
main_round_forgets_example =
    main_round_forgets down fails_text 0 60 steady (λ i. i == 1) (λ i. 115 + 15 * i) first
      "ConnectError: timed out" refl

wait_cycle-Ended_example :
    (r : ℕ) × ((wait_cycle 60 (λ i. record { asked = false; interrupted = i == 2 }) ≡ some r)
      × Ended 60 (λ i. record { asked = false; interrupted = i == 2 }) r)
wait_cycle-Ended_example = wait_cycle-Ended 60 (λ i. record { asked = false; interrupted = i == 2 })
