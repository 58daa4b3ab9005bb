-- ===== src/Worker/Reports.antt =====
-- What the heartbeat shows of a refresh cycle.
use native.Mathlib.Decide.{dec_lt}
use ipointel.Base.Text.{clip}
use ipointel.Base.{
  ℕ, zero, suc, ◌+◌, ◌≤◌, ◌<◌, ◌≡◌, refl, ap, ◌∙◌, arith, Bool, true, Bool-cases, String, false,
  Option, none, some, List, [], ◌∷◌, ◌++◌, is_empty, subst, Option-cases, inl, inr,
}
use ipointel.Heartbeat.{
  WorkerHeartbeat, Field, beat, outcome, touch_all, touch, sec_refresh, nse_refresh,
  performance_update, email_pass,
}
use ipointel.Worker.{
  Job, Step, State, World, steps, jobs, run_steps, run_once, report_email_pass, Poll, run_passes,
  main_round, wait_cycle, perform, attempt, report,
}
use ipointel.Worker.Wait.{wait_cycle-Ended}

touch_all_rest :
    (now : ℕ) (fields : List Field) (row : WorkerHeartbeat)
    → let row' = touch_all now fields row in
      (row'.last_error ≡ row.last_error)
      × ((row'.current_job ≡ row.current_job) × (row'.last_success_at ≡ row.last_success_at))
unfolding touch_all touch
touch_all_rest now [] row = (refl, (refl, refl))
touch_all_rest now (sec_refresh ∷ fs) row = touch_all_rest now fs (touch now sec_refresh row)
touch_all_rest now (nse_refresh ∷ fs) row = touch_all_rest now fs (touch now nse_refresh row)
touch_all_rest now (performance_update ∷ fs) row =
    touch_all_rest now fs (touch now performance_update row)
touch_all_rest now (email_pass ∷ fs) row = touch_all_rest now fs (touch now email_pass row)

-- What a row shows after a cycle: that it idles without an error, or the error of the job that failed.
abbrev pub Reported : Option String → Option WorkerHeartbeat → Type 0
Reported error none = ⊥
Reported none (some row) = (row.current_job ≡ "idle") × (row.last_error ≡ "")
Reported (some error) (some row) = row.last_error ≡ clip 2000 error

pass_well :
    (world : World) (ends : ℕ → Bool) (at : ℕ → ℕ) (first count : ℕ) (s : State)
    → ends first ≡ true
    → run_passes world ends at first (suc count) s
      ≡ run_passes world ends at (first + 1) count (report_email_pass world (at first) s)
unfolding run_passes
pass_well world ends at first count s e = rw e refl

pass_badly :
    (world : World) (ends : ℕ → Bool) (at : ℕ → ℕ) (first count : ℕ) (s : State)
    → ends first ≡ false
    → run_passes world ends at first (suc count) s ≡ run_passes world ends at (first + 1) count s
unfolding run_passes
pass_badly world ends at first count s e = rw e refl

-- A pass that does not end well leaves what is shown.
run_passes_kept :
    (world : World) (ends : ℕ → Bool) (at : ℕ → ℕ) (first count : ℕ) (error : String) (s : State)
    → Reported (some error) s.row
    → ((i : ℕ) → first ≤ i → i < first + count → ends i ≡ false)
    → Reported (some error) (run_passes world ends at first count s).row
unfolding run_passes
run_passes_kept world ends at first zero error s r h = r
run_passes_kept world ends at first (suc count) error s r h =
    rw (pass_badly world ends at first count s (h first (omega arith) (omega arith))) (
      run_passes_kept world ends at (first + 1) count error s r
        (λ i l u. h i (omega arith) (omega arith)))

-- Once nothing is wrong any more, it stays so over the passes.
run_passes_well :
    (world : World) (ends : ℕ → Bool) (at : ℕ → ℕ) (first count : ℕ) (s : State)
    → Reported none s.row
    → Reported none (run_passes world ends at first count s).row
unfolding run_passes report_email_pass beat outcome touch_all touch
run_passes_well world ends at first zero s r = r
run_passes_well world ends at first (suc count) s r = elim (Bool-cases (ends first)) [
  | inl good ↦
      rw (pass_well world ends at first count s good)
        (run_passes_well world ends at (first + 1) count _ (refl, refl))
  | inr bad ↦
      rw (pass_badly world ends at first count s bad)
        (run_passes_well world ends at (first + 1) count s r)
]

run_passes_cleared :
    (world : World) (ends : ℕ → Bool) (at : ℕ → ℕ) (first count i : ℕ) (s : State)
    → first ≤ i
    → i < first + count
    → ends i ≡ true
    → Reported none (run_passes world ends at first count s).row
unfolding run_passes report_email_pass beat outcome touch_all touch
run_passes_cleared world ends at first zero i s l u good = absurd (omega arith)
run_passes_cleared world ends at first (suc count) i s l u good = elim (dec_lt first i) [
  | no here ↦
      let e : first ≡ i = omega arith in
      rw (pass_well world ends at first count s (ap ends e ∙ good))
        (run_passes_well world ends at (first + 1) count _ (refl, refl))
  | yes later ↦
      run_passes_cleared world ends at (first + 1) count i _ (omega arith) (omega arith) good
]

module _ (world : World)
    (raises_text : (job : Job) (error : String)
      → world.raises job ≡ some error
      → is_empty error ≡ false) where
  run_steps-Reported :
      (n : ℕ) (before : List Step) (s : State)
      → let (s', error) = run_steps world n (before ++ report "idle" [] ∷ []) s in
        Reported error s'.row
  unfolding run_steps beat outcome touch_all
  run_steps-Reported n [] s = (refl, refl)
  run_steps-Reported n (report job fields ∷ rest) s = run_steps-Reported (n + 1) rest _
  run_steps-Reported n (attempt job ∷ rest) s = run_steps-Reported n rest _
  run_steps-Reported n (perform job ∷ rest) s = elim (Option-cases (world.raises job)) [
    | inl ends ↦ rw ends (run_steps-Reported n rest _)
    | inr (error, e) ↦ rw (e, raises_text job error e) refl
  ]

  -- However a refresh cycle goes, the heartbeat is written, and it shows how the cycle ended: it idles
  -- and has no error when every job went well, and has the text of the first exception, cut to 2000 characters, otherwise.
  -- Such a text is never empty.
  pub run_once-Reported :
      (cycle : ℕ) (s : State) → Reported (run_once world cycle s).1 (run_once world cycle s).0.row
  unfolding run_once steps
  run_once-Reported cycle s = run_steps-Reported 0 (jobs cycle) s

  -- After a refresh cycle that raised, and the wait that follows it with `count` passes: the heartbeat
  -- still shows the error, cut to 2000 characters, if every pass over the mail queue raised too; but
  -- one pass that ends well is enough, and the heartbeat idles without an error. The exception has a
  -- text that is not empty.
  pub main_round_forgets :
      (cycle seconds : ℕ) (polls : ℕ → Poll) (ends : ℕ → Bool) (at : ℕ → ℕ) (s : State)
      (error : String)
      → (run_once world cycle s).1 ≡ some error
      → (count : ℕ) × ((s' : State) × ((wait_cycle seconds polls ≡ some count)
            × ((main_round world cycle seconds polls ends at s ≡ some s')
                × ((((i : ℕ) → i < count → ends i ≡ false) → Reported (some error) s'.row)
                    × ((i : ℕ) → i < count → ends i ≡ true → Reported none s'.row)))))
  unfolding main_round
  main_round_forgets cycle seconds polls ends at s error e =
      let (count, waited) = wait_cycle-Ended seconds polls in
      let failed : Reported (some error) (run_once world cycle s).0.row =
        subst (λ result. Reported result (run_once world cycle s).0.row) e
          (run_once-Reported cycle s) in
      (
        count,
        (
          run_passes world ends at 0 count (run_once world cycle s).0,
          (
            waited.0,
            (
              rw (waited.0, main_round) refl,
              (
                λ h.
                    run_passes_kept world ends at 0 count error _ failed
                      (λ i l u. h i (omega (arith, u))),
                λ i h good.
                    run_passes_cleared world ends at 0 count i _ (omega arith) (omega (arith, h))
                      good,
              ),
            ),
          ),
        ),
      )
