-- ===== src/Worker/Wait.antt =====
-- The wait between two refresh cycles: it ends, and serves the queues as often as it should.
use ipointel.Base.{
  ℕ, zero, suc, ◌+◌, ◌-◌, ◌*◌, ◌≤◌, ◌<◌, ◌≡◌, refl, ◌⊎◌, inl, inr, true, false, some, min, arith,
  Bool-cases, ltb,
}
use native.Mathlib.Decide.{dec_lt}
use ipointel.Worker.{Poll, wait, wait_cycle, interval_of}

-- How a wait ends after `passes` passes: there were at most so many as the interval has polls, none
-- came after a request to shut down, and fewer than that only when a shutdown is asked for.
pub record Ended (interval : ℕ) (polls : ℕ → Poll) (passes : ℕ) : Type 0 where
  pub few : 15 * passes < interval + 15
  pub undisturbed :
      (i : ℕ) → i < passes → ((polls i).asked ≡ false) × ((polls i).interrupted ≡ false)
  pub because :
      (interval ≤ 15 * passes)
      ⊎ (((polls passes).asked ≡ true) ⊎ ((polls passes).interrupted ≡ true))

abbrev Before : (ℕ → Poll) → ℕ → Type 0
Before polls n = (i : ℕ) → i < n → ((polls i).asked ≡ false) × ((polls i).interrupted ≡ false)

one_more :
    (polls : ℕ → Poll) (n : ℕ)
    → Before polls n
    → (polls n).asked ≡ false
    → (polls n).interrupted ≡ false
    → Before polls (n + 1)
one_more polls n b a c i h = elim (dec_lt i n) [
  | yes earlier ↦ b i earlier
  | no later ↦ let e : i ≡ n = omega arith in rw e (a, c)
]

wait_ends :
    (fuel interval elapsed n : ℕ) (polls : ℕ → Poll)
    → interval < elapsed + fuel
    → elapsed ≡ min (15 * n) interval
    → 15 * n < interval + 15
    → Before polls n
    → (r : ℕ) × ((wait fuel interval elapsed n polls ≡ some r) × Ended interval polls r)
unfolding wait
wait_ends zero interval elapsed n polls f e k b = absurd (omega arith)
wait_ends (suc fuel) interval elapsed n polls f e k b = elim (Bool-cases (polls n).asked) [
  | inl stop ↦
      (n, (rw stop (ground arith), record { few = k; undisturbed = b; because = inr (inl stop) }))
  | inr go ↦ elim (Bool-cases (polls n).interrupted) [
    | inl cut ↦
        (n, (rw cut (ground arith), record { few = k; undisturbed = b; because = inr (inr cut) }))
    | inr on ↦ elim (Bool-cases (ltb elapsed interval)) [
      | inl more ↦
          let (r, (q, d)) =
            wait_ends fuel interval (elapsed + min 15 (interval - elapsed)) (n + 1) polls
              (ground arith) (ground arith) (ground arith) (one_more polls n b go on) in
          (r, (rw (more, go, on) q, d))
      | inr over ↦
          (n, (rw over refl, record { few = k; undisturbed = b; because = inl (ground arith) }))
    ]
  ]
]

-- Between two cycles the worker always stops waiting, whatever the signal handler does. It serves the
-- queues once every 15 seconds of the interval, rounded up and never more often; no pass comes after a
-- request to shut down, and there are fewer passes only when one was asked for.
pub wait_cycle-Ended :
    (seconds : ℕ) (polls : ℕ → Poll)
    → (r : ℕ) × ((wait_cycle seconds polls ≡ some r) × Ended (interval_of seconds) polls r)
unfolding wait_cycle
wait_cycle-Ended seconds polls =
    wait_ends (suc (interval_of seconds)) (interval_of seconds) 0 0 polls (omega arith)
      (omega arith) (omega arith) (λ i h. absurd (omega arith))
