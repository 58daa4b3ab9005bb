-- ===== src/Email/Queue/Quota.antt =====
-- Who is written to in a pass of `process_queue`, and what the counters say of it.
use text.Mathlib.Text.{◌==◌ as str_eq}
use ipointel.Base.{
  ℕ, ◌+◌, ◌≤◌, ◌<◌, String, ◌≡◌, ◌≢◌, refl, ◌⊎◌, inl, inr, true, false, Option, some, List, [], ◌∷◌,
  arith, leb, Bool-cases, Option-cases,
}
use ipointel.Email.{Message, Lead, SendResult}
use ipointel.Email.Backoff.{within_backoff}
use ipointel.Email.Queue.{Settings, Pass, over_quota, step, run}

-- The messages before and after a pass, in pairs.
abbrev pub Each : (Message → Message → Type 0) → List Message → List Message → Type 0
Each P [] [] = Unit
Each P (m ∷ ms) (n ∷ ns) = P m n × Each P ms ns
Each P _ _ = ⊥

pub Each-refl :
    (P : Message → Message → Type 0) → ((m : Message) → P m m) → (ms : List Message) → Each P ms ms
Each-refl P h [] = tt
Each-refl P h (m ∷ ms) = (h m, Each-refl P h ms)

-- What the code asks before it hands a message to the provider.
abbrev pub MaySend : (ℕ → Option Lead) → ℕ → Message → Type 0
MaySend lead_of now m =
    (lead : Lead) × (lead_of m.lead_id ≡ some lead)
    × (within_backoff now m ≡ false)
    × (lead.suppressed ≡ false)
    × ((str_eq m.template "welcome" ≡ true) ⊎ (lead.consent ≡ true))

module _ (settings : Settings) (lead_of : ℕ → Option Lead)
    (render : Message → Option (String × String × String))
    (send : String → String → String → String → SendResult) (now : ℕ) where
  step_asks :
      (m : Message) (p : Pass)
      → (step settings lead_of render send now m p).1.attempt_count ≢ m.attempt_count
      → MaySend lead_of now m
  unfolding step
  step_asks m p changed = elim (Bool-cases (within_backoff now m)) [
    | inl waiting ↦ absurd (changed (rw waiting))
    | inr due ↦ elim (Option-cases (lead_of m.lead_id)) [
      | inl missing ↦ absurd (changed (rw (due, missing)))
      | inr (lead, found) ↦ (lead, found, due, ground arith, ground arith)
    ]
  ]

  -- In a pass, a message gets a delivery attempt only if its lead exists, is not suppressed and has
  -- consented (a welcome message needs no consent), and its backoff is over.
  pub run_asks :
      (limit : ℕ) (ms : List Message) (p : Pass)
      → Each
          (λ m m'. m'.attempt_count ≢ m.attempt_count → MaySend lead_of now m)
          ms
          (run settings lead_of render send now limit ms p).1
  unfolding run
  run_asks limit [] p = tt
  run_asks limit (m ∷ ms) p = elim (Bool-cases (leb limit p.processed)) [
    | inl full ↦ rw full (Each-refl _ (λ n changed. absurd (changed refl)) (m ∷ ms))
    | inr room ↦
        rw room (step_asks m p, run_asks limit ms (step settings lead_of render send now m p).0)
  ]

  step_quota :
      (m : Message) (p : Pass)
      → over_quota settings lead_of render send now p ≡ true
      → (0 < m.priority
          → (step settings lead_of render send now m p).1.attempt_count ≡ m.attempt_count)
        × (over_quota settings lead_of render send now (step settings lead_of render send now m p).0
            ≡ true)
  unfolding step
  step_quota m p over = (λ h. ground arith, ground arith)

  -- Once the day's or the month's soft limit is reached, a pass attempts no message but
  -- transactional ones: any other keeps its attempt count.
  pub run_quota :
      (limit : ℕ) (ms : List Message) (p : Pass)
      → over_quota settings lead_of render send now p ≡ true
      → Each
          (λ m m'. 0 < m.priority → m'.attempt_count ≡ m.attempt_count)
          ms
          (run settings lead_of render send now limit ms p).1
  unfolding run
  run_quota limit [] p over = tt
  run_quota limit (m ∷ ms) p over = elim (Bool-cases (leb limit p.processed)) [
    | inl full ↦ rw full (Each-refl _ (λ n h. refl) (m ∷ ms))
    | inr room ↦ rw room (
      (step_quota m p over).0,
      run_quota limit ms (step settings lead_of render send now m p).0 (step_quota m p over).1,
    )
  ]

  step_counts :
      (m : Message) (p : Pass)
      → let q = (step settings lead_of render send now m p).0 in
        (q.sent_today + p.sent ≡ p.sent_today + q.sent)
        × (q.sent_month + p.sent ≡ p.sent_month + q.sent)
        × (q.sent + q.failed + p.processed ≤ p.sent + p.failed + q.processed)
        × (q.processed ≤ p.processed + 1)
  unfolding step
  step_counts m p = (ground arith, ground arith, ground arith, ground arith)

  -- A pass raises both quota counters by exactly the number that it reports as sent, it never
  -- reports more sent and failed messages than it processed, and from a start within the limit it
  -- processes at most `limit` messages.
  pub run_counts :
      (limit : ℕ) (ms : List Message) (p : Pass)
      → p.processed ≤ limit
      → let q = (run settings lead_of render send now limit ms p).0 in
        (q.sent_today + p.sent ≡ p.sent_today + q.sent)
        × (q.sent_month + p.sent ≡ p.sent_month + q.sent)
        × (q.sent + q.failed + p.processed ≤ p.sent + p.failed + q.processed)
        × (q.processed ≤ limit)
  unfolding run
  run_counts limit [] p h = omega arith
  run_counts limit (m ∷ ms) p h = elim (Bool-cases (leb limit p.processed)) [
    | inl full ↦ rw full (omega arith)
    | inr room ↦
        let q = (step settings lead_of render send now m p).0 in
        let one = step_counts m p in
        let below : p.processed + 1 ≤ limit = ground arith in
        let rest = run_counts limit ms q (omega arith) in rw room (omega arith)
  ]
