-- ===== src/Email/Queue/Attempts.antt =====
-- The attempts of a message are bounded, and no pass leaves one half sent.
use ipointel.Base.{
  ℕ, zero, suc, ◌*◌, ◌≤◌, ◌<◌, String, ◌≡◌, ◌≢◌, refl, inl, inr, true, Option, List, [], ◌∷◌, arith,
  leb, ◌==◌, All, take, Bool-cases,
}
use ipointel.Email.{Status, queued, sending, Message, Lead, SendResult}
use ipointel.Email.Queue.{
  Settings, Pass, Session, is_queued, before, insert, in_order, newest, write_back, step, run,
  process_queue, commit,
}

-- Between passes no message is being sent, none was tried more than `max_attempts` times, and a
-- queued one has an attempt left.
abbrev pub IsRetryable : ℕ → Message → Type 0
IsRetryable most m =
    (m.attempt_count ≤ most) × (m.status ≢ sending) × (m.status ≡ queued → m.attempt_count < most)

-- A pending message, as the query of a pass selects it.
abbrev pub IsPending : ℕ → Message → Type 0
IsPending most m = (m.status ≡ queued) × (m.attempt_count < most)

module _ (settings : Settings) (lead_of : ℕ → Option Lead)
    (render : Message → Option (String × String × String))
    (send : String → String → String → String → SendResult) (now : ℕ) where
  step-IsRetryable :
      (m : Message) (p : Pass)
      → IsPending settings.max_attempts m
      → IsRetryable settings.max_attempts (step settings lead_of render send now m p).1
  unfolding step
  step-IsRetryable m p h = (ground arith, λ e. ground arith, λ e. ground arith)

  run-IsRetryable :
      (limit : ℕ) (ms : List Message) (p : Pass)
      → All (IsPending settings.max_attempts) ms
      → All (IsRetryable settings.max_attempts) (run settings lead_of render send now limit ms p).1
  unfolding run
  run-IsRetryable limit [] p h = tt
  run-IsRetryable limit (m ∷ ms) p h = elim (Bool-cases (leb limit p.processed)) [
    | inl full ↦ rw full (untouched (m ∷ ms) h)
    | inr room ↦ rw room (
      step-IsRetryable m p h.0,
      run-IsRetryable limit ms (step settings lead_of render send now m p).0 h.1,
    )
  ]
    where
      untouched :
          (ns : List Message)
          → All (IsPending settings.max_attempts) ns
          → All (IsRetryable settings.max_attempts) ns
      untouched [] a = tt
      untouched (n ∷ ns) a = ((ground arith, λ e. ground arith, λ e. a.0.1), untouched ns a.1)

All-take {ℓ κ} : {A : Type ℓ} (P : A → Type κ) (n : ℕ) (xs : List A) → All P xs → All P (take n xs)
All-take P zero xs h = tt
All-take P (suc n) [] h = tt
All-take P (suc n) (x ∷ xs) h = (h.0, All-take P n xs h.1)

module _ (P : Message → Type 0) where
  All-insert : (m : Message) (ms : List Message) → P m → All P ms → All P (insert m ms)
  unfolding insert
  All-insert m [] h a = (h, tt)
  All-insert m (x ∷ xs) h a = elim (Bool-cases (before m x)) [
    | inl first ↦ rw first (h, a)
    | inr later ↦ rw later (a.0, All-insert m xs h a.1)
  ]

  newest_lem : (m : Message) (done : List Message) → P m → All P done → P (newest m done)
  unfolding newest
  newest_lem m [] h a = h
  newest_lem m (d ∷ ds) h a = elim (Bool-cases (d.id == m.id)) [
    | inl this ↦ rw this a.0
    | inr other ↦ rw other (newest_lem m ds h a.1)
  ]

  All-write_back : (done ms : List Message) → All P done → All P ms → All P (write_back done ms)
  unfolding write_back
  All-write_back done [] d a = tt
  All-write_back done (m ∷ ms) d a = (newest_lem m done a.0 d, All-write_back done ms d a.1)

module _ (most : ℕ) where
  in_order-IsPending :
      (ms : List Message) → All (IsRetryable most) ms → All (IsPending most) (in_order ms)
  unfolding in_order
  in_order-IsPending [] a = tt
  in_order-IsPending (m ∷ ms) a = elim (Bool-cases (is_queued m.status)) [
    | inl chosen ↦
        let waits : m.status ≡ queued = is_queued_lem m.status chosen in
        rw chosen (
          All-insert (IsPending most) m (in_order ms) (waits, a.0.2 waits)
            (in_order-IsPending ms a.1))
    | inr passed ↦ rw passed (in_order-IsPending ms a.1)
  ]
    where
      is_queued_lem : (s : Status) → is_queued s ≡ true → s ≡ queued
      is_queued_lem s h = ground arith

module _ (settings : Settings) (lead_of : ℕ → Option Lead)
    (render : Message → Option (String × String × String))
    (send : String → String → String → String → SendResult) (now : ℕ) where
  -- If every row is retryable before `process_queue`, every row is after it, and what it leaves is
  -- committed: whatever the provider answers, no message is tried more than `max_attempts` times,
  -- none that is queued has used its attempts up, and none is left as being sent.
  pub process_queue-IsRetryable :
      (limit day month : ℕ) (s : Session)
      → All (IsRetryable settings.max_attempts) s.rows
      → let s' = (process_queue settings lead_of render send now limit day month s).1 in
        All (IsRetryable settings.max_attempts) s'.rows × (s'.committed ≡ s'.rows)
  unfolding process_queue commit
  process_queue-IsRetryable limit day month s a = (
    All-write_back _ _ s.rows
        (run-IsRetryable settings lead_of render send now limit (take (limit * 3) (in_order s.rows))
          _
          (All-take _ (limit * 3) (in_order s.rows)
            (in_order-IsPending settings.max_attempts s.rows a)))
        a,
    refl,
  )
