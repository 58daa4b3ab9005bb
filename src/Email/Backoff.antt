-- ===== src/Email/Backoff.antt =====
-- The retry delay of app/services/email_queue.py.
use Prim.Native.Nat.{◌^◌}
use native.Mathlib.Nat.{pow-suc}
use native.Mathlib.Numerals.{towards_suc}
use ipointel.Base.{
  ℕ, zero, suc, ◌+◌, ◌*◌, ◌≤◌, ◌<◌, min, ◌≡◌, Bool, false, none, some, arith, ltb, ◌==◌,
  if◌then◌else◌,
}
use ipointel.Email.{Message}

-- `min(3600, 2 ** msg.attempt_count * 30)`
unfoldable pub backoff : ℕ → ℕ
backoff n = min 3600 (2 ^ n * 30)

-- `_aware(msg.updated_at) or _aware(msg.queued_at)`; every time here has its zone.
abbrev pub last_touched : Message → ℕ
last_touched m = elim m.updated_at [ none ↦ m.queued_at | some t ↦ t ]

-- `_within_backoff`; `now - last < wait` is written `now < last + wait`.
unfoldable pub within_backoff : ℕ → Message → Bool
within_backoff now m =
    if m.attempt_count == 0 then false else ltb now (last_touched m + backoff m.attempt_count)

pow-pos : (n : ℕ) → 1 ≤ 2 ^ n
pow-pos zero = omega arith
pow-pos (suc n) = omega (arith, pow-pos n, pow-suc 2 n)

-- After any attempt the wait is at least a minute and at most an hour; so the first wait is 60
-- seconds, and never 30.
pub backoff_bounds : (n : ℕ) → 1 ≤ n → (60 ≤ backoff n) × (backoff n ≤ 3600)
unfolding backoff
backoff_bounds zero h = absurd (omega arith)
backoff_bounds (suc n) h = (omega (arith, pow-pos n, pow-suc 2 n), omega arith)

-- The waits grow: one more attempt never shortens the wait, and doubles it below the cap.
pub backoff_grows :
    (n : ℕ)
    → (backoff n ≤ backoff (n + 1)) × (backoff (n + 1) < 3600 → backoff (n + 1) ≡ 2 * backoff n)
unfolding backoff
backoff_grows n = (omega (arith, step), λ h. omega (arith, step))
  where
    step : 2 ^ (n + 1) ≡ 2 * 2 ^ n
    step = simp towards_suc (omega (arith, pow-suc 2 n))
