-- ===== src/Email/RedFlagAlerts.antt =====
-- `queue_red_flag_alerts` and `send_pending` of app/services/alerts.py. The rows of the IPOs come as the
-- query gives them, each with the key of its alert and its latest snapshot, if any; the leads are those
-- that the query gives, which want red-flag alerts.
use ipointel.Base.{
  ℕ, ◌+◌, String, ◌≡◌, refl, Bool, false, Option, none, some, List, [], ◌∷◌, All, ltb,
  if◌then◌else◌,
}
use ipointel.Runtime.{Runtime}
use ipointel.Ipo.{Ipo}
use ipointel.RedFlags.{critical, count, evaluate, is_inverted}
use ipointel.RedFlags.Critical.{critical_iff_inverted}
use ipointel.Email.{Lead}
use ipointel.Email.Queue.{Session, commit}
use ipointel.Email.Alerts.{AlertKind, Candidate, queue_leads, queue_score_alerts}

pub record Flagged (F : Type 0) : Type 0 where
  pub ipo : Ipo F
  pub key : String
  pub latest : Option ℕ

module _ (py : Runtime) (leads : List Lead) (now : ℕ) where
  open py use {F}

  -- `any(f["severity"] == "CRITICAL" for f in flags)`
  abbrev pub has_critical : Ipo F → Bool
  has_critical ipo = ltb 0 (count critical (evaluate py ipo))

  unfoldable pub queue_red_flag_alerts : List (Flagged F) → ℕ × Session → ℕ × Session
  queue_red_flag_alerts [] r = r
  queue_red_flag_alerts (c ∷ cs) r =
      queue_red_flag_alerts cs (if has_critical c.ipo then with_snapshot c.latest else r)
    where
      with_snapshot : Option ℕ → ℕ × Session
      with_snapshot none = r
      with_snapshot (some id) =
          queue_leads AlertKind.red_flag c.ipo.id id c.key c.ipo.country now leads r

  -- With the setting that enables mail, the minimum confidence, and the leads that want score alerts.
  unfoldable pub send_pending :
      Bool → F → List Lead → List (Candidate F) → List (Flagged F) → Session → ℕ × Session
  send_pending enabled min_confidence score_leads scores flagged s =
      let (a, s1) = queue_score_alerts py min_confidence now score_leads scores (0, s) in
      let (b, s2) = queue_red_flag_alerts flagged (0, s1) in
      if enabled then (a + b, commit s2) else (0, s)

  -- `queue_red_flag_alerts` queues nothing, and leaves the session as it is, where no IPO of the pass
  -- has an inverted price band.
  pub queue_red_flag_alerts_none :
      (cs : List (Flagged F)) (r : ℕ × Session)
      → All (λ c. is_inverted py c.ipo ≡ false) cs
      → queue_red_flag_alerts cs r ≡ r
  unfolding queue_red_flag_alerts
  queue_red_flag_alerts_none [] r h = refl
  queue_red_flag_alerts_none (c ∷ cs) r h =
      rw (critical_iff_inverted py c.ipo, h.0) (queue_red_flag_alerts_none cs r h.1)
