-- ===== src/Email/Alerts.antt =====
-- app/services/alerts.py: which score changes are material, and who gets an alert queued. The rows of
-- the scores come newest first, each with its IPO's country and the score before it, as the queries
-- give them; `min_confidence` is the setting of that name.
pub mod Rollback
use text.Mathlib.Text.{◌==◌}
use ipointel.Base.{
  ℕ, ◌+◌, String, Bool, true, false, not, ◌&&◌, ◌||◌, Option, none, some, List, [], ◌∷◌,
  if◌then◌else◌,
}
use ipointel.Base.Text.{Chars, codes, same, contains}
use ipointel.Runtime.{Runtime}
use ipointel.Runtime.Order.{num, lt}
use ipointel.Identity.Labels.{sanitize_label}
use ipointel.Email.{Message, Lead, priority_recommendation, priority_score_alert}
use ipointel.Email.Queue.{Session, enqueue}

-- The columns of `ScoreSnapshot` that alerts read.
pub record Snapshot (F : Type 0) : Type 0 where
  pub id : ℕ
  pub overall_score : F
  pub listing_score : F
  pub long_term_score : F
  pub confidence : F
  pub recommendation : Chars
  pub valuation_label : Chars

pub data AlertKind : Type 0 where
  recommendation valuation score red_flag : AlertKind

-- A score with its IPO and the score before it.
pub record Candidate (F : Type 0) : Type 0 where
  pub ipo_id : ℕ
  pub country : String
  pub current : Snapshot F
  pub previous : Option (Snapshot F)
  -- `str(sc.id)`
  pub key : String

-- `_matches_market`
unfoldable pub matches_market : Lead → String → Bool
matches_market lead country =
    if lead.markets == "india"
    then country == "India"
    else if lead.markets == "us"
    then country == "United States"
    else true

-- `_wants`
unfoldable pub wants : Lead → AlertKind → Bool
wants lead recommendation = lead.alert_recommendation_change
wants lead valuation = lead.alert_score_change
wants lead score = lead.alert_score_change
wants lead red_flag = lead.alert_red_flag

abbrev pub template_of : AlertKind → String
template_of recommendation = "recommendation_alert"
template_of valuation = "valuation_alert"
template_of score = "score_alert"
template_of red_flag = "red_flag_alert"

abbrev pub priority_of : AlertKind → ℕ
priority_of recommendation = priority_recommendation
priority_of red_flag = priority_recommendation
priority_of _ = priority_score_alert

module _ (py : Runtime) where
  open py use {F, sub, leb}

  -- `abs(x)`
  abbrev pub size : F → F
  size x = if lt py x (num py 0) then sub (num py 0) x else x

  -- `abs(a - b) >= n`
  abbrev pub apart : ℕ → F → F → Bool
  apart n a b = leb (num py n) (size (sub a b))

  -- `_material_kind`
  unfoldable pub material_kind : F → Snapshot F → Option (Snapshot F) → Option AlertKind
  material_kind min_confidence s none =
      if contains (codes "NO RECOMMENDATION") s.recommendation
      then none
      else if leb min_confidence s.confidence && leb (num py 60) s.overall_score
      then some score
      else none
  material_kind min_confidence s (some p) =
      if contains (codes "NO RECOMMENDATION") s.recommendation
      then none
      else if not (same (sanitize_label s.recommendation) (sanitize_label p.recommendation))
      then some recommendation
      else if not (same s.valuation_label p.valuation_label)
          && not (same s.valuation_label (codes "INSUFFICIENT DATA"))
      then some valuation
      else if apart 5 s.overall_score p.overall_score
          || (apart 7 s.listing_score p.listing_score
              || apart 7 s.long_term_score p.long_term_score)
      then some score
      else none

-- 1 for a message that was queued
abbrev pub counted : Option Message → ℕ
counted none = 0
counted (some m) = 1

-- One alert: what is queued for a lead, if the lead's market and wishes match.
unfoldable pub queue_one :
    AlertKind → ℕ → ℕ → String → String → ℕ → Lead → Session → Option Message × Session
queue_one kind ipo_id snapshot_id key country now lead s =
    if matches_market lead country && wants lead kind
    then enqueue lead (template_of kind) (priority_of kind) key (some ipo_id) (some snapshot_id) ""
        now s
    else (none, s)

-- The loop over the leads, with the count of what was queued.
unfoldable pub queue_leads :
    AlertKind → ℕ → ℕ → String → String → ℕ → List Lead → ℕ × Session → ℕ × Session
queue_leads kind ipo_id snapshot_id key country now [] (n, s) = (n, s)
queue_leads kind ipo_id snapshot_id key country now (lead ∷ leads) (n, s) =
    let (msg, s') = queue_one kind ipo_id snapshot_id key country now lead s in
    queue_leads kind ipo_id snapshot_id key country now leads (n + counted msg, s')

module _ (py : Runtime) (min_confidence : py.F) (now : ℕ) (leads : List Lead) where
  -- `queue_score_alerts` over the scores of the query, newest first
  pub queue_score_alerts : List (Candidate py.F) → ℕ × Session → ℕ × Session
  queue_score_alerts [] (n, s) = (n, s)
  queue_score_alerts (c ∷ cs) (n, s) =
      queue_score_alerts cs (elim (material_kind py min_confidence c.current c.previous) [
        | none ↦ (n, s)
        | some kind ↦ queue_leads kind c.ipo_id c.current.id c.key c.country now leads (n, s)
      ])
