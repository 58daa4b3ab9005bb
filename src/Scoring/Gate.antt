-- ===== src/Scoring/Gate.antt =====
-- The reliability gate and the bands of the verdict.
use ipointel.Base.{ℕ, ◌≤◌, ◌≡◌, ◌↔◌, Bool, true, false, arith}
use ipointel.Runtime.{Runtime, RuntimeLaws}
use ipointel.Runtime.Order.{num, lt}
use ipointel.Ipo.{Ipo}
use ipointel.Scoring.Confidence.{confidence}
use ipointel.Scoring.Score.{
  Settings, Recommendation, invest_strong, invest_selectively, watch, avoid, no_recommendation,
  Message, need_confidence, is_gated, band, compute_score, wait_for_data,
}

-- The recommendations by strength.
abbrev pub strength : Recommendation → ℕ
strength invest_strong = 4
strength invest_selectively = 3
strength watch = 2
strength avoid = 1
strength no_recommendation = 0

abbrev asks_confidence : Message → Bool
asks_confidence need_confidence = true
asks_confidence _ = false

module _ (py : Runtime) where
  open py use {F, leb}

  -- A recommendation is withheld exactly when the settings are strict and the confidence lies below
  -- the minimum; the horizon is then withheld too.
  pub withheld_iff :
      (settings : Settings F) (now : ℕ) (ipo : Ipo F) (conflicts : ℕ)
      → let s = compute_score py settings now ipo conflicts in
        let low = lt py (confidence py now ipo conflicts) settings.min_recommendation_confidence in
        ((s.recommendation ≡ no_recommendation)
          ↔ ((settings.strict_reliability ≡ true) × (low ≡ true)))
        × (s.recommendation ≡ no_recommendation → s.horizon ≡ wait_for_data)
  unfolding compute_score is_gated band
  withheld_iff settings now ipo conflicts =
      ((λ h. ground arith, λ h. ground arith), λ h. ground arith)

  -- A higher overall score with a long-term score that is no lower never weakens the band.
  pub band_mono :
      (laws : RuntimeLaws py) (overall overall' long_term long_term' : F)
      → leb overall overall' ≡ true
      → leb long_term long_term' ≡ true
      → strength (band py overall long_term) ≤ strength (band py overall' long_term')
  unfolding band
  band_mono laws o o' l l' h k = ground (
    arith,
    laws.le_trans (num py 80) o o',
    laws.le_trans (num py 74) l l',
    laws.le_trans (num py 70) o o',
    laws.le_trans (num py 60) o o',
    laws.le_trans (num py 70) (num py 80) o',
    laws.dec_mono 70 80 0 (omega arith),
  )
