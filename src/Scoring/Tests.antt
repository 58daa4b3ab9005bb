-- ===== src/Scoring/Tests.antt =====
-- The scoring model on sample rows, and the theorems at them.
use ipointel.Base.{◌≡◌, ◌↔◌, refl, true, some, []}
use ipointel.Base.Int.{ℤ, pos, ◌+ℤ◌, ◌-ℤ◌}
use ipointel.Runtime.Order.{lt}
use ipointel.Runtime.Fixed.{fixed, fixed_laws, fixed_dec, fixed_mul, fixed_div, fixed_mean}
use ipointel.Ipo.Sample.{complete, sparse}
use ipointel.Scoring.{clamp, score_linear, subscription, avg, pct_growth, safe_div, quality_5}
use ipointel.Scoring.Valuation.{multiple, valuation}
use ipointel.Scoring.Confidence.{
  confidence, confidence_reasons, is_primary_source_url, freshness_penalty, financials_missing,
}
use ipointel.Scoring.Score.{Settings, compute_score, no_recommendation, wait_for_data}
use ipointel.Scoring.Bounds.{Within, compute_score-Within}
use ipointel.Scoring.Gate.{withheld_iff}

abbrev strict : Settings ℤ
strict = record { strict_reliability = true; min_recommendation_confidence = pos 80_000_000 }

-- Full inputs give a confidence of 100, and a missing filing and revenue one below 80.
confidence-complete : confidence fixed 900_000 complete 0 ≡ pos 100_000_000
unfolding confidence clamp is_primary_source_url freshness_penalty fixed_dec fixed_mul fixed_div
    ◌+ℤ◌ ◌-ℤ◌
confidence-complete = refl

no_reasons-complete : confidence_reasons fixed 900_000 complete 0 ≡ []
unfolding confidence_reasons is_primary_source_url financials_missing freshness_penalty fixed_dec
    fixed_mul fixed_div ◌+ℤ◌ ◌-ℤ◌
no_reasons-complete = refl

recommendation-sparse :
    (compute_score fixed strict 900_000 sparse 0).recommendation ≡ no_recommendation
unfolding compute_score confidence is_primary_source_url freshness_penalty fixed_dec fixed_mul
    fixed_div ◌+ℤ◌ ◌-ℤ◌ clamp score_linear avg pct_growth fixed_mean safe_div multiple valuation
    subscription quality_5
recommendation-sparse = refl

-- 9.99x scores above 10x: 67.077 against 67.
subscription_step :
    lt fixed
      (subscription fixed (some (pos 10_000_000)))
      (subscription fixed (some (pos 9_990_000)))
    ≡ true
unfolding subscription fixed_dec fixed_mul ◌+ℤ◌ ◌-ℤ◌
subscription_step = refl

compute_score-Within_example :
    let s = compute_score fixed strict 900_000 complete 0 in
    Within fixed 0 100 s.confidence
    × Within fixed 2 98 s.listing_gain_probability
    × Within fixed 2 98 s.long_term_outperform_probability
compute_score-Within_example = compute_score-Within fixed fixed_laws strict 900_000 complete 0

withheld_iff_example :
    let s = compute_score fixed strict 900_000 sparse 0 in
    let low = lt fixed (confidence fixed 900_000 sparse 0) (pos 80_000_000) in
    ((s.recommendation ≡ no_recommendation) ↔ ((strict.strict_reliability ≡ true) × (low ≡ true)))
    × (s.recommendation ≡ no_recommendation → s.horizon ≡ wait_for_data)
withheld_iff_example = withheld_iff fixed strict 900_000 sparse 0
