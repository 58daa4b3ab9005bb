-- ===== src/Sensitivity/Tests.antt =====
-- The analysis of one issue, and the search for a worse rank on a plain threshold.
use ipointel.Base.{◌≡◌, refl, true, false, some, All}
use ipointel.Base.Int.{ℤ, pos, leb_ℤ, ◌+ℤ◌}
use ipointel.Runtime.Order.{nonzero}
use ipointel.Runtime.Fixed.{fixed, fixed_dec, fixed_div}
use ipointel.Ipo.{Ipo}
use ipointel.Ipo.Sample.{complete}
use ipointel.Scoring.Score.{Settings}
use ipointel.Sensitivity.{analyze, bisect, Condition}
use ipointel.Sensitivity.Blind.{is_price, is_falling, analyze_blind}

abbrev settings : Settings ℤ
settings = record { strict_reliability = true; min_recommendation_confidence = pos 60_000_000 }

-- A value of 120 or more is worse; from 100 to 180 the code starts at the upper end and lands on it.
bisect_worse :
    bisect fixed settings 0 (λ v. leb_ℤ (pos 120_000_000) v) 24 (pos 180_000_000) (pos 100_000_000)
    ≡ pos 179_999_995
unfolding bisect fixed_dec fixed_div ◌+ℤ◌
bisect_worse = refl

abbrev priced : Ipo ℤ
priced = record complete { final_price = some (pos 100_000_000) }

price_nonzero : nonzero fixed (pos 100_000_000) ≡ true
unfolding fixed_dec
price_nonzero = refl

qib_nonzero : nonzero fixed (pos 12_000_000) ≡ true
unfolding fixed_dec
qib_nonzero = refl

analyze_blind_example :
    All
      (λ (c : Condition ℤ). is_price c.lever ≡ false)
      (analyze fixed settings 864_000 priced).upgrade_conditions
    × All
        (λ (c : Condition ℤ). is_falling c.lever ≡ false)
        (analyze fixed settings 864_000 priced).downgrade_conditions
analyze_blind_example =
    analyze_blind fixed settings 864_000 priced (pos 100_000_000) (pos 12_000_000) (pos 3_000_000)
      refl price_nonzero refl qib_nonzero refl
