-- ===== src/RedFlags/Tests.antt =====
-- The red flags of two records, and the theorems at them.
use ipointel.Base.{◌≡◌, some, if◌then◌else◌}
use ipointel.Base.Int.{ℤ, pos}
use ipointel.Runtime.Fixed.{fixed}
use ipointel.Ipo.{Ipo}
use ipointel.Ipo.Sample.{sparse}
use ipointel.RedFlags.{critical, count, all_flags, evaluate, summarize, is_inverted}
use ipointel.RedFlags.Order.{first_severity}
use ipointel.RedFlags.Groups.{grouped, evaluate-grouped}
use ipointel.RedFlags.Critical.{critical_iff_inverted}

-- The recorded low lies above the recorded high.
abbrev inverted : Ipo ℤ
inverted = record sparse { price_low = some (pos 120_000_000); price_high = some (pos 100_000_000) }

evaluate-grouped_example :
    (evaluate fixed inverted ≡ grouped (all_flags fixed inverted))
    × ((summarize (evaluate fixed inverted)).worst
        ≡ first_severity (grouped (all_flags fixed inverted)))
evaluate-grouped_example = evaluate-grouped fixed inverted

critical_iff_inverted_example :
    count critical (evaluate fixed inverted) ≡ (if is_inverted fixed inverted then 1 else 0)
critical_iff_inverted_example = critical_iff_inverted fixed inverted
