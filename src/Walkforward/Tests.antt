-- ===== src/Walkforward/Tests.antt =====
-- Metrics of a few pairs in fixed-point numbers, and the theorem about bands at a few rows.
use ipointel.Base.{◌≡◌, refl, true, false, none, some, List, [], ◌∷◌, is_some, length, filter, All}
use ipointel.Base.Int.{ℤ, pos}
use ipointel.Runtime.Fixed.{fixed, fixed_dec, fixed_div, fixed_laws}
use ipointel.Base.Int.{◌+ℤ◌}
use ipointel.Walkforward.{Pair, auc, semantics, score}
use ipointel.Walkforward.Ranks.{ranks}
use ipointel.Walkforward.Bands.{IsScored, Row, total, band_breakdown, band_breakdown-total}

-- Three of four comparisons are won, and one is a tie.
abbrev pairs : List (Pair ℤ)
pairs =
    (pos 70_000_000, true)
    ∷ (pos 60_000_000, false)
    ∷ (pos 60_000_000, true)
    ∷ (pos 50_000_000, false)
    ∷ []

auc_pairs : auc fixed pairs ≡ some (pos 875_000)
unfolding auc fixed_dec fixed_div ◌+ℤ◌
auc_pairs = refl

-- Equal values share the mean of their ranks.
ranks_ties :
    ranks fixed (pos 30_000_000 ∷ pos 10_000_000 ∷ pos 30_000_000 ∷ [])
    ≡ pos 2_500_000 ∷ pos 1_000_000 ∷ pos 2_500_000 ∷ []
unfolding ranks fixed_dec fixed_div ◌+ℤ◌
ranks_ties = refl

-- Also a gate that passes in full leaves the number a score.
semantics_passed :
    (semantics (some (record { passed = true; probability_allowed = some true }))).label ≡ score
unfolding semantics
semantics_passed = refl

-- The middle of an odd list is not needed for the sizes.
abbrev middle : List ℤ → ℤ
middle xs = pos 0

abbrev rows : List (Row ℤ)
rows =
    record { score = pos 90_000_000; prob = pos 0; return_pct = some (pos 4_000_000) }
    ∷ record { score = pos 100_000_000; prob = pos 0; return_pct = none }
    ∷ record { score = pos 49_900_000; prob = pos 0; return_pct = some (pos 0) }
    ∷ []

scored : All (IsScored fixed fixed_laws middle) rows
unfolding fixed_dec
scored = ((refl, refl), ((refl, refl), ((refl, refl), tt)))

band_breakdown-total_example :
    total fixed middle (band_breakdown fixed middle rows)
    ≡ length (filter (λ r. is_some r.return_pct) rows)
band_breakdown-total_example = band_breakdown-total fixed fixed_laws middle rows scored
