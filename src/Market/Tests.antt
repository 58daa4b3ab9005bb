-- ===== src/Market/Tests.antt =====
-- Returns on a short list of price bars, and the theorems at them. A number n stands for n millionths.
use ipointel.Base.{ℕ, ◌+◌, ◌*◌, ◌≤◌, ◌<◌, ◌≡◌, refl, false, some, List, [], ◌∷◌, arith}
use ipointel.Base.Int.{ℤ, pos, ◌-ℤ◌}
use ipointel.Runtime.Fixed.{fixed, fixed_mul, fixed_div, fixed_dec}
use ipointel.Market.{
  Bar, Returns, bar_nearest_before_or_on, nearest_from, last_bar, window, after_session,
  windowed_returns, return_pct, is_implausible, day_seconds, measured, from_session, listing_bar,
  in_time, split_adjusted_issue_price, factor_after,
}
use ipointel.Market.Bars.{IsOneOf, IsChronological, NoneBetween}
use ipointel.Market.Windows.{window_return, windowed_returns-plausible}

abbrev bar : ℕ → ℕ → Bar ℤ
bar day close = record {
  ts = day * day_seconds;
  opening = some (pos (close * 1_000_000));
  close = pos (close * 1_000_000);
}

-- Listed on day 100 at 110, then 120 on day 106 and 90 on day 109.
abbrev bars : List (Bar ℤ)
bars = bar 100 110 ∷ bar 106 120 ∷ bar 109 90 ∷ []

bars-IsChronological : IsChronological 0 bars
bars-IsChronological = (omega arith, (omega arith, (omega arith, tt)))

-- The week's return is read off day 106, the last session in the week.
window_return_example :
    (b : Bar ℤ) × IsOneOf b bars
    × (100 * day_seconds < b.ts)
    × (b.ts ≤ 100 * day_seconds + 7 * day_seconds)
    × NoneBetween b.ts (100 * day_seconds + 7 * day_seconds) bars
    × (100 * day_seconds + 7 * day_seconds
        ≤ (last_bar (bar 100 110) (bar 106 120 ∷ bar 109 90 ∷ [])).ts)
    × (pos 20_000_000 ≡ return_pct fixed b.close (pos 100_000_000))
unfolding window after_session bar_nearest_before_or_on nearest_from last_bar fixed_mul fixed_div
    fixed_dec ◌-ℤ◌
window_return_example =
    window_return fixed (bar 100 110) (bar 106 120 ∷ bar 109 90 ∷ []) (100 * day_seconds)
      (pos 100_000_000) 7 (pos 20_000_000) bars-IsChronological refl

-- The result at an issue price of 100: a listing return of 10 percent.
abbrev result : Returns ℤ
result =
    measured fixed (bar 100 110) (bar 106 120 ∷ bar 109 90 ∷ []) (bar 100 110)
      (some (pos 100_000_000)) [] (pos 100_000_000) false

windowed_returns-plausible_example :
    ((v : ℤ) → result.listing_return_pct ≡ some v → is_implausible fixed v ≡ false)
    × (result.session ≤ 100 * day_seconds + 14 * day_seconds)
unfolding windowed_returns from_session listing_bar in_time split_adjusted_issue_price factor_after
    fixed_mul fixed_div fixed_dec ◌-ℤ◌
windowed_returns-plausible_example =
    windowed_returns-plausible fixed bars (100 * day_seconds) (some (pos 100_000_000)) [] result
      refl
